-- ===== src/CaseTraceWs/Kept.antt =====
-- What a connection leaves in the case store.
use attest.Prelude.{
  ℕ, String, ◌≡◌, refl, ap, sym, ◌∙◌, Option, none, some, List, [], ◌∷◌, ◌++◌, false, any, All,
  str_eq, eq_refl, Option-cases, Bool-cases, inl, inr, arith,
}
use attest.Prelude.Dict.{lookup, lookup-insert}
use attest.Prelude.Dedup.{HasDistinctKeys}
use attest.CaseStore.{CaseEntry, Cases, KafkaTraceStep, step_key, append_trace_step}
use attest.CaseTraceWs.{
  Trace, Event, Link, Message, message, socket, ignored, step_of, unusable, receive, on, step, run,
}

-- A trace that shows no step twice, and of every step the kind and the action.
abbrev pub IsClean : List KafkaTraceStep → Type 0
IsClean steps = HasDistinctKeys step_key steps × All (λ s. unusable s ≡ false) steps

-- An entry without what a new step changes: its trace and the time of its last change.
abbrev pub apart_from_trace : CaseEntry → CaseEntry
apart_from_trace e = record e { trace_steps = []; updated_at = 0 }

-- The trace of an entry has been extended at its front, and nothing else of it is changed.
pub record Grown (before after : CaseEntry) : Type 0 where
  pub fresh : List KafkaTraceStep
  pub whole : after.trace_steps ≡ fresh ++ before.trace_steps
  pub others_same : apart_from_trace after ≡ apart_from_trace before
  pub clean : IsClean before.trace_steps → IsClean after.trace_steps

pub data Extends : Option CaseEntry → Option CaseEntry → Type 0 where
  absent : Extends none none
  grown : (before after : CaseEntry) → Grown before after → Extends (some before) (some after)

Extends-refl : (o : Option CaseEntry) → Extends o o
Extends-refl none = absent
Extends-refl (some e) =
    grown e e (record { fresh = []; whole = refl; others_same = refl; clean = λ h. h })

append_assoc : (xs ys zs : List KafkaTraceStep) → (xs ++ ys) ++ zs ≡ xs ++ (ys ++ zs)
append_assoc [] ys zs = refl
append_assoc (x ∷ xs) ys zs = ap (λ l. x ∷ l) (append_assoc xs ys zs)

Extends-trans : (o p q : Option CaseEntry) → Extends o p → Extends p q → Extends o q
Extends-trans o p q absent k = k
Extends-trans o p q (grown a b g) (grown b' c h) = grown a c (record {
  fresh = h.fresh ++ g.fresh;
  whole =
      h.whole ∙ ap (λ l. h.fresh ++ l) g.whole ∙ sym (append_assoc h.fresh g.fresh a.trace_steps);
  others_same = h.others_same ∙ g.others_same;
  clean = λ k. h.clean (g.clean k);
})

module _ (case_id : String) where
  -- Other cases are untouched, and the trace of this one has grown.
  pub record IsKept (before after : Cases) : Type 0 where
    pub others : (j : String) → str_eq case_id j ≡ false → lookup j after ≡ lookup j before
    pub trace : Extends (lookup case_id before) (lookup case_id after)

  append-IsKept :
      (s : KafkaTraceStep) (now : ℕ) (cases : Cases)
      → unusable s ≡ false
      → IsKept cases (append_trace_step case_id s now cases)
  unfolding append_trace_step
  append-IsKept s now cases u = elim (Option-cases (lookup case_id cases)) [
    | inl missing ↦
        rw missing (record { others = λ j n. refl; trace = Extends-refl (lookup case_id cases) })
    | inr (e, found) ↦
        elim (Bool-cases (any (λ t. str_eq (step_key t) (step_key s)) e.trace_steps)) [
          | inl seen ↦
              rw (found, seen)
                (record { others = λ j n. refl; trace = Extends-refl (lookup case_id cases) })
          | inr new ↦
              let later = record e { trace_steps = s ∷ e.trace_steps; updated_at = now } in
              rw (found, new)
                (record {
                  others = λ j n. rw (lookup-insert case_id j later cases, n) refl;
                  trace =
                      rw (lookup-insert case_id case_id later cases, eq_refl case_id, found)
                        (grown e later (record {
                          fresh = s ∷ [];
                          whole = refl;
                          others_same = refl;
                          clean = λ h. ((new, h.0), (u, h.1));
                        }));
                })
        ]
  ]

  IsKept-refl : (cases : Cases) → IsKept cases cases
  IsKept-refl cases = record { others = λ j n. refl; trace = Extends-refl (lookup case_id cases) }

  same_cases : (a b : Cases) → b ≡ a → IsKept a b
  same_cases a b e = rw e (IsKept-refl a)

  IsKept-trans : (a b c : Cases) → IsKept a b → IsKept b c → IsKept a c
  IsKept-trans a b c x y = record {
    others = λ j n. y.others j n ∙ x.others j n;
    trace = Extends-trans (lookup case_id a) (lookup case_id b) (lookup case_id c) x.trace y.trace;
  }

  receive-IsKept :
      (m : Message) (now : ℕ) (t : Trace) → IsKept t.cases (receive case_id m now t).cases
  unfolding receive
  receive-IsKept ignored now t = IsKept-refl t.cases
  receive-IsKept (step_of s) now t = elim (Bool-cases (unusable s)) [
    | inl bad ↦ rw bad (IsKept-refl t.cases)
    | inr good ↦ rw good (append-IsKept s now t.cases good)
  ]

  on-IsKept :
      (event : Event) (link : Link) (t : Trace) → IsKept t.cases (on case_id event link t).cases
  unfolding on
  on-IsKept (message m now) socket t = receive-IsKept m now t
  on-IsKept event link t = same_cases t.cases (on case_id event link t).cases (ground arith)

  -- Whatever a connection does and receives, and however often it breaks and is made again: no other
  -- case of the store changes, a case that is not in the store is not made; of this case only the
  -- trace and the time of its last change can differ, so its verdict, its status and the decision on it
  -- stay; the trace is the old one behind new steps; and a trace that had no key twice and only steps
  -- with a kind and an action stays so.
  pub run-IsKept : (events : List Event) (t : Trace) → IsKept t.cases (run case_id events t).cases
  unfolding run step
  run-IsKept [] t = IsKept-refl t.cases
  run-IsKept (e ∷ rest) t =
      IsKept-trans t.cases (step case_id e t).cases (run case_id (e ∷ rest) t).cases
        (on-IsKept e t.link t) (run-IsKept rest (step case_id e t))
