-- ===== src/TriageRoute/InFlight.antt =====
-- A run that is registered belongs to a request that is still in it.
use attest.Prelude.{
  ℕ, ◌==◌, String, ◌≡◌, ◌≢◌, refl, ◌∙◌, sym, ap, Option, none, some, List, [], ◌∷◌, inl, inr, ◌⊎◌,
  str_eq, eq_iff, Bool-cases, Option-cases, arith, All, All-get, get_elem?, set, get_elem?-set_self,
  get_elem?-set_ne, get_elem?-append_left,
}
use attest.Prelude.Dict.{Dict, lookup, remove, lookup-insert, lookup-remove}
use attest.CaseRepository.{CaseTable}
use attest.Prelude.Json.{Json}
use attest.TriageRoute.{
  Settled, Reply, Stage, Answer, Request, reading, waiting, asking, saving, marking, calling,
  completing, failing, done, db_ok, db_fails, run_settles, baseline, upstream, upstream_result,
  after_run, resolved, rejected, World, advance, Process, Event, arrive, answer, answer_to, step,
  run,
}

-- Between the registration of the run and its removal.
abbrev pub IsActive : Stage → Type 0
IsActive (marking alert) = Unit
IsActive calling = Unit
IsActive (completing d) = Unit
IsActive (failing m) = Unit
IsActive _ = ⊥

abbrev pub IsDone : Request → Type 0
IsDone q = (reply : Reply) × (q.stage ≡ done reply)

after_run-IsActive : (s : Settled) → IsActive (after_run s)
unfolding after_run
after_run-IsActive (resolved d) = tt
after_run-IsActive (rejected m) = tt

module _ (db : CaseTable) (text_of : Json → String) where
  -- What a step of request `r`, for the case `id`, can have done to an entry of the map.
  abbrev Accounted : ℕ → String → Stage → Stage → World db text_of → String → ℕ → Type 0
  Accounted r id before after w j k =
      ((lookup j w.in_flight ≡ some k) × (j ≡ id → IsActive before → IsActive after))
      ⊎ ((k ≡ r) × (j ≡ id) × IsActive after)

  removed_entry :
      (j id : String) (k : ℕ) (m : Dict ℕ)
      → lookup j (remove id m) ≡ some k
      → (lookup j m ≡ some k) × (j ≢ id)
  removed_entry j id k m h = ground (arith, lookup-remove id j m, eq_iff id j)

  advance-Accounted :
      (r : ℕ) (id : String) (stage : Stage) (a : Answer) (now : ℕ) (w : World db text_of)
      (j : String) (k : ℕ)
      → lookup j (advance db text_of r id stage a now w).0.in_flight ≡ some k
      → Accounted r id stage (advance db text_of r id stage a now w).1 w j k
  unfolding advance
  advance-Accounted r id (saving alert) db_ok now w j k h = elim (Bool-cases (str_eq id j)) [
    | inl same ↦
        inr (ground (arith, lookup-insert id j r w.in_flight), ground (arith, eq_iff id j), tt)
    | inr other ↦ inl (ground (arith, lookup-insert id j r w.in_flight), λ _ x. tt)
  ]
  advance-Accounted r id (saving alert) a now w j k h = inl (h, λ _ x. absurd x)
  advance-Accounted r id (marking alert) db_ok now w j k h = inl (h, λ _ x. tt)
  advance-Accounted r id (marking alert) (db_fails m) now w j k h = inl (h, λ _ x. tt)
  advance-Accounted r id (marking alert) a now w j k h = inl (h, λ _ x. tt)
  advance-Accounted r id calling (upstream u) now w j k h =
      inl (h, λ _ x. after_run-IsActive (upstream_result u))
  advance-Accounted r id calling a now w j k h = inl (h, λ _ x. tt)
  advance-Accounted r id (completing d) db_ok now w j k h =
      let (old, ne) = removed_entry j id k w.in_flight h in inl (old, λ e _. absurd (ne e))
  advance-Accounted r id (completing d) a now w j k h = inl (h, λ _ x. tt)
  advance-Accounted r id (failing m) db_ok now w j k h =
      let (old, ne) = removed_entry j id k w.in_flight h in inl (old, λ e _. absurd (ne e))
  advance-Accounted r id (failing m) (db_fails o) now w j k h =
      let (old, ne) = removed_entry j id k w.in_flight h in inl (old, λ e _. absurd (ne e))
  advance-Accounted r id (failing m) a now w j k h = inl (h, λ _ x. tt)
  advance-Accounted r id (reading v) db_ok now w j k h = inl (h, λ _ x. absurd x)
  advance-Accounted r id (reading v) a now w j k h = inl (h, λ _ x. absurd x)
  advance-Accounted r id (waiting v) run_settles now w j k h = inl (h, λ _ x. absurd x)
  advance-Accounted r id (waiting v) a now w j k h = inl (h, λ _ x. absurd x)
  advance-Accounted r id (asking v y) (baseline b) now w j k h = inl (h, λ _ x. absurd x)
  advance-Accounted r id (asking v y) a now w j k h = inl (h, λ _ x. absurd x)
  advance-Accounted r id (done v) db_ok now w j k h = inl (h, λ _ x. absurd x)
  advance-Accounted r id (done v) a now w j k h = inl (h, λ _ x. absurd x)

  -- The request that an entry of the map stands for.
  pub record Owner (j : String) (k : ℕ) (requests : List Request) : Type 0 where
    pub request : Request
    pub numbered : get_elem? requests k ≡ some request
    pub own_case : request.case_id ≡ j
    pub active : IsActive request.stage

  abbrev pub AllOwned : Process db text_of → Type 0
  AllOwned p = (j : String) (k : ℕ) → lookup j p.world.in_flight ≡ some k → Owner j k p.requests

  advanced-Owner :
      (r : ℕ) (q : Request) (a : Answer) (now : ℕ) (p : Process db text_of) (j : String) (k : ℕ)
      → get_elem? p.requests r ≡ some q
      → AllOwned p
      → Accounted r q.case_id q.stage
          (advance db text_of r q.case_id q.stage a now p.world).1
          p.world
          j
          k
      → Owner j k (
          set p.requests r
            (record q { stage = (advance db text_of r q.case_id q.stage a now p.world).1 }))
  advanced-Owner r q a now p j k e h (inr (num', own, act)) = record {
    request = record q { stage = (advance db text_of r q.case_id q.stage a now p.world).1 };
    numbered = rw num' (get_elem?-set_self p.requests r _ e);
    own_case = sym own;
    active = act;
  }
  advanced-Owner r q a now p j k e h (inl (old, keep)) =
      let o = h j k old in
      elim (Bool-cases (r == k)) [
        | inl same ↦
            let n : r ≡ k = ground arith in
            let mine : q ≡ o.request =
              some-inj (sym e ∙ ap (get_elem? p.requests) n ∙ o.numbered) in
            let own : q.case_id ≡ j = ap (λ (x : Request). x.case_id) mine ∙ o.own_case in
            let act : IsActive q.stage = rw mine o.active in
            record {
              request = record q {
                stage = (advance db text_of r q.case_id q.stage a now p.world).1;
              };
              numbered = rw (← n) (get_elem?-set_self p.requests r _ e);
              own_case = own;
              active = keep (sym own) act;
            }
        | inr other ↦
            let n : r ≢ k = λ h'. ground arith in
            record {
              request = o.request;
              numbered = get_elem?-set_ne p.requests _ n ∙ o.numbered;
              own_case = o.own_case;
              active = o.active;
            }
      ]
    where
      some-inj : {x y : Request} → ◌≡◌ {A = Option Request} (some x) (some y) → x ≡ y
      some-inj h' = cc

  answer_to-AllOwned :
      (r : ℕ) (a : Answer) (now : ℕ) (o : Option Request) (p : Process db text_of)
      → get_elem? p.requests r ≡ o
      → AllOwned p
      → AllOwned (answer_to db text_of r a now o p)
  unfolding answer_to
  answer_to-AllOwned r a now none p e h j k found = h j k found
  answer_to-AllOwned r a now (some q) p e h j k found =
      advanced-Owner r q a now p j k e h
        (advance-Accounted r q.case_id q.stage a now p.world j k found)

  step-AllOwned :
      (e : Event db text_of) (p : Process db text_of) → AllOwned p → AllOwned (step db text_of e p)
  unfolding step
  step-AllOwned (arrive id b) p h j k found =
      let o = h j k found in
      record {
        request = o.request;
        numbered = get_elem?-append_left p.requests _ k o.numbered;
        own_case = o.own_case;
        active = o.active;
      }
  step-AllOwned (answer r a now) p h j k found =
      answer_to-AllOwned r a now (get_elem? p.requests r) p refl h j k found

  -- From a process with no run in flight, after any events: a run that is registered for a case is
  -- that of a request of this case which has begun its run and not ended it.
  pub run-AllOwned :
      (events : List (Event db text_of)) (p : Process db text_of)
      → ((j : String) → lookup j p.world.in_flight ≡ none)
      → (j : String) (k : ℕ) → lookup j (run db text_of events p).world.in_flight ≡ some k
      → Owner j k (run db text_of events p).requests
  unfolding run
  run-AllOwned events p empty = run_from events p (λ j k found. absurd (ground (arith, empty j)))
    where
      run_from :
          (es : List (Event db text_of)) (p' : Process db text_of)
          → AllOwned p'
          → AllOwned (run db text_of es p')
      run_from [] p' h = h
      run_from (e ∷ es) p' h = run_from es (step db text_of e p') (step-AllOwned e p' h)

  -- When every request has ended, no run is left in flight, however the waits ended: a failure does
  -- not keep a case from being investigated later.
  pub in_flight_empty :
      (events : List (Event db text_of)) (p : Process db text_of)
      → ((j : String) → lookup j p.world.in_flight ≡ none)
      → All IsDone (run db text_of events p).requests
      → (j : String) → lookup j (run db text_of events p).world.in_flight ≡ none
  in_flight_empty events p empty ended j =
      elim (Option-cases (lookup j (run db text_of events p).world.in_flight)) [
        | inl gone ↦ gone
        | inr (k, found) ↦
            let o = run-AllOwned events p empty j k found in
            let (reply, is_done) =
              All-get IsDone (run db text_of events p).requests k ended o.numbered in
            absurd (rw is_done at o.active)
      ]
