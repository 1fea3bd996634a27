-- ===== src/UseTriage/Marked.antt =====
-- The running marker of a case in the store.
use attest.Prelude.{
  ℕ, String, ◌≡◌, refl, Option-cases, inl, inr, eq_iff, Option, none, some, Bool, true, false,
  str_eq, eq_refl, arith,
}
use attest.Prelude.Dict.{lookup, lookup-insert}
use attest.CaseStore.{
  CaseEntry, Cases, OcsfEvent, Baseline, Write, running, update_case, refreshed, init_case,
  start_triage, set_verdict, fail_triage, clear_trace_steps, set_approved, set_override, evict,
  write,
}
use attest.CaseStore.Entries.{
  Everywhere, insert-Everywhere, remove-Everywhere, evict_if_needed-Everywhere,
  update_case-Everywhere, append_trace_step-Everywhere,
}
use attest.UseTriage.{is_running}

-- Where the entry of `id` is running, it has been so since `t`.
abbrev pub Since : String → ℕ → String → CaseEntry → Type 0
Since id t j e =
    str_eq j id ≡ true → is_running e.triage_status ≡ true → e.triage_started_at ≡ some t

abbrev marked : ℕ → CaseEntry → CaseEntry
marked now e = record e {
  triage_status = running;
  triage_started_at = some now;
  triage_error = none;
  updated_at = now;
}

-- The writes that are not the hook's own.
abbrev pub is_start : Write → Bool
is_start (Write.start c) = true
is_start _ = false

refreshed-Since :
    (id : String) (t : ℕ) (j : String) (o : Option CaseEntry) (event : OcsfEvent)
    (b : Option Baseline) (now : ℕ)
    → ((e : CaseEntry) → o ≡ some e → Since id t j e)
    → Since id t j (refreshed o event b now)
unfolding refreshed
refreshed-Since id t j none event b now h = λ p q. cc
refreshed-Since id t j (some e) event b now h = h e refl

pub write-Since :
    (id : String) (t : ℕ) (w : Write) (now : ℕ) (s : Cases)
    → is_start w ≡ false
    → Everywhere (Since id t) s
    → Everywhere (Since id t) (write w now s)
unfolding write init_case set_verdict fail_triage clear_trace_steps set_approved set_override evict
write-Since id t (Write.init c event b) now s n h =
    insert-Everywhere (Since id t) c _ _ (refreshed-Since id t c (lookup c s) event b now (h.at c))
      (evict_if_needed-Everywhere (Since id t) c s h)
write-Since id t (Write.start c) now s n h = cc
write-Since id t (Write.verdict c v) now s n h =
    update_case-Everywhere (Since id t) c _ s (λ e k p q. cc) h
write-Since id t (Write.fail c error) now s n h =
    update_case-Everywhere (Since id t) c _ s (λ e k p q. cc) h
write-Since id t (Write.append c step) now s n h =
    append_trace_step-Everywhere (Since id t) c step now s (λ e k. k) h
write-Since id t (Write.clear c) now s n h = update_case-Everywhere (Since id t) c _ s (λ e k. k) h
write-Since id t (Write.approve c) now s n h =
    update_case-Everywhere (Since id t) c _ s (λ e k. k) h
write-Since id t (Write.overrule c label) now s n h =
    update_case-Everywhere (Since id t) c _ s (λ e k. k) h
write-Since id t (Write.drop c) now s n h = remove-Everywhere (Since id t) c s h

-- A start marks its own case with its time.
pub start-Since_own :
    (id : String) (now : ℕ) (s : Cases) → Everywhere (Since id now) (start_triage id now s)
unfolding start_triage update_case
start-Since_own id now s = elim (Option-cases (lookup id s)) [
  | inl absent ↦ rw absent (record { at = λ j e p q r. absurd (ground (arith, eq_iff j id)) })
  | inr (old, found) ↦ rw found (record {
    at =
        λ j e p q r. ground (arith, eq_iff j id, eq_refl id, lookup-insert id j (marked now old) s);
  })
]

-- It leaves the marker of another case as it is.
pub start-Since_other :
    (id : String) (t : ℕ) (c : String) (now : ℕ) (s : Cases)
    → str_eq c id ≡ false
    → Everywhere (Since id t) s
    → Everywhere (Since id t) (start_triage c now s)
unfolding start_triage
start-Since_other id t c now s other h = update_case-Everywhere (Since id t) c _ s (λ e k p q. cc) h
