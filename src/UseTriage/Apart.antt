-- ===== src/UseTriage/Apart.antt =====
-- How often a tab can ask for the triage of one case.
use attest.Prelude.{
  ℕ, ◌+◌, ◌<◌, String, ◌≡◌, refl, inl, inr, Option, none, some, List, [], ◌∷◌, Bool, false, ◌&&◌,
  ◌||◌, not, All, Bool-cases, Option-cases, arith,
}
use attest.Prelude.Dict.{Dict, lookup}
use attest.CaseStore.{CaseEntry, Cases, Write, set_verdict, fail_triage, write}
use attest.UseTriage.{
  Hook, Tab, Event, mount, unmount, status, effect, posted, store, has_verdict, has_failed,
  undecided, verdict, broken, is_settled, member, fired_after, fire, fire_case, run_effect,
  take_status, take_post, on_hook, happen, step, run,
}
use attest.UseTriage.Marked.{is_start, write-Since}
use attest.UseTriage.Memory.{IsApart, Good, IsGood, forgotten-Good, posted-Good}

-- The events that do not start a triage behind the hook's back.
abbrev pub is_foreign_start : Event → Bool
is_foreign_start (store w) = is_start w
is_foreign_start _ = false

fire-Good :
    (k : ℕ) (hook : Hook) (entry : CaseEntry) (tab : Tab)
    → lookup hook.case_id tab.cases ≡ some entry
    → IsGood tab
    → IsGood (fire k hook tab.clock entry tab)
unfolding fire
fire-Good k hook entry tab found g = elim (Bool-cases (is_settled entry tab.clock)) [
  | inl settled ↦ rw settled g
  | inr open_case ↦ rw open_case (
      let h =
        forgotten-Good tab.clock tab.cases tab.fired tab.posts g entry hook.case_id found
          open_case in
      elim (Bool-cases (
        not hook.alert
        || hook.fired_ref
        || member hook.case_id (fired_after entry hook.case_id tab.fired))) [
          | inl blocked ↦ rw blocked h
          | inr free ↦ rw free (posted-Good _ _ _ _ h hook.case_id (ground arith))
        ])
]

fire_case-Good :
    (k : ℕ) (hook : Hook) (tab : Tab)
    → IsGood tab
    → IsGood (fire_case k hook tab.clock (lookup hook.case_id tab.cases) tab)
fire_case-Good k hook tab g = elim (Option-cases (lookup hook.case_id tab.cases)) [
  | inl absent ↦ rw absent g
  | inr (entry, found) ↦ rw found (fire-Good k hook entry tab found g)
]

-- A write that is no start.
write-Good :
    (w : Write) (now : ℕ) {clock : ℕ} {cases : Cases} {fired : List String} {posts : Dict ℕ}
    → is_start w ≡ false
    → Good clock cases fired posts
    → Good clock (write w now cases) fired posts
write-Good w now {cases} n g = record {
  awake = g.awake;
  positive = g.positive;
  held = g.held;
  marked = λ id t p. write-Since id t w now cases n (g.marked id t p);
  apart = g.apart;
}

remember-Good :
    (id : String) {clock : ℕ} {cases : Cases} {fired : List String} {posts : Dict ℕ}
    → Good clock cases fired posts
    → Good clock cases (id ∷ fired) posts
remember-Good id {fired} g = record {
  awake = g.awake;
  positive = g.positive;
  held = λ j t p. elim (g.held j t p) [ inl m ↦ inl (ground arith) | inr over ↦ inr over ];
  marked = g.marked;
  apart = g.apart;
}

on_hook-Good :
    (k : ℕ) (event : Event) (hook : Option Hook) (tab : Tab)
    → IsGood tab
    → IsGood (on_hook k event hook tab.clock tab)
unfolding on_hook run_effect take_status take_post write set_verdict fail_triage
on_hook-Good k event none tab g = g
on_hook-Good k (mount id alert) (some hook) tab g = g
on_hook-Good k (unmount i) (some hook) tab g = g
on_hook-Good k (store w) (some hook) tab g = g
on_hook-Good k (effect i) (some hook) tab g =
    elim (Bool-cases (hook.mounted && hook.server_checked)) [
      | inl ready ↦ rw ready (fire_case-Good k _ _ g)
      | inr early ↦ rw early g
    ]
on_hook-Good k (status i (has_verdict v)) (some hook) tab g = elim (Bool-cases hook.mounted) [
  | inl here ↦
      rw here
        (remember-Good hook.case_id (write-Good (Write.verdict hook.case_id v) tab.clock refl g))
  | inr gone ↦ rw gone g
]
on_hook-Good k (status i (has_failed m)) (some hook) tab g = elim (Bool-cases hook.mounted) [
  | inl here ↦ rw here (write-Good (Write.fail hook.case_id m) tab.clock refl g)
  | inr gone ↦ rw gone g
]
on_hook-Good k (status i undecided) (some hook) tab g = elim (Bool-cases hook.mounted) [
  | inl here ↦ rw here g
  | inr gone ↦ rw gone g
]
on_hook-Good k (posted i (verdict v)) (some hook) tab g =
    write-Good (Write.verdict hook.case_id v) tab.clock refl g
on_hook-Good k (posted i (broken m)) (some hook) tab g =
    write-Good (Write.fail hook.case_id m) tab.clock refl g

later-Good :
    (elapsed : ℕ) {clock : ℕ} {cases : Cases} {fired : List String} {posts : Dict ℕ}
    → Good clock cases fired posts
    → Good (clock + elapsed) cases fired posts
later-Good elapsed {clock} g = record {
  awake = ground (arith, g.awake);
  positive = g.positive;
  held = λ j t p. elim (g.held j t p) [ inl m ↦ inl m | inr over ↦ inr (ground arith) ];
  marked = g.marked;
  apart = g.apart;
}

step-Good :
    (elapsed : ℕ) (event : Event) (tab : Tab)
    → is_foreign_start event ≡ false
    → IsGood tab
    → IsGood (step elapsed event tab)
unfolding step happen
step-Good elapsed (mount id alert) tab n g = later-Good elapsed g
step-Good elapsed (unmount k) tab n g = on_hook-Good k _ _ _ (later-Good elapsed g)
step-Good elapsed (status k answer) tab n g = on_hook-Good k _ _ _ (later-Good elapsed g)
step-Good elapsed (effect k) tab n g = on_hook-Good k _ _ _ (later-Good elapsed g)
step-Good elapsed (posted k answer) tab n g = on_hook-Good k _ _ _ (later-Good elapsed g)
step-Good elapsed (store w) tab n g = write-Good w _ n (later-Good elapsed g)

abbrev pub IsOwn : List (ℕ × Event) → Type 0
IsOwn = All (λ e. is_foreign_start e.1 ≡ false)

run-Good :
    (events : List (ℕ × Event)) (tab : Tab) → IsOwn events → IsGood tab → IsGood (run events tab)
unfolding run
run-Good [] tab own g = g
run-Good ((elapsed, e) ∷ rest) tab own g =
    run-Good rest (step elapsed e tab) own.1 (step-Good elapsed e tab own.0 g)

no_post : (id : String) (t : ℕ) (posts : Dict ℕ) → posts ≡ [] → lookup id posts ≡ some t → ⊥
unfolding lookup
no_post id t [] e p = cc
no_post id t (q ∷ posts) e p = cc

tab-IsGood : (tab : Tab) → 0 < tab.clock → tab.posts ≡ [] → IsGood tab
tab-IsGood tab awake fresh = record {
  awake = awake;
  positive = λ id t p. absurd (no_post id t tab.posts fresh p);
  held = λ id t p. absurd (no_post id t tab.posts fresh p);
  marked = λ id t p. absurd (no_post id t tab.posts fresh p);
  apart = rw fresh tt;
}

-- In a tab that has sent no triage request yet, whose clock shows a time after 0 and does not go
-- back, and where only the hook starts a triage in the store: whatever hooks are mounted, unmounted
-- and run, whatever is answered and written, any two triage requests for one case are five minutes or
-- more apart.
pub run-IsApart :
    (events : List (ℕ × Event)) (tab : Tab)
    → 0 < tab.clock
    → tab.posts ≡ []
    → IsOwn events
    → IsApart (run events tab).posts
run-IsApart events tab awake fresh own =
    (run-Good events tab own (tab-IsGood tab awake fresh)).apart
