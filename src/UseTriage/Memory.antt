-- ===== src/UseTriage/Memory.antt =====
-- What a tab remembers of the triage requests that it sent.
use attest.Prelude.{
  ℕ, ◌+◌, ◌<◌, ◌≤◌, String, ◌≡◌, refl, ◌⊎◌, inl, inr, some, List, [], ◌∷◌, true, false, str_eq,
  eq_iff, Bool-cases, arith,
}
use attest.Prelude.Dict.{Dict, lookup}
use attest.CaseStore.{CaseEntry, Cases, start_triage}
use attest.CaseStore.Entries.{Everywhere}
use attest.UseTriage.{Tab, running_ttl_ms, is_running, is_settled, member, forget, fired_after}
use attest.UseTriage.Marked.{Since, start-Since_own, start-Since_other}

-- Of each post and the one before it for the same case: five minutes or more lie between.
abbrev pub IsApart : List (String × ℕ) → Type 0
IsApart [] = Unit {0}
IsApart ((id, t) ∷ rest) =
    ((before : ℕ) → lookup id rest ≡ some before → before + running_ttl_ms ≤ t) × IsApart rest

-- The last post for a case is remembered, in the set or by the marker, until five minutes are over.
pub record Good (clock : ℕ) (cases : Cases) (fired : List String) (posts : Dict ℕ) : Type 0 where
  pub awake : 0 < clock
  pub positive : (id : String) (t : ℕ) → lookup id posts ≡ some t → 0 < t
  pub held :
      (id : String) (t : ℕ)
      → lookup id posts ≡ some t
      → (member id fired ≡ true) ⊎ (t + running_ttl_ms ≤ clock)
  pub marked : (id : String) (t : ℕ) → lookup id posts ≡ some t → Everywhere (Since id t) cases
  pub apart : IsApart posts

abbrev pub IsGood : Tab → Type 0
IsGood tab = Good tab.clock tab.cases tab.fired tab.posts

member-forget :
    (id j : String) (fired : List String)
    → str_eq id j ≡ false
    → member j (forget id fired) ≡ member j fired
member-forget id j [] h = refl
member-forget id j (k ∷ fired) h =
    ground (arith, member-forget id j fired, eq_iff k id, eq_iff k j, eq_iff id j)

stale :
    (entry : CaseEntry) (now t : ℕ)
    → is_settled entry now ≡ false
    → is_running entry.triage_status ≡ true
    → entry.triage_started_at ≡ some t
    → 0 < t
    → t + running_ttl_ms ≤ now
stale entry now t h r s p = ground arith

module _ (clock : ℕ) (cases : Cases) (fired : List String) (posts : Dict ℕ)
    (g : Good clock cases fired posts) where
  -- The set after the look at the marker of `id` still remembers what it must.
  held_after :
      (entry : CaseEntry) (id : String)
      → lookup id cases ≡ some entry
      → is_settled entry clock ≡ false
      → (j : String) (t : ℕ) → lookup j posts ≡ some t
      → (member j (fired_after entry id fired) ≡ true) ⊎ (t + running_ttl_ms ≤ clock)
  held_after entry id found unsettled j t p = elim (Bool-cases (is_running entry.triage_status)) [
    | inl r ↦ elim (Bool-cases (str_eq id j)) [
      | inl same ↦
          let e : id ≡ j = ground (arith, eq_iff id j) in
          let started : entry.triage_started_at ≡ some t =
            (g.marked j t p).at id entry found same r in
          inr (stale entry clock t unsettled r started (g.positive j t p))
      | inr other ↦ rw (r, member-forget id j fired other) (g.held j t p)
    ]
    | inr still ↦ rw still (g.held j t p)
  ]

  pub forgotten-Good :
      (entry : CaseEntry) (id : String)
      → lookup id cases ≡ some entry
      → is_settled entry clock ≡ false
      → Good clock cases (fired_after entry id fired) posts
  forgotten-Good entry id found unsettled = record {
    awake = g.awake;
    positive = g.positive;
    held = held_after entry id found unsettled;
    marked = g.marked;
    apart = g.apart;
  }

  -- A post for a case that the set does not remember.
  pub posted-Good :
      (id : String)
      → member id fired ≡ false
      → Good clock (start_triage id clock cases) (id ∷ fired) ((id, clock) ∷ posts)
  unfolding lookup
  posted-Good id free = record {
    awake = g.awake;
    positive = λ j t p. elim (Bool-cases (str_eq id j)) [
      | inl same ↦ ground (arith, g.awake)
      | inr other ↦ g.positive j t (ground arith)
    ];
    held = λ j t p. elim (Bool-cases (str_eq id j)) [
      | inl same ↦ inl (ground arith)
      | inr other ↦ elim (g.held j t (ground arith)) [
        | inl m ↦ inl (ground arith)
        | inr over ↦ inr over
      ]
    ];
    marked = λ j t p. elim (Bool-cases (str_eq id j)) [
      | inl same ↦
          let e : id ≡ j = ground (arith, eq_iff id j) in
          let q : clock ≡ t = ground arith in rw (← e, ← q) (start-Since_own id clock cases)
      | inr other ↦ start-Since_other j t id clock cases other (g.marked j t (ground arith))
    ];
    apart = (
      λ before p. elim (g.held id before p) [ inl m ↦ absurd (ground arith) | inr over ↦ over ],
      g.apart,
    );
  }
