-- ===== src/CaseStore/Evict.antt =====
-- Which entry `evictIfNeeded` removes.
use mathlib.Core.List.{Memᴰ}
use attest.Prelude.{
  ◌≤◌, String, ◌≡◌, refl, ap, ◌∙◌, none, some, [], ◌∷◌, true, inl, inr, ◌<◌, lt→ltb, le→not_ltb,
  leb, not, length, filter, All, Bool-cases, str_eq, eq_iff, arith,
}
use attest.Prelude.Dict.{lookup, remove, has}
use attest.CaseStore.{
  CaseEntry, Cases, max_cases, insert_sorted, sort_by_updated_at, evict_if_needed,
}

-- `m` was written no later than any of `cases`.
abbrev pub IsOldest : String × CaseEntry → Cases → Type 0
IsOldest m cases = All (λ entry. m.1.updated_at ≤ entry.1.updated_at) cases

IsOldest-le :
    (a b : String × CaseEntry) (cases : Cases)
    → a.1.updated_at ≤ b.1.updated_at
    → IsOldest b cases
    → IsOldest a cases
IsOldest-le a b [] h k = tt
IsOldest-le a b (c ∷ cases) h k = (omega arith, IsOldest-le a b cases h k.1)

record Oldest (cases : Cases) : Type 0 where
  entry : String × CaseEntry
  rest : Cases
  sorted : sort_by_updated_at cases ≡ entry ∷ rest
  listed : Memᴰ entry cases
  oldest : IsOldest entry cases

sort-Oldest : (x : String × CaseEntry) (cases : Cases) → Oldest (x ∷ cases)
unfolding sort_by_updated_at
sort-Oldest x [] = record {
  entry = x;
  rest = [];
  sorted = refl;
  listed = Memᴰ.head refl;
  oldest = (omega arith, tt);
}
sort-Oldest x (y ∷ cases) =
    let o = sort-Oldest y cases in
    elim (Bool-cases (leb x.1.updated_at o.entry.1.updated_at)) [
      | inl before ↦ record {
        entry = x;
        rest = o.entry ∷ o.rest;
        sorted = ap (insert_sorted x) o.sorted ∙ rw before;
        listed = Memᴰ.head refl;
        oldest = (omega arith, IsOldest-le x o.entry (y ∷ cases) (ground arith) o.oldest);
      }
      | inr after ↦ record {
        entry = o.entry;
        rest = insert_sorted x o.rest;
        sorted = ap (insert_sorted x) o.sorted ∙ rw after;
        listed = Memᴰ.tail o.listed;
        oldest = (ground arith, o.oldest);
      }
    ]

filter_absent :
    (id : String) (cases : Cases)
    → lookup id cases ≡ none
    → filter (λ entry. not (str_eq entry.0 id)) cases ≡ cases
unfolding lookup
filter_absent id [] h = refl
filter_absent id ((k, e) ∷ cases) h = ground (arith, filter_absent id cases)

pub has_listed :
    (k : String) (e : CaseEntry) (cases : Cases) → Memᴰ (k, e) cases → has k cases ≡ true
unfolding lookup
has_listed k e [] m = elim m [ ]
has_listed k e ((j, f) ∷ cases) (Memᴰ.head p) =
    ground (arith, eq_iff j k, ap (λ (x : String × CaseEntry). x.0) p)
has_listed k e ((j, f) ∷ cases) (Memᴰ.tail m) = ground (arith, has_listed k e cases m)

-- What an eviction does: an entry that was written no later than any other is removed.
pub record Evicted (cases result : Cases) : Type 0 where
  pub victim : String × CaseEntry
  pub listed : Memᴰ victim cases
  pub oldest : IsOldest victim cases
  pub removed : result ≡ remove victim.0 cases

pub evict_if_needed_full :
    (id : String) (cases : Cases)
    → lookup id cases ≡ none
    → max_cases ≤ length cases
    → Evicted cases (evict_if_needed cases id)
evict_if_needed_full id [] absent full = absurd (omega arith)
evict_if_needed_full id (x ∷ cases) absent full =
    let o = sort-Oldest x cases in
    record {
      victim = o.entry;
      listed = o.listed;
      oldest = o.oldest;
      removed =
          unfold evict_if_needed in
          rw (absent, le→not_ltb _ _ full, filter_absent id (x ∷ cases) absent, o.sorted);
    }

pub evict_if_needed_present :
    (id : String) (cases : Cases) {e : CaseEntry}
    → lookup id cases ≡ some e
    → evict_if_needed cases id ≡ cases
unfolding evict_if_needed
evict_if_needed_present id cases h = rw h

pub evict_if_needed_room :
    (id : String) (cases : Cases) → length cases < max_cases → evict_if_needed cases id ≡ cases
unfolding evict_if_needed
evict_if_needed_room id cases h = ground (arith, lt→ltb _ _ h)
