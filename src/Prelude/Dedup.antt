-- ===== src/Prelude/Dedup.antt =====
-- `seen.has(key)`, `seen.add(key)`: a list without what came before under the same key.
use Prim.Native.String.{String}
use mathlib.Core.Path.{◌≡◌, refl}
use mathlib.Core.Logic.{inl, inr}
use mathlib.Core.Bool.{Bool, true, false, not, ◌&&◌}
use mathlib.Core.Option.{Option, none, some}
use mathlib.Core.List.{List, [], ◌∷◌}
use native.Mathlib.Omega.{arith}
use text.Mathlib.Text.{◌==◌ as str_eq}
use text.Mathlib.TextEquality.{eq_iff}
use text.Mathlib.TextPositions.{eq_refl}
use attest.Prelude.Tests.{if◌then◌else◌, Bool-cases}
use attest.Prelude.Lists.{any}

abbrev pub member : String → List String → Bool
member key keys = any (λ k. str_eq k key) keys

module _ {ℓ} {A : Type ℓ} (key : A → String) where
  abbrev pub find_key : String → List A → Option A
  find_key k [] = none
  find_key k (x ∷ xs) = let rest = find_key k xs in if str_eq (key x) k then some x else rest

  abbrev pub holds_key : String → List A → Bool
  holds_key k xs = any (λ x. str_eq (key x) k) xs

  -- Adding a key that is in the set changes nothing, so it is added in either case.
  unfoldable pub dedup : List String → List A → List A
  dedup seen [] = []
  dedup seen (x ∷ xs) =
      let rest = dedup (key x ∷ seen) xs in if member (key x) seen then rest else x ∷ rest

  abbrev pub HasDistinctKeys : List A → Type 0
  HasDistinctKeys [] = Unit {0}
  HasDistinctKeys (x ∷ xs) = (holds_key (key x) xs ≡ false) × HasDistinctKeys xs

  -- Under each key that was not seen stands the first item that has it.
  pub find_key-dedup_seen :
      (k : String) (seen : List String) (xs : List A)
      → find_key k (dedup seen xs) ≡ (if member k seen then none else find_key k xs)
  unfolding dedup
  find_key-dedup_seen k seen [] = ground arith
  find_key-dedup_seen k seen (x ∷ xs) =
      ground (arith, find_key-dedup_seen k (key x ∷ seen) xs, eq_iff (key x) k)

  pub find_key-dedup : (k : String) (xs : List A) → find_key k (dedup [] xs) ≡ find_key k xs
  find_key-dedup k xs = find_key-dedup_seen k [] xs

  pub holds_key-dedup :
      (k : String) (seen : List String) (xs : List A)
      → holds_key k (dedup seen xs) ≡ (not (member k seen) && holds_key k xs)
  unfolding dedup
  holds_key-dedup k seen [] = ground arith
  holds_key-dedup k seen (x ∷ xs) =
      ground (arith, holds_key-dedup k (key x ∷ seen) xs, eq_iff (key x) k)

  pub dedup-HasDistinctKeys : (seen : List String) (xs : List A) → HasDistinctKeys (dedup seen xs)
  unfolding dedup
  dedup-HasDistinctKeys seen [] = tt
  dedup-HasDistinctKeys seen (x ∷ xs) = elim (Bool-cases (member (key x) seen)) [
    | inl old ↦ rw old (dedup-HasDistinctKeys (key x ∷ seen) xs)
    | inr new ↦ rw new (
      ground (arith, holds_key-dedup (key x) (key x ∷ seen) xs, eq_refl (key x)),
      dedup-HasDistinctKeys (key x ∷ seen) xs,
    )
  ]

  -- What is distinct, and has no key that was seen, stays as it is.
  pub dedup_distinct :
      (seen : List String) (xs : List A)
      → ((k : String) → holds_key k xs ≡ true → member k seen ≡ false)
      → HasDistinctKeys xs
      → dedup seen xs ≡ xs
  unfolding dedup
  dedup_distinct seen [] fresh d = refl
  dedup_distinct seen (x ∷ xs) fresh d =
      let new : member (key x) seen ≡ false = fresh (key x) (ground (arith, eq_refl (key x))) in
      let rest : dedup (key x ∷ seen) xs ≡ xs =
        dedup_distinct (key x ∷ seen) xs
          (λ k h. elim (Bool-cases (str_eq (key x) k)) [
            | inl same ↦ absurd (ground (arith, eq_iff (key x) k, d.0))
            | inr other ↦ ground (arith, fresh k)
          ])
          d.1 in
      rw (new, rest) refl
