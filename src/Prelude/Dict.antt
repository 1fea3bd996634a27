-- ===== src/Prelude/Dict.antt =====
-- A JavaScript object or `Map` with text keys: an association list in insertion order, a key at
-- most once. Writing an old key keeps its place; a new key goes to the end.
use Prim.Native.Nat.{◌+◌, ◌≤◌}
use Prim.Native.String.{String}
use mathlib.Core.Path.{◌≡◌, refl}
use mathlib.Core.Bool.{Bool, true, false}
use mathlib.Core.Option.{Option, none, some}
use mathlib.Core.List.{List, [], ◌∷◌}
use native.Mathlib.Omega.{arith}
use text.Mathlib.Text.{◌==◌}
use text.Mathlib.TextEquality.{eq_iff}
use attest.Prelude.Tests.{if◌then◌else◌}
use attest.Prelude.Lists.{length}

abbrev pub Dict {ℓ} : Type ℓ → Type ℓ
Dict V = List (String × V)

module _ {ℓ} {V : Type ℓ} where
  unfoldable pub lookup : String → Dict V → Option V
  lookup key [] = none
  lookup key (entry ∷ later) =
      let found = lookup key later in if entry.0 == key then some entry.1 else found

  unfoldable pub insert : String → V → Dict V → Dict V
  insert key value [] = (key, value) ∷ []
  insert key value (entry ∷ later) =
      let changed = insert key value later in
      if entry.0 == key then (key, value) ∷ later else entry ∷ changed

  unfoldable pub remove : String → Dict V → Dict V
  remove key [] = []
  remove key (entry ∷ later) =
      let left = remove key later in if entry.0 == key then left else entry ∷ left

  abbrev is_some : Option V → Bool
  is_some none = false
  is_some (some v) = true

  -- `k in m`, `m.has(k)`
  abbrev pub has : String → Dict V → Bool
  has k m = is_some (lookup k m)

module _ {ℓ} {V : Type ℓ} where
  pub lookup-insert :
      (key other : String) (value : V) (d : Dict V)
      → lookup other (insert key value d) ≡ (if key == other then some value else lookup other d)
  unfolding lookup insert
  lookup-insert key other value [] = refl
  lookup-insert key other value (entry ∷ later) = ground (
    arith,
    lookup-insert key other value later,
    eq_iff entry.0 other,
    eq_iff entry.0 key,
    eq_iff key other,
  )

  pub lookup-remove :
      (key other : String) (d : Dict V)
      → lookup other (remove key d) ≡ (if key == other then none else lookup other d)
  unfolding lookup remove
  lookup-remove key other [] = ground arith
  lookup-remove key other (entry ∷ later) = ground (
    arith,
    lookup-remove key other later,
    eq_iff entry.0 other,
    eq_iff entry.0 key,
    eq_iff key other,
  )

  pub remove_absent : (k : String) (m : Dict V) → lookup k m ≡ none → remove k m ≡ m
  unfolding lookup remove
  remove_absent k [] h = refl
  remove_absent k ((i, w) ∷ m) h = ground (arith, remove_absent k m)

  pub length-insert_new :
      (k : String) (v : V) (m : Dict V) → lookup k m ≡ none → length (insert k v m) ≡ length m + 1
  unfolding lookup insert
  length-insert_new k v [] h = refl
  length-insert_new k v ((i, w) ∷ m) h = ground (arith, eq_iff i k, length-insert_new k v m)

  pub length-insert_old :
      (k : String) (v : V) (m : Dict V) {w : V}
      → lookup k m ≡ some w
      → length (insert k v m) ≡ length m
  unfolding lookup insert
  length-insert_old k v [] h = ground arith
  length-insert_old k v ((i, u) ∷ m) {w} h =
      ground (arith, eq_iff i k, length-insert_old k v m {w = w})

  pub length-insert-le : (k : String) (v : V) (m : Dict V) → length (insert k v m) ≤ length m + 1
  unfolding insert
  length-insert-le k v [] = omega arith
  length-insert-le k v ((i, w) ∷ m) = ground (arith, length-insert-le k v m)

  pub length-remove-le : (k : String) (m : Dict V) → length (remove k m) ≤ length m
  unfolding remove
  length-remove-le k [] = omega arith
  length-remove-le k ((i, w) ∷ m) = ground (arith, length-remove-le k m)

  pub length-remove-lt :
      (k : String) (m : Dict V) {v : V} → lookup k m ≡ some v → length (remove k m) + 1 ≤ length m
  unfolding lookup remove
  length-remove-lt k [] h = ground arith
  length-remove-lt k ((i, w) ∷ m) {v} h =
      ground (arith, length-remove-le k m, length-remove-lt k m {v = v})

pub ruleset dict_laws = (lookup-insert, lookup-remove)
