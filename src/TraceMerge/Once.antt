-- ===== src/TraceMerge/Once.antt =====
-- What the lists that are put together show.
use attest.Prelude.{
  ℕ, ◌+◌, String, ◌≡◌, List, [], ◌∷◌, ◌++◌, map, Bool, true, false, not, All, filter, Bool-cases,
  inl, inr, arith,
}
use attest.Prelude.Dedup.{
  dedup, find_key, member, HasDistinctKeys, find_key-dedup, dedup-HasDistinctKeys,
}
use attest.CaseStore.{KafkaTraceStep}
use attest.TraceRoute.{HttpTraceStep}
use attest.TraceMerge.{
  Row, live_row, http_row, is_classifier, live_rows, http_rows_from, http_rows, fingerprint,
  timeline_rows,
}

dedup_all {ℓ κ} :
    {A : Type ℓ} (key : A → String) (P : A → Type κ) (seen : List String) (xs : List A)
    → All P xs
    → All P (dedup key seen xs)
unfolding dedup
dedup_all key P seen [] h = tt
dedup_all key P seen (x ∷ xs) h = elim (Bool-cases (member (key x) seen)) [
  | inl old ↦ rw old (dedup_all key P (key x ∷ seen) xs h.1)
  | inr new ↦ rw new (h.0, dedup_all key P (key x ∷ seen) xs h.1)
]

All-append {ℓ κ} :
    {A : Type ℓ} (P : A → Type κ) (xs ys : List A) → All P xs → All P ys → All P (xs ++ ys)
All-append P [] ys h k = k
All-append P (x ∷ xs) ys h k = (h.0, All-append P xs ys h.1 k)

abbrev Unclassified : Row → Type 0
Unclassified r = is_classifier r.kind ≡ false

module _ {ℓ} {A : Type ℓ} (f : A → Bool) where
  filter_kept : (x : A) (xs : List A) → f x ≡ true → filter f (x ∷ xs) ≡ x ∷ filter f xs
  filter_kept x xs h = ground arith

  filter_left : (x : A) (xs : List A) → f x ≡ false → filter f (x ∷ xs) ≡ filter f xs
  filter_left x xs h = ground arith

  filter-All : (xs : List A) → All (λ x. f x ≡ true) (filter f xs)
  filter-All [] = tt
  filter-All (x ∷ xs) = elim (Bool-cases (f x)) [
    | inl h ↦ rw (filter_kept x xs h) (h, filter-All xs)
    | inr n ↦ rw (filter_left x xs n) (filter-All xs)
  ]

live_rows-Unclassified :
    (steps : List KafkaTraceStep)
    → All (λ s. not (is_classifier s.step_kind) ≡ true) steps
    → All Unclassified (map live_row steps)
unfolding live_row
live_rows-Unclassified [] h = tt
live_rows-Unclassified (s ∷ rest) h = (ground (arith, h.0), live_rows-Unclassified rest h.1)

http_rows-Unclassified :
    (index : ℕ) (steps : List HttpTraceStep)
    → All (λ s. not (is_classifier s.kind) ≡ true) steps
    → All Unclassified (http_rows_from index steps)
unfolding http_row
http_rows-Unclassified index [] h = tt
http_rows-Unclassified index (s ∷ rest) h =
    (ground (arith, h.0), http_rows-Unclassified (index + 1) rest h.1)

pub record IsTimeline (http_steps : List HttpTraceStep) (live_steps : List KafkaTraceStep)
    (rows : List Row) : Type 0 where
  pub distinct : HasDistinctKeys fingerprint rows
  pub found :
      (k : String)
      → find_key fingerprint k rows
        ≡ find_key fingerprint k (http_rows http_steps ++ live_rows live_steps)
  pub unclassified : All Unclassified rows

-- The timeline shows no action, kind and summary twice, shows each that either source has, by the
-- persisted row where there is one, and never the classifier's own step.
pub timeline_rows-IsTimeline :
    (http_steps : List HttpTraceStep) (live_steps : List KafkaTraceStep)
    → IsTimeline http_steps live_steps (timeline_rows http_steps live_steps)
unfolding timeline_rows
timeline_rows-IsTimeline http_steps live_steps =
    let both = http_rows http_steps ++ live_rows live_steps in
    record {
      distinct = dedup-HasDistinctKeys fingerprint [] both;
      found = λ k. find_key-dedup fingerprint k both;
      unclassified = dedup_all fingerprint Unclassified [] both (
          All-append Unclassified (http_rows http_steps) (live_rows live_steps)
            (http_rows-Unclassified 0 _ (filter-All (λ s. not (is_classifier s.kind)) http_steps))
            (live_rows-Unclassified _
              (filter-All (λ s. not (is_classifier s.step_kind)) live_steps)));
    }
