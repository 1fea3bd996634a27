-- ===== src/TraceMerge/Persist.antt =====
-- What a page posts of the steps that arrive live.
use attest.Prelude.{
  String, ◌≡◌, ◌≢◌, refl, ap, ◌∙◌, List, [], ◌∷◌, ◌++◌, true, false, All, Bool-cases, inl, inr,
  eq_iff, arith,
}
use attest.Prelude.Dedup.{
  member, dedup, find_key, HasDistinctKeys, find_key-dedup, dedup-HasDistinctKeys,
}
use attest.CaseStore.{KafkaTraceStep, step_key}
use attest.TraceMerge.{fresh_steps, if_any, posts}

abbrev pub concat : List (List KafkaTraceStep) → List KafkaTraceStep
concat [] = []
concat (xs ∷ rest) = xs ++ concat rest

abbrev Same : List String → List String → Type 0
Same a b = (k : String) → member k a ≡ member k b

dedup-Same :
    (a b : List String) (xs : List KafkaTraceStep)
    → Same a b
    → dedup step_key a xs ≡ dedup step_key b xs
unfolding dedup
dedup-Same a b [] h = refl
dedup-Same a b (x ∷ xs) h =
    let rest : dedup step_key (step_key x ∷ a) xs ≡ dedup step_key (step_key x ∷ b) xs =
      dedup-Same (step_key x ∷ a) (step_key x ∷ b) xs (λ k. ground (arith, h k)) in
    rw (h (step_key x), rest) refl

fresh-dedup :
    (known others : List String) (xs ys : List KafkaTraceStep)
    → Same known others
    → (fresh_steps known xs).0 ++ dedup step_key (fresh_steps known xs).1 ys
      ≡ dedup step_key others (xs ++ ys)
unfolding fresh_steps dedup
fresh-dedup known others [] ys h = dedup-Same known others ys h
fresh-dedup known others (x ∷ xs) ys h = elim (Bool-cases (member (step_key x) known)) [
  | inl old ↦
      let old' : member (step_key x) others ≡ true = ground (arith, h (step_key x)) in
      rw (old, old')
        (fresh-dedup known (step_key x ∷ others) xs ys
          (λ k. ground (arith, h k, eq_iff (step_key x) k)))
  | inr new ↦
      let new' : member (step_key x) others ≡ false = ground (arith, h (step_key x)) in
      rw (new, new')
        (ap (λ l. x ∷ l)
          (fresh-dedup (step_key x ∷ known) (step_key x ∷ others) xs ys (λ k. ground (arith, h k))))
]

concat-if_any :
    (xs : List KafkaTraceStep) (rest : List (List KafkaTraceStep))
    → concat (if_any xs rest) ≡ xs ++ concat rest
concat-if_any [] rest = refl
concat-if_any (x ∷ xs) rest = refl

posts-dedup :
    (known : List String) (changes : List (List KafkaTraceStep))
    → concat (posts known changes) ≡ dedup step_key known (concat changes)
unfolding posts dedup
posts-dedup known [] = refl
posts-dedup known (xs ∷ changes) =
    let found = fresh_steps known xs in
    concat-if_any found.0 (posts found.1 changes)
    ∙ ap (λ l. found.0 ++ l) (posts-dedup found.1 changes)
    ∙ fresh-dedup known known xs (concat changes) (λ k. refl)

if_any-filled :
    (xs : List KafkaTraceStep) (rest : List (List KafkaTraceStep))
    → All (λ (p : List KafkaTraceStep). p ≢ []) rest
    → All (λ (p : List KafkaTraceStep). p ≢ []) (if_any xs rest)
if_any-filled [] rest h = h
if_any-filled (x ∷ xs) rest h = (λ e. ground arith, h)

posts-filled :
    (known : List String) (changes : List (List KafkaTraceStep))
    → All (λ (p : List KafkaTraceStep). p ≢ []) (posts known changes)
unfolding posts
posts-filled known [] = tt
posts-filled known (xs ∷ changes) =
    if_any-filled (fresh_steps known xs).0 (posts (fresh_steps known xs).1 changes)
      (posts-filled (fresh_steps known xs).1 changes)

pub record IsPostedOnce (changes sent : List (List KafkaTraceStep)) : Type 0 where
  pub distinct : HasDistinctKeys step_key (concat sent)
  pub found :
      (k : String) → find_key step_key k (concat sent) ≡ find_key step_key k (concat changes)
  pub filled : All (λ (p : List KafkaTraceStep). p ≢ []) sent

-- However the live steps of a page change, no step is posted twice, every step that ever was among
-- them is posted as it first came, and no post is empty.
pub posts-IsPostedOnce :
    (changes : List (List KafkaTraceStep)) → IsPostedOnce changes (posts [] changes)
posts-IsPostedOnce changes = record {
  distinct = rw (posts-dedup [] changes) (dedup-HasDistinctKeys step_key [] (concat changes));
  found = λ k. rw (posts-dedup [] changes) (find_key-dedup step_key k (concat changes));
  filled = posts-filled [] changes;
}
