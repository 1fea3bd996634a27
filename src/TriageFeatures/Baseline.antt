-- ===== src/TriageFeatures/Baseline.antt =====
-- What the alert that is saved keeps, the baseline included
-- (apps/workbench/src/app/api/cases/[caseId]/triage/route.ts).
use attest.Prelude.{
  String, ◌≡◌, ◌≢◌, refl, sym, ◌∙◌, Option, none, some, true, false, inl, inr, str_eq, eq_iff,
  Bool-cases, arith,
}
use attest.Prelude.Dict.{lookup, lookup-insert}
use attest.Prelude.Number.{thousandths, truthy_number}
use attest.Prelude.Json.{Json, num, str, truthy}
use attest.TriageFeatures.{
  Alert, BaselineAnswer, truthy_field, has_numeric_feature, set_features, baseline_query,
  baseline_deviation, set_baseline, asked_baseline, baseline_step, enrich,
}
use attest.TriageFeatures.Laws.{is_feature, IsKept, lookup-set_features}

lookup-set_baseline :
    (key : String) (answer : BaselineAnswer) (region : String) (alert : Alert)
    → str_eq "baseline_deviation" key ≡ false
    → lookup key (set_baseline (baseline_deviation answer region) alert) ≡ lookup key alert
unfolding set_baseline
lookup-set_baseline key answer region alert other = rw (lookup-insert, other) refl

no_query :
    (alert : Alert)
    → truthy_field (lookup "baseline_deviation" alert) ≡ true
    → baseline_query alert ≡ none
unfolding baseline_query
no_query alert h = rw h refl

asked_baseline-other :
    (key : String) (answer : BaselineAnswer) (alert : Alert) (query : Option (String × String))
    → str_eq "baseline_deviation" key ≡ false
    → lookup key (asked_baseline answer alert query) ≡ lookup key alert
asked_baseline-other key answer alert none other = refl
asked_baseline-other key answer alert (some (actor, region)) other =
    lookup-set_baseline key answer region alert other

lookup-baseline_step :
    (key : String) (answer : BaselineAnswer) (alert : Alert)
    → (key ≡ "baseline_deviation" → truthy_field (lookup key alert) ≡ true)
    → lookup key (baseline_step answer alert) ≡ lookup key alert
unfolding baseline_step
lookup-baseline_step key answer alert h = elim (Bool-cases (str_eq "baseline_deviation" key)) [
  | inl same ↦
      let e : "baseline_deviation" ≡ key = (eq_iff "baseline_deviation" key).0 same in
      let t : truthy_field (lookup "baseline_deviation" alert) ≡ true = rw e (h (sym e)) in
      rw (no_query alert t) refl
  | inr other ↦ asked_baseline-other key answer alert (baseline_query alert) other
]

not_unknown :
    (alert : Alert) (actor region : String)
    → truthy_field (lookup "baseline_deviation" alert) ≡ false
    → lookup "actor_user_name" alert ≡ some (str actor)
    → lookup "cloud_region" alert ≡ some (str region)
    → str_eq region "unknown" ≡ false
    → baseline_query alert ≡ some (actor, region)
unfolding baseline_query
not_unknown alert actor region d a r u = rw (d, a, r, u) refl

module _ (text_of : Json → String) where
  -- The alert that the route saves has every field that is no feature as the caller gave it, and every
  -- feature for which the caller gave a finite number, apart from two: `severity_score`, and a
  -- `baseline_deviation` of zero.
  pub lookup-enrich :
      (key : String) (answer : BaselineAnswer) (alert : Alert)
      → key ≢ "severity_score"
      → (key ≡ "baseline_deviation" → truthy_field (lookup key alert) ≡ true)
      → IsKept key alert
      → lookup key (enrich text_of answer alert) ≡ lookup key alert
  unfolding enrich
  lookup-enrich key answer alert ne d kept =
      let e = lookup-set_features text_of key alert ne kept in
      lookup-baseline_step key answer (set_features text_of alert) (λ k. rw e (d k)) ∙ e

  -- A `baseline_deviation` of zero that the caller gave counts as none: where the alert names an actor
  -- and a region other than "unknown", the answer to the baseline request takes its place.
  pub zero_deviation-enrich :
      (answer : BaselineAnswer) (alert : Alert) (actor region : String)
      → lookup "baseline_deviation" alert ≡ some (num (thousandths 0))
      → lookup "actor_user_name" alert ≡ some (str actor)
      → lookup "cloud_region" alert ≡ some (str region)
      → str_eq region "unknown" ≡ false
      → lookup "baseline_deviation" (enrich text_of answer alert)
        ≡ some (num (baseline_deviation answer region))
  unfolding enrich baseline_step set_baseline
  zero_deviation-enrich answer alert actor region d a r u =
      let other : (key : String)
          → key ≢ "severity_score"
          → is_feature key ≡ false
          → lookup key (set_features text_of alert) ≡ lookup key alert =
        λ key ne f. lookup-set_features text_of key alert ne (inr f) in
      let zero_kept =
        lookup-set_features text_of "baseline_deviation" alert
          (ground (arith, eq_iff "baseline_deviation" "severity_score"))
          (inl (unfold has_numeric_feature in rw d refl))
        ∙ d in
      let query =
        not_unknown (set_features text_of alert) actor region
          (unfold truthy in unfold truthy_number in rw zero_kept refl)
          (other "actor_user_name" (ground (arith, eq_iff "actor_user_name" "severity_score"))
              (unfold is_feature in refl)
            ∙ a)
          (other "cloud_region" (ground (arith, eq_iff "cloud_region" "severity_score"))
              (unfold is_feature in refl)
            ∙ r)
          u in
      rw query (rw lookup-insert)
