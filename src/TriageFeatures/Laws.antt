-- ===== src/TriageFeatures/Laws.antt =====
-- What the enriched alert holds.
use attest.Prelude.{
  ℕ, String, ◌≡◌, ◌≢◌, refl, ◌∙◌, Option, none, some, List, [], ◌∷◌, Bool, true, false, ◌||◌, any,
  inl, inr, ◌⊎◌, str_eq, eq_iff, Option-cases, arith,
}
use attest.Prelude.Dict.{lookup, lookup-insert}
use attest.Prelude.Text.{codes}
use attest.Prelude.Number.{Number, thousandths, is_finite, le_number, max_number, le-max_number}
use attest.Prelude.Json.{Json, num, str}
use attest.Prelude.ParseFloat.{parse_or, parse_float}
use attest.TriageFeatures.{
  Alert, Defaults, severity_score, has_numeric_feature, set_feature_default, set_defaults,
  operation_defaults, text_field, number_or_zero, severity_step, class_step, hour_step, hour_digits,
  apply_operation_feature_defaults, defaults_for, set_features,
}

-- The fields that the route may write.
unfoldable pub is_feature : String → Bool
is_feature key =
    str_eq "severity_score" key
    || str_eq "baseline_deviation" key
    || str_eq "threat_intel_hit_count" key
    || str_eq "asset_criticality" key
    || str_eq "prior_disposition_ratio" key
    || str_eq "entity_reputation_score" key
    || str_eq "source_class_id" key
    || str_eq "hour_of_day" key

abbrev mentions : String → Defaults → Bool
mentions key = any (λ d. str_eq d.0 key)

mentions-operation_defaults :
    (key : String) (operation service actor : List ℕ)
    → is_feature key ≡ false
    → mentions key (operation_defaults operation service actor) ≡ false
unfolding operation_defaults is_feature
mentions-operation_defaults key operation service actor h = ground arith

-- A default that is not set, or is that of another field.
lookup-set_feature_default :
    (key : String) (d : String × Number) (alert : Alert)
    → (has_numeric_feature alert key ≡ true) ⊎ (str_eq d.0 key ≡ false)
    → lookup key (set_feature_default d alert) ≡ lookup key alert
unfolding set_feature_default has_numeric_feature
lookup-set_feature_default key (k, v) alert h =
    ground (arith, eq_iff k key, lookup-insert k key (num v) alert)

numeric_same :
    (key : String) (a b : Alert)
    → lookup key b ≡ lookup key a
    → has_numeric_feature a key ≡ true
    → has_numeric_feature b key ≡ true
unfolding has_numeric_feature
numeric_same key a b e h = rw e h

lookup-set_defaults :
    (key : String) (ds : Defaults) (alert : Alert)
    → (has_numeric_feature alert key ≡ true) ⊎ (mentions key ds ≡ false)
    → lookup key (set_defaults ds alert) ≡ lookup key alert
unfolding set_defaults
lookup-set_defaults key [] alert h = refl
lookup-set_defaults key (d ∷ ds) alert (inl numeric) =
    let e = lookup-set_feature_default key d alert (inl numeric) in
    lookup-set_defaults key ds (set_feature_default d alert)
      (inl (numeric_same key alert (set_feature_default d alert) e numeric))
    ∙ e
lookup-set_defaults key (d ∷ ds) alert (inr absent) =
    lookup-set_defaults key ds (set_feature_default d alert) (inr (ground arith))
    ∙ lookup-set_feature_default key d alert (inr (ground arith))

lookup-severity_step :
    (key : String) (alert : Alert)
    → str_eq "severity_score" key ≡ false
    → lookup key (severity_step alert) ≡ lookup key alert
unfolding severity_step
lookup-severity_step key alert h = elim (Option-cases (text_field (lookup "severity" alert))) [
  | inl absent ↦ rw absent
  | inr (s, found) ↦ rw found (rw (lookup-insert, h))
]

-- A finite number that the caller gave, or a field that is no feature.
abbrev pub IsKept : String → Alert → Type 0
IsKept key alert = (has_numeric_feature alert key ≡ true) ⊎ (is_feature key ≡ false)

lookup-class_step :
    (key : String) (alert : Alert)
    → (has_numeric_feature alert key ≡ true) ⊎ (str_eq "source_class_id" key ≡ false)
    → lookup key (class_step alert) ≡ lookup key alert
unfolding class_step has_numeric_feature
lookup-class_step key alert h = elim (Option-cases (text_field (lookup "class_uid" alert))) [
  | inl absent ↦ rw absent
  | inr (s, found) ↦ rw found (
      ground (
        arith,
        eq_iff "source_class_id" key,
        lookup-insert "source_class_id" key (num (parse_or (codes s) (thousandths 6003000))) alert,
      ))
]

lookup-hour_step :
    (key : String) (alert : Alert)
    → (has_numeric_feature alert key ≡ true) ⊎ (str_eq "hour_of_day" key ≡ false)
    → lookup key (hour_step alert) ≡ lookup key alert
unfolding hour_step has_numeric_feature
lookup-hour_step key alert h = elim (Option-cases (text_field (lookup "time" alert))) [
  | inl absent ↦ rw absent
  | inr (s, found) ↦ rw found (
      ground (
        arith,
        eq_iff "hour_of_day" key,
        lookup-insert "hour_of_day" key (num (parse_or (hour_digits s) (thousandths 12000))) alert,
      ))
]

IsKept-same :
    (key : String) (a b : Alert) → lookup key b ≡ lookup key a → IsKept key a → IsKept key b
IsKept-same key a b e (inl numeric) = inl (numeric_same key a b e numeric)
IsKept-same key a b e (inr other) = inr other

-- The two ways to be kept, at one written field.
kept_at :
    (field key : String) (alert : Alert)
    → (is_feature key ≡ false → str_eq field key ≡ false)
    → IsKept key alert
    → (has_numeric_feature alert key ≡ true) ⊎ (str_eq field key ≡ false)
kept_at field key alert f (inl numeric) = inl numeric
kept_at field key alert f (inr other) = inr (f other)

module _ (text_of : Json → String) where
  lookup-apply_defaults :
      (key : String) (alert : Alert)
      → IsKept key alert
      → lookup key (apply_operation_feature_defaults text_of alert) ≡ lookup key alert
  unfolding apply_operation_feature_defaults defaults_for
  lookup-apply_defaults key alert (inl numeric) =
      lookup-set_defaults key (defaults_for text_of alert) alert (inl numeric)
  lookup-apply_defaults key alert (inr other) =
      lookup-set_defaults key (defaults_for text_of alert) alert
        (inr (mentions-operation_defaults key _ _ _ other))

  -- Before the baseline is asked for, every field that is no feature is kept, and every feature other
  -- than `severity_score` for which the caller gave a finite number.
  pub lookup-set_features :
      (key : String) (alert : Alert)
      → key ≢ "severity_score"
      → IsKept key alert
      → lookup key (set_features text_of alert) ≡ lookup key alert
  unfolding set_features
  lookup-set_features key alert ne kept =
      let a = apply_operation_feature_defaults text_of alert in
      let e₁ = lookup-apply_defaults key alert kept in
      let e₂ = lookup-severity_step key a (ground (arith, eq_iff "severity_score" key)) ∙ e₁ in
      let k₂ = IsKept-same key alert (severity_step a) e₂ kept in
      let e₃ =
        lookup-class_step key (severity_step a) (kept_at "source_class_id" key _ not_class k₂)
        ∙ e₂ in
      let k₃ = IsKept-same key alert (class_step (severity_step a)) e₃ kept in
      lookup-hour_step key (class_step (severity_step a)) (kept_at "hour_of_day" key _ not_hour k₃)
      ∙ e₃
    where
      not_class : is_feature key ≡ false → str_eq "source_class_id" key ≡ false
      not_class h = unfold is_feature in ground arith

      not_hour : is_feature key ≡ false → str_eq "hour_of_day" key ≡ false
      not_hour h = unfold is_feature in ground arith

  text_field_of : (o : Option Json) (s : String) → o ≡ some (str s) → text_field o ≡ some s
  text_field_of o s h = rw h

  severity_field :
      (alert : Alert) (s : String)
      → lookup "severity" alert ≡ some (str s)
      → text_field (lookup "severity" (apply_operation_feature_defaults text_of alert)) ≡ some s
  severity_field alert s h =
      text_field_of _ s
        (lookup-apply_defaults "severity" alert (inr (unfold is_feature in refl)) ∙ h)

  -- Whatever the alert of a text severity holds besides, its `severity_score` with the features set is a finite
  -- number that is not below the score of the severity, nor below the score that it had before
  -- the severity was read, be it the caller's or a default.
  pub severity_score-set_features :
      (alert : Alert) (s : String)
      → lookup "severity" alert ≡ some (str s)
      → (m : Number) × (lookup "severity_score" (set_features text_of alert) ≡ some (num m))
        × (is_finite m ≡ true)
        × (le_number
              (number_or_zero
                (lookup "severity_score" (apply_operation_feature_defaults text_of alert)))
              m
            ≡ true)
        × (le_number (severity_score s) m ≡ true)
  unfolding set_features severity_step
  severity_score-set_features alert s h =
      let a = apply_operation_feature_defaults text_of alert in
      let before = number_or_zero (lookup "severity_score" a) in
      let (fin, le_before, le_score) =
        le-max_number before (severity_score s) (number_or_zero_finite (lookup "severity_score" a))
          (severity_score_finite s) in
      (
        max_number before (severity_score s),
        lookup-hour_step "severity_score" _ (inr refl)
            ∙ lookup-class_step "severity_score" _ (inr refl)
            ∙ rw (severity_field alert s h) (rw lookup-insert),
        fin,
        le_before,
        le_score,
      )
    where
      number_or_zero_finite : (o : Option Json) → is_finite (number_or_zero o) ≡ true
      number_or_zero_finite none = refl
      number_or_zero_finite (some (num n)) = ground arith
      number_or_zero_finite (some _) = refl

      severity_score_finite : (t : String) → is_finite (severity_score t) ≡ true
      severity_score_finite t = unfold severity_score in ground arith

  no_hour_default :
      (operation service actor : List ℕ)
      → mentions "hour_of_day" (operation_defaults operation service actor) ≡ false
  unfolding operation_defaults
  no_hour_default operation service actor = ground arith

  before_hour : Alert → Alert
  before_hour alert = class_step (severity_step (apply_operation_feature_defaults text_of alert))

  lookup-before_hour :
      (key : String) (alert : Alert)
      → str_eq "severity_score" key ≡ false
      → str_eq "source_class_id" key ≡ false
      → mentions key (defaults_for text_of alert) ≡ false
      → lookup key (before_hour alert) ≡ lookup key alert
  unfolding before_hour apply_operation_feature_defaults
  lookup-before_hour key alert s c d =
      let a = set_defaults (defaults_for text_of alert) alert in
      lookup-class_step key (severity_step a) (inr c)
      ∙ lookup-severity_step key a s
      ∙ lookup-set_defaults key (defaults_for text_of alert) alert (inr d)

  hour_of :
      (alert : Alert) (time : String)
      → text_field (lookup "time" alert) ≡ some time
      → has_numeric_feature alert "hour_of_day" ≡ false
      → lookup "hour_of_day" (hour_step alert)
        ≡ some (num (parse_or (hour_digits time) (thousandths 12000)))
  unfolding hour_step
  hour_of alert time found missing = rw (found, missing) (rw lookup-insert)

  -- An event of the hour after midnight, for which the caller gave no number, is sent with the hour
  -- 12: `parseFloat("00")` is 0, and `||` puts the fallback in its place.
  pub hour_of_day-midnight :
      (alert : Alert) (time : String)
      → lookup "time" alert ≡ some (str time)
      → has_numeric_feature alert "hour_of_day" ≡ false
      → hour_digits time ≡ codes "00"
      → lookup "hour_of_day" (set_features text_of alert) ≡ some (num (thousandths 12000))
  unfolding set_features before_hour defaults_for has_numeric_feature
  hour_of_day-midnight alert time h missing digits =
      hour_of (before_hour alert) time
        (text_field_of _ time (
          lookup-before_hour "time" alert refl refl
            (mentions-operation_defaults "time" _ _ _ (unfold is_feature in refl))
          ∙ h))
        (rw (lookup-before_hour "hour_of_day" alert refl refl (no_hour_default _ _ _)) missing)
      ∙ rw digits (unfold parse_or parse_float in refl)
