-- ===== src/TriageFeatures/Tests.antt =====
-- The features at concrete alerts.
use attest.Prelude.{String, ◌≡◌, ◌≢◌, refl, none, some, [], ◌∷◌, true, false, inl, eq_iff, arith}
use attest.Prelude.Dict.{lookup, insert}
use attest.Prelude.Text.{includes, lower}
use attest.Prelude.Number.{thousandths, max_number}
use attest.Prelude.Json.{Json, num, str}
use attest.Prelude.ParseFloat.{parse_or, parse_float}
use attest.TriageFeatures.{
  Alert, enrich, truthy_field, regions, unavailable, severity_score, has_numeric_feature,
  apply_operation_feature_defaults, set_features, baseline_deviation, set_defaults,
  operation_defaults, defaults_for,
}
use attest.TriageFeatures.Laws.{is_feature}
use attest.TriageFeatures.Baseline.{lookup-enrich, zero_deviation-enrich}

-- `String(v)` of the texts that the examples hold.
abbrev pub plain_text : Json → String
plain_text (str s) = s
plain_text _ = ""

abbrev alert : Alert
alert =
    ("severity", str "High")
    ∷ ("api_operation", str "PutBucketAcl")
    ∷ ("time", str "2026-01-01T00:30:00Z")
    ∷ ("asset_criticality", num (thousandths 100))
    ∷ []

program : Unit {0}
unfolding lookup insert includes lower has_numeric_feature max_number set_defaults
    operation_defaults defaults_for apply_operation_feature_defaults severity_score set_features
    parse_or parse_float is_feature
program = tt

enriched :
    (lookup "severity_score" (set_features plain_text alert) ≡ some (num (thousandths 850)))
    × (lookup "asset_criticality" (set_features plain_text alert) ≡ some (num (thousandths 100)))
    × (lookup "hour_of_day" (set_features plain_text alert) ≡ some (num (thousandths 12000)))
unfolding program
enriched = (refl, refl, refl)

severity_found : lookup "severity" alert ≡ some (str "High")
unfolding program
severity_found = refl

time_found : lookup "time" alert ≡ some (str "2026-01-01T00:30:00Z")
unfolding program
time_found = refl

no_hour : has_numeric_feature alert "hour_of_day" ≡ false
unfolding program
no_hour = refl

criticality_given : has_numeric_feature alert "asset_criticality" ≡ true
unfolding program
criticality_given = refl

not_severity_score : ◌≢◌ {A = String} "asset_criticality" "severity_score"
not_severity_score = ground (arith, eq_iff "asset_criticality" "severity_score")

no_deviation :
    ◌≡◌ {A = String} "asset_criticality" "baseline_deviation"
    → truthy_field (lookup "asset_criticality" alert) ≡ true
no_deviation e = absurd (ground (arith, eq_iff "asset_criticality" "baseline_deviation"))

lookup-enrich_example :
    lookup "asset_criticality" (enrich plain_text unavailable alert)
    ≡ lookup "asset_criticality" alert
lookup-enrich_example =
    lookup-enrich plain_text "asset_criticality" unavailable alert not_severity_score no_deviation
      (inl criticality_given)

-- An alert of which the caller said that it does not deviate.
abbrev usual : Alert
usual =
    ("baseline_deviation", num (thousandths 0))
    ∷ ("actor_user_name", str "alice")
    ∷ ("cloud_region", str "eu-west-1")
    ∷ []

usual_fields :
    (lookup "baseline_deviation" usual ≡ some (num (thousandths 0)))
    × (lookup "actor_user_name" usual ≡ some (str "alice"))
    × (lookup "cloud_region" usual ≡ some (str "eu-west-1"))
unfolding lookup
usual_fields = (refl, refl, refl)

zero_deviation-enrich_example :
    lookup "baseline_deviation" (enrich plain_text (regions none) usual)
    ≡ some (num (baseline_deviation (regions none) "eu-west-1"))
zero_deviation-enrich_example =
    zero_deviation-enrich plain_text (regions none) usual "alice" "eu-west-1" usual_fields.0
      usual_fields.1 usual_fields.2 refl

unseen_region :
    (baseline_deviation (regions (some ("us-east-1" ∷ []))) "eu-west-1" ≡ thousandths 1000)
    × (baseline_deviation unavailable "eu-west-1" ≡ thousandths 0)
unfolding baseline_deviation
unseen_region = (refl, refl)
