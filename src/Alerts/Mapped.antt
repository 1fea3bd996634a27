-- ===== src/Alerts/Mapped.antt =====
-- What the two mappers make of severities and rules.
use attest.Prelude.{
  ℕ, String, ◌≡◌, ◌≢◌, ◌↔◌, refl, ap, Option, none, some, List, [], ◌∷◌, true, false, str_eq,
  Bool-cases, inl, inr, arith,
}
use attest.Prelude.Dict.{Dict, lookup}
use attest.Prelude.Text.{codes, codes_eq, lower, is_empty}
use attest.AlertsWs.{FiredDetection}
use attest.Alerts.{Severity, critical, high, medium, low, severity_text}
use attest.Alerts.Detection.{
  given, detection_titles, detection_mitre, to_title_case, fired_detection_to_alert,
  parse_fired_detections,
}
use attest.Alerts.Detection as Fired
use attest.Alerts.Ocsf as Ocsf

codes_eq-eq : (xs ys : List ℕ) → codes_eq xs ys ≡ true → xs ≡ ys
codes_eq-eq [] [] h = refl
codes_eq-eq [] (y ∷ ys) h = absurd (ground arith)
codes_eq-eq (x ∷ xs) [] h = absurd (ground arith)
codes_eq-eq (x ∷ xs) (y ∷ ys) h = ground (arith, codes_eq-eq xs ys)

codes_eq_refl : (xs : List ℕ) → codes_eq xs xs ≡ true
codes_eq_refl [] = refl
codes_eq_refl (x ∷ xs) = ground (arith, codes_eq_refl xs)

not_word : (xs ys : List ℕ) → codes_eq xs ys ≡ false → xs ≢ ys
not_word xs ys h e = let same : codes_eq xs ys ≡ true = rw e (codes_eq_refl ys) in ground arith

no_word :
    (xs : List ℕ)
    → codes_eq xs (codes "critical") ≡ false
    → codes_eq xs (codes "high") ≡ false
    → codes_eq xs (codes "medium") ≡ false
    → codes_eq xs (codes "low") ≡ false
    → (s : Severity) → xs ≢ codes (severity_text s)
no_word xs c h m l critical = not_word xs (codes "critical") c
no_word xs c h m l high = not_word xs (codes "high") h
no_word xs c h m l medium = not_word xs (codes "medium") m
no_word xs c h m l low = not_word xs (codes "low") l

pub data Mapping (raw : String) : Severity → Severity → Type 0 where
  agreed : (s : Severity) → lower raw ≡ codes (severity_text s) → Mapping raw s s
  unknown : ((s : Severity) → lower raw ≢ codes (severity_text s)) → Mapping raw medium low

-- A severity that is one of the four words, in any case, is mapped to it by both mappers; every other
-- text is medium for a detection and low for an event.
pub map_severity-Mapping :
    (raw : String) → Mapping raw (Fired.map_severity raw) (Ocsf.map_severity (some raw))
unfolding Fired.map_severity Ocsf.map_severity
map_severity-Mapping raw = elim (Bool-cases (codes_eq (lower raw) (codes "critical"))) [
  | inl c ↦ rw c (agreed critical (codes_eq-eq (lower raw) (codes "critical") c))
  | inr c ↦ elim (Bool-cases (codes_eq (lower raw) (codes "high"))) [
    | inl h ↦ rw (c, h) (agreed high (codes_eq-eq (lower raw) (codes "high") h))
    | inr h ↦ elim (Bool-cases (codes_eq (lower raw) (codes "medium"))) [
      | inl m ↦ rw (c, h, m) (agreed medium (codes_eq-eq (lower raw) (codes "medium") m))
      | inr m ↦ elim (Bool-cases (codes_eq (lower raw) (codes "low"))) [
        | inl l ↦ rw (c, h, m, l) (agreed low (codes_eq-eq (lower raw) (codes "low") l))
        | inr l ↦ rw (c, h, m, l) (unknown (no_word (lower raw) c h m l))
      ]
    ]
  ]
]

-- Two tables of the same keys, the second with no empty text.
abbrev Paired : Dict String → Dict String → Type 0
Paired [] [] = Unit {0}
Paired ((j, v) ∷ rest) ((k, w) ∷ others) = (j ≡ k) × (is_empty w ≡ false) × Paired rest others
Paired _ _ = ⊥

data Found : Option String → Option String → Type 0 where
  neither : Found none none
  both : (v w : String) → is_empty w ≡ false → Found (some v) (some w)

lookup-Found : (k : String) (a b : Dict String) → Paired a b → Found (lookup k a) (lookup k b)
unfolding lookup
lookup-Found k [] [] p = neither
lookup-Found k [] (x ∷ b) p = elim p [ ]
lookup-Found k (x ∷ a) [] p = elim p [ ]
lookup-Found k ((i, v) ∷ a) ((j, w) ∷ b) p = elim (Bool-cases (str_eq j k)) [
  | inl here ↦ rw (p.0, here) (both v w p.1)
  | inr there ↦ rw (p.0, there) (lookup-Found k a b p.2)
]

filled-Found : (o t : Option String) → Found o t → (given "" t ≢ "") ↔ (o ≢ none)
filled-Found o t neither = (λ h e. h refl, λ h e. h refl)
filled-Found o t (both v w f) =
    (λ h e. ground arith, λ h e. let blank : is_empty w ≡ true = ap is_empty e in ground arith)

-- A rule has a title of its own exactly when it has a technique.
pub technique-title :
    (d : FiredDetection)
    → ((fired_detection_to_alert d).technique ≢ "")
      ↔ (lookup d.detection_id detection_titles ≢ none)
unfolding fired_detection_to_alert
technique-title d =
    filled-Found (lookup d.detection_id detection_titles) (lookup d.detection_id detection_mitre) (
      lookup-Found d.detection_id detection_titles detection_mitre (
        refl,
        refl,
        (
          refl,
          refl,
          (
            refl,
            refl,
            (
              refl,
              refl,
              (
                refl,
                refl,
                (refl, refl, (refl, refl, (refl, refl, (refl, refl, (refl, refl, tt))))),
              ),
            ),
          ),
        ),
      ))
