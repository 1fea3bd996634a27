-- ===== src/AlertQueue/Ages.antt =====
-- The age that a row shows.
use Prim.Native.String.{◌++◌ as text_append}
use attest.Prelude.{
  ℕ, ◌+◌, ◌-◌, ◌*◌, ◌/◌, ◌≤◌, ◌<◌, String, ◌≡◌, refl, Option, some, ltb, Bool-cases, inl, inr,
  arith, ltb→lt,
}
use attest.Prelude.Text.{decimal}
use attest.AlertQueue.{age_label, relative_time, with_t}

pub data AgeUnit : Type 0 where
  second minute hour day : AgeUnit

abbrev pub suffix : AgeUnit → String
suffix second = "s ago"
suffix minute = "m ago"
suffix hour = "h ago"
suffix day = "d ago"

abbrev pub seconds_of : AgeUnit → ℕ
seconds_of second = 1
seconds_of minute = 60
seconds_of hour = 3600
seconds_of day = 86400

-- From how many seconds on a unit is used, and up to how many.
abbrev pub IsUnitOf : AgeUnit → ℕ → Type 0
IsUnitOf second s = s < 60
IsUnitOf minute s = (60 ≤ s) × (s < 3600)
IsUnitOf hour s = (3600 ≤ s) × (s < 86400)
IsUnitOf day s = 86400 ≤ s

-- The label counts the whole units of the age, in the largest unit of which there is one.
pub record IsAge (s : ℕ) (label : String) : Type 0 where
  pub unit : AgeUnit
  pub count : ℕ
  pub label_lem : label ≡ text_append (decimal count) (suffix unit)
  pub not_more : count * seconds_of unit ≤ s
  pub not_less : s < (count + 1) * seconds_of unit
  pub largest : IsUnitOf unit s

age_label-IsAge : (s : ℕ) → IsAge s (age_label s)
unfolding age_label
age_label-IsAge s = elim (Bool-cases (ltb s 60)) [
  | inl young ↦
      let p = ltb→lt s 60 young in
      rw young (record {
        unit = second;
        count = s;
        label_lem = refl;
        not_more = omega arith;
        not_less = omega arith;
        largest = omega arith;
      })
  | inr older ↦ elim (Bool-cases (ltb (s / 60) 60)) [
    | inl m ↦
        let p = ltb→lt (s / 60) 60 m in
        rw (older, m)
          (record {
            unit = minute;
            count = s / 60;
            label_lem = refl;
            not_more = omega arith;
            not_less = omega arith;
            largest = (ground arith, omega arith);
          })
    | inr n ↦ elim (Bool-cases (ltb (s / 60 / 60) 24)) [
      | inl h ↦
          let p = ltb→lt (s / 60 / 60) 24 h in
          let q : 60 ≤ s / 60 = ground arith in
          rw (older, n, h)
            (record {
              unit = hour;
              count = s / 60 / 60;
              label_lem = refl;
              not_more = omega arith;
              not_less = omega arith;
              largest = (omega arith, omega arith);
            })
      | inr o ↦
          let q : 24 ≤ s / 60 / 60 = ground arith in
          rw (older, n, o)
            (record {
              unit = day;
              count = s / 60 / 60 / 24;
              label_lem = refl;
              not_more = omega arith;
              not_less = omega arith;
              largest = omega arith;
            })
    ]
  ]
]

-- For a time that can be read the label counts the whole units since then, none where it lies ahead, in
-- the largest unit of which there is one.
pub relative_time-IsAge :
    (date_of_text : String → Option ℕ) (iso : String) (time now : ℕ)
    → date_of_text (with_t iso) ≡ some time
    → IsAge ((now - time) / 1000) (relative_time date_of_text iso now)
unfolding relative_time
relative_time-IsAge date_of_text iso time now h = rw h (age_label-IsAge ((now - time) / 1000))
