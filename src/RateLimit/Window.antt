-- ===== src/RateLimit/Window.antt =====
-- The sliding window against a log of every accepted request.
use attest.Prelude.{
  ℕ, ◌≤◌, String, ◌≡◌, ◌≢◌, refl, ap, ◌∙◌, sym, List, [], ◌∷◌, ◌++◌, false, length, str_eq, eq_iff,
  if◌then◌else◌, arith, Bool-cases, inl, inr,
}
use attest.Prelude.Dict.{lookup, lookup-insert}
use attest.RateLimit.{Limits, Hits, everyone, times_at, fresh, recent, record_hit}

-- Accepted requests, the earliest first: the address and the time.
abbrev pub Log : Type 0
Log = List (String × ℕ)

abbrev pub times_of : String → Log → List ℕ
times_of ip [] = []
times_of ip ((k, t) ∷ log) = let rest = times_of ip log in if str_eq k ip then t ∷ rest else rest

abbrev pub all_times : Log → List ℕ
all_times [] = []
all_times ((k, t) ∷ log) = t ∷ all_times log

-- What a window that has moved on keeps of an earlier one is what it keeps of everything.
fresh-fresh :
    (window now later : ℕ) (xs : List ℕ)
    → now ≤ later
    → fresh window later (fresh window now xs) ≡ fresh window later xs
fresh-fresh window now later [] h = refl
fresh-fresh window now later (t ∷ xs) h = ground (arith, fresh-fresh window now later xs h)

pub fresh-append :
    (window now : ℕ) (xs ys : List ℕ)
    → fresh window now (xs ++ ys) ≡ fresh window now xs ++ fresh window now ys
fresh-append window now [] ys = refl
fresh-append window now (t ∷ xs) ys = ground (arith, fresh-append window now xs ys)

pub length-fresh-le :
    (window now later : ℕ) (xs : List ℕ)
    → now ≤ later
    → length (fresh window later xs) ≤ length (fresh window now xs)
length-fresh-le window now later [] h = omega arith
length-fresh-le window now later (t ∷ xs) h = ground (arith, length-fresh-le window now later xs h)

pub times_of-append :
    (ip k : String) (t : ℕ) (log : Log)
    → times_of ip (log ++ (k, t) ∷ [])
      ≡ (if str_eq k ip then times_of ip log ++ t ∷ [] else times_of ip log)
times_of-append ip k t [] = ground arith
times_of-append ip k t ((j, u) ∷ log) = ground (arith, times_of-append ip k t log)

pub all_times-append :
    (k : String) (t : ℕ) (log : Log) → all_times (log ++ (k, t) ∷ []) ≡ all_times log ++ t ∷ []
all_times-append k t [] = refl
all_times-append k t ((j, u) ∷ log) = ap (◌∷◌ u) (all_times-append k t log)

pub times_of-both :
    (ip : String) (xs ys : Log) → times_of ip (xs ++ ys) ≡ times_of ip xs ++ times_of ip ys
times_of-both ip [] ys = refl
times_of-both ip ((j, u) ∷ xs) ys = ground (arith, times_of-both ip xs ys)

pub all_times-both : (xs ys : Log) → all_times (xs ++ ys) ≡ all_times xs ++ all_times ys
all_times-both [] ys = refl
all_times-both ((j, u) ∷ xs) ys = ap (◌∷◌ u) (all_times-both xs ys)

-- From `now` on, the window over a list `xs` is the window over `ys`.
abbrev pub SameWindow : ℕ → ℕ → List ℕ → List ℕ → Type 0
SameWindow window now xs ys =
    (later : ℕ) → now ≤ later → fresh window later xs ≡ fresh window later ys

SameWindow-push :
    (window last now : ℕ) (xs ys : List ℕ)
    → last ≤ now
    → SameWindow window last xs ys
    → SameWindow window now (fresh window now xs ++ now ∷ []) (ys ++ now ∷ [])
SameWindow-push window last now xs ys h same later k =
    fresh-append window later (fresh window now xs) (now ∷ [])
    ∙ ap (λ (l : List ℕ). l ++ fresh window later (now ∷ []))
        (fresh-fresh window now later xs k ∙ same later (omega arith))
    ∙ sym (fresh-append window later ys (now ∷ []))

SameWindow-later :
    (window last now : ℕ) (xs ys : List ℕ)
    → last ≤ now
    → SameWindow window last xs ys
    → SameWindow window now xs ys
SameWindow-later window last now xs ys h same later k = same later (omega arith)

-- The table agrees with the log of what was accepted since the table was last cleared. An address
-- that is spelled "*" shares the list of everyone.
pub record Tracks (limits : Limits) (last : ℕ) (hits : Hits) (log : Log) : Type 0 where
  pub each :
      (ip : String)
      → ip ≢ everyone
      → SameWindow limits.window_ms last (times_at ip hits) (times_of ip log)
  pub total : SameWindow limits.window_ms last (times_at everyone hits) (all_times log)

pub Tracks-nil : (limits : Limits) (last : ℕ) → Tracks limits last [] []
unfolding times_at lookup
Tracks-nil limits last = record { each = λ ip ne later k. refl; total = λ later k. refl }

times_at-record_hit :
    (limits : Limits) (now : ℕ) (ip j : String) (hits : Hits)
    → times_at j (record_hit limits now ip hits) ≡ (
        if str_eq everyone j
        then recent limits now everyone hits ++ now ∷ []
        else if str_eq ip j
        then recent limits now ip hits ++ now ∷ []
        else times_at j hits)
unfolding times_at record_hit
times_at-record_hit limits now ip j hits = rw (lookup-insert, lookup-insert) (ground arith)

pub Tracks-record_hit :
    (limits : Limits) (last now : ℕ) (ip : String) (hits : Hits) (log : Log)
    → last ≤ now
    → Tracks limits last hits log
    → Tracks limits now (record_hit limits now ip hits) (log ++ (ip, now) ∷ [])
unfolding recent
Tracks-record_hit limits last now ip hits log h t = record {
  each = λ j ne. elim (Bool-cases (str_eq ip j)) [
    | inl same ↦
        rw (times_at-record_hit, times_of-append, star ne, same, ← (eq_iff ip j).0 same)
          (SameWindow-push limits.window_ms last now (times_at ip hits) (times_of ip log) h
            (t.each ip (λ p. ne (sym ((eq_iff ip j).0 same) ∙ p))))
    | inr other ↦
        rw (times_at-record_hit, times_of-append, star ne, other)
          (SameWindow-later limits.window_ms last now (times_at j hits) (times_of j log) h
            (t.each j ne))
  ];
  total =
      rw (times_at-record_hit, all_times-append)
        (SameWindow-push limits.window_ms last now (times_at everyone hits) (all_times log) h
          t.total);
}
  where
    star : {j : String} → j ≢ everyone → str_eq everyone j ≡ false
    star {j} ne = ground (arith, eq_iff everyone j)

pub Tracks-later :
    (limits : Limits) (last now : ℕ) (hits : Hits) (log : Log)
    → last ≤ now
    → Tracks limits last hits log
    → Tracks limits now hits log
Tracks-later limits last now hits log h t = record {
  each = λ ip ne later k. t.each ip ne later (omega arith);
  total = λ later k. t.total later (omega arith);
}
