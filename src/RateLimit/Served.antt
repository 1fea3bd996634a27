-- ===== src/RateLimit/Served.antt =====
-- A sequence of requests to the limiter, beside the log of what was accepted.
use attest.Prelude.{
  ℕ, ◌+◌, ◌*◌, ◌≤◌, ◌<◌, String, ◌≡◌, ◌≢◌, List, [], ◌∷◌, ◌++◌, Bool, false, ltb, leb, ◌||◌, length,
  if◌then◌else◌, arith, Bool-cases, inl, inr, str_eq, eq_iff, length-append,
}
use attest.Prelude.Dict.{insert, length-insert-le}
use attest.RateLimit.{Limits, Hits, max_keys, everyone, fresh, recent, record_hit, rate_limited}
use attest.RateLimit.Window.{
  Log, times_of, all_times, Tracks, length-fresh-le, times_of-append, all_times-append,
  fresh-append, times_of-both, all_times-both,
}

-- The decision on the log: how many requests of the address, and of everyone, are in the window.
unfoldable pub over_limit : Limits → ℕ → String → Log → Bool
over_limit limits now ip log =
    leb limits.per_ip_limit (length (fresh limits.window_ms now (times_of ip log)))
    || leb limits.global_limit (length (fresh limits.window_ms now (all_times log)))

-- The limiter refuses a request exactly when, among the requests accepted since its table was last
-- cleared, the window holds as many of the address, or as many of everyone, as the limit.
pub rate_limited-over_limit :
    (limits : Limits) (last now : ℕ) (ip : String) (hits : Hits) (log : Log)
    → Tracks limits last hits log
    → last ≤ now
    → ip ≢ everyone
    → (rate_limited limits now ip hits).0 ≡ over_limit limits now ip log
unfolding rate_limited over_limit recent
rate_limited-over_limit limits last now ip hits log t h ne =
    ground (arith, t.each ip ne now h, t.total now h)

-- The table beside the log that it stands for; a table that is cleared starts a new log. `earlier` is
-- what was accepted up to the last clearing, the request that caused it included, and `clears` counts
-- the clearings.
pub record Served : Type 0 where
  pub hits : Hits
  pub log : Log
  pub earlier : Log
  pub clears : ℕ

abbrev pub nothing_served : Served
nothing_served = record { hits = []; log = []; earlier = []; clears = 0 }

-- Everything that was accepted, whatever the table forgot.
abbrev pub accepted : Served → Log
accepted s = s.earlier ++ s.log

unfoldable pub serve_one : Limits → ℕ → String → Served → Served
serve_one limits now ip s = record {
  hits = (rate_limited limits now ip s.hits).1;
  log =
      if (rate_limited limits now ip s.hits).0
      then s.log
      else if ltb max_keys (length (record_hit limits now ip s.hits))
      then []
      else s.log ++ (ip, now) ∷ [];
  earlier =
      if (rate_limited limits now ip s.hits).0
      then s.earlier
      else if ltb max_keys (length (record_hit limits now ip s.hits))
      then s.earlier ++ (s.log ++ (ip, now) ∷ [])
      else s.earlier;
  clears =
      if (rate_limited limits now ip s.hits).0
      then s.clears
      else if ltb max_keys (length (record_hit limits now ip s.hits))
      then s.clears + 1
      else s.clears;
}

-- Requests in order: address and time.
unfoldable pub serve : Limits → List (String × ℕ) → Served → Served
serve limits [] s = s
serve limits ((ip, now) ∷ rest) s = serve limits rest (serve_one limits now ip s)

-- The clock does not go back.
abbrev pub IsOrdered : ℕ → List (String × ℕ) → Type 0
IsOrdered last [] = Unit
IsOrdered last ((ip, now) ∷ rest) = (last ≤ now) × IsOrdered now rest

abbrev pub last_time : ℕ → List (String × ℕ) → ℕ
last_time last [] = last
last_time last ((ip, now) ∷ rest) = last_time now rest

abbrev pub IsProper : List (String × ℕ) → Type 0
IsProper [] = Unit
IsProper ((ip, now) ∷ rest) = (ip ≢ everyone) × IsProper rest

pub record Within (limits : Limits) (last : ℕ) (log : Log) : Type 0 where
  pub each :
      (ip : String) (later : ℕ)
      → last ≤ later
      → length (fresh limits.window_ms later (times_of ip log)) ≤ limits.per_ip_limit
  pub total :
      (later : ℕ)
      → last ≤ later
      → length (fresh limits.window_ms later (all_times log)) ≤ limits.global_limit

pub Within-nil : (limits : Limits) (last : ℕ) → Within limits last []
Within-nil limits last = record { each = λ ip later h. omega arith; total = λ later h. omega arith }

length-fresh_one : (window later t : ℕ) → length (fresh window later (t ∷ [])) ≤ 1
length-fresh_one window later t = ground arith

length-fresh-push :
    (window now later limit : ℕ) (xs : List ℕ)
    → now ≤ later
    → length (fresh window now xs) < limit
    → length (fresh window later (xs ++ now ∷ [])) ≤ limit
length-fresh-push window now later limit xs h room = rw (fresh-append window later xs (now ∷ [])) (
    omega (
      arith,
      length-append (fresh window later xs) (fresh window later (now ∷ [])),
      length-fresh-le window now later xs h,
      length-fresh_one window later now,
    ))

pub Within-push :
    (limits : Limits) (last now : ℕ) (ip : String) (log : Log)
    → last ≤ now
    → Within limits last log
    → over_limit limits now ip log ≡ false
    → Within limits now (log ++ (ip, now) ∷ [])
unfolding over_limit
Within-push limits last now ip log h w free = record {
  each = λ j later k. elim (Bool-cases (str_eq ip j)) [
    | inl same ↦
        rw (times_of-append, same, ← (eq_iff ip j).0 same)
          (length-fresh-push limits.window_ms now later limits.per_ip_limit (times_of ip log) k
            (ground arith))
    | inr other ↦ rw (times_of-append, other) (w.each j later (omega arith))
  ];
  total = λ later k. rw all_times-append (
      length-fresh-push limits.window_ms now later limits.global_limit (all_times log) k
        (ground arith));
}

-- Of what was accepted up to the last clearing, a window holds the limit for each clearing.
pub record Earlier (limits : Limits) (last clears : ℕ) (log : Log) : Type 0 where
  pub each :
      (ip : String) (later : ℕ)
      → last ≤ later
      → length (fresh limits.window_ms later (times_of ip log)) ≤ clears * limits.per_ip_limit
  pub total :
      (later : ℕ)
      → last ≤ later
      → length (fresh limits.window_ms later (all_times log)) ≤ clears * limits.global_limit

pub Earlier-later :
    (limits : Limits) (last now clears : ℕ) (log : Log)
    → last ≤ now
    → Earlier limits last clears log
    → Earlier limits now clears log
Earlier-later limits last now clears log h e = record {
  each = λ ip later k. e.each ip later (omega arith);
  total = λ later k. e.total later (omega arith);
}

one_more : (clears limit : ℕ) → (clears + 1) * limit ≡ clears * limit + limit
one_more clears limit = ground arith

length-fresh_both :
    (window later : ℕ) (xs ys : List ℕ)
    → length (fresh window later (xs ++ ys))
      ≡ length (fresh window later xs) + length (fresh window later ys)
length-fresh_both window later xs ys =
    rw (fresh-append window later xs ys)
      (length-append (fresh window later xs) (fresh window later ys))

pub Earlier-append :
    (limits : Limits) (now clears : ℕ) (earlier log : Log)
    → Earlier limits now clears earlier
    → Within limits now log
    → Earlier limits now (clears + 1) (earlier ++ log)
Earlier-append limits now clears earlier log e w = record {
  each = λ ip later k.
      rw
        (
          times_of-both ip earlier log,
          length-fresh_both limits.window_ms later (times_of ip earlier) (times_of ip log),
          one_more clears limits.per_ip_limit,
        )
        (omega (arith, e.each ip later k, w.each ip later k));
  total = λ later k.
      rw
        (
          all_times-both earlier log,
          length-fresh_both limits.window_ms later (all_times earlier) (all_times log),
          one_more clears limits.global_limit,
        )
        (omega (arith, e.total later k, w.total later k));
}

pub length-record_hit :
    (limits : Limits) (now : ℕ) (ip : String) (hits : Hits)
    → length (record_hit limits now ip hits) ≤ length hits + 2
unfolding record_hit
length-record_hit limits now ip hits =
    let first = insert ip (recent limits now ip hits ++ now ∷ []) hits in
    omega (
      arith,
      length-insert-le ip (recent limits now ip hits ++ now ∷ []) hits,
      length-insert-le everyone (recent limits now everyone hits ++ now ∷ []) first,
    )
