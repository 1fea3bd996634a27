-- ===== src/RateLimit/Safety.antt =====
-- What a sequence of requests can obtain from the limiter.
use attest.Prelude.{
  ℕ, ◌+◌, ◌*◌, ◌≤◌, String, ◌≡◌, ◌≢◌, ◌∙◌, List, [], ◌∷◌, ◌++◌, true, false, ltb, length, arith,
  Bool-cases, inl, inr, length-append,
}
use attest.RateLimit.{
  Limits, Hits, max_keys, everyone, fresh, record_hit, clear_if_large, rate_limited,
}
use attest.RateLimit.Window.{
  times_of, all_times, Tracks, Tracks-nil, Tracks-record_hit, Tracks-later,
}
use attest.RateLimit.Served.{
  over_limit, rate_limited-over_limit, Served, nothing_served, accepted, serve_one, serve,
  IsOrdered, last_time, IsProper, Within, Within-nil, Within-push, Earlier, Earlier-later,
  Earlier-append, length-record_hit,
}

record Good (limits : Limits) (last : ℕ) (s : Served) : Type 0 where
  tracks : Tracks limits last s.hits s.log
  within : Within limits last s.log
  bounded : length s.hits ≤ max_keys
  earlier : Earlier limits last s.clears s.earlier
  keys : length s.hits ≤ 2 * length s.log
  cleared : s.clears * max_keys ≤ 2 * length s.earlier

rate_limited_refused :
    (limits : Limits) (now : ℕ) (ip : String) (hits : Hits)
    → (rate_limited limits now ip hits).0 ≡ true
    → (rate_limited limits now ip hits).1 ≡ hits
unfolding rate_limited
rate_limited_refused limits now ip hits h = ground arith

rate_limited_accepted :
    (limits : Limits) (now : ℕ) (ip : String) (hits : Hits)
    → (rate_limited limits now ip hits).0 ≡ false
    → (rate_limited limits now ip hits).1 ≡ clear_if_large (record_hit limits now ip hits)
unfolding rate_limited
rate_limited_accepted limits now ip hits h = ground arith

serve_one-Good :
    (limits : Limits) (last now : ℕ) (ip : String) (s : Served)
    → last ≤ now
    → ip ≢ everyone
    → Good limits last s
    → Good limits now (serve_one limits now ip s)
unfolding serve_one clear_if_large
serve_one-Good limits last now ip s h ne g =
    let same = rate_limited-over_limit limits last now ip s.hits s.log g.tracks h ne in
    elim (Bool-cases (over_limit limits now ip s.log)) [
      | inl over ↦
          let refused = same ∙ over in
          rw (rate_limited_refused limits now ip s.hits refused, refused)
            (record {
              tracks = Tracks-later limits last now s.hits s.log h g.tracks;
              within = record {
                each = λ j later k. g.within.each j later (omega arith);
                total = λ later k. g.within.total later (omega arith);
              };
              bounded = g.bounded;
              earlier = Earlier-later limits last now s.clears s.earlier h g.earlier;
              keys = g.keys;
              cleared = g.cleared;
            })
      | inr free ↦
          let accepted = same ∙ free in
          let pushed = Within-push limits last now ip s.log h g.within free in
          let more = length-record_hit limits now ip s.hits in
          let longer = length-append s.log ((ip, now) ∷ []) in
          elim (Bool-cases (ltb max_keys (length (record_hit limits now ip s.hits)))) [
            | inl large ↦
                rw
                  (
                    rate_limited_accepted limits now ip s.hits accepted,
                    accepted,
                    clear_if_large,
                    large,
                  )
                  (record {
                    tracks = Tracks-nil limits now;
                    within = Within-nil limits now;
                    bounded = omega arith;
                    earlier =
                        Earlier-append limits now s.clears s.earlier (s.log ++ (ip, now) ∷ [])
                          (Earlier-later limits last now s.clears s.earlier h g.earlier) pushed;
                    keys = omega arith;
                    cleared =
                        rw (length-append s.earlier (s.log ++ (ip, now) ∷ []))
                          (ground (arith, g.keys, g.cleared, more, longer));
                  })
            | inr small ↦
                rw
                  (
                    rate_limited_accepted limits now ip s.hits accepted,
                    accepted,
                    clear_if_large,
                    small,
                  )
                  (record {
                    tracks = Tracks-record_hit limits last now ip s.hits s.log h g.tracks;
                    within = pushed;
                    bounded = ground arith;
                    earlier = Earlier-later limits last now s.clears s.earlier h g.earlier;
                    keys = rw longer (omega (arith, g.keys, more));
                    cleared = g.cleared;
                  })
          ]
    ]

serve-Good :
    (limits : Limits) (last : ℕ) (requests : List (String × ℕ)) (s : Served)
    → IsOrdered last requests
    → IsProper requests
    → Good limits last s
    → Good limits (last_time last requests) (serve limits requests s)
unfolding serve
serve-Good limits last [] s o p g = g
serve-Good limits last ((ip, now) ∷ rest) s o p g =
    serve-Good limits now rest (serve_one limits now ip s) o.1 p.1
      (serve_one-Good limits last now ip s o.0 p.0 g)

served-Good :
    (limits : Limits) (requests : List (String × ℕ))
    → IsOrdered 0 requests
    → IsProper requests
    → Good limits (last_time 0 requests) (serve limits requests nothing_served)
served-Good limits requests o p = serve-Good limits 0 requests nothing_served o p (record {
  tracks = Tracks-nil limits 0;
  within = Within-nil limits 0;
  bounded = omega arith;
  earlier = record { each = λ ip later k. omega arith; total = λ later k. omega arith };
  keys = omega arith;
  cleared = omega arith;
})

-- What every later window holds of all that was accepted.
pub record AllWithin (limits : Limits) (last : ℕ) (s : Served) : Type 0 where
  pub since_clear : Within limits last s.log
  pub each :
      (ip : String) (later : ℕ)
      → last ≤ later
      → length (fresh limits.window_ms later (times_of ip (accepted s)))
        ≤ (s.clears + 1) * limits.per_ip_limit
  pub total :
      (later : ℕ)
      → last ≤ later
      → length (fresh limits.window_ms later (all_times (accepted s)))
        ≤ (s.clears + 1) * limits.global_limit
  pub rare : s.clears * max_keys ≤ 2 * length (accepted s)

-- However requests come, with a clock that does not go back and no address spelled "*": at every
-- later moment the window holds, of the requests accepted since the table was last cleared, at most
-- the limit for each address and at most the global limit for all of them together; of all requests
-- that were ever accepted it holds at most as many for each time that the table was cleared, and once
-- more; and there was at most one clearing for every 5000 accepted requests, so that below 5000 the
-- limits hold as they stand.
pub serve-Within :
    (limits : Limits) (requests : List (String × ℕ))
    → IsOrdered 0 requests
    → IsProper requests
    → AllWithin limits (last_time 0 requests) (serve limits requests nothing_served)
serve-Within limits requests o p =
    let g = served-Good limits requests o p in
    let s = serve limits requests nothing_served in
    let all =
      Earlier-append limits (last_time 0 requests) s.clears s.earlier s.log g.earlier g.within in
    record {
      since_clear = g.within;
      each = all.each;
      total = all.total;
      rare = rw (length-append s.earlier s.log) (omega (arith, g.cleared));
    }

-- With a clock that does not go back and no address spelled "*", the table never keeps more than 10000
-- keys, and it always agrees with the log of what was accepted since it was last cleared.
pub serve-Tracks :
    (limits : Limits) (requests : List (String × ℕ))
    → IsOrdered 0 requests
    → IsProper requests
    → (length (serve limits requests nothing_served).hits ≤ max_keys)
      × Tracks limits
          (last_time 0 requests)
          (serve limits requests nothing_served).hits
          (serve limits requests nothing_served).log
serve-Tracks limits requests o p = let g = served-Good limits requests o p in (g.bounded, g.tracks)
