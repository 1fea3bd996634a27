-- ===== src/RateLimit/Tests.antt =====
-- The limiter on short runs, and its theorems at concrete inputs.
use attest.Prelude.{ℕ, ◌≤◌, String, ◌≡◌, ◌≢◌, refl, List, [], ◌∷◌, length, eq_iff, arith}
use attest.Prelude.Dict.{lookup, insert}
use attest.RateLimit.{
  waitlist_limits, max_keys, times_at, recent, record_hit, clear_if_large, rate_limited,
}
use attest.RateLimit.Window.{Tracks}
use attest.RateLimit.Served.{nothing_served, serve_one, serve}
use attest.RateLimit.Safety.{AllWithin, serve-Within, serve-Tracks}

abbrev burst : List (String × ℕ)
burst = ("ip", 1000) ∷ ("ip", 1001) ∷ ("ip", 1002) ∷ ("ip", 1003) ∷ []

-- The fourth request within the hour is refused.
fourth_refused :
    (serve waitlist_limits burst nothing_served).log
    ≡ ("ip", 1000) ∷ ("ip", 1001) ∷ ("ip", 1002) ∷ []
unfolding serve serve_one rate_limited record_hit clear_if_large recent times_at lookup insert
fourth_refused = refl

not_everyone : ◌≢◌ {A = String} "ip" "*"
not_everyone = ground (arith, eq_iff "ip" "*")

serve-Within_example : AllWithin waitlist_limits 1003 (serve waitlist_limits burst nothing_served)
serve-Within_example =
    serve-Within waitlist_limits burst (omega arith)
      (not_everyone, (not_everyone, (not_everyone, (not_everyone, tt))))

serve-Tracks_example :
    (length (serve waitlist_limits burst nothing_served).hits ≤ max_keys)
    × Tracks waitlist_limits 1003
        (serve waitlist_limits burst nothing_served).hits
        (serve waitlist_limits burst nothing_served).log
serve-Tracks_example =
    serve-Tracks waitlist_limits burst (omega arith)
      (not_everyone, (not_everyone, (not_everyone, (not_everyone, tt))))
