-- ===== src/RateLimit.antt =====
-- `rateLimited`, the sliding-window limiter that the two open endpoints carry
-- (apps/workbench/src/app/api/demo/run/route.ts and apps/workbench/src/app/api/waitlist/route.ts). The
-- two copies differ in their constants, which are `Limits` here; `now` is what `Date.now()` returns.
pub mod Window
pub mod Served
pub mod Safety
mod Tests
use Prim.Native.String.{String}
use attest.Prelude.{
  ℕ, ◌+◌, ◌*◌, Option, none, some, List, [], ◌∷◌, ◌++◌, Bool, true, false, ◌||◌, ltb, leb, length,
  filter, if◌then◌else◌,
}
use attest.Prelude.Dict.{Dict, lookup, insert}

pub record Limits : Type 0 where
  pub window_ms : ℕ
  pub per_ip_limit : ℕ
  pub global_limit : ℕ

abbrev pub demo_limits : Limits
demo_limits = record { window_ms = 60000; per_ip_limit = 5; global_limit = 60 }

abbrev pub waitlist_limits : Limits
waitlist_limits = record { window_ms = 60 * 60 * 1000; per_ip_limit = 3; global_limit = 30 }

-- `hits`: for each key the times of its accepted requests.
abbrev pub Hits : Type 0
Hits = Dict (List ℕ)

abbrev pub max_keys : ℕ
max_keys = 10000

-- The key under which every accepted request is counted.
abbrev pub everyone : String
everyone = "*"

-- `times ?? []`
abbrev pub or_empty : Option (List ℕ) → List ℕ
or_empty none = []
or_empty (some times) = times

unfoldable pub times_at : String → Hits → List ℕ
times_at key hits = or_empty (lookup key hits)

-- `now - t < WINDOW_MS`, also where the clock went back.
abbrev pub fresh : ℕ → ℕ → List ℕ → List ℕ
fresh window now = filter (λ t. ltb now (t + window))

unfoldable pub recent : Limits → ℕ → String → Hits → List ℕ
recent limits now key hits = fresh limits.window_ms now (times_at key hits)

-- The two `hits.set` calls, then the clearing of a table that has grown too large.
unfoldable pub record_hit : Limits → ℕ → String → Hits → Hits
record_hit limits now ip hits =
    insert everyone (recent limits now everyone hits ++ now ∷ [])
      (insert ip (recent limits now ip hits ++ now ∷ []) hits)

unfoldable pub clear_if_large : Hits → Hits
clear_if_large hits = if ltb max_keys (length hits) then [] else hits

-- Whether the request is refused, and the table after it.
unfoldable pub rate_limited : Limits → ℕ → String → Hits → Bool × Hits
rate_limited limits now ip hits =
    if leb limits.per_ip_limit (length (recent limits now ip hits))
      || leb limits.global_limit (length (recent limits now everyone hits))
    then (true, hits)
    else (false, clear_if_large (record_hit limits now ip hits))
