-- ===== src/AuthSecret.antt =====
-- The secret that signs sessions (apps/workbench/src/lib/auth.ts, `resolveAuthSecret`).
pub mod Production
mod Tests
use attest.Prelude.{
  ℕ, String, Option, none, some, Bool, true, false, ◌&&◌, ◌||◌, not, length, ltb, str_eq,
  if◌then◌else◌,
}
use attest.Prelude.Text.{codes, is_empty}

-- `process.env`, less what `lib/auth.ts` does not read.
pub record Environment : Type 0 where
  pub better_auth_secret : Option String
  pub node_env : Option String
  pub next_phase : Option String

abbrev pub dev_auth_secret : String
dev_auth_secret = "local-dev-better-auth-secret-min-32-chars!!"

abbrev is_text : String → Option String → Bool
is_text s none = false
is_text s (some t) = str_eq t s

abbrev pub production_runtime : Environment → Bool
production_runtime env =
    is_text "production" env.node_env && not (is_text "phase-production-build" env.next_phase)

-- The length of a text is counted in code points.
abbrev weak : String → Bool
weak secret = is_empty secret || str_eq secret dev_auth_secret || ltb (length (codes secret)) 32

abbrev strong : Option String → Option String
strong none = none
strong (some secret) = if weak secret then none else some secret

abbrev or_dev : Option String → String
or_dev none = dev_auth_secret
or_dev (some secret) = secret

-- `none` where the function throws, which keeps the server from starting.
unfoldable pub resolve_auth_secret : Environment → Option String
resolve_auth_secret env =
    if not (production_runtime env)
    then some (or_dev env.better_auth_secret)
    else strong env.better_auth_secret
