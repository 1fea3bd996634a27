-- ===== src/AuthSecret/Production.antt =====
-- What a server in production signs with.
use attest.Prelude.{
  String, ◌≡◌, ◌≢◌, some, true, length, ◌≤◌, eq_iff, Option-cases, inl, inr, arith,
}
use attest.Prelude.Text.{codes}
use attest.AuthSecret.{Environment, dev_auth_secret, production_runtime, resolve_auth_secret}

-- A secret that is the configured one, of 32 characters or more, and not the one of the repository.
pub record IsSafe (env : Environment) (secret : String) : Type 0 where
  pub configured : env.better_auth_secret ≡ some secret
  pub long : 32 ≤ length (codes secret)
  pub private_one : secret ≢ dev_auth_secret

-- A server that runs in production, and is not merely built, either does not start or signs with the
-- secret of its environment, which then has 32 characters or more and is not the public one.
pub resolve_auth_secret-IsSafe :
    (env : Environment) (secret : String)
    → production_runtime env ≡ true
    → resolve_auth_secret env ≡ some secret
    → IsSafe env secret
unfolding resolve_auth_secret
resolve_auth_secret-IsSafe env secret live h = elim (Option-cases env.better_auth_secret) [
  | inl missing ↦ absurd (ground arith)
  | inr (s, given) ↦ ground (arith, eq_iff s dev_auth_secret)
]
