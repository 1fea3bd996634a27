-- ===== src/AuthSecret/Tests.antt =====
-- A server in production.
use attest.Prelude.{◌≡◌, refl, none, some}
use attest.AuthSecret.{Environment, resolve_auth_secret}
use attest.AuthSecret.Production.{IsSafe, resolve_auth_secret-IsSafe}

abbrev live : Environment
live = record {
  better_auth_secret = some "0123456789abcdef0123456789abcdef";
  node_env = some "production";
  next_phase = none;
}

starts : resolve_auth_secret live ≡ some "0123456789abcdef0123456789abcdef"
unfolding resolve_auth_secret
starts = refl

resolve_auth_secret-IsSafe_example : IsSafe live "0123456789abcdef0123456789abcdef"
resolve_auth_secret-IsSafe_example =
    resolve_auth_secret-IsSafe live "0123456789abcdef0123456789abcdef" refl starts
