-- ===== src/Access/Tests.antt =====
-- Requests that get in, and one that does not.
use attest.Prelude.{◌≡◌, refl, none, some, false}
use attest.Prelude.Text.{trim}
use attest.Override.{User}
use attest.Access.{
  login_with_callback, proxy, Claims, parsed, granted, ws_token, SeedEnvironment, sign_up,
  seed_analyst, seed_email,
}
use attest.Access.Guarded.{IsGranted, ws_token-IsGranted}

abbrev ada : User
ada = record { id = "u1"; email = none }

abbrev claims : Claims
claims = record { sub = "u1"; email = ""; tenant_id = "default"; case_id = "c-1"; expires_in = 60 }

granted_token : ws_token (some ada) (parsed (some " c-1 ")) ≡ granted claims
unfolding ws_token trim
granted_token = refl

ws_token-IsGranted_example : IsGranted (some ada) (parsed (some " c-1 ")) claims
ws_token-IsGranted_example =
    ws_token-IsGranted (some ada) (parsed (some " c-1 ")) claims granted_token

abbrev dev : SeedEnvironment
dev = record {
  node_env = some "development";
  allow_auth_seed = some "1";
  auth_seed_secret = some "s3";
}

seeded : seed_analyst dev (some "s3") false ≡ sign_up seed_email
unfolding seed_analyst
seeded = refl

sent_to_login : proxy "/workbench/queue" none ≡ login_with_callback "/workbench/queue"
unfolding proxy
sent_to_login = refl
