-- ===== src/Access/Guarded.antt =====
-- What must hold of a request that gets in.
use attest.Prelude.{
  String, ◌≡◌, ◌≢◌, refl, Option, none, some, Bool, true, false, not, ◌||◌, eq_iff, Bool-cases, inl,
  inr, if◌then◌else◌, arith,
}
use attest.Prelude.Text.{is_empty, trim}
use attest.Override.{User}
use attest.Access.{
  Claims, TokenBody, invalid, parsed, granted, ws_token, SeedEnvironment, SeedReply, sign_up,
  present, seed_email, is_text, secret_ok, seed_analyst,
}

-- A token that names the user of the session and a case that the request asked for.
pub record IsGranted (session : Option User) (body : TokenBody) (c : Claims) : Type 0 where
  pub user : User
  pub signed_in : session ≡ some user
  pub asked : String
  pub body_lem : body ≡ parsed (some asked)
  pub named : c.sub ≡ user.id
  pub of_case : c.case_id ≡ trim asked
  pub not_blank : is_empty c.case_id ≡ false
  pub short : c.expires_in ≡ 60

-- A token is granted only in a session and for a case; it names the session's user and that case,
-- without white space around it and not empty, and is valid for a minute.
pub ws_token-IsGranted :
    (session : Option User) (body : TokenBody) (c : Claims)
    → ws_token session body ≡ granted c
    → IsGranted session body c
unfolding ws_token
ws_token-IsGranted none body c h = absurd (ground arith)
ws_token-IsGranted (some user) invalid c h = absurd (ground arith)
ws_token-IsGranted (some user) (parsed none) c h = absurd (ground arith)
ws_token-IsGranted (some user) (parsed (some asked)) c h =
    elim (Bool-cases (is_empty (trim asked))) [
      | inl blank ↦ absurd (ground arith)
      | inr filled ↦ record {
        user = user;
        signed_in = refl;
        asked = asked;
        body_lem = refl;
        named = ground arith;
        of_case = ground arith;
        not_blank = ground arith;
        short = ground arith;
      }
    ]

pub record IsSeeding (env : SeedEnvironment) (secret : Option String) : Type 0 where
  pub not_production : env.node_env ≢ some "production"
  pub allowed : env.allow_auth_seed ≡ some "1"
  pub shared : String
  pub sent : secret ≡ some shared
  pub wanted : env.auth_seed_secret ≡ some shared
  pub not_blank : is_empty shared ≡ false

is_text-eq : (o : Option String) (t : String) → is_text o t ≡ true → o ≡ some t
is_text-eq none t h = absurd (ground arith)
is_text-eq (some s) t h = ground (arith, eq_iff s t)

is_text-ne : (o : Option String) (t : String) → is_text o t ≡ false → o ≢ some t
is_text-ne none t h e = ground arith
is_text-ne (some s) t h e = ground (arith, eq_iff s t)

secret_ok-shared :
    (secret wanted : Option String)
    → secret_ok secret wanted ≡ true
    → (s : String) × (secret ≡ some s) × (wanted ≡ some s) × (is_empty s ≡ false)
secret_ok-shared none wanted h = absurd (ground arith)
secret_ok-shared (some s) none h = absurd (ground arith)
secret_ok-shared (some s) (some w) h = (s, refl, ground (arith, eq_iff s w), ground arith)

-- The tests on the way to a sign-up.
on_the_way :
    (production allowed shared there : Bool) (x y : String)
    → (if production || not allowed
        then SeedReply.not_found
        else (if not shared
            then SeedReply.unauthorized
            else (if there then present else sign_up x)))
      ≡ sign_up y
    → (production ≡ false) × (allowed ≡ true) × (shared ≡ true)
on_the_way production allowed shared there x y h = (ground arith, ground arith, ground arith)

-- The endpoint that seeds an analyst signs one up only outside production, where it is switched on,
-- and for a request with the configured secret, which is not empty.
pub seed_analyst-IsSeeding :
    (env : SeedEnvironment) (secret : Option String) (there : Bool) (email : String)
    → seed_analyst env secret there ≡ sign_up email
    → IsSeeding env secret
unfolding seed_analyst
seed_analyst-IsSeeding env secret there email h =
    let way =
      on_the_way (is_text env.node_env "production") (is_text env.allow_auth_seed "1")
        (secret_ok secret env.auth_seed_secret) there seed_email email h in
    let found = secret_ok-shared secret env.auth_seed_secret way.2 in
    record {
      not_production = is_text-ne env.node_env "production" way.0;
      allowed = is_text-eq env.allow_auth_seed "1" way.1;
      shared = found.0;
      sent = found.1;
      wanted = found.2;
      not_blank = found.3;
    }
