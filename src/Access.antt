-- ===== src/Access.antt =====
-- Who gets in: the page guard (apps/workbench/src/proxy.ts), the token of a trace socket
-- (app/api/auth/ws-token/route.ts), the analyst of the development set-up (seed-analyst/route.ts) and
-- the end of a session (force-logout/route.ts). The session of the authentication library, the signing
-- and the table of users are inputs.
pub mod Guarded
mod Tests
use Prim.Native.String.{◌++◌ as text_append}
use attest.Prelude.{
  ℕ, String, Option, none, some, List, [], ◌∷◌, map, Bool, true, false, not, ◌&&◌, ◌||◌, str_eq,
  if◌then◌else◌,
}
use attest.Prelude.Text.{codes, prefix_of, is_empty, trim}
use attest.Override.{User}

pub data Page : Type 0 where
  next : Page
  login_with_callback : String → Page

-- The cookie of a session, as the library finds it.
abbrev without_cookie : Option String → Bool
without_cookie none = true
without_cookie (some s) = is_empty s

unfoldable pub proxy : String → Option String → Page
proxy pathname cookie =
    if not (prefix_of (codes "/workbench") (codes pathname))
    then next
    else (if without_cookie cookie then login_with_callback pathname else next)

-- What is signed, with how many seconds it is valid.
pub record Claims : Type 0 where
  pub sub : String
  pub email : String
  pub tenant_id : String
  pub case_id : String
  pub expires_in : ℕ

pub data TokenBody : Type 0 where
  invalid : TokenBody
  parsed : Option String → TokenBody

pub data TokenReply : Type 0 where
  unauthorized : TokenReply
  invalid_json : TokenReply
  case_id_required : TokenReply
  granted : Claims → TokenReply

abbrev or_blank : Option String → String
or_blank none = ""
or_blank (some s) = s

abbrev grant : User → String → TokenReply
grant user case_id =
    if is_empty case_id
    then case_id_required
    else granted (record {
      sub = user.id;
      email = or_blank user.email;
      tenant_id = "default";
      case_id = case_id;
      expires_in = 60;
    })

abbrev grant_for : User → Option String → TokenReply
grant_for user none = case_id_required
grant_for user (some case_id) = grant user (trim case_id)

unfoldable pub ws_token : Option User → TokenBody → TokenReply
ws_token none body = unauthorized
ws_token (some user) invalid = invalid_json
ws_token (some user) (parsed case_id) = grant_for user case_id

pub record SeedEnvironment : Type 0 where
  pub node_env : Option String
  pub allow_auth_seed : Option String
  pub auth_seed_secret : Option String

pub data SeedReply : Type 0 where
  not_found : SeedReply
  unauthorized : SeedReply
  present : SeedReply
  sign_up : String → SeedReply

abbrev pub seed_email : String
seed_email = "analyst@attest.local"

abbrev pub is_text : Option String → String → Bool
is_text none t = false
is_text (some s) t = str_eq s t

abbrev pub secret_ok : Option String → Option String → Bool
secret_ok none wanted = false
secret_ok (some s) none = false
secret_ok (some s) (some w) = not (is_empty s) && str_eq s w

-- `exists` is whether the user is in the table.
unfoldable pub seed_analyst : SeedEnvironment → Option String → Bool → SeedReply
seed_analyst env secret exists' =
    if is_text env.node_env "production" || not (is_text env.allow_auth_seed "1")
    then not_found
    else (if not (secret_ok secret env.auth_seed_secret)
        then unauthorized
        else (if exists' then present else sign_up seed_email))

pub record Cookie : Type 0 where
  pub name : String
  pub value : String
  pub path : String
  pub max_age : ℕ
  pub same_site : String
  pub http_only : Bool
  pub secure : Bool

abbrev pub session_cookies : List String
session_cookies =
    "better-auth.session_token" ∷ "__Secure-better-auth.session_token" ∷ "better-auth.session_data"
    ∷ "__Secure-better-auth.session_data" ∷ []

-- The cookies that both methods of the endpoint set.
unfoldable pub clear_session_cookies : List Cookie
clear_session_cookies = map cleared session_cookies
  where
    cleared : String → Cookie
    cleared name = record {
      name = name;
      value = "";
      path = "/";
      max_age = 0;
      same_site = "lax";
      http_only = true;
      secure = prefix_of (codes "__Secure-") (codes name);
    }
