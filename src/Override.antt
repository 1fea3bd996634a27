-- ===== src/Override.antt =====
-- The endpoint through which an analyst overrides a verdict
-- (apps/workbench/src/app/api/cases/[caseId]/override/route.ts). The session that the authentication
-- library finds and the orchestrator's answer are inputs.
pub mod Attributed
mod Tests
use attest.Prelude.{ℕ, String, Option, none, some}
use attest.Prelude.Json.{Json, str, obj, field, end}

-- `session.user`
pub record User : Type 0 where
  pub id : String
  pub email : Option String

pub data Body : Type 0 where
  invalid : Body
  parsed : Json → Body

-- The orchestrator cannot be reached, or answers with a status and, where it is JSON, a body.
pub data Upstream : Type 0 where
  unreachable : Upstream
  answered : ℕ → Option Json → Upstream

-- The request to the orchestrator.
pub record Forwarded : Type 0 where
  pub case_id : String
  pub actor_id : String
  pub actor_email : String
  pub body : Json

pub record Outcome : Type 0 where
  pub status : ℕ
  pub response : Json
  pub sent : Option Forwarded

abbrev error_body : String → Json
error_body message = obj (field "error" (str message) end)

abbrev email_of : Option String → String
email_of none = ""
email_of (some email) = email

abbrev or_invalid : Option Json → Json
or_invalid none = error_body "invalid JSON from orchestrator"
or_invalid (some data') = data'

abbrev forwarded : String → User → Json → Forwarded
forwarded case_id user body = record {
  case_id = case_id;
  actor_id = user.id;
  actor_email = email_of user.email;
  body = body;
}

abbrev relay : Upstream → Forwarded → Outcome
relay unreachable f = record {
  status = 503;
  response = error_body "orchestrator unavailable";
  sent = some f;
}
relay (answered status body) f = record {
  status = status;
  response = or_invalid body;
  sent = some f;
}

unfoldable pub override_post : Option User → String → Body → Upstream → Outcome
override_post none case_id body upstream = record {
  status = 401;
  response = error_body "unauthorized";
  sent = none;
}
override_post (some user) case_id invalid upstream = record {
  status = 400;
  response = error_body "invalid JSON";
  sent = none;
}
override_post (some user) case_id (parsed body) upstream =
    relay upstream (forwarded case_id user body)
