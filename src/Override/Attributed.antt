-- ===== src/Override/Attributed.antt =====
-- Who is named for an override.
use attest.Prelude.{String, ◌≡◌, refl, Option, none, some}
use attest.Prelude.Json.{Json}
use attest.Override.{
  User, Body, invalid, parsed, Upstream, unreachable, answered, Forwarded, override_post,
}

-- A request that names the user of a session, for this case and with the body that came.
pub record IsAttributed (session : Option User) (case_id : String) (body : Body) (f : Forwarded)
    : Type 0 where
  pub user : User
  pub signed_in : session ≡ some user
  pub named : f.actor_id ≡ user.id
  pub same_case : f.case_id ≡ case_id
  pub same_body : body ≡ parsed f.body

forwarded-IsAttributed :
    (user : User) (case_id : String) (body : Json) (upstream : Upstream) (f : Forwarded)
    → (override_post (some user) case_id (parsed body) upstream).sent ≡ some f
    → IsAttributed (some user) case_id (parsed body) f
unfolding override_post
forwarded-IsAttributed user case_id body unreachable f h = record {
  user = user;
  signed_in = refl;
  named = cc;
  same_case = cc;
  same_body = cc;
}
forwarded-IsAttributed user case_id body (answered status data') f h = record {
  user = user;
  signed_in = refl;
  named = cc;
  same_case = cc;
  same_body = cc;
}

-- Whatever the orchestrator answers: what is sent to it for an override names the user of the session
-- that the request was made in, the case of the request and its body; without a session, or with a
-- body that is not JSON, nothing is sent.
pub override_post-IsAttributed :
    (session : Option User) (case_id : String) (body : Body) (upstream : Upstream) (f : Forwarded)
    → (override_post session case_id body upstream).sent ≡ some f
    → IsAttributed session case_id body f
unfolding override_post
override_post-IsAttributed none case_id body upstream f h = cc
override_post-IsAttributed (some user) case_id invalid upstream f h = cc
override_post-IsAttributed (some user) case_id (parsed body) upstream f h =
    forwarded-IsAttributed user case_id body upstream f h
