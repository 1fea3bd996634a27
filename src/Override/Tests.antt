-- ===== src/Override/Tests.antt =====
-- One override.
use attest.Prelude.{◌≡◌, refl, none, some}
use attest.Prelude.Json.{null}
use attest.Override.{User, Forwarded, parsed, unreachable, override_post}
use attest.Override.Attributed.{IsAttributed, override_post-IsAttributed}

abbrev ada : User
ada = record { id = "u1"; email = none }

abbrev request : Forwarded
request = record { case_id = "c1"; actor_id = "u1"; actor_email = ""; body = null }

sent_on : (override_post (some ada) "c1" (parsed null) unreachable).sent ≡ some request
unfolding override_post
sent_on = refl

override_post-IsAttributed_example : IsAttributed (some ada) "c1" (parsed null) request
override_post-IsAttributed_example =
    override_post-IsAttributed (some ada) "c1" (parsed null) unreachable request sent_on
