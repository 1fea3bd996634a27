-- ===== src/Waitlist/Tests.antt =====
-- The waitlist at a concrete form.
use attest.Prelude.{String, ◌≡◌, refl, none, some, [], Bool, true, not}
use attest.Prelude.Dict.{lookup, insert}
use attest.Prelude.Text.{trim, before_comma, includes, is_empty}
use attest.RateLimit.{rate_limited, recent, record_hit, clear_if_large, times_at}
use attest.Waitlist.{
  Form, WaitlistInput, Environment, MailAnswer, answered, accepted, form, founder, role_of, trimmed,
  safe_parse, submit, submit_parsed, deliver, read_body, waitlist_post,
}
use attest.Waitlist.Delivery.{
  IsMailed, is_delivered, was_taken, waitlist_post-delivered, waitlist_post-in_production,
}

abbrev filled : Form
filled = record {
  name = some " Ada ";
  email = some "ada@example.org";
  company = none;
  role = some "founder";
  message = some "I would like to try it.";
  website = none;
}

abbrev ada : WaitlistInput
ada = record {
  name = "Ada";
  email = "ada@example.org";
  company = none;
  role = founder;
  message = "I would like to try it.";
  website = none;
}

abbrev live : Environment
live = record { api_key = some "key"; sender = none; notify_to = none; is_production = true }

abbrev any_email : String → Bool
any_email s = not (is_empty s)

abbrev unverified : MailAnswer
unverified = answered 403 "The domain is not verified"

abbrev taken : MailAnswer
taken = answered 200 ""

parsed : safe_parse any_email filled ≡ some ada
unfolding safe_parse trimmed role_of trim
parsed = refl

delivered :
    (waitlist_post any_email live unverified taken 1000 none (form filled) []).reply
    ≡ accepted (some true)
unfolding waitlist_post read_body submit_parsed submit deliver safe_parse trimmed role_of trim
    before_comma includes rate_limited recent record_hit clear_if_large times_at lookup insert
delivered = refl

waitlist_post-delivered_example :
    is_delivered (waitlist_post any_email live unverified taken 1000 none (form filled) []).reply
    ≡ was_taken
        (waitlist_post any_email live unverified taken 1000 none (form filled) []).sent
        unverified
        taken
waitlist_post-delivered_example =
    waitlist_post-delivered any_email live unverified taken 1000 none (form filled) []

waitlist_post-in_production_example :
    IsMailed
      (some true)
      (waitlist_post any_email live unverified taken 1000 none (form filled) []).sent
waitlist_post-in_production_example =
    waitlist_post-in_production any_email live unverified taken 1000 none filled ada [] (some true)
      refl parsed refl delivered
