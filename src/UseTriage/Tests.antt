-- ===== src/UseTriage/Tests.antt =====
-- Two visits of one case in a tab.
use attest.Prelude.{ℕ, ◌≡◌, refl, none, List, [], ◌∷◌, true, arith}
use attest.Prelude.Dict.{lookup, insert}
use attest.CaseStore.{
  OcsfEvent, Write, init_case, evict_if_needed, refreshed, start_triage, update_case, write,
}
use attest.UseTriage.{
  Tab, Event, mount, status, effect, store, undecided, fire, run_effect, take_status, on_hook,
  happen, step, run,
}
use attest.UseTriage.Memory.{IsApart}
use attest.UseTriage.Apart.{IsOwn, run-IsApart}

abbrev console_login : OcsfEvent
console_login = record {
  event_id = "e1";
  class_uid = none;
  time = none;
  tenant_id = none;
  actor_user_name = none;
  actor_user_uid = none;
  cloud_region = none;
  cloud_account_uid = none;
  severity = none;
  auth_status = none;
  api_operation = none;
  api_service = none;
}

abbrev new_tab : Tab
new_tab = record { clock = 1; cases = []; fired = []; hooks = []; posts = [] }

-- The second hook finds the marker of the first, and tries again when it is stale.
abbrev visits : List (ℕ × Event)
visits =
    (1, store (Write.init "c1" console_login none))
    ∷ (1, mount "c1" true)
    ∷ (1, status 0 undecided)
    ∷ (1, effect 0)
    ∷ (1, mount "c1" true)
    ∷ (1, status 1 undecided)
    ∷ (1, effect 1)
    ∷ (300000, effect 1)
    ∷ []

visits-IsOwn : IsOwn visits
visits-IsOwn = ground arith

two_posts : (run visits new_tab).posts ≡ ("c1", 300008) ∷ ("c1", 5) ∷ []
unfolding run step happen on_hook take_status run_effect fire write init_case evict_if_needed
    refreshed start_triage update_case lookup insert
two_posts = refl

run-IsApart_example : IsApart (run visits new_tab).posts
run-IsApart_example = run-IsApart visits new_tab (ground arith) refl visits-IsOwn
