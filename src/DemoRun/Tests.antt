-- ===== src/DemoRun/Tests.antt =====
-- The demo endpoint at concrete answers.
use attest.Prelude.{◌≡◌, refl, none, some, [], true, false}
use attest.Prelude.Dict.{insert, lookup}
use attest.Prelude.Text.{trim, before_comma, includes}
use attest.RateLimit.{demo_limits, rate_limited, recent, record_hit, clear_if_large, times_at}
use attest.DemoRun.{
  chosen, Upstreams, Report, read, threw, answered, answers, is_scenario, client_ip, collect,
  triage_answer, check, finish, run_scenario, demo_run, friendly_fetch_error,
}
use attest.DemoRun.Proved.{IsProved, demo_run-IsProved}

abbrev report : Report
report = record {
  ok = true;
  passed = 1;
  total = 1;
  verifying_key = "k";
  durable = true;
  results = [];
}

abbrev working : Upstreams
working = record {
  collector = threw "TypeError: fetch failed";
  triage =
      answered 200
        (read (record { action_id = some "a1"; verdict = some "benign"; execution_path = none }));
  signed =
      answers 200
        (read (record {
          agent_action_id = none;
          case_id = some "c1";
          tenant_id = none;
          verdict = none;
          execution_path = none;
          prev_hash = some "p";
          signature = some "s";
          signed_at = none;
        }))
        200 (read report);
}

proxied : client_ip (some " 10.0.0.1 , 10.0.0.2") ≡ "10.0.0.1"
unfolding client_ip trim before_comma
proxied = refl

program : Unit {0}
unfolding lookup insert trim before_comma includes rate_limited recent record_hit clear_if_large
    times_at is_scenario client_ip collect triage_answer check finish run_scenario demo_run
    friendly_fetch_error
program = tt

works : (demo_run 1000 (some "10.0.0.1") none working []).response.ok ≡ true
unfolding program
works = refl

demo_run-IsProved_example :
    ((rate_limited demo_limits 1000 (client_ip (some "10.0.0.1")) []).0 ≡ false)
    × (is_scenario (chosen none) ≡ true)
    × ((demo_run 1000 (some "10.0.0.1") none working []).status ≡ 200)
    × IsProved working (demo_run 1000 (some "10.0.0.1") none working []).response
demo_run-IsProved_example = demo_run-IsProved 1000 (some "10.0.0.1") none working [] works
