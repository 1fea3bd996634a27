-- ===== src/SimulateStore/Tests.antt =====
-- The simulate history at a concrete input.
use attest.Prelude.{ℕ, none}
use attest.Prelude.Number.{thousandths}
use attest.SimulateStore.{SimRun}

abbrev sim : ℕ → SimRun
sim n = record {
  ts = n;
  scenario_id = "geo_anomaly";
  verdict = "benign";
  latency_ms = thousandths 3000;
  confidence = none;
}
