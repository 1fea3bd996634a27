-- ===== src/TriageRoute/Race.antt =====
-- Two requests for one case can both reach the orchestrator.
use attest.Prelude.{ℕ, String, ◌≡◌, refl, none, List, [], ◌∷◌, true}
use attest.Prelude.Dict.{lookup}
use attest.Prelude.Json.{Json, obj, field, end, truthy}
use attest.CaseRepository.{CaseTable, get_case}
use attest.TriageFeatures.{BaselineAnswer}
use attest.TriageRoute.{
  Body, reading, parsed, db_ok, baseline, open_request, decide, World, advance, Event, arrive,
  answer, step, run,
}
use attest.TriageRoute.Enriched.{decide-enrich}

-- The body `{ alert: v }`.
abbrev pub alert_body : Json → Body
alert_body v = parsed (obj (field "alert" v end))

module _ (db : CaseTable) (text_of : Json → String) where
  -- Both requests read the database and have their baselines before either has saved its snapshot and
  -- registered its run. The answer of a baseline that a request does not ask for changes nothing.
  abbrev pub overlapping :
      String → Json → Json → BaselineAnswer → BaselineAnswer → ℕ → List (Event db text_of)
  overlapping id v u a b now =
      arrive id (alert_body v)
      ∷ arrive id (alert_body u)
      ∷ answer 0 db_ok now
      ∷ answer 1 db_ok now
      ∷ answer 0 (baseline a) now
      ∷ answer 1 (baseline b) now
      ∷ answer 0 db_ok now
      ∷ answer 1 db_ok now
      ∷ answer 0 db_ok now
      ∷ answer 1 db_ok now
      ∷ []

  opened : (v : Json) → truthy v ≡ true → open_request (alert_body v) ≡ reading v
  unfolding open_request lookup
  opened v t = rw t

  -- A request for a case of which nothing is known goes on to its baseline.
  decided :
      (r : ℕ) (id : String) (v : Json) (now : ℕ) (w : World db text_of)
      → get_case db id w.table ≡ none
      → lookup id w.cache ≡ none
      → lookup id w.in_flight ≡ none
      → advance db text_of r id (reading v) db_ok now w ≡ (w, decide text_of v none none none)
  unfolding advance
  decided r id v now w row cached flight = rw (row, cached, flight) refl

  -- Two POSTs for a case that has no row, no cached result and no run in flight, with any truthy alerts,
  -- in one order of events: both read the database and get their baselines, if they ask for them,
  -- before either saves its snapshot and registers its run. Then the orchestrator is called twice for
  -- the case, although the route keeps a map of runs in flight.
  pub overlapping-calls :
      (id : String) (v u : Json) (a b : BaselineAnswer) (now : ℕ) (w : World db text_of)
      → truthy v ≡ true
      → truthy u ≡ true
      → get_case db id w.table ≡ none
      → lookup id w.cache ≡ none
      → lookup id w.in_flight ≡ none
      → (run db text_of
          (overlapping id v u a b now)
          (record { world = w; requests = [] })).world.calls
        ≡ id ∷ id ∷ w.calls
  unfolding run step
  overlapping-calls id v u a b now w t t' row cached flight =
      rw (opened v t, opened u t')
        (rw (decided 0 id v now w row cached flight) (
          rw (decided 1 id u now w row cached flight) (
            rw (decide-enrich db text_of 0 now id a w v)
              (rw (decide-enrich db text_of 1 now id b w u) (unfold advance in refl)))))
