-- ===== src/TriageRoute/Enriched.antt =====
-- The stages between the look-ups of a request and the saving of its case, against the alert that they
-- make in one piece.
use attest.Prelude.{ℕ, String, ◌≡◌, refl, Option, none, some}
use attest.Prelude.Json.{Json, spread}
use attest.CaseRepository.{CaseTable}
use attest.TriageFeatures.{
  Alert, BaselineAnswer, set_features, baseline_query, baseline_step, asked_baseline, enrich,
}
use attest.TriageRoute.{World, saving, baseline, after_enrich, decide, advance}

module _ (db : CaseTable) (text_of : Json → String) where
  after_enrich-saving :
      (r now : ℕ) (id : String) (answer : BaselineAnswer) (w : World db text_of) (alert : Alert)
      (query : Option (String × String))
      → advance db text_of r id (after_enrich alert query) (baseline answer) now w
        ≡ (w, saving (asked_baseline answer alert query))
  unfolding advance
  after_enrich-saving r now id answer w alert none = refl
  after_enrich-saving r now id answer w alert (some (actor, region)) = refl

  -- A request that finds no result and no run of its case saves the enriched alert, whether it has to
  -- ask for the baseline or not.
  pub decide-enrich :
      (r now : ℕ) (id : String) (answer : BaselineAnswer) (w : World db text_of) (alert : Json)
      → advance db text_of r id (decide text_of alert none none none) (baseline answer) now w
        ≡ (w, saving (enrich text_of answer (spread alert)))
  unfolding enrich baseline_step
  decide-enrich r now id answer w alert =
      let a = set_features text_of (spread alert) in
      after_enrich-saving r now id answer w a (baseline_query a)
