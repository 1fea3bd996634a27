-- ===== src/Alerts/Enriched.antt =====
-- What the persisted cases make of the alerts.
use attest.Prelude.{
  String, ◌≡◌, ◌↔◌, refl, ap, Option, none, some, List, [], ◌∷◌, map, true, All, eq_refl, false,
  ◌⊎◌, arith,
}
use attest.Prelude.Number.{Number, is_finite}
use attest.Prelude.Json.{Json, num, str, truthy}
use attest.CaseRepository.{CaseTable, RowStatus, get_case, get_cases}
use attest.CaseRepository.Batch.{IsKeyed, listed, lookup-get_cases}
use attest.Alerts.{
  Alert, in_flight, Progress, Verdict, benign, suspicious, malicious, ExecutionPath, classifier,
  llm, hybrid, investigator,
}
use attest.Alerts.Enrich.{
  field_of, present, split_words, enrich_one, enrich_all, enrich_alerts_with_persisted,
}

-- What an alert keeps, and when it is in flight and triaged.
pub record IsEnriched (status : RowStatus) (before after : Alert) : Type 0 where
  pub same_id : after.id ≡ before.id
  pub same_case : after.case_id ≡ before.case_id
  pub same_severity : after.severity ≡ before.severity
  pub same_technique : after.technique ≡ before.technique
  pub same_time : after.updated_at ≡ before.updated_at
  pub confident : is_finite before.confidence ≡ true → is_finite after.confidence ≡ true
  pub flying :
      (after.state ≡ in_flight) ↔ ((status ≡ RowStatus.running) ⊎ (before.state ≡ in_flight))
  pub done : (after.agent_status.status ≡ Progress.complete) ↔ (status ≡ RowStatus.complete)

-- The verdict that a text names.
pub record IsNamed (text : String) (v : Verdict) : Type 0 where
  pub as_malicious : (v ≡ malicious) ↔ ((text ≡ "true_positive") ⊎ (text ≡ "malicious"))
  pub as_benign : (v ≡ benign) ↔ ((text ≡ "false_positive") ⊎ (text ≡ "benign"))
  pub as_suspicious : (v ≡ suspicious) ↔ ((text ≡ "needs_investigation") ⊎ (text ≡ "suspicious"))

-- The path that a member names.
pub record IsRouted (member : Option Json) (before after : ExecutionPath) : Type 0 where
  pub to_classifier : member ≡ some (str "classifier") → after ≡ classifier
  pub to_llm : member ≡ some (str "llm") → after ≡ llm
  pub to_hybrid : member ≡ some (str "hybrid") → after ≡ hybrid
  pub unrouted : member ≡ none → after ≡ before

module _ (text_of : Json → String) (number_of : Json → Number) where
  -- A text that is read from a member: that of a truthy value, otherwise the one before.
  pub record IsRead (read : Json → String) (member : Option Json) (before after : String)
      : Type 0 where
    pub taken : (v : Json) → member ≡ some v → truthy v ≡ true → after ≡ read v
    pub unread : ((v : Json) → member ≡ some v → truthy v ≡ false) → after ≡ before

  -- The verdict that the case has, by its text; the alert's where the case has none.
  pub record IsJudged (member : Option Json) (before after : Verdict) : Type 0 where
    pub unjudged : present member ≡ none → after ≡ before
    pub judged : (v : Json) → present member ≡ some v → IsNamed (text_of v) after

  -- The texts and the verdict of an alert after its case has been merged, member by member.
  pub record IsTakenOver (event verdict : Option Json) (before after : Alert) : Type 0 where
    pub title :
        IsRead
          (λ v. split_words false (text_of v))
          (field_of event "api_operation")
          before.title
          after.title
    pub source : IsRead text_of (field_of event "api_service") before.source after.source
    pub entity : IsRead text_of (field_of event "actor_user_name") before.entity after.entity
    pub region : IsRead text_of (field_of event "cloud_region") before.region after.region
    pub judgement : IsJudged (field_of verdict "verdict") before.verdict after.verdict
    pub path :
        IsRouted (field_of verdict "execution_path") before.execution_path after.execution_path
    pub agent : (after.agent_status.agent ≡ investigator) ↔ (after.execution_path ≡ llm)
    pub confidence :
        (n : Number)
        → field_of verdict "calibrated_confidence" ≡ some (num n)
        → is_finite n ≡ true
        → after.confidence ≡ n
    pub summary_kept :
        field_of event "api_service" ≡ none
        → field_of event "cloud_region" ≡ none
        → field_of verdict "novelty_score" ≡ none
        → field_of verdict "latency_ms" ≡ none
        → after.summary ≡ before.summary

  module _ (db : CaseTable) where
    open db use {Table}

    enrich_all-each :
        (ids : List String) (t : Table) (alerts : List Alert)
        → IsKeyed db t
        → All (λ a. listed db a.case_id ids ≡ true) alerts
        → enrich_all text_of number_of (get_cases db ids t) alerts
          ≡ map (λ a. enrich_one text_of number_of (get_case db a.case_id t) a) alerts
    enrich_all-each ids t [] k l = refl
    enrich_all-each ids t (a ∷ rest) k l =
        rw (lookup-get_cases db ids t a.case_id k, l.0)
          (ap (λ r. enrich_one text_of number_of (get_case db a.case_id t) a ∷ r)
            (enrich_all-each ids t rest k l.1))

    listed_later :
        (ids : List String) (id : String) (alerts : List Alert)
        → All (λ a. listed db a.case_id ids ≡ true) alerts
        → All (λ a. listed db a.case_id (id ∷ ids) ≡ true) alerts
    unfolding listed
    listed_later ids id [] l = tt
    listed_later ids id (a ∷ rest) l = (ground (arith, l.0), listed_later ids id rest l.1)

    all_listed :
        (alerts : List Alert)
        → All (λ a. listed db a.case_id (map (λ b. b.case_id) alerts) ≡ true) alerts
    unfolding listed
    all_listed [] = tt
    all_listed (a ∷ rest) = (
      ground (arith, eq_refl a.case_id),
      listed_later (map (λ b. b.case_id) rest) a.case_id rest (all_listed rest),
    )

    -- Where rows are kept under their own keys, the one batched query gives every alert what a query
    -- for its own case would.
    pub enrich_alerts-each :
        (t : Table) (alerts : List Alert)
        → IsKeyed db t
        → enrich_alerts_with_persisted text_of number_of db true t alerts
          ≡ map (λ a. enrich_one text_of number_of (get_case db a.case_id t) a) alerts
    unfolding enrich_alerts_with_persisted
    enrich_alerts-each t [] k = refl
    enrich_alerts-each t (a ∷ rest) k =
        enrich_all-each (map (λ b. b.case_id) (a ∷ rest)) t (a ∷ rest) k (all_listed (a ∷ rest))
