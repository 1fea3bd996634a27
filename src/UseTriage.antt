-- ===== src/UseTriage.antt =====
-- The hook that triages a case once (apps/workbench/src/hooks/use-triage.ts). A tab is the case store,
-- the module's set of fired cases, and the hooks that are or were mounted; the two effects of a hook
-- and the answers that they wait for are events, each some milliseconds after the one before, so the
-- clock does not go back. An effect reads the store as it is when the effect runs. A hook is of one
-- case, the store has been read from storage, and the loading flag is left out.
pub mod Marked
pub mod Memory
pub mod Apart
mod Tests
use attest.Prelude.{
  ℕ, ◌+◌, ◌*◌, String, Option, none, some, List, [], ◌∷◌, ◌++◌, Bool, true, false, ◌&&◌, ◌||◌, not,
  any, filter, ltb, get_elem?, set, str_eq, if◌then◌else◌,
}
use attest.Prelude.Dict.{lookup}
use attest.CaseStore.{
  Cases, CaseEntry, KafkaTraceStep, TriageStatus, TriageVerdict, Write, running, start_triage,
  set_verdict, fail_triage, write,
}

abbrev pub running_ttl_ms : ℕ
running_ttl_ms = 5 * 60 * 1000

-- `fired_ref`, `server_checked` and `error` are the hook's own; `alert` says whether it has one.
-- `mounted` is the flag of the first effect, `listening` that of the POST.
pub record Hook : Type 0 where
  pub case_id : String
  pub alert : Bool
  pub server_checked : Bool
  pub error : Option String
  pub fired_ref : Bool
  pub mounted : Bool
  pub listening : Bool

-- `posts` are the POSTs that were sent with their times, the latest first.
pub record Tab : Type 0 where
  pub clock : ℕ
  pub cases : Cases
  pub fired : List String
  pub hooks : List Hook
  pub posts : List (String × ℕ)

-- What comes of the GET of the first effect: a verdict, a failure with its text, or anything else,
-- an error included.
pub data StatusAnswer : Type 0 where
  has_verdict : TriageVerdict → StatusAnswer
  has_failed : String → StatusAnswer
  undecided : StatusAnswer

pub data PostAnswer : Type 0 where
  verdict : TriageVerdict → PostAnswer
  broken : String → PostAnswer

pub data Event : Type 0 where
  mount : String → Bool → Event
  unmount : ℕ → Event
  status : ℕ → StatusAnswer → Event
  effect : ℕ → Event
  posted : ℕ → PostAnswer → Event
  store : Write → Event

-- A step that ends a trace.
abbrev is_terminal : KafkaTraceStep → Bool
is_terminal step = str_eq step.step_kind "final_verdict" || str_eq step.step_kind "envelope"

abbrev pub is_running : TriageStatus → Bool
is_running running = true
is_running _ = false

abbrev pub or_zero : Option ℕ → ℕ
or_zero none = 0
or_zero (some t) = t

abbrev is_some {ℓ} : {A : Type ℓ} → Option A → Bool
is_some none = false
is_some (some a) = true

-- `runningIsFresh`
abbrev pub running_is_fresh : CaseEntry → ℕ → Bool
running_is_fresh entry now =
    is_running entry.triage_status
    && ltb 0 (or_zero entry.triage_started_at)
    && ltb now (or_zero entry.triage_started_at + running_ttl_ms)

-- What keeps the second effect from doing anything at all.
abbrev pub is_settled : CaseEntry → ℕ → Bool
is_settled entry now =
    is_some entry.verdict || any is_terminal entry.trace_steps || running_is_fresh entry now

abbrev pub member : String → List String → Bool
member id ids = any (λ j. str_eq j id) ids

-- `_triageFired.delete(caseId)`
abbrev pub forget : String → List String → List String
forget id ids = filter (λ j. not (str_eq j id)) ids

-- The set after a stale running marker.
abbrev pub fired_after : CaseEntry → String → List String → List String
fired_after entry id fired = if is_running entry.triage_status then forget id fired else fired

abbrev pub after_post : ℕ → Hook → ℕ → List String → Tab → Tab
after_post k hook now fired tab = record tab {
  fired = hook.case_id ∷ fired;
  cases = start_triage hook.case_id now tab.cases;
  hooks = set tab.hooks k (record hook { fired_ref = true; listening = true });
  posts = (hook.case_id, now) ∷ tab.posts;
}

-- The second effect for a case of the store, behind the check of the server.
unfoldable pub fire : ℕ → Hook → ℕ → CaseEntry → Tab → Tab
fire k hook now entry tab =
    if is_settled entry now
    then tab
    else let fired = fired_after entry hook.case_id tab.fired in
      if not hook.alert || hook.fired_ref || member hook.case_id fired
      then record tab { fired = fired }
      else after_post k hook now fired tab

abbrev pub fire_case : ℕ → Hook → ℕ → Option CaseEntry → Tab → Tab
fire_case k hook now none tab = tab
fire_case k hook now (some entry) tab = fire k hook now entry tab

-- The clean-up of the run before, then the run.
unfoldable pub run_effect : ℕ → Hook → ℕ → Tab → Tab
run_effect k hook now tab =
    let quiet = record hook { listening = false } in
    let tidy = record tab { hooks = set tab.hooks k quiet } in
    if hook.mounted && hook.server_checked
    then fire_case k quiet now (lookup hook.case_id tab.cases) tidy
    else tidy

unfoldable pub take_status : ℕ → Hook → StatusAnswer → ℕ → Tab → Tab
take_status k hook (has_verdict v) now tab = record tab {
  cases = set_verdict hook.case_id v now tab.cases;
  fired = hook.case_id ∷ tab.fired;
}
take_status k hook (has_failed message) now tab = record tab {
  cases = fail_triage hook.case_id message now tab.cases;
  hooks = set tab.hooks k (record hook { error = some message });
}
take_status k hook undecided now tab = record tab {
  hooks = set tab.hooks k (record hook { server_checked = true });
}

unfoldable pub take_post : ℕ → Hook → PostAnswer → ℕ → Tab → Tab
take_post k hook (verdict v) now tab = record tab {
  cases = set_verdict hook.case_id v now tab.cases;
}
take_post k hook (broken message) now tab = record tab {
  cases = fail_triage hook.case_id message now tab.cases;
  hooks = set tab.hooks k (if hook.listening then record hook { error = some message } else hook);
}

-- An event of a hook that is not there changes nothing; the first effect of a hook that is gone does
-- nothing.
unfoldable pub on_hook : ℕ → Event → Option Hook → ℕ → Tab → Tab
unfolding run_effect take_status take_post
on_hook k event none now tab = tab
on_hook k (unmount _) (some hook) now tab = record tab {
  hooks = set tab.hooks k (record hook { mounted = false; listening = false });
}
on_hook k (status _ answer) (some hook) now tab =
    if hook.mounted then take_status k hook answer now tab else tab
on_hook k (effect _) (some hook) now tab = run_effect k hook now tab
on_hook k (posted _ answer) (some hook) now tab = take_post k hook answer now tab
on_hook k event (some hook) now tab = tab

abbrev new_hook : String → Bool → Hook
new_hook id alert = record {
  case_id = id;
  alert = alert;
  server_checked = false;
  error = none;
  fired_ref = false;
  mounted = true;
  listening = false;
}

unfoldable pub happen : Event → ℕ → Tab → Tab
happen (mount id alert) now tab = record tab { hooks = tab.hooks ++ new_hook id alert ∷ [] }
happen (unmount k) now tab = on_hook k (unmount k) (get_elem? tab.hooks k) now tab
happen (status k answer) now tab = on_hook k (status k answer) (get_elem? tab.hooks k) now tab
happen (effect k) now tab = on_hook k (effect k) (get_elem? tab.hooks k) now tab
happen (posted k answer) now tab = on_hook k (posted k answer) (get_elem? tab.hooks k) now tab
happen (store w) now tab = record tab { cases = write w now tab.cases }

-- An event some milliseconds after the last one.
unfoldable pub step : ℕ → Event → Tab → Tab
step elapsed event tab =
    happen event (tab.clock + elapsed) (record tab { clock = tab.clock + elapsed })

-- The tab after the events, the earliest first.
unfoldable pub run : List (ℕ × Event) → Tab → Tab
run [] tab = tab
run ((elapsed, event) ∷ rest) tab = run rest (step elapsed event tab)
