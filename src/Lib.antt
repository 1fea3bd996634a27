-- ===== src/Lib.antt =====
-- Verification of the attest workbench, the web application in apps/workbench of the repository. It
-- keeps cases of security events in the browser, proxies their triage to an orchestrator, stores them
-- durably with their traces, shows the alerts of a live feed in a queue, simulates attacks, and offers
-- two open endpoints, a public demo and a waitlist.
--
-- The parts and their files; a function keeps its name, in snake case:
--
--   CaseStore        apps/workbench/src/lib/stores/case-store.ts. A write takes `cases` and the time
--                    to the `cases` that `set` installs. Evict, Capacity, Lifecycle and Trace hold its
--                    laws.
--   CaseStateStore   apps/workbench/src/lib/stores/case-state-store.ts.
--   LoadStore        apps/workbench/src/lib/stores/load-store.ts. `startRun` and `stopRun` are
--                    `start_begin` and `stop_begin` up to their `fetch`, `start_end` and `stop_end`
--                    after it, so that other steps may come between.
--   SimulateStore    apps/workbench/src/lib/stores/simulate-store.ts.
--   RateLimit        `rateLimited` of apps/workbench/src/app/api/demo/run/route.ts and of
--                    apps/workbench/src/app/api/waitlist/route.ts, which differ in constants.
--   CaseRepository   apps/workbench/src/lib/server/case-repository.ts and the row types of
--                    apps/workbench/src/types/db.ts: the cases, and in Traces their trace steps.
--   TriageFeatures   the helpers of apps/workbench/src/app/api/cases/[caseId]/triage/route.ts and the
--                    part of its POST that adds features to an alert, the baseline included. The
--                    route waits before the baseline; TriageRoute.Enriched puts the parts together.
--   TriageRoute      POST and GET of that file. A POST runs without interruption from one `await` to
--                    the next, so a request is a machine whose stages are its awaits, and a process is
--                    many requests over the cache, the map of runs in flight and the database. It uses
--                    TriageFeatures and CaseRepository.
--   DemoRun          POST of apps/workbench/src/app/api/demo/run/route.ts, over RateLimit, and
--                    `getScenario` of apps/workbench/src/lib/scenarios.ts.
--   Waitlist         apps/workbench/src/lib/waitlist.ts and POST of
--                    apps/workbench/src/app/api/waitlist/route.ts, over RateLimit.
--   AlertsWs         apps/workbench/src/hooks/use-alerts-ws.ts. The callbacks of the socket, the timer
--                    and the unmounting are events; after it, setting the component's state has no
--                    effect, while its references and the socket go on.
--   UseTriage        apps/workbench/src/hooks/use-triage.ts, over CaseStore. A tab is the store, the set
--                    of fired cases and its hooks; effects and answers are events.
--   Override         POST of apps/workbench/src/app/api/cases/[caseId]/override/route.ts.
--   TraceRoute       GET and POST of apps/workbench/src/app/api/cases/[caseId]/trace/route.ts, over
--                    CaseRepository.
--   CaseTraceWs      apps/workbench/src/hooks/use-case-trace-ws.ts, over CaseStore. The answers to the
--                    request for a token, the callbacks of the socket, the timer and the unmounting are
--                    events.
--   TraceMerge       `mergeTraceSteps` of case-workbench.tsx, the rows of reasoning-trace-viewer.tsx and
--                    of attestation-trace-panel.tsx, and the effect of case-investigation-client.tsx
--                    that posts live steps, all in apps/workbench/src/components/workbench.
--   CaseWorkbench    the approval and the override of case-workbench.tsx, over CaseStore.
--   TraceProgress    `deriveStepState` and the state of `TriagePipelineStepper` in
--                    apps/workbench/src/components/workbench/investigator-trace-stepper.tsx.
--   Citations        `renderWithCitations` of
--                    apps/workbench/src/components/workbench/reasoning-trace-viewer.tsx.
--   Alerts           apps/workbench/src/lib/mock-data.ts, in Detection lib/detection-to-alert.ts, in Ocsf
--                    lib/ocsf-to-alert.ts, and in Enrich lib/server/enrich-alert.ts over CaseRepository.
--   AlertQueue       apps/workbench/src/components/workbench/alert-queue.tsx: `AlertQueueLive` over
--                    AlertsWs and Alerts, the tabs, the ages, and the filters of the table.
--   Simulate         apps/workbench/src/app/api/simulate/: in Run route.ts, where the body of the
--                    orchestrator is any JSON value, in Verify verify/route.ts.
--   Access           apps/workbench/src/proxy.ts and, under apps/workbench/src/app/api/auth, ws-token,
--                    seed-analyst and force-logout.
--   AuthSecret       `resolveAuthSecret` of apps/workbench/src/lib/auth.ts.
--   Prelude          what all share: tests and lists over the native naturals, objects as lists of
--                    keys and values, texts, numbers, JSON values, `parseFloat`.
--
-- What stands for code outside the repository: the database, a record of the three kinds of statement
-- that the repository builds with their effect on the row of each key (`CaseTable`, which
-- CaseRepository.Memory meets, and `TraceTable`, which CaseRepository.TraceMemory meets);
-- `String(value)` and `Number(value)` of the language on a JSON value; its reading of dates, its local
-- form of a time, its `encodeURIComponent` and, in the filters of the queue, its `toLowerCase`; the
-- e-mail test of the validation library; the text of the exception that a body of other types
-- raises; the clock, the measured times, the session and the answers of other services, which are
-- inputs.
--
-- What is simplified. A finite number is a whole number of millionths, beside NaN and the infinities,
-- and `parseFloat` reads no exponent. A text is its code points: `toLowerCase` and `trim` are those of
-- ASCII, lengths count code points. An object is a list of keys and values without repetition in the
-- order of insertion, also for keys that look like numbers. Times are whole milliseconds from 0 on.
-- JSON that the source casts to a type without a check is taken to have it, where a comment says so.
-- `toFixed` rounds a tie of the decimal count up. A hook or an effect is of one case, from its mounting
-- to its unmounting. The id of a detection is none of the names that every object has.
--
-- Two definitions run on fuel: `decimal`, which prints a number and takes one round for each digit out
-- of n + 1, and `parts_of` of Citations, a round for each citation out of as many as the text is long.
-- All else recurs on a list, a text or a number. The constants are the source's: 50 cases, 300
-- snapshots, 10 simulation runs, 10000 keys of the limiter, 36 characters of a cited id, 64 of an event
-- id, delays from half a second or a second to 32 seconds.
--
-- Not modelled: the Rust services, the rendering of pages and components, the table library with its
-- sorting and pages, the persistence of the stores in the browser's storage, the statements that create
-- the tables, the payloads of the scenarios, the load page with its socket, the proxies to the control
-- plane, analytics and static text.
pub mod Prelude
pub mod CaseStore
pub mod LoadStore
pub mod SimulateStore
pub mod CaseStateStore
pub mod RateLimit
pub mod CaseRepository
pub mod TriageFeatures
pub mod TriageRoute
pub mod DemoRun
pub mod AlertsWs
pub mod Waitlist
pub mod AuthSecret
pub mod UseTriage
pub mod Override
pub mod TraceRoute
pub mod TraceProgress
pub mod Citations
pub mod Alerts
pub mod AlertQueue
pub mod Simulate
pub mod CaseTraceWs
pub mod TraceMerge
pub mod Access
pub mod CaseWorkbench
