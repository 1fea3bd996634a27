-- ===== src/TriageRoute/Cached.antt =====
-- A case with a cached result is not investigated again.
use attest.Prelude.{ℕ, String, ◌≡◌, some, List, [], ◌∷◌, str_eq, if◌then◌else◌, All, suc}
use attest.Prelude.Dict.{lookup}
use attest.Prelude.Json.{Json}
use attest.CaseRepository.{CaseTable}
use attest.TriageRoute.{Stage, Request, reading, waiting, done, World, Process}

-- A request that has not begun a run, or has ended.
abbrev pub IsQuiet : Stage → Type 0
IsQuiet (reading alert) = Unit
IsQuiet (waiting r) = Unit
IsQuiet (done reply) = Unit
IsQuiet _ = ⊥

abbrev pub count : String → List String → ℕ
count id [] = 0
count id (c ∷ calls) = let rest = count id calls in if str_eq c id then suc rest else rest

abbrev pub QuietFor : String → Request → Type 0
QuietFor id q = q.case_id ≡ id → IsQuiet q.stage

module _ (db : CaseTable) (text_of : Json → String) where
  -- What a step of another case leaves alone.
  record Spared (id : String) (before after : World db text_of) : Type 0 where
    cached : lookup id after.cache ≡ lookup id before.cache
    counted : count id after.calls ≡ count id before.calls

  -- The case has a cached result, and no request of it is in a run.
  pub record IsSettledFor (id : String) (d : Json) (p : Process db text_of) : Type 0 where
    pub cached : lookup id p.world.cache ≡ some d
    pub quiet : All (QuietFor id) p.requests

  record Keeps (id : String) (d : Json) (p after : Process db text_of) : Type 0 where
    settled : IsSettledFor id d after
    calls : count id after.world.calls ≡ count id p.world.calls
