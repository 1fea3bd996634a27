-- ===== src/CaseStateStore.antt =====
-- The store of analyst dispositions (apps/workbench/src/lib/stores/case-state-store.ts). `now` is
-- what `Date.now()` returns.
pub mod Latest
mod Tests
use attest.Prelude.{ℕ, String, Option, none, some, List, [], ◌∷◌}
use attest.Prelude.Dict.{Dict, insert, remove}
use attest.CaseStore.{Disposition, approved, override}

pub record CaseEntry : Type 0 where
  pub disposition : Disposition
  pub override_label : Option String
  pub updated_at : ℕ

unfoldable pub set_approved : String → ℕ → Dict CaseEntry → Dict CaseEntry
set_approved case_id now =
    insert case_id (record { disposition = approved; override_label = none; updated_at = now })

unfoldable pub set_override : String → String → ℕ → Dict CaseEntry → Dict CaseEntry
set_override case_id label now =
    insert case_id
      (record { disposition = override; override_label = some label; updated_at = now })

unfoldable pub clear : String → Dict CaseEntry → Dict CaseEntry
clear case_id = remove case_id

pub data Call : Type 0 where
  approve : String → ℕ → Call
  overrule : String → String → ℕ → Call
  forget : String → Call

unfoldable pub call : Call → Dict CaseEntry → Dict CaseEntry
call (approve case_id now) = set_approved case_id now
call (overrule case_id label now) = set_override case_id label now
call (forget case_id) = clear case_id

-- The cases after the calls, the earliest first.
unfoldable pub run : List Call → Dict CaseEntry → Dict CaseEntry
run [] s = s
run (c ∷ rest) s = run rest (call c s)
