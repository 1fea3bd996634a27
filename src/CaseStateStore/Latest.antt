-- ===== src/CaseStateStore/Latest.antt =====
-- The latest word on a case decides.
use attest.Prelude.{
  String, ◌≡◌, refl, ◌∙◌, ap, Option, none, some, List, [], ◌∷◌, str_eq, if◌then◌else◌,
}
use attest.Prelude.Dict.{Dict, lookup, lookup-insert, lookup-remove}
use attest.CaseStore.{approved, override}
use attest.CaseStateStore.{
  CaseEntry, Call, approve, overrule, forget, call, run, set_approved, set_override, clear,
}

-- What one call says of a case, if it names it, on top of what was known.
unfoldable pub said : String → Call → Option CaseEntry → Option CaseEntry
said id (approve case_id now) known =
    if str_eq case_id id
    then some (record { disposition = approved; override_label = none; updated_at = now })
    else known
said id (overrule case_id label now) known =
    if str_eq case_id id
    then some (record { disposition = override; override_label = some label; updated_at = now })
    else known
said id (forget case_id) known = if str_eq case_id id then none else known

unfoldable pub last_said : String → List Call → Option CaseEntry → Option CaseEntry
last_said id [] known = known
last_said id (c ∷ rest) known = last_said id rest (said id c known)

lookup-call :
    (id : String) (c : Call) (s : Dict CaseEntry) → lookup id (call c s) ≡ said id c (lookup id s)
unfolding call said set_approved set_override clear
lookup-call id (approve case_id now) s = lookup-insert case_id id _ s
lookup-call id (overrule case_id label now) s = lookup-insert case_id id _ s
lookup-call id (forget case_id) s = lookup-remove case_id id s

-- After any calls the store holds for each case what the last call that names it said: an approval
-- drops an earlier label, and a case that was cleared has no entry.
pub lookup-run :
    (id : String) (calls : List Call) (s : Dict CaseEntry)
    → lookup id (run calls s) ≡ last_said id calls (lookup id s)
unfolding run last_said
lookup-run id [] s = refl
lookup-run id (c ∷ rest) s =
    lookup-run id rest (call c s) ∙ ap (last_said id rest) (lookup-call id c s)
