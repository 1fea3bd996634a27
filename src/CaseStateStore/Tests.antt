-- ===== src/CaseStateStore/Tests.antt =====
-- The dispositions at a concrete input.
use attest.Prelude.{List, [], ◌∷◌}
use attest.CaseStateStore.{Call, approve, overrule}

abbrev calls : List Call
calls = overrule "c1" "benign" 1 ∷ approve "c1" 2 ∷ []
