-- ===== src/Citations/Tests.antt =====
-- The parts of sample texts.
use attest.Prelude.{ℕ, ◌≡◌, refl, List, [], ◌∷◌, All, arith}
use attest.Prelude.Text.{codes}
use attest.Citations.{
  span, citation, exec, after_prefix, take_id, match_at, parts_of, render_with_citations,
}
use attest.Citations.RoundTrip.{lowered, text_of, render_with_citations-text}
use attest.Citations.Chips.{IsShown, parts_of-enough, render_with_citations-IsShown}

abbrev id_text : List ℕ
id_text = codes "0f9a3c1e-77B2-4d10-9e5f-aa01bc23de45"

abbrev note_text : List ℕ
note_text = codes "seen in [Evidence:0f9a3c1e-77B2-4d10-9e5f-aa01bc23de45] twice"

render_note :
    render_with_citations note_text
    ≡ span (codes "seen in ") ∷ citation id_text ∷ span (codes " twice") ∷ []
unfolding render_with_citations parts_of exec match_at after_prefix take_id
render_note = refl

render_short : render_with_citations (codes "[evidence:0f9a]") ≡ span (codes "[evidence:0f9a]") ∷ []
unfolding render_with_citations parts_of exec match_at after_prefix take_id
render_short = refl

render_with_citations-text_example :
    lowered (text_of (render_with_citations note_text)) ≡ lowered note_text
render_with_citations-text_example = render_with_citations-text note_text

parts_of-enough_example : parts_of 100 note_text ≡ render_with_citations note_text
parts_of-enough_example = parts_of-enough note_text 100 (omega arith)

render_with_citations-IsShown_example : All IsShown (render_with_citations note_text)
render_with_citations-IsShown_example = render_with_citations-IsShown note_text
