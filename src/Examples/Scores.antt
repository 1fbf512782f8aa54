-- ===== src/Examples/Scores.antt =====
-- Examples of the scores and of the handles.
use sanuvia_reasoning_engine.Prelude.{ℕ, ◌≡◌, ◌≢◌, refl, String, false, some}
use sanuvia_reasoning_engine.Domain.Errors.{ok}
use sanuvia_reasoning_engine.Reasoning.Handles.{HandleTable}
use sanuvia_reasoning_engine.Reasoning.Handles.Request.{
  mint, request_id_of, classify_unknown_evidence_handle, cross_request, at_separator,
}
use sanuvia_reasoning_engine.Reasoning.Handles.Origin.{IsSeparable, mint-request_id_of}
use sanuvia_reasoning_engine.Reasoning.Scoring.{
  make_unit, support_after_support, support_after_contradiction,
}
use sanuvia_reasoning_engine.Reasoning.Scoring.Bounds.{support_after-Moves}
use sanuvia_reasoning_engine.Examples.Engine.{thousandths, thousandths-FloatLaws}

support_after-Moves_example :
    (thousandths.lt (support_after_support thousandths 400 900 500) 400 ≡ false)
    × (thousandths.lt 400 (support_after_contradiction thousandths 400 900 500) ≡ false)
    × (make_unit thousandths (support_after_support thousandths 400 900 500)
        ≡ ok (support_after_support thousandths 400 900 500))
    × (make_unit thousandths (support_after_contradiction thousandths 400 900 500)
        ≡ ok (support_after_contradiction thousandths 400 900 500))
support_after-Moves_example =
    support_after-Moves thousandths thousandths-FloatLaws 400 900 500 (refl, refl) refl refl

mint-request_id_of_example :
    (request_id_of (mint "req-1" "E" 3) ≡ some "req-1")
    × ((t : HandleTable)
        → "req-1" ≢ t.request_id
        → classify_unknown_evidence_handle t (mint "req-1" "E" 3) ≡ cross_request)
    × ((other prefix' : String) (k : ℕ)
        → IsSeparable other
        → "req-1" ≢ other
        → mint "req-1" "E" 3 ≢ mint other prefix' k)
unfolding request_id_of at_separator
mint-request_id_of_example = mint-request_id_of "req-1" "E" 3 refl
