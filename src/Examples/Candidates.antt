-- ===== src/Examples/Candidates.antt =====
-- Examples of the closed set of divergence candidates.
use sanuvia_reasoning_engine.Prelude.{ℕ, ◌≡◌, ◌≤◌, refl, inl, arith, List, [], ◌∷◌}
use sanuvia_reasoning_engine.Prelude.Lists.{In, length, keep, length-keep}
use sanuvia_reasoning_engine.Domain.Errors.{ok}
use sanuvia_reasoning_engine.Domain.Evidence.{EvidenceRecord, is_participant_account}
use sanuvia_reasoning_engine.Reasoning.Validation.Edges.{comparable}
use sanuvia_reasoning_engine.Reasoning.Candidates.{
  build_divergence_candidates, is_eligible, standing_is_eligible, may_diverge, sort_by_id,
  insert_by_id,
}
use sanuvia_reasoning_engine.Reasoning.Candidates.Order.{Ascending}
use sanuvia_reasoning_engine.Reasoning.Candidates.Offered.{
  IsPartner, build_divergence_candidates_sound, build_divergence_candidates-bounded,
  build_divergence_candidates_complete, build_divergence_candidates-comparable,
}
use sanuvia_reasoning_engine.Examples.Data.{by_ann, by_bob}

abbrev admitted : List (EvidenceRecord ℕ)
admitted = by_ann ∷ by_bob ∷ []

offered : build_divergence_candidates by_bob [] admitted ≡ by_ann ∷ []
unfolding build_divergence_candidates is_eligible standing_is_eligible may_diverge sort_by_id
    insert_by_id is_participant_account
offered = refl

ann_is_offered : In by_ann (build_divergence_candidates by_bob [] admitted)
ann_is_offered = rw offered (inl refl)

build_divergence_candidates_sound_example : In by_ann admitted × IsPartner by_bob [] by_ann
build_divergence_candidates_sound_example =
    build_divergence_candidates_sound by_bob [] admitted by_ann ann_is_offered

build_divergence_candidates-comparable_example : comparable by_bob by_ann ≡ ok tt
build_divergence_candidates-comparable_example =
    build_divergence_candidates-comparable by_bob [] admitted by_ann ann_is_offered

build_divergence_candidates-bounded_example :
    (length (build_divergence_candidates by_bob [] admitted) ≤ 8)
    × Ascending (build_divergence_candidates by_bob [] admitted)
build_divergence_candidates-bounded_example = build_divergence_candidates-bounded by_bob [] admitted

ann_is_partner : IsPartner by_bob [] by_ann
ann_is_partner = (build_divergence_candidates_sound by_bob [] admitted by_ann ann_is_offered).1

few : length (keep (is_eligible by_bob [] ann_is_partner.mine) admitted) ≤ 8
few = omega (arith, length-keep (is_eligible by_bob [] ann_is_partner.mine) admitted)

build_divergence_candidates_complete_example :
    In by_ann (build_divergence_candidates by_bob [] admitted)
build_divergence_candidates_complete_example =
    build_divergence_candidates_complete by_bob [] admitted by_ann ann_is_partner few (inl refl)
