-- ===== src/Reasoning/Candidates.antt =====
-- `build_divergence_candidates` of src/sanuvia/application/reasoning/handles.py: the closed set of the
-- divergence partners that one observation is offered. `F` is the type of the program's floats.
pub mod Offered
pub mod Order
use sanuvia_reasoning_engine.Prelude.{
  ℕ, String, Bool, true, false, not, ◌&&◌, ◌||◌, Option, none, some, List, [], ◌∷◌,
}
use sanuvia_reasoning_engine.Prelude.Tests.{◌==◌, if◌then◌else◌, string_eq, pair_eq, option_eq}
use sanuvia_reasoning_engine.Prelude.Lists.{keep, contains, take_last}
use sanuvia_reasoning_engine.Prelude.Text.{text_gt}
use sanuvia_reasoning_engine.Domain.Evidence.{
  EvidenceRecord, EvidenceStanding, is_participant_account, is_dyad_or_third_party,
}

abbrev pub max_divergence_candidates : ℕ
max_divergence_candidates = 8

-- `tuple(sorted((a, b)))`
abbrev pub sorted_pair : String → String → String × String
sorted_pair a b = if text_gt a b then (b, a) else (a, b)

-- An account of one participant, and of neither a dyad nor a third party.
unfoldable pub may_diverge : EvidenceStanding → Bool
may_diverge st = is_participant_account st && not (is_dyad_or_third_party st.subject_kind)

module _ {F : Type 0} where
  -- `sorted(records, key=lambda r: str(r.id))`, which is stable
  unfoldable pub insert_by_id : EvidenceRecord F → List (EvidenceRecord F) → List (EvidenceRecord F)
  insert_by_id r [] = r ∷ []
  insert_by_id r (s ∷ ss) =
      let rest = insert_by_id r ss in if text_gt r.id s.id then s ∷ rest else r ∷ s ∷ ss

  unfoldable pub sort_by_id : List (EvidenceRecord F) → List (EvidenceRecord F)
  sort_by_id [] = []
  sort_by_id (r ∷ rs) = insert_by_id r (sort_by_id rs)

module _ {F : Type 0} (observation : EvidenceRecord F)
    (existing_pairs : List (String × String)) where
  -- The rules 3, 6, 4, 5 and 6b for a standing.
  unfoldable pub standing_is_eligible : EvidenceStanding → String → EvidenceStanding → Bool
  standing_is_eligible obs_standing rid st =
      may_diverge st
      && st.subject_id == obs_standing.subject_id
      && not (st.source_id == obs_standing.source_id)
      && not (contains (sorted_pair observation.id rid) existing_pairs)

  unfoldable pub is_eligible : EvidenceStanding → EvidenceRecord F → Bool
  is_eligible obs_standing rec =
      not (rec.id == observation.id)
      && elim rec.standing [ none ↦ false | some st ↦ standing_is_eligible obs_standing rec.id st ]

  unfoldable pub build_divergence_candidates : List (EvidenceRecord F) → List (EvidenceRecord F)
  build_divergence_candidates admitted = elim observation.standing [
    | none ↦ []
    | some st ↦
        if not (may_diverge st)
        then []
        else sort_by_id (take_last max_divergence_candidates (keep (is_eligible st) admitted))
  ]
