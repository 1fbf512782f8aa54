-- ===== src/Examples/Lineages.antt =====
-- Examples of the stores of lineages and of their statements.
use sanuvia_reasoning_engine.Prelude.{String, ◌≡◌, ◌≢◌, ◌++◌, refl, none, some, [], ◌∷◌}
use sanuvia_reasoning_engine.Domain.Errors.{ok}
use sanuvia_reasoning_engine.Domain.Hypothesis.{
  HypothesisLineage, StatementVersion, behaviour_pattern, affirms,
}
use sanuvia_reasoning_engine.Stores.Lineages.{
  LineageStore, Bound, bound_of, add_lineage, find_by_key, IsRetrievable, add_lineage-IsRetrievable,
  add_lineage-find_by_key,
}
use sanuvia_reasoning_engine.Stores.Versions.{
  append_version, history, current, append_version-history,
}

abbrev founded : HypothesisLineage
founded = record {
  hypothesis_id = "hyp-1";
  subject_id = "couple";
  space_id = "space:shared:home";
  signature_subject = "cleo";
  attribution = "bob";
  created_at = 1;
}

abbrev second : HypothesisLineage
second = record founded { hypothesis_id = "hyp-2" }

abbrev no_lineage : LineageStore
no_lineage = record { lineages = []; by_key = [] }

abbrev one_lineage : LineageStore
one_lineage = record {
  lineages = ("hyp-1", founded) ∷ [];
  by_key = (bound_of founded, "hyp-1" ∷ []) ∷ [];
}

-- Two lineages under one bound
abbrev two_lineages : LineageStore
two_lineages = record {
  lineages = ("hyp-1", founded) ∷ ("hyp-2", second) ∷ [];
  by_key = (bound_of founded, "hyp-1" ∷ "hyp-2" ∷ []) ∷ [];
}

add_founded : add_lineage no_lineage founded ≡ ok one_lineage
unfolding add_lineage
add_founded = refl

add_second_lineage : add_lineage one_lineage second ≡ ok two_lineages
unfolding add_lineage
add_second_lineage = refl

one_lineage-IsRetrievable : IsRetrievable one_lineage
one_lineage-IsRetrievable =
    add_lineage-IsRetrievable no_lineage one_lineage founded
      (λ hid l g. cc, λ bound hid m. absurd m) add_founded

add_lineage-IsRetrievable_example : IsRetrievable two_lineages
add_lineage-IsRetrievable_example =
    add_lineage-IsRetrievable one_lineage two_lineages second one_lineage-IsRetrievable
      add_second_lineage

add_lineage-find_by_key_example :
    (find_by_key two_lineages (bound_of second)
      ≡ find_by_key one_lineage (bound_of second) ++ "hyp-2" ∷ [])
    × ((bound : Bound)
        → bound_of second ≢ bound
        → find_by_key two_lineages bound ≡ find_by_key one_lineage bound)
add_lineage-find_by_key_example =
    add_lineage-find_by_key one_lineage two_lineages second add_second_lineage

abbrev refined : StatementVersion
refined = record {
  id = "version-2";
  hypothesis_id = "hyp-1";
  statement = "She leaves early.";
  claim_class = behaviour_pattern;
  stance = affirms;
  created_at_version = "model-2";
  temporal_scope = none;
  supersedes = none;
}

append_version-history_example :
    (history (append_version [] refined) "hyp-1" ≡ history [] "hyp-1" ++ refined ∷ [])
    × (current (append_version [] refined) "hyp-1" ≡ some refined)
    × ((hid : String)
        → "hyp-1" ≢ hid
        → (history (append_version [] refined) hid ≡ history [] hid)
          × (current (append_version [] refined) hid ≡ current [] hid))
append_version-history_example = append_version-history [] refined
