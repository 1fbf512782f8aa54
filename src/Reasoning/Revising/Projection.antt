-- ===== src/Reasoning/Revising/Projection.antt =====
-- What an appraiser is shown of a run: the participants, the signatures and the request of `ingest` of
-- src/sanuvia/application/reasoning/model_revision.py. No durable id of a participant stands in a view.
use sanuvia_reasoning_engine.Prelude.{
  String, Bool, true, false, Option, none, some, List, [], ◌∷◌, ◌++◌,
}
use sanuvia_reasoning_engine.Prelude.Tests.{if◌then◌else◌, ◌==◌, string_eq, pair_eq, nat_eq}
use sanuvia_reasoning_engine.Prelude.Lists.{contains, last?}
use sanuvia_reasoning_engine.Prelude.Dict.{Dict, get, get_list, put, keys, values}
use sanuvia_reasoning_engine.Domain.Evidence.{EvidenceRecord, EvidenceStanding, is_appraisable}
use sanuvia_reasoning_engine.Domain.Hypothesis.{
  Hypothesis, HypothesisLineage, StatementVersion, interpretation, open_stance,
}
use sanuvia_reasoning_engine.Domain.Scope.{SpaceKind, shared, personal, space_kind_of}
use sanuvia_reasoning_engine.Reasoning.Ports.{AppraisalRequest, CommitmentSignatureView}
use sanuvia_reasoning_engine.Reasoning.Handles.{HandleTable}
use sanuvia_reasoning_engine.Reasoning.Handles.Request.{build_table, build_request_views, inverse}
use sanuvia_reasoning_engine.Reasoning.Candidates.{build_divergence_candidates}
use sanuvia_reasoning_engine.Reasoning.Revising.{Scene}

abbrev is_shared : Option SpaceKind → Bool
is_shared none = false
is_shared (some shared) = true
is_shared (some personal) = false

abbrev pub may_appraise : Option EvidenceStanding → Bool
may_appraise none = true
may_appraise (some st) = is_appraisable st

-- `if id: found.append(id)`
abbrev listed : Option String → List String
listed none = []
listed (some id) = if id == "" then [] else id ∷ []

-- `next(iter(xs), None)`, or the fallback
abbrev first_or : String → List String → String
first_or fallback [] = fallback
first_or fallback (x ∷ xs) = x

abbrev ungoverned_attribution : String
ungoverned_attribution = "legacy:no-lineage-store"

-- `if x not in xs: xs.append(x)`, for each
abbrev add_missing : List String → List String → List String
add_missing xs [] = xs
add_missing xs (y ∷ ys) = add_missing (if contains y xs then xs else xs ++ y ∷ []) ys

module _ {F : Type 0} (c : Scene F) where
  abbrev or_subject : List String → List String
  or_subject [] = c.subject_id ∷ []
  or_subject (x ∷ xs) = x ∷ xs

  abbrev participants_for : Option EvidenceStanding → List String
  participants_for none = c.subject_id ∷ []
  participants_for (some st) = or_subject (listed st.source_id ++ listed st.subject_id)

  -- `deps_lineage`
  abbrev deps_lineage : String → Option HypothesisLineage
  deps_lineage hid = elim c.stored_lineages [ none ↦ none | some store ↦ get store hid ]

  abbrev subjects_of : List (Hypothesis F) → List String
  subjects_of [] = []
  subjects_of (h ∷ hs) =
      let rest = subjects_of hs in
      elim (deps_lineage h.hypothesis_id) [ none ↦ rest | some l ↦ l.signature_subject ∷ rest ]

  abbrev lineage_subjects : List String
  lineage_subjects = add_missing [] (subjects_of c.entering)

  abbrev current_version : String → Option StatementVersion
  current_version hid = elim c.stored_versions [
    | none ↦ none
    | some store ↦ last? (get_list store hid)
  ]

  abbrev label_or_id : Dict String String → String → String
  label_or_id labels id = elim (get labels id) [ none ↦ id | some label ↦ label ]

  abbrev stored_view :
      HypothesisLineage → String → Option StatementVersion → CommitmentSignatureView
  stored_view l subject none = record {
    subject = subject;
    attribution = l.attribution;
    claim_class = interpretation;
    stance = open_stance;
    temporal_scope = none;
  }
  stored_view l subject (some v) = record {
    subject = subject;
    attribution = l.attribution;
    claim_class = v.claim_class;
    stance = v.stance;
    temporal_scope = v.temporal_scope;
  }

  abbrev signature_view : HandleTable → String → CommitmentSignatureView
  signature_view t hid = elim (deps_lineage hid) [
    | none ↦ record {
      subject = first_or c.subject_id (keys t.participants);
      attribution = ungoverned_attribution;
      claim_class = interpretation;
      stance = open_stance;
      temporal_scope = none;
    }
    | some l ↦
        stored_view l (label_or_id (inverse t.participants) l.signature_subject)
          (current_version hid)
  ]

  -- `_signature_views`
  abbrev signature_views :
      HandleTable
      → Dict String CommitmentSignatureView
      → List String
      → Dict String CommitmentSignatureView
  signature_views t views [] = views
  signature_views t views (hid ∷ hids) =
      signature_views t (put views hid (signature_view t hid)) hids

  abbrev candidates_for : EvidenceRecord F → List (EvidenceRecord F)
  candidates_for evidence =
      if is_shared (space_kind_of c.space_id)
      then build_divergence_candidates evidence c.existing_divergence_pairs c.admitted_pool
      else []

  abbrev pub request_table : String → EvidenceRecord F → HandleTable
  request_table request_id evidence =
      build_table request_id evidence c.entering (candidates_for evidence)
        (add_missing (participants_for evidence.standing) lineage_subjects)

  abbrev pub request_for : HandleTable → EvidenceRecord F → AppraisalRequest
  request_for t evidence =
      let (obs_view, views) =
        build_request_views t evidence c.entering (candidates_for evidence)
          (signature_views t [] (values t.hypotheses)) in
      record {
        request_id = t.request_id;
        subject_id = c.subject_id;
        space_id = c.space_id;
        observation = obs_view;
        existing = views.0;
        divergence_candidates = views.1;
        participants = keys t.participants;
        observation_id = some evidence.id;
      }
