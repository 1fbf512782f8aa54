-- ===== src/Reasoning/Handles/Request.antt =====
-- The construction of a request's table and views in src/sanuvia/application/reasoning/handles.py. `F` is the
-- type of the program's floats.
use Prim.Native.String.{◌++◌ as append_text}
use mathlib.Core.Option
use sanuvia_reasoning_engine.Prelude.{
  ℕ, suc, String, Bool, false, Option, none, some, List, [], ◌∷◌, map,
}
use sanuvia_reasoning_engine.Prelude.Tests.{if◌then◌else◌, ◌==◌, string_eq}
use sanuvia_reasoning_engine.Prelude.Text.{text_gt}
use sanuvia_reasoning_engine.Prelude.Numerals.{decimal}
use sanuvia_reasoning_engine.Prelude.Dict.{Dict, get, put}
use sanuvia_reasoning_engine.Domain.Evidence.{EvidenceRecord, EvidenceStanding}
use sanuvia_reasoning_engine.Domain.Hypothesis.{Hypothesis}
use sanuvia_reasoning_engine.Reasoning.Ports.{
  EvidenceStandingView, ObservationView, HypothesisView, EvidenceCandidateView,
  CommitmentSignatureView,
}
use sanuvia_reasoning_engine.Reasoning.Handles.{HandleTable}

-- `_mint`
unfoldable pub mint : String → String → ℕ → String
mint request_id prefix n =
    append_text request_id (append_text "::" (append_text prefix (decimal n)))

-- The text begins with the separator.
unfoldable pub at_separator : String → Bool
at_separator String.[] = false
at_separator (String.◌∷◌ c String.[]) = false
at_separator (String.◌∷◌ c (String.◌∷◌ d s)) = String.◌∷◌ c (String.◌∷◌ d "") == "::"

-- `_request_id_of`: what stands before the first separator
unfoldable pub request_id_of : String → Option String
request_id_of String.[] = none
request_id_of (String.◌∷◌ c s) =
    let rest = Option.map (λ front. String.◌∷◌ c front) (request_id_of s) in
    if at_separator (String.◌∷◌ c s) then some "" else rest

pub data UnknownHandle : Type 0 where
  cross_request never_issued : UnknownHandle

unfoldable pub classify_unknown_evidence_handle : HandleTable → String → UnknownHandle
classify_unknown_evidence_handle t handle = elim (request_id_of handle) [
  | none ↦ never_issued
  | some rid ↦ if rid == t.request_id then never_issued else cross_request
]

-- `labels.get(id) if id else None`
abbrev label_of : Dict String String → Option String → Option String
label_of labels none = none
label_of labels (some id) = if id == "" then none else get labels id

abbrev standing_view : EvidenceStanding → Dict String String → EvidenceStandingView
standing_view st labels = record {
  role = st.role;
  source_kind = st.source_kind;
  subject_kind = st.subject_kind;
  source = label_of labels st.source_id;
  subject = label_of labels st.subject_id;
}

-- `sorted(set(xs))`
abbrev insert_text : String → List String → List String
insert_text x [] = x ∷ []
insert_text x (y ∷ ys) =
    let rest = insert_text x ys in
    if x == y then y ∷ ys else if text_gt x y then y ∷ rest else x ∷ y ∷ ys

abbrev sorted_set : List String → List String
sorted_set [] = []
sorted_set (x ∷ xs) = insert_text x (sorted_set xs)

-- `{mint(request_id, prefix, i): x for i, x in enumerate(xs, n)}`
unfoldable pub minted : String → String → ℕ → Dict String String → List String → Dict String String
minted request_id prefix n d [] = d
minted request_id prefix n d (x ∷ xs) =
    minted request_id prefix (suc n) (put d (mint request_id prefix n) x) xs

-- `{x: label for label, x in d.items()}`
abbrev invert_onto : Dict String String → Dict String String → Dict String String
invert_onto d [] = d
invert_onto d ((k, v) ∷ rest) = invert_onto (put d v k) rest

abbrev pub inverse : Dict String String → Dict String String
inverse d = invert_onto [] d

-- `{key(x): x for x in xs}`
abbrev pub by_key_onto : {A : Type 0} → (A → String) → Dict String A → List A → Dict String A
by_key_onto key d [] = d
by_key_onto key d (x ∷ xs) = by_key_onto key (put d (key x) x) xs

module _ {F : Type 0} where
  unfoldable pub build_table :
      String
      → EvidenceRecord F
      → List (Hypothesis F)
      → List (EvidenceRecord F)
      → List String
      → HandleTable
  build_table request_id observation active candidates participants = record {
    request_id = request_id;
    observation = mint request_id "E" 0;
    observation_id = observation.id;
    divergence_candidates =
        minted request_id "E" 1 [] (map (λ (r : EvidenceRecord F). r.id) candidates);
    hypotheses = minted request_id "H" 1 [] (map (λ (h : Hypothesis F). h.hypothesis_id) active);
    participants = minted request_id "P" 1 [] (sorted_set participants);
  }

  abbrev hypothesis_views :
      Dict String (Hypothesis F)
      → Dict String CommitmentSignatureView
      → Dict String String
      → List HypothesisView
  hypothesis_views by_id signatures [] = []
  hypothesis_views by_id signatures ((handle, hid) ∷ rest) =
      let views = hypothesis_views by_id signatures rest in
      elim (get by_id hid) [
        | none ↦ views
        | some h ↦ elim (get signatures hid) [
          | none ↦ views
          | some sig ↦ record { handle = handle; statement = h.statement; signature = sig } ∷ views
        ]
      ]

  abbrev candidate_views :
      Dict String (EvidenceRecord F)
      → Dict String String
      → Dict String String
      → List EvidenceCandidateView
  candidate_views by_eid labels [] = []
  candidate_views by_eid labels ((handle, eid) ∷ rest) =
      let views = candidate_views by_eid labels rest in
      elim (get by_eid eid) [
        | none ↦ views
        | some r ↦ elim r.standing [
          | none ↦ views
          | some st ↦
              record { handle = handle; content = r.content; standing = standing_view st labels }
              ∷ views
        ]
      ]

  abbrev pub build_request_views :
      HandleTable
      → EvidenceRecord F
      → List (Hypothesis F)
      → List (EvidenceRecord F)
      → Dict String CommitmentSignatureView
      → ObservationView × (List HypothesisView × List EvidenceCandidateView)
  build_request_views t observation active candidates signatures =
      let labels = inverse t.participants in
      (
        record {
          handle = t.observation;
          content = observation.content;
          standing = elim observation.standing [
            | none ↦ none
            | some st ↦ some (standing_view st labels)
          ];
        },
        (
          hypothesis_views (by_key_onto (λ (h : Hypothesis F). h.hypothesis_id) [] active)
              signatures t.hypotheses,
          candidate_views (by_key_onto (λ (r : EvidenceRecord F). r.id) [] candidates) labels
              t.divergence_candidates,
        ),
      )
