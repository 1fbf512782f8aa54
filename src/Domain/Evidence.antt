-- ===== src/Domain/Evidence.antt =====
-- src/sanuvia/domain/evidence.py. `F` is the type of the program's floats.
use sanuvia_reasoning_engine.Prelude.{
  ℕ, String, ◌≡◌, ◌↔◌, arith, Bool, true, false, ◌&&◌, not, Option, none, some, List,
}
use sanuvia_reasoning_engine.Prelude.Tests.{
  if◌then◌else◌, Eq, ◌==◌, string_eq, nat_eq, pair_eq, nat_beq,
}
use sanuvia_reasoning_engine.Domain.Errors.{Result, ok, err, invariant_violation, is_none}

-- Python's truth of an optional text: `None` and `""` are false.
abbrev pub truthy : Option String → Bool
truthy none = false
truthy (some s) = not (s == "")

-- `SourceObservationRef`: a transcript id, an interaction index and an observation index. A tuple, so
-- that it has the equality of its parts.
abbrev pub SourceObservationRef : Type 0
SourceObservationRef = String × (ℕ × ℕ)

-- `SourceObservationRef.__post_init__`: the two numbers are not negative.
unfoldable make_source_ref : SourceObservationRef → Result SourceObservationRef
make_source_ref ref = if ref.0 == "" then err invariant_violation else ok ref

pub data EvidenceRole : Type 0 where
  event_observation account response_or_resonance meta_instruction : EvidenceRole

abbrev role_index : EvidenceRole → ℕ
role_index event_observation = 0
role_index account = 1
role_index response_or_resonance = 2
role_index meta_instruction = 3

pub EvidenceRole-beq_iff :
    (a b : EvidenceRole) → (nat_beq (role_index a) (role_index b) ≡ true) ↔ (a ≡ b)
EvidenceRole-beq_iff a b = ground arith

instance abbrev pub role_eq : Eq EvidenceRole
role_eq = record {
  beq = λ a b. nat_beq (role_index a) (role_index b);
  beq_iff = EvidenceRole-beq_iff;
}

-- `role in APPRAISABLE_ROLES`
abbrev is_appraisable_role : EvidenceRole → Bool
is_appraisable_role event_observation = true
is_appraisable_role account = true
is_appraisable_role _ = false

abbrev is_account : EvidenceRole → Bool
is_account account = true
is_account _ = false

pub data EvidenceSourceKind : Type 0 where
  participant sanuvia system_surface external_source : EvidenceSourceKind

abbrev is_participant : EvidenceSourceKind → Bool
is_participant participant = true
is_participant _ = false

pub data EvidenceSubjectKind : Type 0 where
  about_participant dyad third_party nobody : EvidenceSubjectKind

-- `subject_kind in (PARTICIPANT, THIRD_PARTY)`
abbrev needs_subject : EvidenceSubjectKind → Bool
needs_subject about_participant = true
needs_subject third_party = true
needs_subject _ = false

-- `subject_kind in (DYAD, THIRD_PARTY)`
abbrev pub is_dyad_or_third_party : EvidenceSubjectKind → Bool
is_dyad_or_third_party dyad = true
is_dyad_or_third_party third_party = true
is_dyad_or_third_party _ = false

pub record EvidenceStanding : Type 0 where
  pub source_kind : EvidenceSourceKind
  pub subject_kind : EvidenceSubjectKind
  pub role : EvidenceRole
  pub source_id : Option String
  pub subject_id : Option String

-- `EvidenceStanding.__post_init__`
abbrev make_standing : EvidenceStanding → Result EvidenceStanding
make_standing s =
    if is_participant s.source_kind && not (truthy s.source_id)
    then err invariant_violation
    else if needs_subject s.subject_kind && not (truthy s.subject_id)
    then err invariant_violation
    else ok s

unfoldable pub is_appraisable : EvidenceStanding → Bool
is_appraisable s = is_appraisable_role s.role

unfoldable pub is_participant_account : EvidenceStanding → Bool
is_participant_account s =
    is_account s.role && is_participant s.source_kind && not (is_none s.source_id)

pub data EvidenceClass : Type 0 where
  narrative reflective behavioural contradictory missing failed_acquisition : EvidenceClass

pub record Provenance (F : Type 0) : Type 0 where
  pub source : String
  pub confidence : F
  pub acquisition_metadata : List (String × String)

-- `Provenance.__post_init__`
unfoldable pub make_provenance : {F : Type 0} → Provenance F → Result (Provenance F)
make_provenance p = if p.source == "" then err invariant_violation else ok p

-- Times are numbers.
pub record EvidenceRecord (F : Type 0) : Type 0 where
  pub id : String
  pub subject_id : String
  pub evidence_class : EvidenceClass
  pub content : String
  pub provenance : Provenance F
  pub reliability : F
  pub classification_confidence : F
  pub occurred_at : ℕ
  pub origin_ref : Option String
  pub space_id : String
  pub actor_id : Option String
  pub source_ref : Option SourceObservationRef
  pub standing : Option EvidenceStanding

-- `EvidenceRecord.__post_init__`
unfoldable pub make_evidence : {F : Type 0} → EvidenceRecord F → Result (EvidenceRecord F)
make_evidence r =
    if r.content == ""
    then err invariant_violation
    else if r.space_id == ""
    then err invariant_violation
    else ok r
