-- ===== src/Domain/Hypothesis.antt =====
-- src/sanuvia/domain/hypothesis.py. `F` is the type of the program's floats; times are numbers.
use sanuvia_reasoning_engine.Prelude.{ℕ, String, ◌≡◌, ◌↔◌, arith, Bool, true, false, Option, List}
use sanuvia_reasoning_engine.Prelude.Lists.{any, contains}
use sanuvia_reasoning_engine.Prelude.Tests.{if◌then◌else◌, Eq, ◌==◌, string_eq, nat_beq}
use sanuvia_reasoning_engine.Domain.Errors.{Result, ok, err, invariant_violation}

pub data ClaimClass : Type 0 where
  intention behaviour_pattern interpretation relational_dynamic : ClaimClass

pub data Stance : Type 0 where
  affirms negates open_stance : Stance

abbrev claim_index : ClaimClass → ℕ
claim_index intention = 0
claim_index behaviour_pattern = 1
claim_index interpretation = 2
claim_index relational_dynamic = 3

pub ClaimClass-beq_iff :
    (a b : ClaimClass) → (nat_beq (claim_index a) (claim_index b) ≡ true) ↔ (a ≡ b)
ClaimClass-beq_iff a b = ground arith

instance abbrev pub claim_eq : Eq ClaimClass
claim_eq = record {
  beq = λ a b. nat_beq (claim_index a) (claim_index b);
  beq_iff = ClaimClass-beq_iff;
}

abbrev stance_index : Stance → ℕ
stance_index affirms = 0
stance_index negates = 1
stance_index open_stance = 2

pub Stance-beq_iff : (a b : Stance) → (nat_beq (stance_index a) (stance_index b) ≡ true) ↔ (a ≡ b)
Stance-beq_iff a b = ground arith

instance abbrev pub stance_eq : Eq Stance
stance_eq = record {
  beq = λ a b. nat_beq (stance_index a) (stance_index b);
  beq_iff = Stance-beq_iff;
}

-- `{a, b} == {Stance.AFFIRMS, Stance.NEGATES}`
unfoldable pub inverts : Stance → Stance → Bool
inverts affirms negates = true
inverts negates affirms = true
inverts _ _ = false

pub record CommitmentSignature : Type 0 where
  pub subject : String
  pub attribution : String
  pub claim_class : ClaimClass
  pub stance : Stance
  pub temporal_scope : Option String

-- `CommitmentSignature.__post_init__`
unfoldable pub make_signature : CommitmentSignature → Result CommitmentSignature
make_signature s =
    if s.subject == ""
    then err invariant_violation
    else if s.attribution == ""
    then err invariant_violation
    else ok s

abbrev pub LineageKey : Type 0
LineageKey = String × String

pub record HypothesisLineage : Type 0 where
  pub hypothesis_id : String
  pub subject_id : String
  pub space_id : String
  pub signature_subject : String
  pub attribution : String
  pub created_at : ℕ

abbrev pub lineage_key : HypothesisLineage → LineageKey
lineage_key l = (l.signature_subject, l.attribution)

pub record StatementVersion : Type 0 where
  pub id : String
  pub hypothesis_id : String
  pub statement : String
  pub claim_class : ClaimClass
  pub stance : Stance
  pub created_at_version : String
  pub temporal_scope : Option String
  pub supersedes : Option String

-- `StatementVersion.__post_init__`
unfoldable pub make_version : StatementVersion → Result StatementVersion
make_version v = if v.statement == "" then err invariant_violation else ok v

pub record Hypothesis (F : Type 0) : Type 0 where
  pub record_id : String
  pub hypothesis_id : String
  pub subject_id : String
  pub statement : String
  pub support : F
  pub supporting_evidence_ids : List String
  pub contradicting_evidence_ids : List String
  pub evaluated_at_version : String
  pub evaluated_at : ℕ
  pub supersedes_record_id : Option String
  pub space_id : String

-- `set(xs) & set(ys)` is not empty
abbrev pub overlaps : List String → List String → Bool
overlaps xs ys = any (λ x. contains x ys) xs

-- `Hypothesis.__post_init__`
unfoldable pub make_hypothesis : {F : Type 0} → Hypothesis F → Result (Hypothesis F)
make_hypothesis h =
    if h.statement == ""
    then err invariant_violation
    else if h.space_id == ""
    then err invariant_violation
    else if overlaps h.supporting_evidence_ids h.contradicting_evidence_ids
    then err invariant_violation
    else ok h
