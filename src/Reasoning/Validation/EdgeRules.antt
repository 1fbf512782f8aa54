-- ===== src/Reasoning/Validation/EdgeRules.antt =====
-- What the checks 8, 8a and 8b admit: divergences between comparable participant accounts of one
-- shared space.
use sanuvia_reasoning_engine.Prelude.{
  String, ◌≡◌, ◌≢◌, refl, sym, ap, ◌∙◌, subst, ◌↔◌, inl, inr, true, false, Option, none, some,
  arith,
}
use sanuvia_reasoning_engine.Prelude.Tests.{
  string_eq, option_eq, option_beq_iff, Bool-cases, Option-cases, ◌==◌,
}
use sanuvia_reasoning_engine.Prelude.Dict.{Dict}
use sanuvia_reasoning_engine.Domain.Errors.{Check, ok, ◌>>=◌}
use sanuvia_reasoning_engine.Domain.Scope.{SpaceKind, shared, personal}
use sanuvia_reasoning_engine.Domain.Evidence.{
  EvidenceRecord, EvidenceStanding, is_participant_account,
}
use sanuvia_reasoning_engine.Domain.Dependency.{
  DependencyEdge, DependencyRelation, diverges_with, is_diverges_with,
}
use sanuvia_reasoning_engine.Reasoning.Validation.Plan.{RevisionPlan}
use sanuvia_reasoning_engine.Reasoning.Validation.Loops.{Passes, bind-ok}
use sanuvia_reasoning_engine.Reasoning.Validation.Edges.{
  if_divergence, account_standing, differ, comparable, resolve_record, endpoint,
  divergence_endpoints, in_plan_space, is_shared, in_shared_space,
}

is_diverges_with-eq : (r : DependencyRelation) → is_diverges_with r ≡ true → r ≡ diverges_with
is_diverges_with-eq r h = ground arith

pub if_divergence-Passes :
    (e : DependencyEdge) (c : Check)
    → Passes (if_divergence e c) ↔ (e.relation ≡ diverges_with → Passes c)
if_divergence-Passes e c = elim (Bool-cases (is_diverges_with e.relation)) [
  | inl t ↦ rw t (λ h r. h, λ h. h (is_diverges_with-eq e.relation t))
  | inr t ↦ rw t (λ h r. absurd (mismatch t r), λ h. refl)
]
  where
    mismatch : is_diverges_with e.relation ≡ false → e.relation ≡ diverges_with → ⊥
    mismatch t r = cc (ap is_diverges_with r)

module _ {F : Type 0} where
  -- A record whose standing is `st`, a participant's own account.
  abbrev IsAccount : EvidenceRecord F → EvidenceStanding → Type 0
  IsAccount rec st = (rec.standing ≡ some st) × (is_participant_account st ≡ true)

  account_standing-ok :
      (rec : EvidenceRecord F) (st : EvidenceStanding)
      → (account_standing rec ≡ ok st) ↔ IsAccount rec st
  unfolding account_standing
  account_standing-ok rec st = elim (Option-cases rec.standing) [
    | inl e ↦ (λ h. cc, λ (r, a). cc)
    | inr (s, e) ↦ elim (Bool-cases (is_participant_account s)) [
      | inl t ↦ (λ h. ground arith, λ (r, a). ground arith)
      | inr t ↦ (λ h. ground arith, λ (r, a). ground arith)
    ]
  ]

  -- Two participants' accounts of one subject.
  abbrev pub AreComparable : EvidenceRecord F → EvidenceRecord F → Type 0
  AreComparable a b =
      (sa : EvidenceStanding) × (sb : EvidenceStanding) × IsAccount a sa
      × IsAccount b sb
      × (sa.subject_id ≡ sb.subject_id)
      × (sa.source_id ≢ sb.source_id)

  differ-Passes :
      (a b : EvidenceRecord F) (sa sb : EvidenceStanding)
      → Passes (differ a b sa sb)
        ↔ ((sa.subject_id ≡ sb.subject_id) × (sa.source_id ≢ sb.source_id))
  unfolding differ
  differ-Passes a b sa sb =
      let subject = option_beq_iff sa.subject_id sb.subject_id in
      let source = option_beq_iff sa.source_id sb.source_id in
      elim (Bool-cases (sa.subject_id == sb.subject_id)) [
        | inr p ↦ (λ h. ground arith, λ (e, n). cc (subject.1 e))
        | inl p ↦ elim (Bool-cases (sa.source_id == sb.source_id)) [
          | inl q ↦ (λ h. ground arith, λ (e, n). absurd (n (source.0 q)))
          | inr q ↦ (λ h. (subject.0 p, λ e. cc (source.1 e)), λ (e, n). ground arith)
        ]
      ]

  comparable-Passes : (a b : EvidenceRecord F) → Passes (comparable a b) ↔ AreComparable a b
  unfolding comparable
  comparable-Passes a b = (
    λ h.
        let (sa, ea, h1) =
          (bind-ok (account_standing a) (λ s. account_standing b >>= λ t. differ a b s t) tt).0 h in
        let (sb, eb, h2) = (bind-ok (account_standing b) (differ a b sa) tt).0 h1 in
        let (subject, source) = (differ-Passes a b sa sb).0 h2 in
        (sa, sb, (account_standing-ok a sa).0 ea, (account_standing-ok b sb).0 eb, subject, source),
    λ (sa, sb, aa, ab, subject, source).
        (bind-ok (account_standing a) (λ s. account_standing b >>= λ t. differ a b s t) tt).1 (
          sa,
          (account_standing-ok a sa).1 aa,
          (bind-ok (account_standing b) (differ a b sa) tt).1
              (sb, (account_standing-ok b sb).1 ab, (differ-Passes a b sa sb).1 (subject, source)),
        ),
  )

pub some_inj : {A : Type 0} (a b : A) → ◌≡◌ {A = Option A} (some a) (some b) → a ≡ b
some_inj a b e = cc

is_shared-eq : (k : SpaceKind) → (is_shared k ≡ true) ↔ (k ≡ shared)
is_shared-eq k = (λ h. ground arith, λ h. ground arith)

module _ {F : Type 0} (plan : RevisionPlan F) (committed : Dict String (EvidenceRecord F)) where
  endpoint-ok :
      (e : DependencyEdge) (ref : String) (rec : EvidenceRecord F)
      → (endpoint plan committed e ref ≡ ok rec) ↔ (resolve_record plan committed ref ≡ some rec)
  unfolding endpoint
  endpoint-ok e ref rec = elim (Option-cases (resolve_record plan committed ref)) [
    | inl n ↦ (λ h. ground arith, λ h. cc)
    | inr (r, n) ↦ (λ h. ground arith, λ h. ground arith)
  ]

  -- Two different endpoints with comparable records.
  abbrev Endpoints : DependencyEdge → Type 0
  Endpoints e =
      (e.from_ref ≢ e.to_ref)
      × ((a : EvidenceRecord F) × (b : EvidenceRecord F) × (resolve_record plan committed e.from_ref
            ≡ some a)
          × (resolve_record plan committed e.to_ref ≡ some b)
          × AreComparable a b)

  pub Endpoints-Passes :
      (e : DependencyEdge) → Passes (divergence_endpoints plan committed e) ↔ Endpoints e
  unfolding divergence_endpoints
  Endpoints-Passes e =
      let same = string_eq.beq_iff e.from_ref e.to_ref in
      let next =
        λ (a : EvidenceRecord F). endpoint plan committed e e.to_ref >>= λ b. comparable a b in
      elim (Bool-cases (e.from_ref == e.to_ref)) [
        | inl t ↦ rw t (λ h. cc, λ (n, x). absurd (n (same.0 t)))
        | inr t ↦ rw t (
          λ h.
              let (a, ea, h1) = (bind-ok (endpoint plan committed e e.from_ref) next tt).0 h in
              let (b, eb, h2) =
                (bind-ok (endpoint plan committed e e.to_ref) (comparable a) tt).0 h1 in
              (
                λ q. cc (same.1 q),
                (
                  a,
                  b,
                  (endpoint-ok e e.from_ref a).0 ea,
                  (endpoint-ok e e.to_ref b).0 eb,
                  (comparable-Passes a b).0 h2,
                ),
              ),
          λ (n, (a, b, ea, eb, c)). (bind-ok (endpoint plan committed e e.from_ref) next tt).1 (
            a,
            (endpoint-ok e e.from_ref a).1 ea,
            (bind-ok (endpoint plan committed e e.to_ref) (comparable a) tt).1
                (b, (endpoint-ok e e.to_ref b).1 eb, (comparable-Passes a b).1 c),
          ),
        )
      ]

  pub in_plan_space-Passes :
      (ref : String)
      → Passes (in_plan_space plan committed ref) ↔ (
          (rec : EvidenceRecord F)
          → resolve_record plan committed ref ≡ some rec
          → rec.space_id ≡ plan.space_id)
  unfolding in_plan_space
  in_plan_space-Passes ref = elim (Option-cases (resolve_record plan committed ref)) [
    | inl n ↦ (λ h rec e. cc, λ h. ground arith)
    | inr (r, n) ↦
        let same = string_eq.beq_iff r.space_id plan.space_id in
        elim (Bool-cases (r.space_id == plan.space_id)) [
          | inl t ↦ (
            λ h rec e.
                subst (λ (x : EvidenceRecord F). x.space_id ≡ plan.space_id)
                  (some_inj r rec (sym n ∙ e)) (same.0 t),
            λ h. ground arith,
          )
          | inr t ↦ (λ h rec e. ground arith, λ h. cc (same.1 (h r n)))
        ]
  ]

  pub in_shared_space-Passes :
      (k : Option SpaceKind)
      → Passes (in_shared_space plan committed k) ↔ ((s : SpaceKind) → k ≡ some s → s ≡ shared)
  unfolding in_shared_space
  in_shared_space-Passes none = (λ h s e. cc, λ h. refl)
  in_shared_space-Passes (some personal) = (λ h s e. cc, λ h. cc (h personal refl))
  in_shared_space-Passes (some shared) = (λ h s e. ground arith, λ h. refl)
