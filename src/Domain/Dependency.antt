-- ===== src/Domain/Dependency.antt =====
-- src/sanuvia/domain/dependency.py: typed edges and the canonical order of a divergence.
use sanuvia_reasoning_engine.Prelude.{
  ℕ, String, ◌≡◌, refl, sym, subst, inl, inr, arith, Bool, true, false, ◌&&◌,
}
use sanuvia_reasoning_engine.Prelude.Tests.{if◌then◌else◌, ◌==◌, string_eq, Bool-cases}
use sanuvia_reasoning_engine.Prelude.Text.{text_gt, text_gt_asymm, text_gt_total}
use sanuvia_reasoning_engine.Domain.Errors.{Result, ok, err, invariant_violation, ok-injective}

pub data DependencyRelation : Type 0 where
  supports contradicts derived_from supersedes : DependencyRelation
  motivates activates traces_to diverges_with : DependencyRelation

abbrev pub is_diverges_with : DependencyRelation → Bool
is_diverges_with diverges_with = true
is_diverges_with _ = false

pub record DependencyEdge : Type 0 where
  pub id : String
  pub from_ref : String
  pub to_ref : String
  pub relation : DependencyRelation
  pub created_at : ℕ

-- `DependencyEdge.__post_init__`
unfoldable pub make_edge : DependencyEdge → Result DependencyEdge
make_edge e =
    if e.from_ref == e.to_ref
    then err invariant_violation
    else if is_diverges_with e.relation && text_gt e.from_ref e.to_ref
    then err invariant_violation
    else ok e

unfoldable pub canonical_divergence_pair : String → String → Result (String × String)
canonical_divergence_pair a b =
    if a == b then err invariant_violation else if text_gt a b then ok (b, a) else ok (a, b)

beq_comm-false : (a b : String) → (a == b) ≡ false → (b == a) ≡ false
beq_comm-false a b h = elim (Bool-cases (b == a)) [
  | inl t ↦ cc ((string_eq.beq_iff a b).1 (sym ((string_eq.beq_iff b a).0 t)))
  | inr t ↦ t
]

-- The pair is the same whichever of the two is named first.
pub canonical_divergence_pair_comm :
    (a b : String) → canonical_divergence_pair a b ≡ canonical_divergence_pair b a
unfolding canonical_divergence_pair
canonical_divergence_pair_comm a b = elim (Bool-cases (a == b)) [
  | inl t ↦
      let p = (string_eq.beq_iff a b).0 t in
      let t' : (b == a) ≡ true = (string_eq.beq_iff b a).1 (sym p) in rw (t, t') refl
  | inr t ↦
      let t' = beq_comm-false a b t in
      elim (Bool-cases (text_gt a b)) [
        | inl g ↦ let g' = text_gt_asymm a b g in rw (t, t', g, g') refl
        | inr g ↦ elim (Bool-cases (text_gt b a)) [
          | inl g' ↦ rw (t, t', g, g') refl
          | inr g' ↦ cc ((string_eq.beq_iff a b).1 (text_gt_total a b g g'))
        ]
      ]
]

-- Two different texts in their order
abbrev IsOrdered : String × String → Type 0
IsOrdered p = ((p.0 == p.1) ≡ false) × (text_gt p.0 p.1 ≡ false)

canonical_divergence_pair-IsOrdered :
    (a b : String) (p : String × String) → canonical_divergence_pair a b ≡ ok p → IsOrdered p
unfolding canonical_divergence_pair
canonical_divergence_pair-IsOrdered a b p h = elim (Bool-cases (a == b)) [
  | inl t ↦ cc (rw t at h)
  | inr t ↦ elim (Bool-cases (text_gt a b)) [
    | inl g ↦
        subst IsOrdered (ok-injective (rw (t, g) at h)) (beq_comm-false a b t, text_gt_asymm a b g)
    | inr g ↦ subst IsOrdered (ok-injective (rw (t, g) at h)) (t, g)
  ]
]

-- An edge of any relation between the two texts of a canonical pair, in their order, is well formed.
pub canonical_divergence_pair-make_edge :
    (a b : String) (e : DependencyEdge)
    → canonical_divergence_pair a b ≡ ok (e.from_ref, e.to_ref)
    → make_edge e ≡ ok e
unfolding make_edge
canonical_divergence_pair-make_edge a b e h =
    let (different, ordered) = canonical_divergence_pair-IsOrdered a b (e.from_ref, e.to_ref) h in
    ground arith
