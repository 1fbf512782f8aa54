-- ===== src/Reasoning/Scoring/Bounds.antt =====
-- The ranges of the scores of src/sanuvia/application/reasoning/scoring.py, from the order of the floats.
use sanuvia_reasoning_engine.Prelude.{◌≡◌, refl, true, false, inl, inr, List, [], ◌∷◌}
use sanuvia_reasoning_engine.Prelude.Tests.{Bool-cases}
use sanuvia_reasoning_engine.Domain.Errors.{ok}
use sanuvia_reasoning_engine.Reasoning.Scoring.{
  Floats, make_unit, clamp_unit, support_after_support, support_after_contradiction, uncertainty_of,
  gain_of, aggregate_model_uncertainty, expected_information_gain,
}

-- What IEEE 754 gives for finite doubles that do not overflow: a total order, in which rounding keeps signs
-- and keeps a sum above, and a difference below, what a non-negative number is added to or taken from.
pub record FloatLaws {F : Type 0} (o : Floats F) : Type 0 where
  pub lt_irrefl : (a : F) → o.lt a a ≡ false
  pub lt_asymm : (a b : F) → o.lt a b ≡ true → o.lt b a ≡ false
  pub le_trans : (a b c : F) → o.lt b a ≡ false → o.lt c b ≡ false → o.lt c a ≡ false
  pub one_positive : o.lt o.zero_float o.one_float ≡ true
  pub add_grows : (a b : F) → o.lt b o.zero_float ≡ false → o.lt (o.add a b) a ≡ false
  pub sub_falls : (a b : F) → o.lt b o.zero_float ≡ false → o.lt a (o.sub a b) ≡ false
  pub sub_headroom :
      (a : F) → o.lt o.one_float a ≡ false → o.lt (o.sub o.one_float a) o.zero_float ≡ false
  pub mul_positive :
      (a b : F)
      → o.lt a o.zero_float ≡ false
      → o.lt b o.zero_float ≡ false
      → o.lt (o.mul a b) o.zero_float ≡ false

-- Neither below zero nor above one
abbrev InUnit : {F : Type 0} → Floats F → F → Type 0
InUnit o v = (o.lt v o.zero_float ≡ false) × (o.lt o.one_float v ≡ false)

InUnit-make_unit : {F : Type 0} (o : Floats F) (v : F) → InUnit o v → make_unit o v ≡ ok v
unfolding make_unit
InUnit-make_unit o v (low, high) = rw (low, high) refl

module _ {F : Type 0} (o : Floats F) (laws : FloatLaws o) where
  clamp_unit-InUnit : (v : F) → InUnit o (clamp_unit o v)
  unfolding clamp_unit
  clamp_unit-InUnit v = elim (Bool-cases (o.lt v o.one_float)) [
    | inl below ↦ elim (Bool-cases (o.lt o.zero_float v)) [
      | inl above ↦
          rw (below, above) (laws.lt_asymm o.zero_float v above, laws.lt_asymm v o.one_float below)
      | inr under ↦
          rw (below, under)
            (laws.lt_irrefl o.zero_float, laws.lt_asymm o.zero_float o.one_float laws.one_positive)
    ]
    | inr over ↦
        rw (over, laws.one_positive)
          (laws.lt_asymm o.zero_float o.one_float laws.one_positive, laws.lt_irrefl o.one_float)
  ]

  -- Clamping a number that is at least a unit value keeps it there.
  clamp_unit_above : (a v : F) → InUnit o a → o.lt v a ≡ false → o.lt (clamp_unit o v) a ≡ false
  unfolding clamp_unit
  clamp_unit_above a v (low, high) grown = elim (Bool-cases (o.lt v o.one_float)) [
    | inl below ↦ elim (Bool-cases (o.lt o.zero_float v)) [
      | inl above ↦ rw (below, above) grown
      | inr under ↦ rw (below, under) (laws.le_trans a v o.zero_float grown under)
    ]
    | inr over ↦ rw (over, laws.one_positive) high
  ]

  clamp_unit_under : (a v : F) → InUnit o a → o.lt a v ≡ false → o.lt a (clamp_unit o v) ≡ false
  unfolding clamp_unit
  clamp_unit_under a v (low, high) fallen = elim (Bool-cases (o.lt v o.one_float)) [
    | inl below ↦ elim (Bool-cases (o.lt o.zero_float v)) [
      | inl above ↦ rw (below, above) fallen
      | inr under ↦ rw (below, under) low
    ]
    | inr over ↦ rw (over, laws.one_positive) (laws.le_trans o.one_float v a over fallen)
  ]

  -- For a current support in the unit range, and a reliability and a learning rate that are not negative,
  -- a supporting observation never lowers the support, a contradicting one never raises it, and either new
  -- support is in the unit range, so that the constructor of a support accepts it.
  pub support_after-Moves :
      (current reliability rate : F)
      → InUnit o current
      → o.lt reliability o.zero_float ≡ false
      → o.lt rate o.zero_float ≡ false
      → (o.lt (support_after_support o current reliability rate) current ≡ false)
        × (o.lt current (support_after_contradiction o current reliability rate) ≡ false)
        × (make_unit o (support_after_support o current reliability rate)
            ≡ ok (support_after_support o current reliability rate))
        × (make_unit o (support_after_contradiction o current reliability rate)
            ≡ ok (support_after_contradiction o current reliability rate))
  unfolding support_after_support support_after_contradiction
  support_after-Moves current reliability rate (low, high) r l =
      let step = laws.mul_positive rate reliability l r in
      let up =
        laws.mul_positive (o.mul rate reliability) (o.sub o.one_float current) step
          (laws.sub_headroom current high) in
      let down = laws.mul_positive (o.mul rate reliability) current step low in
      (
        clamp_unit_above current _ (low, high) (laws.add_grows current _ up),
        clamp_unit_under current _ (low, high) (laws.sub_falls current _ down),
        InUnit-make_unit o _ (clamp_unit-InUnit _),
        InUnit-make_unit o _ (clamp_unit-InUnit _),
      )

  uncertainty_of-InUnit : (vs : List F) → InUnit o (uncertainty_of o vs)
  unfolding uncertainty_of
  uncertainty_of-InUnit [] =
      (laws.lt_asymm o.zero_float o.one_float laws.one_positive, laws.lt_irrefl o.one_float)
  uncertainty_of-InUnit (top ∷ []) = clamp_unit-InUnit _
  uncertainty_of-InUnit (top ∷ rival ∷ more) = clamp_unit-InUnit _

  gain_of-InUnit : (vs : List F) → InUnit o (gain_of o vs)
  unfolding gain_of
  gain_of-InUnit [] =
      (laws.lt_irrefl o.zero_float, laws.lt_asymm o.zero_float o.one_float laws.one_positive)
  gain_of-InUnit (top ∷ []) =
      (laws.lt_irrefl o.zero_float, laws.lt_asymm o.zero_float o.one_float laws.one_positive)
  gain_of-InUnit (top ∷ rival ∷ more) = clamp_unit-InUnit _

  -- Whatever the supports are, the aggregate uncertainty and the expected information gain are in the unit
  -- range, so that the constructor of an uncertainty accepts them.
  scores-InUnit :
      (supports : List F)
      → (make_unit o (aggregate_model_uncertainty o supports)
          ≡ ok (aggregate_model_uncertainty o supports))
        × InUnit o (expected_information_gain o supports)
  unfolding aggregate_model_uncertainty expected_information_gain
  scores-InUnit supports = (InUnit-make_unit o _ (uncertainty_of-InUnit _), gain_of-InUnit _)
