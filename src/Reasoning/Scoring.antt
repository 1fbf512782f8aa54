-- ===== src/Reasoning/Scoring.antt =====
-- src/sanuvia/application/reasoning/scoring.py and config.py, with the range guard of
-- src/sanuvia/domain/uncertainty.py. The program's floats are a parameter with the operations that the code
-- uses; no NaN is among them.
pub mod Bounds
use sanuvia_reasoning_engine.Prelude.{Bool, true, not, ◌&&◌, Option, none, some, List, [], ◌∷◌}
use sanuvia_reasoning_engine.Prelude.Tests.{if◌then◌else◌}
use sanuvia_reasoning_engine.Prelude.Lists.{keep}
use sanuvia_reasoning_engine.Domain.Errors.{Result, ok, err, invariant_violation}

pub record Floats (F : Type 0) : Type 0 where
  pub zero_float : F
  pub one_float : F
  pub lt : F → F → Bool
  pub add : F → F → F
  pub sub : F → F → F
  pub mul : F → F → F
  pub half : F → F

-- `a <= b`
abbrev pub le : {F : Type 0} → Floats F → F → F → Bool
le o a b = not (o.lt b a)

module _ {F : Type 0} (o : Floats F) where
  -- `max(a, b)` and `min(a, b)`: the first of two that are equal
  abbrev float_max : F → F → F
  float_max a b = if o.lt a b then b else a

  abbrev float_min : F → F → F
  float_min a b = if o.lt b a then b else a

  -- `abs(a - b)`, by the two differences
  abbrev distance : F → F → F
  distance a b = if o.lt a b then o.sub b a else o.sub a b

  abbrev pub in_unit : F → Bool
  in_unit v = le o o.zero_float v && le o v o.one_float

  -- `_UncertaintyValue.__post_init__`
  unfoldable pub make_unit : F → Result F
  make_unit v = if not (in_unit v) then err invariant_violation else ok v

  unfoldable pub clamp_unit : F → F
  clamp_unit v = float_max o.zero_float (float_min o.one_float v)

  unfoldable pub support_after_support : F → F → F → F
  unfolding clamp_unit
  support_after_support current reliability learning_rate =
      clamp_unit
        (o.add current (o.mul (o.mul learning_rate reliability) (o.sub o.one_float current)))

  unfoldable pub support_after_contradiction : F → F → F → F
  unfolding clamp_unit
  support_after_contradiction current reliability learning_rate =
      clamp_unit (o.sub current (o.mul (o.mul learning_rate reliability) current))

module _ {F A : Type 0} (o : Floats F) (key : A → F) where
  unfoldable pub insert_down : A → List A → List A
  insert_down x [] = x ∷ []
  insert_down x (y ∷ ys) =
      let rest = insert_down x ys in if o.lt (key x) (key y) then y ∷ rest else x ∷ y ∷ ys

  -- `sorted(xs, key=key, reverse=True)`, which keeps the order of equal keys
  unfoldable pub sort_down : List A → List A
  sort_down [] = []
  sort_down (x ∷ xs) = insert_down x (sort_down xs)

module _ {F : Type 0} (o : Floats F) where
  -- The uncertainty of the sorted supports.
  unfoldable pub uncertainty_of : List F → F
  uncertainty_of [] = o.one_float
  uncertainty_of (top ∷ []) = clamp_unit o (o.half (o.add (o.sub o.one_float top) o.zero_float))
  uncertainty_of (top ∷ rival ∷ more) = clamp_unit o (o.half (o.add (o.sub o.one_float top) rival))

  unfoldable pub aggregate_model_uncertainty : List F → F
  aggregate_model_uncertainty supports = uncertainty_of (sort_down o (λ (v : F). v) supports)

  unfoldable pub gain_of : List F → F
  gain_of [] = o.zero_float
  gain_of (top ∷ []) = o.zero_float
  gain_of (top ∷ rival ∷ more) =
      clamp_unit o (o.mul (o.sub o.one_float (distance o top rival)) (o.half (o.add top rival)))

  unfoldable pub expected_information_gain : List F → F
  expected_information_gain supports = gain_of (sort_down o (λ (v : F). v) supports)

pub record ReasoningConfig (F : Type 0) : Type 0 where
  pub support_learning_rate : F
  pub established_support_threshold : F
  pub contradiction_revise_reliability : F
  pub contradiction_reject_reliability : F
  pub prediction_support_threshold : F
  pub inquiry_uncertainty_threshold : F

-- `ReasoningConfig.__post_init__`: the `ValueError` of a constant out of range is `none`.
unfoldable make_config : {F : Type 0} → Floats F → ReasoningConfig F → Option (ReasoningConfig F)
make_config o c =
    if in_unit o c.support_learning_rate
      && in_unit o c.established_support_threshold
      && in_unit o c.contradiction_revise_reliability
      && in_unit o c.contradiction_reject_reliability
      && in_unit o c.prediction_support_threshold
      && in_unit o c.inquiry_uncertainty_threshold
    then some c
    else none
