-- ===== src/Prelude/Sets.antt =====
-- Python sets as lists without repetitions.
use Prim.Native.Nat.{◌≤◌}
use mathlib.Core.Path.{◌≡◌, refl, sym, ◌∙◌}
use mathlib.Core.Logic.{inl, inr}
use mathlib.Core.Bool.{Bool}
use mathlib.Core.List.{List, [], ◌∷◌, ◌++◌}
use native.Mathlib.Omega.{arith}
use sanuvia_reasoning_engine.Prelude.Tests.{Eq, Bool-cases, if◌then◌else◌}
use sanuvia_reasoning_engine.Prelude.Lists.{
  In, All, Distinct, length, keep, contains, contains→In, not-contains, In-append, In-append_left,
  In-append_right, In-keep,
}

-- `set.add` and `d.setdefault(k, set()).add(v)`
abbrev pub set_add : {A : Type 0} ⦃e : Eq A⦄ → A → List A → List A
set_add a xs = if contains a xs then xs else xs ++ a ∷ []

-- Two elements of a list with at most one are equal.
pub In-unique : {A : Type 0} (a b : A) (xs : List A) → In a xs → In b xs → length xs ≤ 1 → a ≡ b
In-unique a b [] h k l = absurd h
In-unique a b (x ∷ []) (inl p) (inl q) l = sym p ∙ q
In-unique a b (x ∷ []) (inr h) k l = absurd h
In-unique a b (x ∷ []) (inl p) (inr k) l = absurd k
In-unique a b (x ∷ y ∷ xs) h k l = absurd (omega arith)

-- A list without repetitions whose elements are all equal has at most one.
pub length-le_one :
    {A : Type 0} (xs : List A)
    → Distinct xs
    → ((a b : A) → In a xs → In b xs → a ≡ b)
    → length xs ≤ 1
length-le_one [] d h = omega arith
length-le_one (x ∷ []) d h = omega arith
length-le_one (x ∷ y ∷ xs) d h = absurd (d.0 (inl (h y x (inr (inl refl)) (inl refl))))

pub keep-Distinct : {A : Type 0} (p : A → Bool) (xs : List A) → Distinct xs → Distinct (keep p xs)
keep-Distinct p [] d = tt
keep-Distinct p (x ∷ xs) d = elim (Bool-cases (p x)) [
  | inl t ↦ rw t (λ m. d.0 (In-keep p x xs m).0, keep-Distinct p xs d.1)
  | inr t ↦ rw t (keep-Distinct p xs d.1)
]

Distinct-snoc :
    {A : Type 0} (a : A) (xs : List A) → Distinct xs → ¬ In a xs → Distinct (xs ++ a ∷ [])
Distinct-snoc a [] d n = (λ m. m, tt)
Distinct-snoc a (x ∷ xs) d n = (
  λ m. elim (In-append x xs (a ∷ []) m) [ inl m' ↦ d.0 m' | inr q ↦ n (inl (last q)) ],
  Distinct-snoc a xs d.1 (λ m. n (inr m)),
)
  where
    last : In x (a ∷ []) → x ≡ a
    last (inl q) = sym q
    last (inr z) = absurd z

All-snoc :
    {A : Type 0} (P : A → Type 0) (a : A) (xs : List A) → All P xs → P a → All P (xs ++ a ∷ [])
All-snoc P a [] h p = (p, tt)
All-snoc P a (x ∷ xs) h p = (h.0, All-snoc P a xs h.1 p)

module _ {A : Type 0} ⦃e : Eq A⦄ where
  pub In-set_add_self : (a : A) (xs : List A) → In a (set_add a xs)
  In-set_add_self a xs = elim (Bool-cases (contains a xs)) [
    | inl t ↦ rw t (contains→In a xs t)
    | inr t ↦ rw t (In-append_right a xs (a ∷ []) (inl refl))
  ]

  pub In-set_add : (a b : A) (xs : List A) → In b xs → In b (set_add a xs)
  In-set_add a b xs h = elim (Bool-cases (contains a xs)) [
    | inl t ↦ rw t h
    | inr t ↦ rw t (In-append_left b xs (a ∷ []) h)
  ]

  pub set_add-Distinct : (a : A) (xs : List A) → Distinct xs → Distinct (set_add a xs)
  set_add-Distinct a xs d = elim (Bool-cases (contains a xs)) [
    | inl t ↦ rw t d
    | inr t ↦ rw t (Distinct-snoc a xs d (not-contains a xs t))
  ]

  pub All-set_add : (P : A → Type 0) (a : A) (xs : List A) → All P xs → P a → All P (set_add a xs)
  All-set_add P a xs h p = elim (Bool-cases (contains a xs)) [
    | inl t ↦ rw t h
    | inr t ↦ rw t (All-snoc P a xs h p)
  ]
