-- ===== src/Prelude/Lists.antt =====
-- Lists with Boolean tests: Python's `in`, `any`, `next`, slices, and their meaning.
use Prim.Native.Nat.{ℕ, zero, suc, ◌+◌, ◌-◌, ◌≤◌}
use mathlib.Core.Path.{◌≡◌, refl, ap, sym, subst}
use mathlib.Core.Logic.{◌⊎◌, inl, inr}
use mathlib.Core.Bool.{Bool, true, false, ◌||◌}
use mathlib.Core.Option.{Option, none, some}
use mathlib.Core.List.{List, [], ◌∷◌, ◌++◌, map}
use native.Mathlib.Omega.{arith}
use sanuvia_reasoning_engine.Prelude.Tests.{Eq, Bool-cases, if◌then◌else◌}

module _ {ℓ} {A : Type ℓ} where
  abbrev pub length : List A → ℕ
  length [] = 0
  length (x ∷ xs) = suc (length xs)

  abbrev pub drop : ℕ → List A → List A
  drop zero xs = xs
  drop (suc n) [] = []
  drop (suc n) (x ∷ xs) = drop n xs

  -- `xs[-n:]`
  abbrev pub take_last : ℕ → List A → List A
  take_last n xs = drop (length xs - n) xs

  -- `xs[-1]`, if there is one
  abbrev pub last? : List A → Option A
  last? [] = none
  last? (x ∷ []) = some x
  last? (x ∷ y ∷ ys) = last? (y ∷ ys)

  abbrev pub any : (A → Bool) → List A → Bool
  any p [] = false
  any p (x ∷ xs) = p x || any p xs

  -- `[x for x in xs if p(x)]`
  abbrev pub keep : (A → Bool) → List A → List A
  keep p [] = []
  keep p (x ∷ xs) = let rest = keep p xs in if p x then x ∷ rest else rest

  -- `next((x for x in xs if p(x)), None)`
  abbrev pub find : (A → Bool) → List A → Option A
  find p [] = none
  find p (x ∷ xs) = let rest = find p xs in if p x then some x else rest

  abbrev pub All {κ} : (A → Type κ) → List A → Type κ
  All P [] = Unit
  All P (x ∷ xs) = P x × All P xs

-- The data of the program stand in `Type 0`, and so does membership.
module _ {A : Type 0} where
  abbrev pub In : A → List A → Type 0
  In a [] = ⊥
  In a (x ∷ xs) = (x ≡ a) ⊎ In a xs

  abbrev pub Distinct : List A → Type 0
  Distinct [] = Unit
  Distinct (x ∷ xs) = (¬ In x xs) × Distinct xs

module _ {A : Type 0} ⦃e : Eq A⦄ where
  -- `a in xs`
  abbrev pub contains : A → List A → Bool
  contains a [] = false
  contains a (x ∷ xs) = e.beq x a || contains a xs

  pub contains→In : (a : A) (xs : List A) → contains a xs ≡ true → In a xs
  contains→In a [] h = cc
  contains→In a (x ∷ xs) h = elim (Bool-cases (e.beq x a)) [
    | inl p ↦ inl ((e.beq_iff x a).0 p)
    | inr p ↦ inr (contains→In a xs (rw p at h))
  ]

  In→contains : (a : A) (xs : List A) → In a xs → contains a xs ≡ true
  In→contains a [] h = absurd h
  In→contains a (x ∷ xs) (inl p) = rw ((e.beq_iff x a).1 p) refl
  In→contains a (x ∷ xs) (inr h) = ground (arith, In→contains a xs h)

  pub not-contains : (a : A) (xs : List A) → contains a xs ≡ false → ¬ In a xs
  not-contains a xs h m = cc (In→contains a xs m)

module _ {A B : Type 0} where
  pub In-map : (f : A → B) (a : A) (xs : List A) → In a xs → In (f a) (map f xs)
  In-map f a [] h = h
  In-map f a (x ∷ xs) (inl p) = inl (ap f p)
  In-map f a (x ∷ xs) (inr h) = inr (In-map f a xs h)

module _ {A : Type 0} where
  pub All-In : (P : A → Type 0) (a : A) (xs : List A) → All P xs → In a xs → P a
  All-In P a [] h m = absurd m
  All-In P a (x ∷ xs) h (inl p) = subst P p h.0
  All-In P a (x ∷ xs) h (inr m) = All-In P a xs h.1 m

  pub All-of_In : (P : A → Type 0) (xs : List A) → ((a : A) → In a xs → P a) → All P xs
  All-of_In P [] f = tt
  All-of_In P (x ∷ xs) f = (f x (inl refl), All-of_In P xs (λ a m. f a (inr m)))

  pub In-append : (a : A) (xs ys : List A) → In a (xs ++ ys) → In a xs ⊎ In a ys
  In-append a [] ys h = inr h
  In-append a (x ∷ xs) ys (inl p) = inl (inl p)
  In-append a (x ∷ xs) ys (inr h) = elim (In-append a xs ys h) [
    | inl m ↦ inl (inr m)
    | inr m ↦ inr m
  ]

  pub In-append_left : (a : A) (xs ys : List A) → In a xs → In a (xs ++ ys)
  In-append_left a (x ∷ xs) ys (inl p) = inl p
  In-append_left a (x ∷ xs) ys (inr h) = inr (In-append_left a xs ys h)
  In-append_left a [] ys h = absurd h

  pub In-append_right : (a : A) (xs ys : List A) → In a ys → In a (xs ++ ys)
  In-append_right a [] ys h = h
  In-append_right a (x ∷ xs) ys h = inr (In-append_right a xs ys h)

  length-append : (xs ys : List A) → length (xs ++ ys) ≡ length xs + length ys
  length-append [] ys = omega arith
  length-append (x ∷ xs) ys = omega (arith, length-append xs ys)

  -- What passes a test was there and passes it.
  pub In-keep : (p : A → Bool) (a : A) (xs : List A) → In a (keep p xs) → In a xs × (p a ≡ true)
  In-keep p a [] h = absurd h
  In-keep p a (x ∷ xs) h =
      let ih = In-keep p a xs in
      elim (Bool-cases (p x)) [
        | inl t ↦
            let h' : (x ≡ a) ⊎ In a (keep p xs) = rw t at h in
            elim h' [
              | inl q ↦ (inl q, subst (λ b. p b ≡ true) q t)
              | inr m ↦ (inr (ih m).0, (ih m).1)
            ]
        | inr t ↦ let m : In a (keep p xs) = rw t at h in (inr (ih m).0, (ih m).1)
      ]

  pub keep-In : (p : A → Bool) (a : A) (xs : List A) → In a xs → p a ≡ true → In a (keep p xs)
  keep-In p a [] h t = h
  keep-In p a (x ∷ xs) (inl q) t = rw (subst (λ b. p b ≡ true) (sym q) t) (inl q)
  keep-In p a (x ∷ xs) (inr m) t = elim (Bool-cases (p x)) [
    | inl u ↦ rw u (inr (keep-In p a xs m t))
    | inr u ↦ rw u (keep-In p a xs m t)
  ]

  keep-append : (p : A → Bool) (xs ys : List A) → keep p (xs ++ ys) ≡ keep p xs ++ keep p ys
  keep-append p [] ys = refl
  keep-append p (x ∷ xs) ys = ground (arith, keep-append p xs ys)

  pub In-drop : (n : ℕ) (a : A) (xs : List A) → In a (drop n xs) → In a xs
  In-drop zero a xs h = h
  In-drop (suc n) a [] h = h
  In-drop (suc n) a (x ∷ xs) h = inr (In-drop n a xs h)

  length-drop : (n : ℕ) (xs : List A) → length (drop n xs) ≡ length xs - n
  length-drop zero xs = omega arith
  length-drop (suc n) [] = omega arith
  length-drop (suc n) (x ∷ xs) = omega (arith, length-drop n xs)

  pub length-take_last : (n : ℕ) (xs : List A) → length (take_last n xs) ≤ n
  length-take_last n xs = omega (arith, length-drop (length xs - n) xs)

  pub find-some : (p : A → Bool) (xs : List A) {a : A} → find p xs ≡ some a → In a xs × (p a ≡ true)
  find-some p [] h = cc
  find-some p (x ∷ xs) {a} h = elim (Bool-cases (p x)) [
    | inl t ↦ (inl (cc), ground arith)
    | inr t ↦ let r = find-some p xs (rw t at h) in (inr r.0, r.1)
  ]

  pub length-keep : (p : A → Bool) (xs : List A) → length (keep p xs) ≤ length xs
  length-keep p [] = omega arith
  length-keep p (x ∷ xs) = ground (arith, length-keep p xs)
