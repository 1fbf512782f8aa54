-- ===== src/Reasoning/Validation/Loops.antt =====
-- The two loops that the checks are written with, and when they pass.
use sanuvia_reasoning_engine.Prelude.{
  ◌≡◌, refl, ◌↔◌, inl, inr, List, [], ◌∷◌, map, arith, subst, sym,
}
use sanuvia_reasoning_engine.Prelude.Tests.{Eq, if◌then◌else◌, Bool-cases}
use sanuvia_reasoning_engine.Prelude.Lists.{
  In, All, All-In, All-of_In, Distinct, contains, contains→In, not-contains,
}
use sanuvia_reasoning_engine.Domain.Errors.{
  Check, Result, ok, err, ◌>>=◌, ◌>>◌, Error, IsGoverned, OnlyGoverned,
}

abbrev pub Passes : Check → Type 0
Passes c = c ≡ ok tt

pub Passes-seq : (c d : Check) → Passes (c >> d) ↔ (Passes c × Passes d)
Passes-seq (ok tt) d = (λ h. (refl, h), λ h. h.1)
Passes-seq (err e) d = (λ h. cc, λ h. cc)

pub bind-ok :
    {A B : Type 0} (m : Result A) (f : A → Result B) (b : B)
    → ((m >>= f) ≡ ok b) ↔ ((a : A) × (m ≡ ok a) × (f a ≡ ok b))
bind-ok (ok a) f b = (λ h. (a, refl, h), λ (a', e, h). ground arith)
bind-ok (err e) f b = (λ h. cc, λ (a', e', h). cc)

OnlyGoverned-seq : (c d : Check) → OnlyGoverned c → OnlyGoverned d → OnlyGoverned (c >> d)
OnlyGoverned-seq (ok tt) d h k = k
OnlyGoverned-seq (err e) d h k = h

module _ {A : Type 0} where
  -- `for x in xs: check(x)`
  unfoldable pub each : (A → Check) → List A → Check
  each check [] = ok tt
  each check (x ∷ xs) = check x >> each check xs

  pub each-Passes :
      (check : A → Check) (xs : List A) → Passes (each check xs) ↔ All (λ x. Passes (check x)) xs
  unfolding each
  each-Passes check [] = (λ h. tt, λ h. refl)
  each-Passes check (x ∷ xs) =
      let ih = each-Passes check xs in
      let s = Passes-seq (check x) (each check xs) in
      (λ h. ((s.0 h).0, ih.0 (s.0 h).1), λ h. s.1 (h.0, ih.1 h.1))

  -- The loop passes exactly when each element has what its test is about.
  pub each_iff :
      (check : A → Check) (P : A → Type 0)
      → ((x : A) → Passes (check x) ↔ P x)
      → (xs : List A) → Passes (each check xs) ↔ ((x : A) → In x xs → P x)
  each_iff check P e xs = (
    λ h x m. (e x).0 (All-In (λ y. Passes (check y)) x xs ((each-Passes check xs).0 h) m),
    λ h. (each-Passes check xs).1 (All-of_In (λ y. Passes (check y)) xs (λ x m. (e x).1 (h x m))),
  )

  each-OnlyGoverned :
      (check : A → Check)
      → ((x : A) → OnlyGoverned (check x))
      → (xs : List A) → OnlyGoverned (each check xs)
  unfolding each
  each-OnlyGoverned check h [] = tt
  each-OnlyGoverned check h (x ∷ xs) =
      OnlyGoverned-seq (check x) (each check xs) (h x) (each-OnlyGoverned check h xs)

module _ {A K : Type 0} ⦃e : Eq K⦄ (key : A → K) (fail : A → Error) where
  -- `for x in xs: if key(x) in seen: raise fail(x); seen.add(key(x))`
  unfoldable pub no_repeat : List K → List A → Check
  no_repeat seen [] = ok tt
  no_repeat seen (x ∷ xs) =
      let rest = no_repeat (key x ∷ seen) xs in if contains (key x) seen then err (fail x) else rest

  abbrev Fresh : List K → List A → Type 0
  Fresh seen [] = Unit
  Fresh seen (x ∷ xs) = (¬ In (key x) seen) × Fresh (key x ∷ seen) xs

  no_repeat-Fresh : (seen : List K) (xs : List A) → Passes (no_repeat seen xs) → Fresh seen xs
  unfolding no_repeat
  no_repeat-Fresh seen [] h = tt
  no_repeat-Fresh seen (x ∷ xs) h = elim (Bool-cases (contains (key x) seen)) [
    | inl t ↦ cc
    | inr t ↦ (not-contains (key x) seen t, no_repeat-Fresh (key x ∷ seen) xs (rw t at h))
  ]

  Fresh-no_repeat : (seen : List K) (xs : List A) → Fresh seen xs → Passes (no_repeat seen xs)
  unfolding no_repeat
  Fresh-no_repeat seen [] h = refl
  Fresh-no_repeat seen (x ∷ xs) h = elim (Bool-cases (contains (key x) seen)) [
    | inl t ↦ absurd (h.0 (contains→In (key x) seen t))
    | inr t ↦ rw t (Fresh-no_repeat (key x ∷ seen) xs h.1)
  ]

  Fresh-not_seen :
      (seen : List K) (xs : List A) (k : K) → Fresh seen xs → In k seen → ¬ In k (map key xs)
  Fresh-not_seen seen [] k f m h = h
  Fresh-not_seen seen (x ∷ xs) k f m (inl p) = f.0 (subst (λ j. In j seen) (sym p) m)
  Fresh-not_seen seen (x ∷ xs) k f m (inr h) = Fresh-not_seen (key x ∷ seen) xs k f.1 (inr m) h

  Fresh→Distinct : (seen : List K) (xs : List A) → Fresh seen xs → Distinct (map key xs)
  Fresh→Distinct seen [] f = tt
  Fresh→Distinct seen (x ∷ xs) f = (
    Fresh-not_seen (key x ∷ seen) xs (key x) f.1 (inl refl),
    Fresh→Distinct (key x ∷ seen) xs f.1,
  )

  Distinct→Fresh :
      (seen : List K) (xs : List A)
      → Distinct (map key xs)
      → ((k : K) → In k seen → ¬ In k (map key xs))
      → Fresh seen xs
  Distinct→Fresh seen [] d n = tt
  Distinct→Fresh seen (x ∷ xs) d n = (
    λ m. n (key x) m (inl refl),
    Distinct→Fresh (key x ∷ seen) xs d.1 λ k m h. elim m [
      | inl p ↦ d.0 (subst (λ j. In j (map key xs)) (sym p) h)
      | inr m' ↦ n k m' (inr h)
    ],
  )

  -- The loop passes exactly when no key occurs twice.
  pub no_repeat-Passes : (xs : List A) → Passes (no_repeat [] xs) ↔ Distinct (map key xs)
  no_repeat-Passes xs = (
    λ h. Fresh→Distinct [] xs (no_repeat-Fresh [] xs h),
    λ d. Fresh-no_repeat [] xs (Distinct→Fresh [] xs d (λ k m h. m)),
  )

  no_repeat-OnlyGoverned :
      ((x : A) → IsGoverned (fail x))
      → (seen : List K) (xs : List A) → OnlyGoverned (no_repeat seen xs)
  unfolding no_repeat
  no_repeat-OnlyGoverned h seen [] = tt
  no_repeat-OnlyGoverned h seen (x ∷ xs) = elim (Bool-cases (contains (key x) seen)) [
    | inl t ↦ rw t (h x)
    | inr t ↦ rw t (no_repeat-OnlyGoverned h (key x ∷ seen) xs)
  ]
