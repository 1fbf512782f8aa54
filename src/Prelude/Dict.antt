-- ===== src/Prelude/Dict.antt =====
-- Python's insertion-ordered `dict`: a list of entries in the order of first insertion.
use mathlib.Core.Path.{◌≡◌, refl, ap, sym, subst, ◌∙◌}
use mathlib.Core.Logic.{◌≢◌, ◌⊎◌, inl, inr}
use mathlib.Core.Bool.{Bool, true, false, ◌||◌}
use mathlib.Core.Option.{Option, none, some}
use mathlib.Core.List.{List, [], ◌∷◌, ◌++◌, map}
use native.Mathlib.Omega.{arith}
use sanuvia_reasoning_engine.Prelude.Tests.{Eq, Bool-cases, if◌then◌else◌}
use sanuvia_reasoning_engine.Prelude.Lists.{In, All, contains}

abbrev pub Dict : Type 0 → Type 0 → Type 0
Dict K V = List (K × V)

module _ {K V : Type 0} where
  -- `d.values()`
  abbrev pub values : Dict K V → List V
  values = map (λ (e : K × V). e.1)

  -- `list(d)`
  abbrev pub keys : Dict K V → List K
  keys = map (λ (e : K × V). e.0)

module _ {K V : Type 0} ⦃e : Eq K⦄ where
  -- `d.get(k)`
  abbrev pub get : Dict K V → K → Option V
  get [] k = none
  get ((j, v) ∷ d) k = let rest = get d k in if e.beq j k then some v else rest

  -- `k in d`
  abbrev pub has : Dict K V → K → Bool
  has [] k = false
  has ((j, v) ∷ d) k = e.beq j k || has d k

  -- `d[k] = v`: an entry that is there keeps its place.
  abbrev pub put : Dict K V → K → V → Dict K V
  put [] k v = (k, v) ∷ []
  put ((j, w) ∷ d) k v = let rest = put d k v in if e.beq j k then (j, v) ∷ d else (j, w) ∷ rest

  pub get-put_self : (d : Dict K V) (k : K) (v : V) → get (put d k v) k ≡ some v
  get-put_self [] k v = rw ((e.beq_iff k k).1 refl) refl
  get-put_self ((j, w) ∷ d) k v = elim (Bool-cases (e.beq j k)) [
    | inl t ↦ rw (t, t)
    | inr t ↦ rw (t, t) (get-put_self d k v)
  ]

  pub get-put_ne : (d : Dict K V) (k j : K) (v : V) → k ≢ j → get (put d k v) j ≡ get d j
  get-put_ne [] k j v h = ground (arith, (e.beq_iff k j).0)
  get-put_ne ((i, w) ∷ d) k j v h = elim (Bool-cases (e.beq i k)) [
    | inl t ↦ ground (arith, (e.beq_iff i k).0, (e.beq_iff i j).0)
    | inr t ↦ ground (arith, get-put_ne d k j v h)
  ]

  pub has-eq-true→get : (d : Dict K V) (k : K) → has d k ≡ true → (v : V) × (get d k ≡ some v)
  has-eq-true→get [] k h = cc
  has-eq-true→get ((j, w) ∷ d) k h = elim (Bool-cases (e.beq j k)) [
    | inl t ↦ (w, rw t)
    | inr t ↦ rw t (has-eq-true→get d k (rw t at h))
  ]

  pub get-some→has : (d : Dict K V) (k : K) {v : V} → get d k ≡ some v → has d k ≡ true
  get-some→has [] k h = cc
  get-some→has ((j, w) ∷ d) k h = elim (Bool-cases (e.beq j k)) [
    | inl t ↦ rw t
    | inr t ↦ rw t (get-some→has d k (rw t at h))
  ]

  has-eq-false→get : (d : Dict K V) (k : K) → has d k ≡ false → get d k ≡ none
  has-eq-false→get [] k h = refl
  has-eq-false→get ((j, w) ∷ d) k h = ground (arith, has-eq-false→get d k)

  pub get-none→has : (d : Dict K V) (k : K) → get d k ≡ none → has d k ≡ false
  get-none→has [] k h = refl
  get-none→has ((j, w) ∷ d) k h = ground (arith, get-none→has d k)

  pub has-eq-contains : (d : Dict K V) (k : K) → has d k ≡ contains k (keys d)
  has-eq-contains [] k = refl
  has-eq-contains ((j, w) ∷ d) k = rw (has-eq-contains d k)

  -- A new key goes to the end.
  pub put-new : (d : Dict K V) (k : K) (v : V) → has d k ≡ false → put d k v ≡ d ++ (k, v) ∷ []
  put-new [] k v h = refl
  put-new ((j, w) ∷ d) k v h = ground (arith, put-new d k v)

  get-In : (d : Dict K V) (k : K) {v : V} → get d k ≡ some v → In v (values d)
  get-In [] k h = cc
  get-In ((j, w) ∷ d) k h = elim (Bool-cases (e.beq j k)) [
    | inl t ↦ inl (ground arith)
    | inr t ↦ inr (get-In d k (rw t at h))
  ]

module _ {K V : Type 0} ⦃e : Eq K⦄ where
  pub get-In_entry : (d : Dict K V) (k : K) (v : V) → get d k ≡ some v → In (k, v) d
  get-In_entry [] k v h = cc
  get-In_entry ((j, w) ∷ d) k v h = elim (Bool-cases (e.beq j k)) [
    | inl t ↦ inl (ground (arith, (e.beq_iff j k).0))
    | inr t ↦ inr (get-In_entry d k v (rw t at h))
  ]

  pub All-put :
      (P : K × V → Type 0) (d : Dict K V) (k : K) (v : V) → All P d → P (k, v) → All P (put d k v)
  All-put P [] k v h p = (p, tt)
  All-put P ((j, w) ∷ d) k v h p = elim (Bool-cases (e.beq j k)) [
    | inl t ↦ rw t (subst (λ i. P (i, v)) (sym ((e.beq_iff j k).0 t)) p, h.1)
    | inr t ↦ rw t (h.0, All-put P d k v h.1 p)
  ]

  pub has-put : (d : Dict K V) (k j : K) (v : V) → has (put d k v) j ≡ (e.beq k j || has d j)
  has-put [] k j v = refl
  has-put ((i, w) ∷ d) k j v = elim (Bool-cases (e.beq i k)) [
    | inl t ↦ rw t (ground (arith, (e.beq_iff i k).0 t))
    | inr t ↦ rw t (ground (arith, has-put d k j v))
  ]

abbrev pub or_empty {ℓ} : {V : Type ℓ} → Option (List V) → List V
or_empty none = []
or_empty (some vs) = vs

module _ {K V : Type 0} ⦃e : Eq K⦄ where
  -- `d.get(k, [])` of a dictionary of lists
  abbrev pub get_list : Dict K (List V) → K → List V
  get_list d k = or_empty (get d k)

  -- `d.setdefault(k, []).append(v)`
  abbrev pub append_at : Dict K (List V) → K → V → Dict K (List V)
  append_at d k v = put d k (get_list d k ++ v ∷ [])

  pub get_list-append_at_self :
      (d : Dict K (List V)) (k : K) (v : V) → get_list (append_at d k v) k ≡ get_list d k ++ v ∷ []
  get_list-append_at_self d k v = ap or_empty (get-put_self d k (get_list d k ++ v ∷ []))

  pub get_list-append_at_ne :
      (d : Dict K (List V)) (k j : K) (v : V) → k ≢ j → get_list (append_at d k v) j ≡ get_list d j
  get_list-append_at_ne d k j v h = ap or_empty (get-put_ne d k j (get_list d k ++ v ∷ []) h)

module _ {K V : Type 0} ⦃e : Eq K⦄ where
  -- What a key has after an assignment is the new value, or what another key had before.
  pub get-put_cases :
      (d : Dict K V) (k j : K) {v w : V}
      → get (put d k v) j ≡ some w
      → ((k ≡ j) × (v ≡ w)) ⊎ ((k ≢ j) × (get d j ≡ some w))
  get-put_cases d k j {v} {w} h = elim (Bool-cases (e.beq k j)) [
    | inl t ↦
        let p = (e.beq_iff k j).0 t in
        inl
          (p, ground (arith, get-put_self d k v, subst (λ i. get (put d k v) i ≡ some w) (sym p) h))
    | inr t ↦
        let n : k ≢ j = λ p. cc ((e.beq_iff k j).1 p) in inr (n, sym (get-put_ne d k j v n) ∙ h)
  ]

  -- An assignment to a key that is not there keeps what the others have.
  pub get-put_new :
      (d : Dict K V) (k j : K) (v : V) {w : V}
      → has d k ≡ false
      → get d j ≡ some w
      → get (put d k v) j ≡ some w
  get-put_new d k j v h g =
      let n : k ≢ j = λ p. cc (subst (λ i. has d i ≡ false) p h, get-some→has d j g) in
      get-put_ne d k j v n ∙ g
