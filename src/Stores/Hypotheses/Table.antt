-- ===== src/Stores/Hypotheses/Table.antt =====
-- The dictionary that `list_for_subject` of `InMemoryHypothesisRepository`
-- (src/sanuvia/adapters/persistence/in_memory.py) builds: it lists its values, and is rebuilt from them.

use mathlib.Core.Path.{ap₂}
use sanuvia_reasoning_engine.Prelude.{
  String, ◌≡◌, refl, sym, ap, ◌∙◌, subst, inl, inr, Bool, true, false, some, List, [], ◌∷◌, ◌++◌,
  arith, ◌||◌,
}
use sanuvia_reasoning_engine.Prelude.Tests.{◌==◌, string_eq, Bool-cases, if◌then◌else◌}
use sanuvia_reasoning_engine.Prelude.Lists.{In, All}
use sanuvia_reasoning_engine.Prelude.Dict.{Dict, get, put, has, keys, values, put-new, has-put}
use sanuvia_reasoning_engine.Domain.Hypothesis.{Hypothesis}
use sanuvia_reasoning_engine.Reasoning.Handles.Request.{by_key_onto}
use sanuvia_reasoning_engine.Stores.Hypotheses.{
  in_scope, Listing, pick, note, scan, list_for_subject,
}

if-keeps : {A : Type 0} (P : A → Type 0) (b : Bool) (x y : A) → P x → P y → P (if b then x else y)
if-keeps P true x y p q = p
if-keeps P false x y p q = q

module _ {F : Type 0} where
  -- Every evaluation is under its own hypothesis, and no key repeats.
  abbrev IsTable : Dict String (Hypothesis F) → Type 0
  IsTable [] = Unit
  IsTable ((k, v) ∷ d) = (v.hypothesis_id ≡ k) × (has d k ≡ false) × IsTable d

  put-IsTable :
      (d : Dict String (Hypothesis F)) (h : Hypothesis F)
      → IsTable d
      → IsTable (put d h.hypothesis_id h)
  put-IsTable [] h t = (refl, refl, tt)
  put-IsTable ((j, w) ∷ d) h (p, n, t) = elim (Bool-cases (j == h.hypothesis_id)) [
    | inl q ↦ rw q (sym ((string_eq.beq_iff j h.hypothesis_id).0 q), n, t)
    | inr q ↦ rw q (
      p,
      has-put d h.hypothesis_id j h
          ∙ ground (
            arith,
            (string_eq.beq_iff h.hypothesis_id j).0,
            (string_eq.beq_iff j h.hypothesis_id).1,
          ),
      put-IsTable d h t,
    )
  ]

  keys-put :
      (d : Dict String (Hypothesis F)) (k : String) (h : Hypothesis F)
      → keys (put d k h) ≡ (if has d k then keys d else keys d ++ k ∷ [])
  keys-put [] k h = refl
  keys-put ((j, w) ∷ d) k h = elim (Bool-cases (j == k)) [
    | inl q ↦ rw q refl
    | inr q ↦ elim (Bool-cases (has d k)) [
      | inl s ↦ rw (q, s) (ap (λ ks. j ∷ ks) (keys-put d k h ∙ rw s refl))
      | inr s ↦ rw (q, s) (ap (λ ks. j ∷ ks) (keys-put d k h ∙ rw s refl))
    ]
  ]

  In-has :
      (d : Dict String (Hypothesis F)) (k : String) (h : Hypothesis F)
      → In (k, h) d
      → has d k ≡ true
  In-has [] k h m = absurd m
  In-has ((j, w) ∷ d) k h (inl p) =
      ground (arith, (string_eq.beq_iff j k).1 (ap (λ (e : String × Hypothesis F). e.0) p))
  In-has ((j, w) ∷ d) k h (inr m) = ground (arith, In-has d k h m)

  IsTable-get :
      (d : Dict String (Hypothesis F)) (k : String) (h : Hypothesis F)
      → IsTable d
      → In (k, h) d
      → get d k ≡ some h
  IsTable-get [] k h t m = absurd m
  IsTable-get ((j, w) ∷ d) k h (p, n, t) (inl q) =
      let same = (string_eq.beq_iff j k).1 (ap (λ (e : String × Hypothesis F). e.0) q) in
      rw same (ap some (ap (λ (e : String × Hypothesis F). e.1) q))
  IsTable-get ((j, w) ∷ d) k h (p, n, t) (inr m) = elim (Bool-cases (j == k)) [
    | inl q ↦
        cc (n, subst (λ i. has d i ≡ true) (sym ((string_eq.beq_iff j k).0 q)) (In-has d k h m))
    | inr q ↦ rw q (IsTable-get d k h t m)
  ]

  pick-cons :
      (found : Dict String (Hypothesis F)) (hid : String) (hids : List String) (h : Hypothesis F)
      (hs : List (Hypothesis F))
      → get found hid ≡ some h
      → pick found hids ≡ some hs
      → pick found (hid ∷ hids) ≡ some (h ∷ hs)
  unfolding pick
  pick-cons found hid hids h hs g r = ground arith

  pick-keys :
      (found d : Dict String (Hypothesis F))
      → ((k : String) (h : Hypothesis F) → In (k, h) d → get found k ≡ some h)
      → pick found (keys d) ≡ some (values d)
  unfolding pick
  pick-keys found [] g = refl
  pick-keys found ((k, h) ∷ d) g =
      pick-cons found k (keys d) h (values d) (g k h (inl refl))
        (pick-keys found d (λ j w m. g j w (inr m)))

  append_assoc :
      (xs : Dict String (Hypothesis F)) (e : String × Hypothesis F)
      (ys : Dict String (Hypothesis F))
      → (xs ++ e ∷ []) ++ ys ≡ xs ++ e ∷ ys
  append_assoc [] e ys = refl
  append_assoc (x ∷ xs) e ys = ap (λ zs. x ∷ zs) (append_assoc xs e ys)

  append-nil : (xs : Dict String (Hypothesis F)) → xs ++ [] ≡ xs
  append-nil [] = refl
  append-nil (x ∷ xs) = ap (λ zs. x ∷ zs) (append-nil xs)

  head-has :
      (k : String) (h : Hypothesis F) (d : Dict String (Hypothesis F)) → has ((k, h) ∷ d) k ≡ true
  head-has k h d = rw ((string_eq.beq_iff k k).1 refl) refl

  tail-has :
      (k j : String) (h : Hypothesis F) (d : Dict String (Hypothesis F))
      → has d j ≡ true
      → has ((k, h) ∷ d) j ≡ true
  tail-has k j h d m = ground arith

  -- A key that is absent is none that is present.
  other-key :
      (k j : String) (d : Dict String (Hypothesis F))
      → has d k ≡ false
      → has d j ≡ true
      → (k == j) ≡ false
  other-key k j d n m = elim (Bool-cases (k == j)) [
    | inl q ↦ cc (subst (λ i. has d i ≡ false) ((string_eq.beq_iff k j).0 q) n, m)
    | inr q ↦ q
  ]

  by_key-values :
      (acc d : Dict String (Hypothesis F))
      → IsTable d
      → ((k : String) → has d k ≡ true → has acc k ≡ false)
      → by_key_onto (λ (h : Hypothesis F). h.hypothesis_id) acc (values d) ≡ acc ++ d
  by_key-values acc [] t apart = sym (append-nil acc)
  by_key-values acc ((k, h) ∷ d) (p, n, t) apart =
      let fresh : has acc h.hypothesis_id ≡ false =
        subst (λ i. has acc i ≡ false) (sym p) (apart k (head-has k h d)) in
      let later : (j : String) → has d j ≡ true → has (put acc h.hypothesis_id h) j ≡ false = λ j m.
        has-put acc h.hypothesis_id j h
        ∙ ap₂ (λ a b. a || b)
            (other-key h.hypothesis_id j d (subst (λ i. has d i ≡ false) (sym p) n) m)
            (apart j (tail-has k j h d m)) in
      by_key-values (put acc h.hypothesis_id h) d t later
      ∙ ap (λ xs. xs ++ d) (put-new acc h.hypothesis_id h fresh)
      ∙ append_assoc acc (h.hypothesis_id, h) d
      ∙ ap (λ i. acc ++ (i, h) ∷ d) p

  -- The dictionary is rebuilt from its values.
  pub IsTable-by_key :
      (d : Dict String (Hypothesis F))
      → IsTable d
      → by_key_onto (λ (h : Hypothesis F). h.hypothesis_id) [] (values d) ≡ d
  IsTable-by_key d t = by_key-values [] d t (λ k h. refl)

  -- `{h.hypothesis_id: h}` written over a working set, record after record
  unfoldable pub replay :
      Dict String (Hypothesis F) → List (Hypothesis F) → Dict String (Hypothesis F)
  replay base [] = base
  replay base (h ∷ hs) = replay (put base h.hypothesis_id h) hs

  -- The order of the loop lists the keys.
  IsListed : Listing F → Type 0
  IsListed l = IsTable l.0 × (l.1 ≡ keys l.0)

  note-IsListed : (l : Listing F) (h : Hypothesis F) → IsListed l → IsListed (note l h)
  unfolding IsListed note
  note-IsListed (found, order) h (t, o) = (
    put-IsTable found h t,
    ap (λ ks. if has found h.hypothesis_id then ks else ks ++ h.hypothesis_id ∷ []) o
        ∙ sym (keys-put found h.hypothesis_id h),
  )

module _ {F : Type 0} (subject space : String) where
  scan-IsListed :
      (l : Listing F) (hs : List (Hypothesis F)) → IsListed l → IsListed (scan subject space l hs)
  unfolding scan
  scan-IsListed l [] k = k
  scan-IsListed l (h ∷ hs) k =
      scan-IsListed (if in_scope subject space h then note l h else l) hs
        (if-keeps IsListed (in_scope subject space h) (note l h) l (note-IsListed l h k) k)

  scan-append :
      (l : Listing F) (hs rs : List (Hypothesis F))
      → scan subject space l (hs ++ rs) ≡ scan subject space (scan subject space l hs) rs
  unfolding scan
  scan-append l [] rs = refl
  scan-append l (h ∷ hs) rs = scan-append (if in_scope subject space h then note l h else l) hs rs

  -- The dictionary of the loop over all records
  pub table : List (Hypothesis F) → Dict String (Hypothesis F)
  table hs = (scan subject space ([], []) hs).0

  pub table-IsTable : (hs : List (Hypothesis F)) → IsTable (table hs)
  unfolding IsListed table
  table-IsTable hs = (scan-IsListed ([], []) hs (tt, refl)).0

  -- Listing a subject lists the values of the dictionary.
  pub list_for_subject-table :
      (hs : List (Hypothesis F)) → list_for_subject subject space hs ≡ some (values (table hs))
  unfolding list_for_subject IsListed table
  list_for_subject-table hs =
      let l = scan subject space ([], []) hs in
      let (t, o) = scan-IsListed ([], []) hs (tt, refl) in
      ap (pick l.0) o ∙ pick-keys l.0 l.0 (λ k h m. IsTable-get l.0 k h t m)

  scan-replay :
      (l : Listing F) (rs : List (Hypothesis F))
      → All (λ h. in_scope subject space h ≡ true) rs
      → (scan subject space l rs).0 ≡ replay l.0 rs
  unfolding scan replay note
  scan-replay l [] t = refl
  scan-replay l (r ∷ rs) (t, ts) =
      ap (λ b. (scan subject space (if b then note l r else l) rs).0) t
      ∙ scan-replay (note l r) rs ts

  -- Records of the subject that are added are written over the dictionary in their order.
  pub table-append :
      (hs rs : List (Hypothesis F))
      → All (λ h. in_scope subject space h ≡ true) rs
      → table (hs ++ rs) ≡ replay (table hs) rs
  unfolding table
  table-append hs rs t =
      ap (λ (l : Listing F). l.0) (scan-append ([], []) hs rs)
      ∙ scan-replay (scan subject space ([], []) hs) rs t
