-- ===== src/Stores/Hypotheses/Order.antt =====
-- The order in which `list_for_subject` of `InMemoryHypothesisRepository`
-- (src/sanuvia/adapters/persistence/in_memory.py) comes upon the lineages. `F` is the type of the program's floats.
use mathlib.Core.Path.{ap₂}
use sanuvia_reasoning_engine.Prelude.{
  String, ◌≡◌, refl, sym, ap, ◌∙◌, subst, inl, inr, Bool, true, false, not, some, List, [], ◌∷◌,
  ◌++◌, map, arith, ◌||◌, ◌&&◌,
}
use sanuvia_reasoning_engine.Prelude.Tests.{
  ◌==◌, string_eq, Bool-cases, Option-cases, if◌then◌else◌,
}
use sanuvia_reasoning_engine.Prelude.Lists.{contains, keep}
use sanuvia_reasoning_engine.Prelude.Dict.{Dict, get, has, has-put}
use sanuvia_reasoning_engine.Domain.Hypothesis.{Hypothesis}
use sanuvia_reasoning_engine.Stores.Hypotheses.{in_scope, Listing, pick, note, scan}

some-injective : {A : Type 0} {a b : A} → some a ≡ some b → a ≡ b
some-injective h = ground arith

-- The texts without repetitions, each where it comes first.
pub first_seen : List String → List String
first_seen [] = []
first_seen (x ∷ xs) = x ∷ keep (λ y. not (x == y)) (first_seen xs)

-- The hypotheses of the evaluations in the scope
pub scoped_ids : {F : Type 0} → String → String → List (Hypothesis F) → List String
scoped_ids {F = F} subject space records =
    map (λ (h : Hypothesis F). h.hypothesis_id) (keep (in_scope subject space) records)

keep-keep :
    {A : Type 0} (p q r : A → Bool)
    → ((x : A) → (q x && p x) ≡ r x)
    → (xs : List A) → keep p (keep q xs) ≡ keep r xs
keep-keep p q r e [] = refl
keep-keep p q r e (x ∷ xs) = elim (Bool-cases (q x)) [
  | inr t ↦ let s : r x ≡ false = sym (e x) ∙ ground arith in rw (t, s) (keep-keep p q r e xs)
  | inl t ↦ elim (Bool-cases (p x)) [
    | inr u ↦ let s : r x ≡ false = sym (e x) ∙ ground arith in rw (t, u, s) (keep-keep p q r e xs)
    | inl u ↦
        let s : r x ≡ true = sym (e x) ∙ ground arith in
        rw (t, u, s) (ap (λ ys. x ∷ ys) (keep-keep p q r e xs))
  ]
]

contains-append :
    (x : String) (xs ys : List String) → contains x (xs ++ ys) ≡ (contains x xs || contains x ys)
contains-append x [] ys = refl
contains-append x (y ∷ xs) ys = ground (arith, contains-append x xs ys)

append_assoc : {A : Type 0} (xs ys zs : List A) → (xs ++ ys) ++ zs ≡ xs ++ (ys ++ zs)
append_assoc [] ys zs = refl
append_assoc (x ∷ xs) ys zs = ap (λ ws. x ∷ ws) (append_assoc xs ys zs)

append_nil : {A : Type 0} (xs : List A) → xs ++ [] ≡ xs
append_nil [] = refl
append_nil (x ∷ xs) = ap (λ ys. x ∷ ys) (append_nil xs)

keep_all : {A : Type 0} (xs : List A) → keep (λ x. true) xs ≡ xs
keep_all [] = refl
keep_all (x ∷ xs) = ap (λ ys. x ∷ ys) (keep_all xs)

-- What is new of some texts, after those that are there.
abbrev news : List String → List String → List String
news seen xs = seen ++ keep (λ y. not (contains y seen)) (first_seen xs)

news_old :
    (seen : List String) (x : String) (xs : List String)
    → contains x seen ≡ true
    → news seen (x ∷ xs) ≡ news seen xs
unfolding first_seen
news_old seen x xs t =
    let fresh : String → Bool = λ y. not (contains y seen) in
    rw t (
      ap (λ ys. seen ++ ys)
        (keep-keep fresh (λ y. not (x == y)) fresh
          (λ y. elim (Bool-cases (x == y)) [
            | inr n ↦ rw n refl
            | inl p ↦
                let same = (string_eq.beq_iff x y).0 p in
                let u = subst (λ z. contains z seen ≡ true) same t in rw (p, u) refl
          ])
          (first_seen xs)))

news_new :
    (seen : List String) (x : String) (xs : List String)
    → contains x seen ≡ false
    → news seen (x ∷ xs) ≡ news (seen ++ x ∷ []) xs
unfolding first_seen
news_new seen x xs t =
    let fresh : String → Bool = λ y. not (contains y seen) in
    let fresh' : String → Bool = λ y. not (contains y (seen ++ x ∷ [])) in
    let rest = first_seen xs in
    let fused : keep fresh (keep (λ y. not (x == y)) rest) ≡ keep fresh' rest =
      keep-keep fresh (λ y. not (x == y)) fresh'
        (λ y. ground (arith, contains-append y seen (x ∷ []))) rest in
    rw t (ap (λ ys. seen ++ x ∷ ys) fused ∙ sym (append_assoc seen (x ∷ []) (keep fresh' rest)))

-- The order of the loop lists the ids of the dictionary.
abbrev HasOrder : {F : Type 0} → Listing F → Type 0
HasOrder l = (hid : String) → has l.0 hid ≡ contains hid l.1

module _ {F : Type 0} where
  note-HasOrder : (l : Listing F) (h : Hypothesis F) → HasOrder l → HasOrder (note l h)
  unfolding note
  note-HasOrder (found, order) h m hid = elim (Bool-cases (has found h.hypothesis_id)) [
    | inl t ↦
        let there = sym (m h.hypothesis_id) ∙ t in
        rw t (
          has-put found h.hypothesis_id hid h ∙ elim (Bool-cases (h.hypothesis_id == hid)) [
            | inr n ↦ rw n (m hid)
            | inl p ↦
                let same = (string_eq.beq_iff h.hypothesis_id hid).0 p in
                rw p (sym (subst (λ i. contains i order ≡ true) same there))
          ])
    | inr t ↦ rw t (
        has-put found h.hypothesis_id hid h
        ∙ ground (arith, m hid, contains-append hid order (h.hypothesis_id ∷ [])))
  ]

  note-news :
      (l : Listing F) (h : Hypothesis F) (xs : List String)
      → HasOrder l
      → news l.1 (h.hypothesis_id ∷ xs) ≡ news (note l h).1 xs
  unfolding note
  note-news (found, order) h xs m = elim (Bool-cases (has found h.hypothesis_id)) [
    | inl t ↦ rw t (news_old order h.hypothesis_id xs (sym (m h.hypothesis_id) ∙ t))
    | inr t ↦ rw t (news_new order h.hypothesis_id xs (sym (m h.hypothesis_id) ∙ t))
  ]

  scan-news :
      (subject space : String) (l : Listing F) (hs : List (Hypothesis F))
      → HasOrder l
      → (scan subject space l hs).1 ≡ news l.1 (scoped_ids subject space hs)
  unfolding scan scoped_ids first_seen
  scan-news subject space l [] m = sym (append_nil l.1)
  scan-news subject space l (h ∷ hs) m =
      let step : Bool → List String = λ b. (scan subject space (if b then note l h else l) hs).1 in
      let rest = keep (in_scope subject space) hs in
      let ids : Bool → List String = λ b.
        news l.1 (map (λ (k : Hypothesis F). k.hypothesis_id) (if b then h ∷ rest else rest)) in
      elim (Bool-cases (in_scope subject space h)) [
        | inr t ↦ ap step t ∙ scan-news subject space l hs m ∙ sym (ap ids t)
        | inl t ↦
            ap step t
            ∙ scan-news subject space (note l h) hs (note-HasOrder l h m)
            ∙ sym (note-news l h (scoped_ids subject space hs) m)
            ∙ sym (ap ids t)
      ]

  -- The order of the loop over all records
  pub scan-first_seen :
      (subject space : String) (hs : List (Hypothesis F))
      → (scan subject space ([], []) hs).1 ≡ first_seen (scoped_ids subject space hs)
  scan-first_seen subject space hs =
      let ids = first_seen (scoped_ids subject space hs) in
      scan-news subject space ([], []) hs (λ hid. refl) ∙ keep_all ids

  -- What is picked has the ids that it is picked by.
  pub pick_ids :
      (found : Dict String (Hypothesis F)) (hids : List String) (xs : List (Hypothesis F))
      → ((hid : String) (h : Hypothesis F) → get found hid ≡ some h → h.hypothesis_id ≡ hid)
      → pick found hids ≡ some xs
      → map (λ (h : Hypothesis F). h.hypothesis_id) xs ≡ hids
  unfolding pick
  pick_ids found [] xs own e =
      subst (λ ys. map (λ (h : Hypothesis F). h.hypothesis_id) ys ≡ []) (some-injective e) refl
  pick_ids found (hid ∷ hids) xs own e = elim (Option-cases (get found hid)) [
    | inl n ↦ cc (rw (pick, n) at e)
    | inr (h, n) ↦ elim (Option-cases (pick found hids)) [
      | inl k ↦ cc (rw (pick, n, k) at e)
      | inr (ys, k) ↦
          let q : some (h ∷ ys) ≡ some xs = rw (pick, n, k) at e in
          subst (λ zs. map (λ (h : Hypothesis F). h.hypothesis_id) zs ≡ hid ∷ hids)
            (some-injective q) (ap₂ (λ a b. a ∷ b) (own hid h n) (pick_ids found hids ys own k))
    ]
  ]
