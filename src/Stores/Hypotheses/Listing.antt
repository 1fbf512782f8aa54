-- ===== src/Stores/Hypotheses/Listing.antt =====
-- What `list_for_subject` of `InMemoryHypothesisRepository` (src/sanuvia/adapters/persistence/in_memory.py)
-- lists: the latest evaluation of every lineage of one subject in one space, and nothing else.

use sanuvia_reasoning_engine.Prelude.{
  String, ◌≡◌, refl, sym, ap, ◌∙◌, subst, ◌↔◌, ◌⊎◌, inl, inr, Bool, true, false, Option, none, some,
  List, [], ◌∷◌, map, arith, ◌&&◌, ◌||◌,
}
use sanuvia_reasoning_engine.Prelude.Tests.{◌==◌, string_eq, Bool-cases, if◌then◌else◌}
use sanuvia_reasoning_engine.Prelude.Lists.{In, In-append, In-append_left, In-append_right}
use sanuvia_reasoning_engine.Prelude.Dict.{
  Dict, get, put, has, get-put_self, get-put_ne, has-put, has-eq-true→get, get-some→has,
}
use sanuvia_reasoning_engine.Domain.Hypothesis.{Hypothesis}
use sanuvia_reasoning_engine.Stores.Hypotheses.Order.{
  first_seen, scoped_ids, pick_ids, scan-first_seen,
}
use sanuvia_reasoning_engine.Stores.Hypotheses.{
  in_scope, latest_from, latest, Listing, pick, note, scan, list_for_subject,
}

-- The order lists the ids of the dictionary.
abbrev OrderMatches : {F : Type 0} → Listing F → Type 0
OrderMatches l = (hid : String) → In hid l.1 ↔ (has l.0 hid ≡ true)

module _ {F : Type 0} where
  note-has :
      (l : Listing F) (h : Hypothesis F) (hid : String)
      → has (note l h).0 hid ≡ (h.hypothesis_id == hid || has l.0 hid)
  unfolding note
  note-has (found, order) h hid = has-put found h.hypothesis_id hid h

  note-In :
      (l : Listing F) (h : Hypothesis F)
      → OrderMatches l
      → (hid : String) → In hid (note l h).1 ↔ ((h.hypothesis_id ≡ hid) ⊎ In hid l.1)
  unfolding note
  note-In (found, order) h m hid = elim (Bool-cases (has found h.hypothesis_id)) [
    | inl t ↦ rw t (
      λ i. inr i,
      λ c. elim c [ inl p ↦ subst (λ x. In x order) p ((m h.hypothesis_id).1 t) | inr i ↦ i ],
    )
    | inr t ↦ rw t (
      λ i. elim (In-append hid order (h.hypothesis_id ∷ []) i) [
        | inl k ↦ inr k
        | inr k ↦ elim k [ inl p ↦ inl p | inr z ↦ absurd z ]
      ],
      λ c. elim c [
        | inl p ↦ In-append_right hid order (h.hypothesis_id ∷ []) (inl p)
        | inr i ↦ In-append_left hid order (h.hypothesis_id ∷ []) i
      ],
    )
  ]

  note-OrderMatches : (l : Listing F) (h : Hypothesis F) → OrderMatches l → OrderMatches (note l h)
  note-OrderMatches l h m hid =
      let i = note-In l h m hid in
      let b = note-has l h hid in
      let s = string_eq.beq_iff h.hypothesis_id hid in
      (
        λ k. elim (i.0 k) [
          | inl p ↦ b ∙ ground (arith, s.1 p)
          | inr o ↦ b ∙ ground (arith, (m hid).0 o)
        ],
        λ k. elim (Bool-cases (h.hypothesis_id == hid)) [
          | inl t ↦ i.1 (inl (s.0 t))
          | inr t ↦ i.1 (inr ((m hid).1 (ground (arith, sym b ∙ k))))
        ],
      )

  note-get :
      (l : Listing F) (h : Hypothesis F) (hid : String)
      → get (note l h).0 hid ≡ (if h.hypothesis_id == hid then some h else get l.0 hid)
  unfolding note
  note-get (found, order) h hid =
      let s = string_eq.beq_iff h.hypothesis_id hid in
      elim (Bool-cases (h.hypothesis_id == hid)) [
        | inl t ↦ rw t (
            subst (λ x. get (put found h.hypothesis_id h) x ≡ some h) (s.0 t)
              (get-put_self found h.hypothesis_id h))
        | inr t ↦ rw t (get-put_ne found h.hypothesis_id hid h (λ p. cc (s.1 p)))
      ]

module _ {F : Type 0} (subject space : String) where
  scan-in_scope :
      (l : Listing F) (h : Hypothesis F) (hs : List (Hypothesis F))
      → in_scope subject space h ≡ true
      → scan subject space l (h ∷ hs) ≡ scan subject space (note l h) hs
  unfolding scan
  scan-in_scope l h hs t = ap (λ b. scan subject space (if b then note l h else l) hs) t

  scan-out_of_scope :
      (l : Listing F) (h : Hypothesis F) (hs : List (Hypothesis F))
      → in_scope subject space h ≡ false
      → scan subject space l (h ∷ hs) ≡ scan subject space l hs
  unfolding scan
  scan-out_of_scope l h hs t = ap (λ b. scan subject space (if b then note l h else l) hs) t

  scan-OrderMatches :
      (l : Listing F) (hs : List (Hypothesis F))
      → OrderMatches l
      → OrderMatches (scan subject space l hs)
  unfolding scan
  scan-OrderMatches l [] m = m
  scan-OrderMatches l (h ∷ hs) m = elim (Bool-cases (in_scope subject space h)) [
    | inl t ↦
        subst OrderMatches (sym (scan-in_scope l h hs t))
          (scan-OrderMatches (note l h) hs (note-OrderMatches l h m))
    | inr t ↦ subst OrderMatches (sym (scan-out_of_scope l h hs t)) (scan-OrderMatches l hs m)
  ]

  -- The dictionary of the loop holds what `latest` finds.
  scan-get :
      (l : Listing F) (hs : List (Hypothesis F)) (hid : String)
      → get (scan subject space l hs).0 hid ≡ latest_from subject space hid (get l.0 hid) hs
  unfolding scan latest_from
  scan-get l [] hid = refl
  scan-get l (h ∷ hs) hid =
      let held : Listing F → Option (Hypothesis F) = λ m. get m.0 hid in
      let next : Bool → Option (Hypothesis F) = λ b. if b then some h else get l.0 hid in
      elim (Bool-cases (in_scope subject space h)) [
        | inr t ↦
            let q : false ≡ (h.hypothesis_id == hid && in_scope subject space h) = ground arith in
            ap held (scan-out_of_scope l h hs t)
            ∙ scan-get l hs hid
            ∙ ap (λ b. latest_from subject space hid (next b) hs) q
        | inl t ↦
            let q : (h.hypothesis_id == hid)
                ≡ (h.hypothesis_id == hid && in_scope subject space h) =
              ground arith in
            ap held (scan-in_scope l h hs t)
            ∙ scan-get (note l h) hs hid
            ∙ ap (λ o. latest_from subject space hid o hs) (note-get l h hid)
            ∙ ap (λ b. latest_from subject space hid (next b) hs) q
      ]

  latest_from_sound :
      (hid : String) (found : Option (Hypothesis F)) (hs : List (Hypothesis F)) (h : Hypothesis F)
      → latest_from subject space hid found hs ≡ some h
      → (found ≡ some h) ⊎ In h hs × (h.hypothesis_id ≡ hid) × (in_scope subject space h ≡ true)
  unfolding latest_from
  latest_from_sound hid found [] h e = inl e
  latest_from_sound hid found (k ∷ hs) h e =
      elim (Bool-cases (k.hypothesis_id == hid && in_scope subject space k)) [
        | inl t ↦ elim (latest_from_sound hid (some k) hs h (rw t at e)) [
          | inl q ↦
              let p : k ≡ h = ground arith in
              let id : k.hypothesis_id ≡ hid =
                (string_eq.beq_iff k.hypothesis_id hid).0 (ground arith) in
              let here : in_scope subject space k ≡ true = ground arith in
              inr (
                inl p,
                subst (λ (x : Hypothesis F). x.hypothesis_id ≡ hid) p id,
                subst (λ x. in_scope subject space x ≡ true) p here,
              )
          | inr (m, r, w) ↦ inr (inr m, r, w)
        ]
        | inr t ↦ elim (latest_from_sound hid found hs h (rw t at e)) [
          | inl q ↦ inl q
          | inr (m, r, w) ↦ inr (inr m, r, w)
        ]
      ]

  -- What is found for an id is an evaluation of it in the scope.
  latest_sound :
      (records : List (Hypothesis F)) (hid : String) (h : Hypothesis F)
      → latest subject space records hid ≡ some h
      → In h records × (h.hypothesis_id ≡ hid) × (in_scope subject space h ≡ true)
  unfolding latest
  latest_sound records hid h e = elim (latest_from_sound hid none records h e) [
    | inl q ↦ cc
    | inr r ↦ r
  ]

-- The list that is picked for ids that are all there.
abbrev Picks : {F : Type 0} → Dict String (Hypothesis F) → List String → Type 0
Picks {F} found hids =
    (xs : List (Hypothesis F)) × (pick found hids ≡ some xs)
    × ((h : Hypothesis F) → In h xs ↔ ((hid : String) × In hid hids × (get found hid ≡ some h)))

pick-step :
    {F : Type 0} (found : Dict String (Hypothesis F)) (hid : String) (hids : List String)
    → (v : Hypothesis F) (xs : List (Hypothesis F)) → get found hid ≡ some v
    → pick found hids ≡ some xs
    → pick found (hid ∷ hids) ≡ some (v ∷ xs)
unfolding pick
pick-step found hid hids v xs g e = ground arith

pick-Picks :
    {F : Type 0} (found : Dict String (Hypothesis F)) (hids : List String)
    → ((hid : String) → In hid hids → has found hid ≡ true)
    → Picks found hids
unfolding pick
pick-Picks found [] all = ([], refl, λ h. (λ m. absurd m, λ (hid, m, g). m))
pick-Picks found (hid ∷ hids) all =
    let (xs, e, i) = pick-Picks found hids (λ k m. all k (inr m)) in
    let (v, g) = has-eq-true→get found hid (all hid (inl refl)) in
    (
      v ∷ xs,
      pick-step found hid hids v xs g e,
      λ h. (
        λ m. elim m [
          | inl p ↦ (hid, inl refl, g ∙ ap some p)
          | inr m' ↦ let (k, mk, gk) = (i h).0 m' in (k, inr mk, gk)
        ],
        λ (k, mk, gk). elim mk [
          | inl p ↦ inl (ground (arith, subst (λ x. get found x ≡ some h) (sym p) gk))
          | inr m' ↦ inr ((i h).1 (k, m', gk))
        ],
      ),
    )

-- The listing never fails. It lists each lineage that has an evaluation of this subject in this space once, in
-- the order of the first such evaluations; what is listed for a lineage is its latest evaluation of this subject
-- and space; and every hypothesis of which that is so is listed.
pub list_for_subject-latest :
    {F : Type 0} (subject space : String) (records : List (Hypothesis F))
    → (xs : List (Hypothesis F)) × (list_for_subject subject space records ≡ some xs)
      × (map (λ (h : Hypothesis F). h.hypothesis_id) xs
          ≡ first_seen (scoped_ids subject space records))
      × ((h : Hypothesis F) → In h xs ↔ (latest subject space records h.hypothesis_id ≡ some h))
unfolding list_for_subject latest
list_for_subject-latest {F = F} subject space records =
    let l = scan subject space ([], []) records in
    let order =
      scan-OrderMatches subject space ([], []) records (λ hid. (λ m. absurd m, λ h. cc)) in
    let held = scan-get subject space ([], []) records in
    let own : (hid : String) (h : Hypothesis F) → get l.0 hid ≡ some h → h.hypothesis_id ≡ hid =
      λ hid h g. (latest_sound subject space records hid h (sym (held hid) ∙ g)).1 in
    let (xs, e, i) = pick-Picks l.0 l.1 (λ hid m. (order hid).0 m) in
    (
      xs,
      e,
      pick_ids l.0 l.1 xs own e ∙ scan-first_seen subject space records,
      λ h. (
        λ m.
            let (hid, mo, g) = (i h).0 m in
            let found = sym (held hid) ∙ g in
            subst (λ k. latest_from subject space k none records ≡ some h) (sym (own hid h g))
              found,
        λ q.
            let g = held h.hypothesis_id ∙ q in
            (i h).1
              (h.hypothesis_id, (order h.hypothesis_id).1 (get-some→has l.0 h.hypothesis_id g), g),
      ),
    )
