-- ===== src/Reasoning/Candidates/Order.antt =====
-- The sort of the candidates (src/sanuvia/application/reasoning/handles.py): it keeps the records, and
-- puts them in the order of their ids.
use sanuvia_reasoning_engine.Prelude.{
  suc, ◌≡◌, refl, ap, ◌∙◌, ◌↔◌, ◌⊎◌, inl, inr, true, false, List, [], ◌∷◌, arith,
}
use sanuvia_reasoning_engine.Prelude.Tests.{Bool-cases}
use sanuvia_reasoning_engine.Prelude.Lists.{In, length}
use sanuvia_reasoning_engine.Prelude.Text.{text_gt, text_gt_asymm}
use sanuvia_reasoning_engine.Domain.Evidence.{EvidenceRecord}
use sanuvia_reasoning_engine.Reasoning.Candidates.{insert_by_id, sort_by_id}

module _ {F : Type 0} where
  In-insert_by_id :
      (a r : EvidenceRecord F) (rs : List (EvidenceRecord F))
      → In a (insert_by_id r rs) ↔ ((r ≡ a) ⊎ In a rs)
  unfolding insert_by_id
  In-insert_by_id a r [] = (λ h. h, λ h. h)
  In-insert_by_id a r (s ∷ ss) =
      let ih = In-insert_by_id a r ss in
      elim (Bool-cases (text_gt r.id s.id)) [
        | inr t ↦ rw t (λ h. h, λ h. h)
        | inl t ↦ rw t (
          λ h. elim h [
            | inl p ↦ inr (inl p)
            | inr m ↦ elim (ih.0 m) [ inl q ↦ inl q | inr k ↦ inr (inr k) ]
          ],
          λ h. elim h [
            | inl q ↦ inr (ih.1 (inl q))
            | inr m ↦ elim m [ inl p ↦ inl p | inr k ↦ inr (ih.1 (inr k)) ]
          ],
        )
      ]

  pub In-sort_by_id :
      (a : EvidenceRecord F) (rs : List (EvidenceRecord F)) → In a (sort_by_id rs) ↔ In a rs
  unfolding sort_by_id
  In-sort_by_id a [] = (λ h. h, λ h. h)
  In-sort_by_id a (r ∷ rs) =
      let s = In-insert_by_id a r (sort_by_id rs) in
      let ih = In-sort_by_id a rs in
      (
        λ h. elim (s.0 h) [ inl p ↦ inl p | inr m ↦ inr (ih.0 m) ],
        λ h. s.1 (elim h [ inl p ↦ inl p | inr m ↦ inr (ih.1 m) ]),
      )

  length-insert_by_id :
      (r : EvidenceRecord F) (rs : List (EvidenceRecord F))
      → length (insert_by_id r rs) ≡ suc (length rs)
  unfolding insert_by_id
  length-insert_by_id r [] = refl
  length-insert_by_id r (s ∷ ss) = ground (arith, length-insert_by_id r ss)

  pub length-sort_by_id : (rs : List (EvidenceRecord F)) → length (sort_by_id rs) ≡ length rs
  unfolding sort_by_id
  length-sort_by_id [] = refl
  length-sort_by_id (r ∷ rs) =
      length-insert_by_id r (sort_by_id rs) ∙ ap (λ n. suc n) (length-sort_by_id rs)

  -- Each id is at most the next one.
  abbrev pub Ascending : List (EvidenceRecord F) → Type 0
  Ascending [] = Unit
  Ascending (r ∷ []) = Unit
  Ascending (r ∷ s ∷ ss) = (text_gt r.id s.id ≡ false) × Ascending (s ∷ ss)

  insert_by_id-after :
      (s r : EvidenceRecord F) (ss : List (EvidenceRecord F))
      → text_gt r.id s.id ≡ true
      → Ascending (s ∷ ss)
      → Ascending (insert_by_id r ss)
      → Ascending (s ∷ insert_by_id r ss)
  unfolding insert_by_id
  insert_by_id-after s r [] g a b = (text_gt_asymm r.id s.id g, tt)
  insert_by_id-after s r (k ∷ ks) g a b = elim (Bool-cases (text_gt r.id k.id)) [
    | inl t ↦ let b' : Ascending (k ∷ insert_by_id r ks) = rw t at b in rw t (a.0, b')
    | inr t ↦ let b' : Ascending (r ∷ k ∷ ks) = rw t at b in rw t (text_gt_asymm r.id s.id g, b')
  ]

  Ascending-tail :
      (s : EvidenceRecord F) (ss : List (EvidenceRecord F)) → Ascending (s ∷ ss) → Ascending ss
  Ascending-tail s [] a = tt
  Ascending-tail s (k ∷ ks) a = a.1

  insert_by_id-Ascending :
      (r : EvidenceRecord F) (rs : List (EvidenceRecord F))
      → Ascending rs
      → Ascending (insert_by_id r rs)
  unfolding insert_by_id
  insert_by_id-Ascending r [] a = tt
  insert_by_id-Ascending r (s ∷ ss) a = elim (Bool-cases (text_gt r.id s.id)) [
    | inl t ↦
        rw t (insert_by_id-after s r ss t a (insert_by_id-Ascending r ss (Ascending-tail s ss a)))
    | inr t ↦ rw t (t, a)
  ]

  pub sort_by_id-Ascending : (rs : List (EvidenceRecord F)) → Ascending (sort_by_id rs)
  unfolding sort_by_id
  sort_by_id-Ascending [] = tt
  sort_by_id-Ascending (r ∷ rs) = insert_by_id-Ascending r (sort_by_id rs) (sort_by_id-Ascending rs)
