-- ===== src/Reasoning/Validation/Matches.antt =====
-- What check 2 (f) admits: no weakening beside a match on one lineage.
use sanuvia_reasoning_engine.Prelude.{
  String, ◌≡◌, refl, sym, ap, ◌∙◌, subst, ◌↔◌, inl, inr, true, false, Option, none, some, List, [],
  ◌∷◌, arith,
}
use sanuvia_reasoning_engine.Prelude.Tests.{string_eq, pair_eq, Bool-cases, Option-cases, ◌==◌}
use sanuvia_reasoning_engine.Prelude.Lists.{In, contains, contains→In, not-contains}
use sanuvia_reasoning_engine.Prelude.Dict.{get, values}
use sanuvia_reasoning_engine.Reasoning.Ports.{Bearing, bearing_eq}
use sanuvia_reasoning_engine.Reasoning.Handles.{HandleTable}
use sanuvia_reasoning_engine.Reasoning.Validation.Plan.{AppraisedObservation}
use sanuvia_reasoning_engine.Reasoning.Validation.Loops.{Passes, each_iff}
use sanuvia_reasoning_engine.Reasoning.Validation.Responses.{
  match_incompatible, matched_ids, match_existing_text, not_matched, check_2f_bearing_and_match,
}

pair_path :
    (a c : String) (b d : Option String)
    → a ≡ c
    → b ≡ d
    → ◌≡◌ {A = String × Option String} (a, b) (c, d)
pair_path a c b d p q = λ i. (p i, q i)

some-inj : (a b : String) → ◌≡◌ {A = Option String} (some a) (some b) → a ≡ b
some-inj a b e = cc

-- The decisions that count as a match.
matched_ids-In :
    (hid : String) (ds : List (String × Option String))
    → In hid (matched_ids ds) ↔ In {A = String × Option String} (match_existing_text, some hid) ds
unfolding matched_ids
matched_ids-In hid [] = (λ h. h, λ h. h)
matched_ids-In hid ((o, none) ∷ ds) =
    let ih = matched_ids-In hid ds in
    (
      λ h. inr (ih.0 h),
      λ h. elim h [
        | inl p ↦ absurd (none-ne-some (ap (λ (q : String × Option String). q.1) p))
        | inr m ↦ ih.1 m
      ],
    )
  where
    none-ne-some : ◌≡◌ {A = Option String} none (some hid) → ⊥
    none-ne-some e = cc
matched_ids-In hid ((o, some k) ∷ ds) =
    let ih = matched_ids-In hid ds in
    elim (Bool-cases (o == match_existing_text)) [
      | inl t ↦ rw t (
        λ h. elim h [
          | inl p ↦ inl (
              pair_path o match_existing_text (some k) (some hid)
                ((string_eq.beq_iff o match_existing_text).0 t) (ap some p))
          | inr r ↦ inr (ih.0 r)
        ],
        λ h. elim h [
          | inl p ↦ inl (some-inj k hid (ap (λ (q : String × Option String). q.1) p))
          | inr r ↦ inr (ih.1 r)
        ],
      )
      | inr t ↦ rw t (
        λ h. inr (ih.0 h),
        λ h. elim h [
          | inl p ↦ absurd (not_equal t (ap (λ (q : String × Option String). q.0) p))
          | inr r ↦ ih.1 r
        ],
      )
    ]
  where
    not_equal : (o == match_existing_text) ≡ false → o ≡ match_existing_text → ⊥
    not_equal t e = cc ((string_eq.beq_iff o match_existing_text).1 e)

-- No bearing that weakens or contradicts a lineage stands beside a decision that matches it.
abbrev pub NoMatchedWeakening : AppraisedObservation → Type 0
NoMatchedWeakening obs =
    (b : Bearing) (hid : String)
    → In b obs.bearings
    → match_incompatible b.kind ≡ true
    → get obs.table.hypotheses b.target ≡ some hid
    → ¬ In {A = String × Option String} (match_existing_text, some hid) (values obs.decisions)

not_matched-Passes :
    (raw : Option String) (t : HandleTable) (ids : List String) (b : Bearing)
    → Passes (not_matched raw t ids b) ↔ (
        (hid : String)
        → match_incompatible b.kind ≡ true
        → get t.hypotheses b.target ≡ some hid
        → ¬ In hid ids)
not_matched-Passes raw t ids b = elim (Option-cases (get t.hypotheses b.target)) [
  | inl e ↦ (λ h hid inc r. cc, λ h. ground arith)
  | inr (v, e) ↦ elim (Bool-cases (contains v ids)) [
    | inl c ↦ (
      λ h hid inc r m. ground arith,
      λ h. elim (Bool-cases (match_incompatible b.kind)) [
        | inl inc ↦ absurd (h v inc e (contains→In v ids c))
        | inr inc ↦ rw inc refl
      ],
    )
    | inr c ↦ (
      λ h hid inc r m.
          not-contains v ids c (subst (λ (x : String). In x ids) (some-inj hid v (sym r ∙ e)) m),
      λ h. ground arith,
    )
  ]
]

-- Check 2 (f) passes exactly when no lineage is both matched and weakened by the observation.
pub check_2f-Passes :
    (obs : AppraisedObservation) → Passes (check_2f_bearing_and_match obs) ↔ NoMatchedWeakening obs
unfolding check_2f_bearing_and_match
check_2f-Passes obs =
    let ids = matched_ids (values obs.decisions) in
    let e =
      each_iff (not_matched obs.raw_response obs.table ids)
        (λ b.
          (hid : String)
          → match_incompatible b.kind ≡ true
          → get obs.table.hypotheses b.target ≡ some hid
          → ¬ In hid ids)
        (not_matched-Passes obs.raw_response obs.table ids) obs.bearings in
    (
      λ h b hid m inc r n. e.0 h b m hid inc r ((matched_ids-In hid (values obs.decisions)).1 n),
      λ h.
          e.1
            (λ b m hid inc r n. h b hid m inc r ((matched_ids-In hid (values obs.decisions)).0 n)),
    )
