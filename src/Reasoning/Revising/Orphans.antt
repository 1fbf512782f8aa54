-- ===== src/Reasoning/Revising/Orphans.antt =====
-- What `commit_plan` of src/sanuvia/application/reasoning/model_revision.py leaves: no lineage and no statement
-- without a hypothesis. `F` is the type of the program's floats.
use sanuvia_reasoning_engine.Prelude.{
  String, ◌≡◌, refl, sym, subst, ◌⊎◌, inl, inr, some, List, [], ◌∷◌, ◌++◌, map,
}
use sanuvia_reasoning_engine.Prelude.Tests.{Bool-cases, ◌==◌, string_eq}
use sanuvia_reasoning_engine.Prelude.Lists.{
  In, In-append_left, In-append_right, contains→In, contains,
}
use sanuvia_reasoning_engine.Prelude.Dict.{get, get-put_cases}
use sanuvia_reasoning_engine.Domain.Errors.{ok, ok-injective}
use sanuvia_reasoning_engine.Domain.Hypothesis.{Hypothesis, HypothesisLineage, StatementVersion}
use sanuvia_reasoning_engine.Stores.Bundle.{Bundle}
use sanuvia_reasoning_engine.Stores.Lineages.{LineageStore, add_lineage, add_lineage-ok}
use sanuvia_reasoning_engine.Stores.Versions.{history, append_version-history}
use sanuvia_reasoning_engine.Reasoning.Revising.Plan.{PlannedRevision}
use sanuvia_reasoning_engine.Reasoning.Revising.Commit.{
  Written, after_write, write_all, write_evidence, write_anomaly, write_lineage, write_version,
  write_adjudication, write_hypothesis, write_committed, write_semantics, write_history,
  commit_plan, committed_hypotheses,
}
use sanuvia_reasoning_engine.Reasoning.Revising.Writes.{
  Result-cases, Leaves, write_all-keeps, then_write-keeps, then_write-returns, IsAside,
  write_evidence-IsAside, write_adjudication-IsAside, returns-IsAside, aside-keeps,
  write_history-keeps, write_committed-keeps,
}

module _ {F : Type 0} where
  -- The lineage has a hypothesis record.
  abbrev Held : Bundle F → String → Type 0
  Held b hid = (h : Hypothesis F) × (In h b.hypotheses) × (h.hypothesis_id ≡ hid)

  -- Every lineage, and every lineage with a statement, is held or among the ids.
  abbrev Covered : List String → Bundle F → Type 0
  Covered ids b =
      ((hid : String) (l : HypothesisLineage)
        → get b.lineages.lineages hid ≡ some l
        → Held b hid ⊎ In hid ids)
      × ((hid : String) (v : StatementVersion)
          → In v (history b.statement_versions hid)
          → Held b hid ⊎ In hid ids)

  -- Every lineage, and every lineage with a statement, has a hypothesis record.
  abbrev pub HasNoOrphan : Bundle F → Type 0
  HasNoOrphan b =
      ((hid : String) (l : HypothesisLineage) → get b.lineages.lineages hid ≡ some l → Held b hid)
      × ((hid : String) (v : StatementVersion)
          → In v (history b.statement_versions hid)
          → Held b hid)

  IsAside-Covered :
      (ids : List String) (b b' : Bundle F) → IsAside b b' → Covered ids b → Covered ids b'
  IsAside-Covered ids b b' (p, q, r) (c, v) = (
    λ hid l g. elim (c hid l (subst (λ s. get s.lineages hid ≡ some l) (sym p) g)) [
      | inl (h, m, e) ↦ inl (h, subst (In h) r m, e)
      | inr m ↦ inr m
    ],
    λ hid x g. elim (v hid x (subst (λ s. In x (history s hid)) (sym q) g)) [
      | inl (h, m, e) ↦ inl (h, subst (In h) r m, e)
      | inr m ↦ inr m
    ],
  )

  write_lineage-Covered :
      (ids : List String) (l : HypothesisLineage) (b b' : Bundle F)
      → Covered ids b
      → write_lineage ids l b ≡ ok b'
      → Covered ids b'
  unfolding write_lineage
  write_lineage-Covered ids l b b' c h = elim (Bool-cases (contains l.hypothesis_id ids)) [
    | inr t ↦ subst (Covered ids) (ok-injective (rw t at h)) c
    | inl t ↦ elim (Result-cases (add_lineage b.lineages l)) [
      | inr (x, e) ↦ cc (rw (t, e) at h)
      | inl (s, e) ↦ subst (Covered ids) (ok-injective (rw (t, e) at h)) (
        λ hid k g.
            let old =
              subst (λ (s : LineageStore). get s.lineages hid ≡ some k)
                (sym (add_lineage-ok b.lineages s l e).1) g in
            elim (get-put_cases b.lineages.lineages l.hypothesis_id hid old) [
              | inl (p, q) ↦ inr (subst (λ i. In i ids) p (contains→In l.hypothesis_id ids t))
              | inr (n, q) ↦ c.0 hid k q
            ],
        c.1,
      )
    ]
  ]

  write_version-Covered :
      (ids : List String) (v : StatementVersion) (b b' : Bundle F)
      → Covered ids b
      → write_version ids v b ≡ ok b'
      → Covered ids b'
  unfolding write_version
  write_version-Covered ids v b b' c h = elim (Bool-cases (contains v.hypothesis_id ids)) [
    | inr t ↦ subst (Covered ids) (ok-injective (rw t at h)) c
    | inl t ↦ subst (Covered ids) (ok-injective (rw t at h)) (
      c.0,
      λ hid x m. elim (Bool-cases (v.hypothesis_id == hid)) [
        | inl same ↦
            let p = (string_eq.beq_iff v.hypothesis_id hid).0 same in
            inr (subst (λ i. In i ids) p (contains→In v.hypothesis_id ids t))
        | inr apart ↦ c.1 hid x (
            subst (In x)
              ((append_version-history b.statement_versions v).2 hid
                (λ p. cc ((string_eq.beq_iff v.hypothesis_id hid).1 p))).0
              m)
      ],
    )
  ]

  write_hypothesis-Covered :
      (ids : List String) (h : Hypothesis F) (b b' : Bundle F)
      → Covered ids b
      → write_hypothesis h b ≡ ok b'
      → Covered ids b'
  unfolding write_hypothesis
  write_hypothesis-Covered ids h b b' c e = subst (Covered ids) (ok-injective e) (
    λ hid l g. elim (c.0 hid l g) [
      | inl (k, m, p) ↦ inl (k, In-append_left k b.hypotheses (h ∷ []) m, p)
      | inr m ↦ inr m
    ],
    λ hid v g. elim (c.1 hid v g) [
      | inl (k, m, p) ↦ inl (k, In-append_left k b.hypotheses (h ∷ []) m, p)
      | inr m ↦ inr m
    ],
  )

module _ {F : Type 0} where
  write_semantics-Covered :
      (p : PlannedRevision F) (b : Bundle F)
      → Covered (committed_hypotheses p) b
      → Leaves (Covered (committed_hypotheses p)) (write_semantics p b)
  unfolding write_semantics write_anomaly
  write_semantics-Covered p b c =
      let ids = committed_hypotheses p in
      let P = Covered {F = F} ids in
      let aside = IsAside-Covered {F = F} ids in
      then_write-keeps P _ _
        (then_write-keeps P _ _
          (then_write-keeps P _ _
            (then_write-keeps P _ _
              (aside-keeps P aside write_evidence p.evidence write_evidence-IsAside b c)
              (aside-keeps P aside write_anomaly p.anomalies
                (λ x b b' h. returns-IsAside b _ b' (refl, refl, refl) h)))
            (write_all-keeps P (write_lineage ids) p.lineages (write_lineage-Covered ids)))
          (write_all-keeps P (write_version ids) p.statement_versions (write_version-Covered ids)))
        (aside-keeps P aside write_adjudication p.adjudications write_adjudication-IsAside)

  -- Every record of the list is stored.
  abbrev pub Recorded : List (Hypothesis F) → Bundle F → Type 0
  Recorded rs b = (h : Hypothesis F) → In h rs → In h b.hypotheses

  write_hypotheses-In :
      (rs : List (Hypothesis F)) (b : Bundle F) (h : Hypothesis F)
      → In h b.hypotheses ⊎ In h rs
      → In h (write_all write_hypothesis rs b).0.hypotheses
  unfolding write_all after_write write_hypothesis
  write_hypotheses-In [] b h (inl m) = m
  write_hypotheses-In [] b h (inr m) = absurd m
  write_hypotheses-In (r ∷ rs) b h (inl m) =
      write_hypotheses-In rs (record b { hypotheses = b.hypotheses ++ r ∷ [] }) h
        (inl (In-append_left h b.hypotheses (r ∷ []) m))
  write_hypotheses-In (r ∷ rs) b h (inr (inl p)) =
      write_hypotheses-In rs (record b { hypotheses = b.hypotheses ++ r ∷ [] }) h
        (inl (In-append_right h b.hypotheses (r ∷ []) (inl p)))
  write_hypotheses-In (r ∷ rs) b h (inr (inr m)) =
      write_hypotheses-In rs (record b { hypotheses = b.hypotheses ++ r ∷ [] }) h (inr m)

  In-ids :
      (hid : String) (rs : List (Hypothesis F))
      → In hid (map (λ (h : Hypothesis F). h.hypothesis_id) rs)
      → (h : Hypothesis F) × (In h rs) × (h.hypothesis_id ≡ hid)
  In-ids hid [] m = absurd m
  In-ids hid (r ∷ rs) (inl p) = (r, inl refl, p)
  In-ids hid (r ∷ rs) (inr m) = let (h, k, q) = In-ids hid rs m in (h, inr k, q)

  -- Covered by the ids of stored records
  Recorded-HasNoOrphan :
      (p : PlannedRevision F) (b : Bundle F)
      → Covered (committed_hypotheses p) b × Recorded p.records b
      → HasNoOrphan b
  Recorded-HasNoOrphan p b (c, r) =
      let held : (hid : String) → Held b hid ⊎ In hid (committed_hypotheses p) → Held b hid =
        λ hid m. elim m [
          | inl h ↦ h
          | inr k ↦ let (h, i, q) = In-ids hid p.records k in (h, r h i, q)
        ] in
      (λ hid l g. held hid (c.0 hid l g), λ hid v m. held hid (c.1 hid v m))

  -- For stores in which every lineage, and every lineage with a statement, has a hypothesis record, and for
  -- whatever plan: when the commit returns, that holds of the stores that it leaves, and every record of the
  -- plan is among them.
  pub commit_plan-HasNoOrphan :
      (p : PlannedRevision F) (b : Bundle F)
      → HasNoOrphan b
      → (commit_plan p b).1 ≡ ok tt
      → HasNoOrphan (commit_plan p b).0 × Recorded p.records (commit_plan p b).0
  unfolding commit_plan Leaves
  commit_plan-HasNoOrphan p b c returned =
      let ids = committed_hypotheses p in
      let P : Bundle F → Type 0 = λ b. Covered ids b × Recorded p.records b in
      let keeps : (b b' : Bundle F) → IsAside b b' → P b → P b' =
        λ b b' a k. (IsAside-Covered ids b b' a k.0, λ h m. subst (In h) a.2 (k.1 h m)) in
      let (r1, e1) = then_write-returns _ (write_committed p) returned in
      let (r2, e2) = then_write-returns _ (write_history p) r1 in
      let (r3, e3) = then_write-returns _ (write_all write_hypothesis p.records) r2 in
      let s = (write_semantics p b).0 in
      let base : P (write_all write_hypothesis p.records s).0 = (
        write_all-keeps (Covered ids) write_hypothesis p.records (write_hypothesis-Covered ids) s (
            write_semantics-Covered p b
              ((λ hid l g. inl (c.0 hid l g)), (λ hid v m. inl (c.1 hid v m)))),
        λ h m. write_hypotheses-In p.records s h (inr m),
      ) in
      let done =
        subst (λ (w : Written (Bundle F)). P w.0) (sym e1)
          (write_committed-keeps P keeps p _ (
            subst (λ (w : Written (Bundle F)). P w.0) (sym e2)
              (write_history-keeps P keeps p _
                (subst (λ (w : Written (Bundle F)). P w.0) (sym e3) base)))) in
      (Recorded-HasNoOrphan p (commit_plan p b).0 done, done.1)
