-- ===== src/Reasoning/Validation/Divergence.antt =====
-- The divergence edges that the whole-plan checks admit, together.
use sanuvia_reasoning_engine.Prelude.{
  String, ◌≡◌, ◌≢◌, refl, sym, ◌∙◌, subst, ◌↔◌, inl, inr, false, Option, some, List, [], ◌∷◌, map,
  arith,
}
use sanuvia_reasoning_engine.Prelude.Tests.{string_eq, option_eq, Bool-cases, Option-cases, ◌==◌}
use sanuvia_reasoning_engine.Prelude.Lists.{
  In, contains, contains→In, not-contains, find, find-some, In-map, In-append_left, In-append_right,
}
use sanuvia_reasoning_engine.Prelude.Text.{text_gt}
use sanuvia_reasoning_engine.Prelude.Dict.{Dict, get, keys, get-some→has, has-eq-contains}
use sanuvia_reasoning_engine.Domain.Errors.{Check, ◌>>◌}
use sanuvia_reasoning_engine.Domain.Scope.{SpaceKind, shared}
use sanuvia_reasoning_engine.Domain.Evidence.{EvidenceRecord}
use sanuvia_reasoning_engine.Domain.Dependency.{DependencyEdge, diverges_with}
use sanuvia_reasoning_engine.Reasoning.Validation.Plan.{RevisionPlan}
use sanuvia_reasoning_engine.Reasoning.Validation.Loops.{Passes, Passes-seq, each, each_iff}
use sanuvia_reasoning_engine.Reasoning.Validation.EdgeRules.{
  if_divergence-Passes, AreComparable, Endpoints-Passes, in_plan_space-Passes,
  in_shared_space-Passes, some_inj,
}
use sanuvia_reasoning_engine.Reasoning.Validation.Edges.{
  if_divergence, is_canonical, is_known_ref, known_refs, check_8_edges, resolve_record,
  divergence_endpoints, check_8a_divergence_endpoints, in_plan_space, in_shared_space,
  check_8b_disclosure,
}

either : (P : String → Type 0) (a b : String) → P a → P b → (x : String) → In x (a ∷ b ∷ []) → P x
either P a b pa pb x (inl p) = subst P p pa
either P a b pa pb x (inr (inl p)) = subst P p pb
either P a b pa pb x (inr (inr z)) = absurd z

is_canonical-Passes :
    (e : DependencyEdge) → Passes (is_canonical e) ↔ (text_gt e.from_ref e.to_ref ≡ false)
unfolding is_canonical
is_canonical-Passes e = elim (Bool-cases (text_gt e.from_ref e.to_ref)) [
  | inl t ↦ rw t (λ h. cc, λ h. cc)
  | inr t ↦ rw t (λ h. refl, λ h. refl)
]

is_known_ref-Passes :
    (known : List String) (ref : String) → Passes (is_known_ref known ref) ↔ In ref known
unfolding is_known_ref
is_known_ref-Passes known ref = elim (Bool-cases (contains ref known)) [
  | inl t ↦ rw t (λ h. contains→In ref known t, λ h. refl)
  | inr t ↦ rw t (λ h. cc, λ h. absurd (not-contains ref known t h))
]

module _ {F : Type 0} (plan : RevisionPlan F) (committed : Dict String (EvidenceRecord F)) where
  -- A record that is found is among the known ones.
  resolve_record-known :
      (ref : String) (rec : EvidenceRecord F)
      → resolve_record plan committed ref ≡ some rec
      → In ref (known_refs plan committed)
  unfolding resolve_record
  resolve_record-known ref rec h =
      let ids = map (λ (r : EvidenceRecord F). r.id) plan.admitted in
      elim (Option-cases (find (λ r. r.id == ref) plan.admitted)) [
        | inl e ↦
            let g : get committed ref ≡ some rec = ground arith in
            In-append_right ref ids (keys committed) (
              contains→In ref (keys committed)
                (sym (has-eq-contains committed ref) ∙ get-some→has committed ref g))
        | inr (r, e) ↦
            let (m, same) = find-some (λ x. x.id == ref) plan.admitted e in
            In-append_left ref ids (keys committed) (
              subst (λ (x : String). In x ids) ((string_eq.beq_iff r.id ref).0 same)
                (In-map (λ x. x.id) r plan.admitted m))
      ]

  -- A divergence in canonical order between two participants' accounts of one subject, both admitted
  -- to the plan's space, in a space that is not known to be anything but shared.
  pub record IsSafeDivergence (kind : Option SpaceKind) (e : DependencyEdge) : Type 0 where
    pub canonical : text_gt e.from_ref e.to_ref ≡ false
    pub distinct : e.from_ref ≢ e.to_ref
    pub from_record : EvidenceRecord F
    pub to_record : EvidenceRecord F
    pub from_found : resolve_record plan committed e.from_ref ≡ some from_record
    pub to_found : resolve_record plan committed e.to_ref ≡ some to_record
    pub comparable_accounts : AreComparable from_record to_record
    pub from_space : from_record.space_id ≡ plan.space_id
    pub to_space : to_record.space_id ≡ plan.space_id
    pub not_personal : (s : SpaceKind) → kind ≡ some s → s ≡ shared

  same_space :
      (a b : EvidenceRecord F)
      → ◌≡◌ {A = Option (EvidenceRecord F)} (some a) (some b)
      → a.space_id ≡ plan.space_id
      → b.space_id ≡ plan.space_id
  same_space a b e h =
      subst (λ (x : EvidenceRecord F). x.space_id ≡ plan.space_id) (some_inj a b e) h

  abbrev SpaceChecked : Option SpaceKind → DependencyEdge → Check
  SpaceChecked kind e =
      each (in_plan_space plan committed) (e.from_ref ∷ e.to_ref ∷ [])
      >> in_shared_space plan committed kind

  edge_checks-Passes :
      (kind : Option SpaceKind) (e : DependencyEdge)
      → (Passes (
            is_canonical e
            >> each (is_known_ref (known_refs plan committed)) (e.from_ref ∷ e.to_ref ∷ []))
          × Passes (divergence_endpoints plan committed e)
          × Passes (SpaceChecked kind e))
        ↔ IsSafeDivergence kind e
  edge_checks-Passes kind e =
      let refs = e.from_ref ∷ e.to_ref ∷ [] in
      let known = known_refs plan committed in
      let inside =
        each_iff (in_plan_space plan committed) _ (in_plan_space-Passes plan committed) refs in
      (
        λ (h8, h8a, h8b).
            let (canonical, _) = (Passes-seq (is_canonical e) _).0 h8 in
            let (distinct, (a, b, fa, fb, c)) = (Endpoints-Passes plan committed e).0 h8a in
            let (spaces, kinds) = (Passes-seq _ (in_shared_space plan committed kind)).0 h8b in
            record {
              canonical = (is_canonical-Passes e).0 canonical;
              distinct = distinct;
              from_record = a;
              to_record = b;
              from_found = fa;
              to_found = fb;
              comparable_accounts = c;
              from_space = inside.0 spaces e.from_ref (inl refl) a fa;
              to_space = inside.0 spaces e.to_ref (inr (inl refl)) b fb;
              not_personal = (in_shared_space-Passes plan committed kind).0 kinds;
            },
        λ s. (
          (Passes-seq (is_canonical e) _).1 (
            (is_canonical-Passes e).1 s.canonical,
            (each_iff (is_known_ref known) _ (is_known_ref-Passes known) refs).1 (
                either (λ x. In x known) e.from_ref e.to_ref
                  (resolve_record-known e.from_ref s.from_record s.from_found)
                  (resolve_record-known e.to_ref s.to_record s.to_found)),
          ),
          (Endpoints-Passes plan committed e).1 (
            s.distinct,
            (s.from_record, s.to_record, s.from_found, s.to_found, s.comparable_accounts),
          ),
          (Passes-seq (each (in_plan_space plan committed) refs)
                (in_shared_space plan committed kind)).1
              (
                inside.1 (
                    either
                      (λ x.
                        (rec : EvidenceRecord F)
                        → resolve_record plan committed x ≡ some rec
                        → rec.space_id ≡ plan.space_id)
                      e.from_ref e.to_ref
                      (λ rec h. same_space s.from_record rec (sym s.from_found ∙ h) s.from_space)
                      (λ rec h. same_space s.to_record rec (sym s.to_found ∙ h) s.to_space)),
                (in_shared_space-Passes plan committed kind).1 s.not_personal,
              ),
        ),
      )

  -- The checks 8, 8a and 8b pass exactly when every divergence edge of the plan is safe.
  pub divergence_checks-Passes :
      (kind : Option SpaceKind)
      → (Passes (check_8_edges plan committed)
          × Passes (check_8a_divergence_endpoints plan committed)
          × Passes (check_8b_disclosure plan committed kind))
        ↔ ((e : DependencyEdge)
            → In e plan.edges
            → e.relation ≡ diverges_with
            → IsSafeDivergence kind e)
  unfolding check_8_edges check_8a_divergence_endpoints check_8b_disclosure
  divergence_checks-Passes kind =
      let c8 = λ (e : DependencyEdge).
        is_canonical e
        >> each (is_known_ref (known_refs plan committed)) (e.from_ref ∷ e.to_ref ∷ []) in
      let c8a = divergence_endpoints plan committed in
      let c8b = SpaceChecked kind in
      let e8 =
        each_iff (λ e. if_divergence e (c8 e)) (λ e. e.relation ≡ diverges_with → Passes (c8 e))
          (λ e. if_divergence-Passes e (c8 e)) plan.edges in
      let e8a =
        each_iff (λ e. if_divergence e (c8a e)) (λ e. e.relation ≡ diverges_with → Passes (c8a e))
          (λ e. if_divergence-Passes e (c8a e)) plan.edges in
      let e8b =
        each_iff (λ e. if_divergence e (c8b e)) (λ e. e.relation ≡ diverges_with → Passes (c8b e))
          (λ e. if_divergence-Passes e (c8b e)) plan.edges in
      (
        λ (h8, h8a, h8b) e m r.
            (edge_checks-Passes kind e).0 (e8.0 h8 e m r, e8a.0 h8a e m r, e8b.0 h8b e m r),
        λ safe. (
          e8.1 (λ e m r. ((edge_checks-Passes kind e).1 (safe e m r)).0),
          e8a.1 (λ e m r. ((edge_checks-Passes kind e).1 (safe e m r)).1),
          e8b.1 (λ e m r. ((edge_checks-Passes kind e).1 (safe e m r)).2),
        ),
      )
