-- ===== src/Reasoning/Validation/Conflicts.antt =====
-- What check 2 (c) admits: bearings that do not conflict.
use sanuvia_reasoning_engine.Prelude.{
  ◌≤◌, String, ◌≡◌, refl, sym, ap, ◌∙◌, subst, ◌↔◌, ◌⊎◌, inl, inr, true, false, Option, List, [],
  ◌∷◌, arith,
}
use sanuvia_reasoning_engine.Prelude.Tests.{string_eq, pair_eq, Bool-cases, Option-cases, ◌==◌}
use sanuvia_reasoning_engine.Prelude.Lists.{
  In, All, All-In, All-of_In, Distinct, keep, length, keep-In, In-keep,
}
use sanuvia_reasoning_engine.Prelude.Sets.{
  set_add, In-unique, length-le_one, keep-Distinct, In-set_add_self, In-set_add, set_add-Distinct,
  All-set_add,
}
use sanuvia_reasoning_engine.Prelude.Dict.{
  Dict, get, put, get_list, or_empty, get-put_self, get-put_ne, get-In_entry, All-put,
}
use sanuvia_reasoning_engine.Reasoning.Ports.{Bearing, BearingKind, bearing_eq}
use sanuvia_reasoning_engine.Reasoning.Handles.{HandleTable}
use sanuvia_reasoning_engine.Reasoning.Validation.Plan.{AppraisedObservation}
use sanuvia_reasoning_engine.Reasoning.Validation.Loops.{Passes, each, each-Passes}
use sanuvia_reasoning_engine.Reasoning.Validation.Responses.{
  target_key, add_kind, group_kinds, on_support_axis, one_axis_kind, check_2c_conflicting_kinds,
}

-- Two bearings on one lineage that both bear on its support are of one kind.
abbrev pub AxisAgrees : HandleTable → List Bearing → Type 0
AxisAgrees t bs =
    (b c : Bearing)
    → In b bs
    → In c bs
    → target_key t b ≡ target_key t c
    → on_support_axis b.kind ≡ true
    → on_support_axis c.kind ≡ true
    → b.kind ≡ c.kind

module _ (t : HandleTable) where
  -- The kinds that are grouped under a lineage before the loop stay there.
  group_kinds-keeps :
      (k : String) (kind : BearingKind) (d : Dict String (List BearingKind)) (bs : List Bearing)
      → In kind (get_list d k)
      → In kind (get_list (group_kinds t d bs) k)
  unfolding group_kinds
  group_kinds-keeps k kind d [] h = h
  group_kinds-keeps k kind d (b ∷ bs) h =
      group_kinds-keeps k kind (add_kind t d b) bs (put_keeps (Bool-cases (target_key t b == k)))
    where
      j : String
      j = target_key t b

      new : List BearingKind
      new = set_add b.kind (get_list d j)

      put_keeps : ((j == k) ≡ true) ⊎ ((j == k) ≡ false) → In kind (get_list (put d j new) k)
      put_keeps (inl p) =
          let e = (string_eq.beq_iff j k).0 p in
          subst (λ (i : String). In kind (get_list (put d j new) i)) e
            (subst (λ (ks : List BearingKind). In kind ks)
              (sym (ap or_empty (get-put_self d j new)))
              (In-set_add b.kind kind (get_list d j)
                (subst (λ (i : String). In kind (get_list d i)) (sym e) h)))
      put_keeps (inr p) =
          subst (λ (ks : List BearingKind). In kind ks)
            (sym (ap or_empty (get-put_ne d j k new (λ e. cc ((string_eq.beq_iff j k).1 e))))) h

  group_kinds-has :
      (d : Dict String (List BearingKind)) (bs : List Bearing) (b : Bearing)
      → In b bs
      → In b.kind (get_list (group_kinds t d bs) (target_key t b))
  unfolding group_kinds
  group_kinds-has d (c ∷ bs) b (inr m) = group_kinds-has (add_kind t d c) bs b m
  group_kinds-has d [] b m = absurd m
  group_kinds-has d (c ∷ bs) b (inl p) =
      subst (λ (x : Bearing). In x.kind (get_list (group_kinds t d (c ∷ bs)) (target_key t x))) p
        (group_kinds-keeps (target_key t c) c.kind (add_kind t d c) bs (
          subst (λ (ks : List BearingKind). In c.kind ks)
            (sym (
              ap or_empty
                (get-put_self d (target_key t c) (set_add c.kind (get_list d (target_key t c))))))
            (In-set_add_self c.kind (get_list d (target_key t c)))))

  -- What an entry of the grouping says of its kinds.
  abbrev FromBearings : List Bearing → String × List BearingKind → Type 0
  FromBearings total (k, kinds) =
      Distinct kinds
      × All (λ kind. (b : Bearing) × In b total × (target_key t b ≡ k) × (b.kind ≡ kind)) kinds

  FromBearings-get_list :
      (total : List Bearing) (d : Dict String (List BearingKind)) (k : String)
      → All (FromBearings total) d
      → FromBearings total (k, get_list d k)
  FromBearings-get_list total d k h = elim (Option-cases (get d k)) [
    | inl e ↦ rw (e, or_empty) (tt, tt)
    | inr (kinds, e) ↦
        rw (e, or_empty) (All-In (FromBearings total) (k, kinds) d h (get-In_entry d k kinds e))
  ]

  group_kinds-FromBearings :
      (total : List Bearing) (bs : List Bearing) (d : Dict String (List BearingKind))
      → ((b : Bearing) → In b bs → In b total)
      → All (FromBearings total) d
      → All (FromBearings total) (group_kinds t d bs)
  unfolding group_kinds
  group_kinds-FromBearings total [] d sub h = h
  group_kinds-FromBearings total (b ∷ bs) d sub h =
      let k = target_key t b in
      let old : FromBearings total (k, get_list d k) = FromBearings-get_list total d k h in
      group_kinds-FromBearings total bs (add_kind t d b) (λ c m. sub c (inr m))
        (All-put (FromBearings total) d k (set_add b.kind (get_list d k)) h (
          set_add-Distinct b.kind (get_list d k) old.0,
          All-set_add (λ kind. (c : Bearing) × In c total × (target_key t c ≡ k) × (c.kind ≡ kind))
              b.kind (get_list d k) old.1 (b, sub b (inl refl), refl, refl),
        ))

one_axis_kind-Passes :
    (raw : Option String) (k : String) (kinds : List BearingKind)
    → Passes (one_axis_kind raw (k, kinds)) ↔ (length (keep on_support_axis kinds) ≤ 1)
one_axis_kind-Passes raw k kinds = (λ h. ground arith, λ h. ground arith)

module _ (raw : Option String) (t : HandleTable) (bs : List Bearing) where
  abbrev grouped : Dict String (List BearingKind)
  grouped = group_kinds t [] bs

  grouped-agree :
      (k : String) (a b : BearingKind)
      → Passes (each (one_axis_kind raw) grouped)
      → In a (get_list grouped k)
      → In b (get_list grouped k)
      → on_support_axis a ≡ true
      → on_support_axis b ≡ true
      → a ≡ b
  grouped-agree k a b h ma mb pa pb = elim (Option-cases (get grouped k)) [
    | inl e ↦ absurd (rw (e, or_empty) at ma)
    | inr (kinds, e) ↦
        let one : Passes (one_axis_kind raw (k, kinds)) =
          All-In (λ x. Passes (one_axis_kind raw x)) (k, kinds) grouped
            ((each-Passes (one_axis_kind raw) grouped).0 h) (get-In_entry grouped k kinds e) in
        In-unique a b (keep on_support_axis kinds)
          (keep-In on_support_axis a kinds (rw (e, or_empty) at ma) pa)
          (keep-In on_support_axis b kinds (rw (e, or_empty) at mb) pb)
          ((one_axis_kind-Passes raw k kinds).0 one)
  ]

  entry-Passes :
      (k : String) (kinds : List BearingKind)
      → AxisAgrees t bs
      → FromBearings t bs (k, kinds)
      → Passes (one_axis_kind raw (k, kinds))
  entry-Passes k kinds agree (distinct, from) = (one_axis_kind-Passes raw k kinds).1 (
      length-le_one (keep on_support_axis kinds) (keep-Distinct on_support_axis kinds distinct)
        λ a b ma mb.
          let (ina, pa) = In-keep on_support_axis a kinds ma in
          let (inb, pb) = In-keep on_support_axis b kinds mb in
          let (x, mx, kx, ex) =
            All-In (λ kind. (c : Bearing) × In c bs × (target_key t c ≡ k) × (c.kind ≡ kind)) a
              kinds from ina in
          let (y, my, ky, ey) =
            All-In (λ kind. (c : Bearing) × In c bs × (target_key t c ≡ k) × (c.kind ≡ kind)) b
              kinds from inb in
          sym ex ∙ agree x y mx my (kx ∙ sym ky) (rw ex pa) (rw ey pb) ∙ ey)

-- Check 2 (c) passes exactly when bearings on one lineage agree on its support.
pub check_2c-Passes :
    (obs : AppraisedObservation)
    → Passes (check_2c_conflicting_kinds obs) ↔ AxisAgrees obs.table obs.bearings
unfolding check_2c_conflicting_kinds
check_2c-Passes obs =
    let t = obs.table in
    let bs = obs.bearings in
    let raw = obs.raw_response in
    (
      λ h b c mb mc same pb pc.
          grouped-agree raw t bs (target_key t b) b.kind c.kind h (group_kinds-has t [] bs b mb)
            (subst (λ (k : String). In c.kind (get_list (group_kinds t [] bs) k)) (sym same)
              (group_kinds-has t [] bs c mc))
            pb pc,
      λ agree. (each-Passes (one_axis_kind raw) (group_kinds t [] bs)).1 (
          All-of_In (λ x. Passes (one_axis_kind raw x)) (group_kinds t [] bs)
            λ (k, kinds) m. entry-Passes raw t bs k kinds agree (
              All-In (FromBearings t bs) (k, kinds) (group_kinds t [] bs)
                (group_kinds-FromBearings t bs bs [] (λ b m'. m') tt) m)),
    )
