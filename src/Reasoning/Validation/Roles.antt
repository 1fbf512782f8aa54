-- ===== src/Reasoning/Validation/Roles.antt =====
-- What the first half of check 9 admits: one role for each source observation.
use sanuvia_reasoning_engine.Prelude.{
  ◌≡◌, refl, sym, ap, ◌∙◌, subst, ◌↔◌, ◌⊎◌, inl, inr, Option, none, some, List, [], ◌∷◌,
}
use sanuvia_reasoning_engine.Prelude.Tests.{Eq, string_eq, nat_eq, pair_eq, Bool-cases, ◌==◌}
use sanuvia_reasoning_engine.Prelude.Lists.{In}
use sanuvia_reasoning_engine.Prelude.Dict.{Dict, get, put, get-put_self, get-put_ne}
use sanuvia_reasoning_engine.Domain.Evidence.{
  EvidenceRecord, EvidenceRole, role_eq, SourceObservationRef,
}
use sanuvia_reasoning_engine.Reasoning.Validation.Loops.{Passes, Passes-seq}
use sanuvia_reasoning_engine.Reasoning.Validation.Standing.{
  same_role, next_roles, role_check, ref_and_role, no_role_upgrade,
}

abbrev Roles : Type 0
Roles = Dict SourceObservationRef EvidenceRole

abbrev Tagged : Type 0
Tagged = SourceObservationRef × EvidenceRole

some_inj : {A : Type 0} (a b : A) → ◌≡◌ {A = Option A} (some a) (some b) → a ≡ b
some_inj a b e = cc

tagged_inj :
    (r s : SourceObservationRef) (x y : EvidenceRole)
    → ◌≡◌ {A = Option Tagged} (some (r, x)) (some (s, y))
    → (r ≡ s) × (x ≡ y)
tagged_inj r s x y e =
    let p = some_inj {A = Tagged} (r, x) (s, y) e in
    (ap (λ (t : Tagged). t.0) p, ap (λ (t : Tagged). t.1) p)

next_roles_self :
    (d : Roles) (ref : SourceObservationRef) (x : EvidenceRole) (o : Option Tagged)
    → o ≡ some (ref, x)
    → get (next_roles d o) ref ≡ some x
next_roles_self d ref x o e = rw (e, next_roles) (get-put_self d ref x)

-- What the dictionary holds after a record: the record's role, or what it held before.
get-next_roles :
    (d : Roles) (o : Option Tagged) (ref : SourceObservationRef) (prior : EvidenceRole)
    → get (next_roles d o) ref ≡ some prior
    → (o ≡ some (ref, prior)) ⊎ (get d ref ≡ some prior)
get-next_roles d none ref prior g = inr g
get-next_roles d (some (r, role)) ref prior g =
    let same = Eq.beq_iff pair_eq r ref in
    elim (Bool-cases (r == ref)) [
      | inl t ↦
          let e : r ≡ ref = same.0 t in
          let q : role ≡ prior =
            some_inj role prior (sym (get-put_self d r role) ∙ ap (get (put d r role)) e ∙ g) in
          inl (λ i. some (e i, q i))
      | inr t ↦ inr (sym (get-put_ne d r ref role (λ e. cc (same.1 e))) ∙ g)
    ]

module _ {F : Type 0} where
  -- The earlier role is the record's role.
  abbrev Agrees : Roles → EvidenceRecord F → Type 0
  Agrees d rec =
      (ref : SourceObservationRef) (role prior : EvidenceRole)
      → ref_and_role rec ≡ some (ref, role)
      → get d ref ≡ some prior
      → prior ≡ role

  same_role-Passes :
      (rec : EvidenceRecord F) (role : EvidenceRole) (o : Option EvidenceRole)
      → Passes (same_role rec role o) ↔ ((prior : EvidenceRole) → o ≡ some prior → prior ≡ role)
  unfolding same_role
  same_role-Passes rec role none = (λ h prior e. cc, λ h. refl)
  same_role-Passes rec role (some x) =
      let same = role_eq.beq_iff x role in
      elim (Bool-cases (x == role)) [
        | inl t ↦ rw t (λ h prior e. sym (some_inj x prior e) ∙ same.0 t, λ h. refl)
        | inr t ↦ rw t (λ h. cc, λ h. cc (same.1 (h x refl)))
      ]

  role_check-Passes :
      (rec : EvidenceRecord F) (d : Roles) (o : Option Tagged)
      → Passes (role_check rec d o) ↔ (
          (ref : SourceObservationRef) (role prior : EvidenceRole)
          → o ≡ some (ref, role)
          → get d ref ≡ some prior
          → prior ≡ role)
  role_check-Passes rec d none = (λ h ref role prior e g. cc, λ h. refl)
  role_check-Passes rec d (some (r, o)) = (
    λ h ref role prior e g.
        let (er, eo) = tagged_inj r ref o role e in
        (same_role-Passes rec o (get d r)).0 h prior (ap (get d) er ∙ g) ∙ eo,
    λ h. (same_role-Passes rec o (get d r)).1 (λ prior g. h r o prior refl g),
  )

  -- A role that was seen stays, as long as the check passes.
  next_roles-keeps :
      (rec : EvidenceRecord F) (d : Roles) (o : Option Tagged) (ref : SourceObservationRef)
      (prior : EvidenceRole)
      → Passes (role_check rec d o)
      → get d ref ≡ some prior
      → get (next_roles d o) ref ≡ some prior
  next_roles-keeps rec d none ref prior h g = g
  next_roles-keeps rec d (some (r, role)) ref prior h g =
      let same = Eq.beq_iff pair_eq r ref in
      elim (Bool-cases (r == ref)) [
        | inl t ↦
            let p : prior ≡ role =
              (same_role-Passes rec role (get d r)).0 h prior (ap (get d) (same.0 t) ∙ g) in
            ap (get (put d r role)) (sym (same.0 t)) ∙ get-put_self d r role ∙ ap some (sym p)
        | inr t ↦ get-put_ne d r ref role (λ e. cc (same.1 e)) ∙ g
      ]

  loop-Agrees :
      (recs : List (EvidenceRecord F)) (d : Roles)
      → Passes (no_role_upgrade d recs)
      → (rec : EvidenceRecord F) → In rec recs
      → Agrees d rec
  unfolding no_role_upgrade
  loop-Agrees [] d h rec m = absurd m
  loop-Agrees (x ∷ xs) d h rec (inl p) =
      let (here, _) = (Passes-seq (role_check x d (ref_and_role x)) _).0 h in
      subst (Agrees d) p ((role_check-Passes x d (ref_and_role x)).0 here)
  loop-Agrees (x ∷ xs) d h rec (inr m) =
      let (here, rest) = (Passes-seq (role_check x d (ref_and_role x)) _).0 h in
      λ ref role prior e g.
        loop-Agrees xs (next_roles d (ref_and_role x)) rest rec m ref role prior e
          (next_roles-keeps x d (ref_and_role x) ref prior here g)

  -- One source observation is admitted under one role.
  abbrev pub OneRole : List (EvidenceRecord F) → Type 0
  OneRole recs =
      (r s : EvidenceRecord F) (ref : SourceObservationRef) (x y : EvidenceRole)
      → In r recs
      → In s recs
      → ref_and_role r ≡ some (ref, x)
      → ref_and_role s ≡ some (ref, y)
      → x ≡ y

  pub loop-OneRole :
      (recs : List (EvidenceRecord F)) (d : Roles) → Passes (no_role_upgrade d recs) → OneRole recs
  unfolding no_role_upgrade
  loop-OneRole [] d h r s ref x y mr ms er es = absurd mr
  loop-OneRole (z ∷ zs) d h r s ref x y (inl p) (inl q) er es =
      (tagged_inj ref ref x y (sym er ∙ ap ref_and_role (sym p ∙ q) ∙ es)).1
  loop-OneRole (z ∷ zs) d h r s ref x y (inl p) (inr m) er es =
      let rest = ((Passes-seq (role_check z d (ref_and_role z)) _).0 h).1 in
      loop-Agrees zs (next_roles d (ref_and_role z)) rest s m ref y x es
        (next_roles_self d ref x (ref_and_role z) (ap ref_and_role p ∙ er))
  loop-OneRole (z ∷ zs) d h r s ref x y (inr m) (inl p) er es =
      let rest = ((Passes-seq (role_check z d (ref_and_role z)) _).0 h).1 in
      sym (
        loop-Agrees zs (next_roles d (ref_and_role z)) rest r m ref x y er
          (next_roles_self d ref y (ref_and_role z) (ap ref_and_role p ∙ es)))
  loop-OneRole (z ∷ zs) d h r s ref x y (inr m) (inr n) er es =
      let rest = ((Passes-seq (role_check z d (ref_and_role z)) _).0 h).1 in
      loop-OneRole zs (next_roles d (ref_and_role z)) rest r s ref x y m n er es

  pub OneRole-loop :
      (recs : List (EvidenceRecord F)) (d : Roles)
      → OneRole recs
      → ((rec : EvidenceRecord F) → In rec recs → Agrees d rec)
      → Passes (no_role_upgrade d recs)
  unfolding no_role_upgrade
  OneRole-loop [] d one agree = refl
  OneRole-loop (z ∷ zs) d one agree =
      let o = ref_and_role z in
      (Passes-seq (role_check z d o) (no_role_upgrade (next_roles d o) zs)).1 (
        (role_check-Passes z d o).1 (agree z (inl refl)),
        OneRole-loop zs (next_roles d o) (λ r s ref x y mr ms. one r s ref x y (inr mr) (inr ms))
            λ rec m ref role prior e g. elim (get-next_roles d o ref prior g) [
              | inl q ↦ one z rec ref prior role (inl refl) (inr m) q e
              | inr q ↦ agree rec (inr m) ref role prior e q
            ],
      )
