-- ===== src/Reasoning/Candidates/Offered.antt =====
-- Which records are offered as divergence partners (src/sanuvia/application/reasoning/handles.py), and
-- that check 8a admits a divergence with each of them.
use sanuvia_reasoning_engine.Prelude.{
  ◌≤◌, ◌-◌, String, ◌≡◌, refl, sym, subst, ◌⊎◌, inl, inr, true, false, Option, some, List, [],
  arith,
}
use sanuvia_reasoning_engine.Prelude.Tests.{
  ◌==◌, string_eq, pair_eq, option_eq, Bool-cases, Option-cases,
}
use sanuvia_reasoning_engine.Prelude.Lists.{
  In, keep, In-keep, keep-In, take_last, length-take_last, length, In-drop, contains, drop,
}
use sanuvia_reasoning_engine.Domain.Errors.{ok}
use sanuvia_reasoning_engine.Domain.Evidence.{
  EvidenceRecord, EvidenceStanding, is_participant_account, is_dyad_or_third_party,
}
use sanuvia_reasoning_engine.Reasoning.Validation.Edges.{comparable, account_standing, differ}
use sanuvia_reasoning_engine.Reasoning.Candidates.{
  max_divergence_candidates, sorted_pair, may_diverge, sort_by_id, standing_is_eligible,
  is_eligible, build_divergence_candidates,
}
use sanuvia_reasoning_engine.Reasoning.Candidates.Order.{
  In-sort_by_id, length-sort_by_id, Ascending, sort_by_id-Ascending,
}

beq_sym-false : (a b : Option String) → (a == b) ≡ false → (b == a) ≡ false
beq_sym-false a b h = elim (Bool-cases (b == a)) [
  | inl t ↦ cc ((option_eq.beq_iff a b).1 (sym ((option_eq.beq_iff b a).0 t)))
  | inr t ↦ t
]

module _ {F : Type 0} (observation : EvidenceRecord F)
    (existing_pairs : List (String × String)) where
  -- What makes a record a partner of the observation: two accounts by different participants about one
  -- subject, neither about a dyad nor a third party, whose divergence is not on record.
  pub record IsPartner (rec : EvidenceRecord F) : Type 0 where
    pub mine : EvidenceStanding
    pub theirs : EvidenceStanding
    pub observed : observation.standing ≡ some mine
    pub stands : rec.standing ≡ some theirs
    pub other : (rec.id == observation.id) ≡ false
    pub my_account : is_participant_account mine ≡ true
    pub their_account : is_participant_account theirs ≡ true
    pub mine_direct : is_dyad_or_third_party mine.subject_kind ≡ false
    pub theirs_direct : is_dyad_or_third_party theirs.subject_kind ≡ false
    pub same_subject : theirs.subject_id ≡ mine.subject_id
    pub different_source : (theirs.source_id == mine.source_id) ≡ false
    pub unrecorded : contains (sorted_pair observation.id rec.id) existing_pairs ≡ false

  is_eligible-IsPartner :
      (mine : EvidenceStanding) (rec : EvidenceRecord F)
      → observation.standing ≡ some mine
      → may_diverge mine ≡ true
      → is_eligible observation existing_pairs mine rec ≡ true
      → IsPartner rec
  unfolding is_eligible standing_is_eligible may_diverge
  is_eligible-IsPartner mine rec o m h = elim (Option-cases rec.standing) [
    | inl e ↦ ground arith
    | inr (st, e) ↦ record {
      mine = mine;
      theirs = st;
      observed = o;
      stands = e;
      other = ground arith;
      my_account = ground arith;
      their_account = ground arith;
      mine_direct = ground arith;
      theirs_direct = ground arith;
      same_subject = (option_eq.beq_iff st.subject_id mine.subject_id).0 (ground arith);
      different_source = ground arith;
      unrecorded = ground arith;
    }
  ]

  IsPartner-is_eligible :
      (rec : EvidenceRecord F) (p : IsPartner rec)
      → (may_diverge p.mine ≡ true) × (is_eligible observation existing_pairs p.mine rec ≡ true)
  unfolding is_eligible standing_is_eligible may_diverge
  IsPartner-is_eligible rec p =
      let same = (option_eq.beq_iff p.theirs.subject_id p.mine.subject_id).1 p.same_subject in
      (
        rw (p.my_account, p.mine_direct) refl,
        rw
            (
              p.other, p.stands, p.their_account, p.theirs_direct, same, p.different_source,
              p.unrecorded,
            )
            refl,
      )

module _ {F : Type 0} (observation : EvidenceRecord F) (existing_pairs : List (String × String))
    (admitted : List (EvidenceRecord F)) where
  -- The most recent partners under a standing of the observation, in the order of their ids.
  abbrev offered_under : EvidenceStanding → List (EvidenceRecord F)
  offered_under st = sort_by_id (
      take_last max_divergence_candidates
        (keep (is_eligible observation existing_pairs st) admitted))

  build_divergence_candidates-some :
      (st : EvidenceStanding)
      → observation.standing ≡ some st
      → may_diverge st ≡ true
      → build_divergence_candidates observation existing_pairs admitted ≡ offered_under st
  unfolding build_divergence_candidates
  build_divergence_candidates-some st e d = ground arith

  build_divergence_candidates-cases :
      (build_divergence_candidates observation existing_pairs admitted ≡ [])
      ⊎ ((st : EvidenceStanding) × (observation.standing ≡ some st)
          × (may_diverge st ≡ true)
          × (build_divergence_candidates observation existing_pairs admitted ≡ offered_under st))
  unfolding build_divergence_candidates
  build_divergence_candidates-cases = elim (Option-cases observation.standing) [
    | inl e ↦ inl (ground arith)
    | inr (st, e) ↦ elim (Bool-cases (may_diverge st)) [
      | inr d ↦ inl (ground arith)
      | inl d ↦ inr (st, e, d, build_divergence_candidates-some st e d)
    ]
  ]

  -- Every record that is offered was admitted and is a partner of the observation.
  pub build_divergence_candidates_sound :
      (rec : EvidenceRecord F)
      → In rec (build_divergence_candidates observation existing_pairs admitted)
      → In rec admitted × IsPartner observation existing_pairs rec
  build_divergence_candidates_sound rec m = elim build_divergence_candidates-cases [
    | inl q ↦ absurd (subst (In rec) q m)
    | inr (st, e, d, q) ↦
        let test = is_eligible observation existing_pairs st in
        let mk =
          In-drop _ rec (keep test admitted) ((In-sort_by_id rec _).0 (subst (In rec) q m)) in
        let (ma, t) = In-keep test rec admitted mk in
        (ma, is_eligible-IsPartner observation existing_pairs st rec e d t)
  ]

  -- At most eight records are offered, in the order of their ids.
  pub build_divergence_candidates-bounded :
      (length (build_divergence_candidates observation existing_pairs admitted) ≤ 8)
      × Ascending (build_divergence_candidates observation existing_pairs admitted)
  build_divergence_candidates-bounded = elim build_divergence_candidates-cases [
    | inl q ↦ rw q (omega arith, tt)
    | inr (st, e, d, q) ↦
        let partners = keep (is_eligible observation existing_pairs st) admitted in
        let bounded = take_last max_divergence_candidates partners in
        rw q (
          omega (arith, length-sort_by_id bounded, length-take_last 8 partners),
          sort_by_id-Ascending bounded,
        )
  ]

  -- While the admitted partners are at most eight, every one of them is offered.
  pub build_divergence_candidates_complete :
      (rec : EvidenceRecord F) (p : IsPartner observation existing_pairs rec)
      → length (keep (is_eligible observation existing_pairs p.mine) admitted) ≤ 8
      → In rec admitted
      → In rec (build_divergence_candidates observation existing_pairs admitted)
  build_divergence_candidates_complete rec p few m =
      let (d, t) = IsPartner-is_eligible observation existing_pairs rec p in
      let test = is_eligible observation existing_pairs p.mine in
      let none_dropped : length (keep test admitted) - 8 ≡ 0 = omega arith in
      let kept =
        subst (λ n. In rec (drop n (keep test admitted))) (sym none_dropped)
          (keep-In test rec admitted m t) in
      rw (build_divergence_candidates-some p.mine p.observed d) ((In-sort_by_id rec _).1 kept)

  -- Check 8a compares the observation with every record that is offered, and finds no fault.
  pub build_divergence_candidates-comparable :
      (rec : EvidenceRecord F)
      → In rec (build_divergence_candidates observation existing_pairs admitted)
      → comparable observation rec ≡ ok tt
  unfolding comparable account_standing differ
  build_divergence_candidates-comparable rec m =
      let p = (build_divergence_candidates_sound rec m).1 in
      let same = (option_eq.beq_iff p.mine.subject_id p.theirs.subject_id).1 (sym p.same_subject) in
      let differs = beq_sym-false p.theirs.source_id p.mine.source_id p.different_source in
      rw (p.observed, p.stands, p.my_account, p.their_account, same, differs) refl
