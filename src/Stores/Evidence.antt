-- ===== src/Stores/Evidence.antt =====
-- `InMemoryEvidenceStore` of src/sanuvia/adapters/persistence/in_memory.py, with its index of source
-- observations. `F` is the type of the program's floats.
use sanuvia_reasoning_engine.Prelude.{
  String, ◌≡◌, ◌≢◌, sym, ap, ◌∙◌, subst, ◌↔◌, ◌⊎◌, inl, inr, false, Option, none, some, List, arith,
  ◌&&◌,
}
use sanuvia_reasoning_engine.Prelude.Tests.{
  ◌==◌, string_eq, nat_eq, pair_eq, Bool-cases, if◌then◌else◌,
}
use sanuvia_reasoning_engine.Prelude.Lists.{keep}
use sanuvia_reasoning_engine.Prelude.Dict.{
  Dict, get, has, put, values, get-put_self, get-put_ne, get-put_cases, get-put_new, get-some→has,
}
use sanuvia_reasoning_engine.Domain.Errors.{Result, ok, err, invariant_violation, ok-injective}
use sanuvia_reasoning_engine.Domain.Evidence.{EvidenceRecord, SourceObservationRef}
use sanuvia_reasoning_engine.Reasoning.Validation.Acceptance.{MapsBack, maps_back-Passes}
use sanuvia_reasoning_engine.Reasoning.Validation.Edges.{maps_back}
use sanuvia_reasoning_engine.Reasoning.Validation.Loops.{Passes}

pub record EvidenceStore (F : Type 0) : Type 0 where
  pub by_id : Dict String (EvidenceRecord F)
  pub by_ref : Dict SourceObservationRef String

-- `if record.source_ref is not None: self._by_ref[record.source_ref] = record.id`
abbrev index_ref :
    Dict SourceObservationRef String
    → String
    → Option SourceObservationRef
    → Dict SourceObservationRef String
index_ref d id none = d
index_ref d id (some ref) = put d ref id

module _ {F : Type 0} where
  unfoldable pub add : EvidenceStore F → EvidenceRecord F → Result (EvidenceStore F)
  add s r =
      if has s.by_id r.id
      then err invariant_violation
      else ok
          (record s { by_id = put s.by_id r.id r; by_ref = index_ref s.by_ref r.id r.source_ref })

  pub id_for_ref : EvidenceStore F → SourceObservationRef → Option String
  id_for_ref s ref = get s.by_ref ref

  pub ref_for_id : EvidenceStore F → String → Option SourceObservationRef
  ref_for_id s id = elim (get s.by_id id) [ none ↦ none | some r ↦ r.source_ref ]

  abbrev pub list_for_subject : EvidenceStore F → String → String → List (EvidenceRecord F)
  list_for_subject s subject space =
      keep (λ (r : EvidenceRecord F). r.subject_id == subject && r.space_id == space)
        (values s.by_id)

-- An indexed observation belongs to the record that the index leads to.
abbrev LeadsBack : {F : Type 0} → EvidenceStore F → Type 0
LeadsBack {F = F} s =
    (ref : SourceObservationRef) (id : String)
    → get s.by_ref ref ≡ some id
    → (r : EvidenceRecord F) × (get s.by_id id ≡ some r) × (r.source_ref ≡ some ref)

-- The mapping is one-to-one: a record is under its own id, an indexed observation belongs to the record that
-- it leads to, and the observation of every record leads to that record.
pub record IsIndexed {F : Type 0} (s : EvidenceStore F) : Type 0 where
  pub ids : (k : String) (r : EvidenceRecord F) → get s.by_id k ≡ some r → r.id ≡ k
  pub refs : LeadsBack s
  pub covered :
      (k : String) (r : EvidenceRecord F) (ref : SourceObservationRef)
      → get s.by_id k ≡ some r
      → r.source_ref ≡ some ref
      → get s.by_ref ref ≡ some k

some-injective : {A : Type 0} {a b : A} → some a ≡ some b → a ≡ b
some-injective h = ground arith

index_ref-cases :
    (d : Dict SourceObservationRef String) (rid : String)
    → (o : Option SourceObservationRef) (ref : SourceObservationRef) (id : String)
    → get (index_ref d rid o) ref ≡ some id
    → ((o ≡ some ref) × (rid ≡ id)) ⊎ (get d ref ≡ some id)
index_ref-cases d rid none ref id h = inr h
index_ref-cases d rid (some o) ref id h = elim (get-put_cases d o ref h) [
  | inl (p, q) ↦ inl (ap some p, q)
  | inr (n, g) ↦ inr g
]

index_ref_self :
    (d : Dict SourceObservationRef String) (rid : String)
    → (o : Option SourceObservationRef) (ref : SourceObservationRef) → o ≡ some ref
    → get (index_ref d rid o) ref ≡ some rid
index_ref_self d rid o ref q =
    subst (λ x. get (index_ref d rid x) ref ≡ some rid) (sym q) (get-put_self d ref rid)

index_ref-keeps :
    (d : Dict SourceObservationRef String) (rid : String)
    → (o : Option SourceObservationRef) (ref : SourceObservationRef) (id : String) → o ≢ some ref
    → get d ref ≡ some id
    → get (index_ref d rid o) ref ≡ some id
index_ref-keeps d rid none ref id n g = g
index_ref-keeps d rid (some o) ref id n g = get-put_ne d o ref rid (λ p. n (ap some p)) ∙ g

module _ {F : Type 0} (s : EvidenceStore F) (r : EvidenceRecord F) where
  abbrev added : EvidenceStore F
  added = record s { by_id = put s.by_id r.id r; by_ref = index_ref s.by_ref r.id r.source_ref }

  add-ok : (s' : EvidenceStore F) → add s r ≡ ok s' → (has s.by_id r.id ≡ false) × (added ≡ s')
  unfolding add
  add-ok s' h = elim (Bool-cases (has s.by_id r.id)) [
    | inl t ↦ cc (rw t at h)
    | inr t ↦ (t, ok-injective (rw t at h))
  ]

  -- An added record is found under its id, and every record that was there still is.
  pub add-keeps_records :
      (s' : EvidenceStore F)
      → add s r ≡ ok s'
      → (get s'.by_id r.id ≡ some r)
        × ((k : String) (q : EvidenceRecord F) → get s.by_id k ≡ some q → get s'.by_id k ≡ some q)
  add-keeps_records s' h =
      let (new, e) = add-ok s' h in
      subst
        (λ (z : EvidenceStore F).
          (get z.by_id r.id ≡ some r)
          × ((k : String) (q : EvidenceRecord F) → get s.by_id k ≡ some q → get z.by_id k ≡ some q))
        e (get-put_self s.by_id r.id r, λ k q g. get-put_new s.by_id r.id k r new g)

  index-unmapped :
      (ref : SourceObservationRef) (id : String)
      → LeadsBack s
      → MapsBack s.by_ref r
      → has s.by_id r.id ≡ false
      → get s.by_ref ref ≡ some id
      → r.source_ref ≢ some ref
  index-unmapped ref id i back new g q =
      let (held, there, _) = i ref id g in
      let same = back ref id q g in
      cc (get-some→has s.by_id id there, subst (λ j. has s.by_id j ≡ false) (sym same) new)

  -- Check 7 is what keeps the index: a record that it passes takes no observation from another record.
  pub add-keeps_index :
      (s' : EvidenceStore F) (ref : SourceObservationRef) (id : String)
      → LeadsBack s
      → MapsBack s.by_ref r
      → add s r ≡ ok s'
      → get s.by_ref ref ≡ some id
      → get s'.by_ref ref ≡ some id
  add-keeps_index s' ref id i back h g =
      let (new, e) = add-ok s' h in
      subst (λ (z : EvidenceStore F). get z.by_ref ref ≡ some id) e
        (index_ref-keeps s.by_ref r.id r.source_ref ref id (index-unmapped ref id i back new g) g)

  added-refs : has s.by_id r.id ≡ false → LeadsBack s → LeadsBack added
  added-refs new back ref id g = elim (index_ref-cases s.by_ref r.id r.source_ref ref id g) [
    | inl (p, q) ↦
        (r, subst (λ j. get (put s.by_id r.id r) j ≡ some r) q (get-put_self s.by_id r.id r), p)
    | inr g' ↦ let (r', h, q) = back ref id g' in (r', get-put_new s.by_id r.id id r new h, q)
  ]

  added-IsIndexed : has s.by_id r.id ≡ false → IsIndexed s → MapsBack s.by_ref r → IsIndexed added
  added-IsIndexed new i back = record {
    ids = λ k r' g. elim (get-put_cases s.by_id r.id k g) [
      | inl (p, q) ↦ ap (λ (x : EvidenceRecord F). x.id) (sym q) ∙ p
      | inr (n, g') ↦ i.ids k r' g'
    ];
    refs = added-refs new i.refs;
    covered = λ k r' ref g q. elim (get-put_cases s.by_id r.id k g) [
      | inl (p, e) ↦
          subst (λ j. get added.by_ref ref ≡ some j) p
            (index_ref_self s.by_ref r.id r.source_ref ref
              (ap (λ (x : EvidenceRecord F). x.source_ref) e ∙ q))
      | inr (n, g') ↦
          let old = i.covered k r' ref g' q in
          index_ref-keeps s.by_ref r.id r.source_ref ref k
            (index-unmapped ref k i.refs back new old) old
    ];
  }

  -- In a store in which the mapping is one-to-one, whatever is mapped to the added record's observation is that
  -- record, if the mapping stays one-to-one.
  added-MapsBack : has s.by_id r.id ≡ false → IsIndexed s → IsIndexed added → MapsBack s.by_ref r
  added-MapsBack new i i' ref id q g =
      let (held, there, theirs) = i.refs ref id g in
      let still = get-put_new s.by_id r.id id r new there in
      some-injective (
        sym (i'.covered id held ref still theirs)
        ∙ i'.covered r.id r ref (get-put_self s.by_id r.id r) q)

  -- Check 7 is exactly what keeps the mapping of observations to records one-to-one: when a record is added to a
  -- store in which it is, the new store has it, too, just if the record passes check 7 over the index.
  pub add-IsIndexed :
      (s' : EvidenceStore F)
      → IsIndexed s
      → add s r ≡ ok s'
      → IsIndexed s' ↔ Passes (maps_back s.by_ref r)
  add-IsIndexed s' i h =
      let (new, e) = add-ok s' h in
      let seven = maps_back-Passes s.by_ref r in
      (
        λ i'. seven.1 (added-MapsBack new i (subst IsIndexed (sym e) i')),
        λ p. subst IsIndexed e (added-IsIndexed new i (seven.0 p)),
      )

  -- The two directions of an added record's mapping.
  pub add-round_trip :
      (s' : EvidenceStore F) (ref : SourceObservationRef)
      → add s r ≡ ok s'
      → r.source_ref ≡ some ref
      → (id_for_ref s' ref ≡ some r.id) × (ref_for_id s' r.id ≡ some ref)
  unfolding id_for_ref ref_for_id
  add-round_trip s' ref h q =
      let (new, e) = add-ok s' h in
      subst
        (λ (z : EvidenceStore F). (id_for_ref z ref ≡ some r.id) × (ref_for_id z r.id ≡ some ref)) e
        (
          subst (λ o. get (index_ref s.by_ref r.id o) ref ≡ some r.id) (sym q)
              (get-put_self s.by_ref ref r.id),
          rw (ref_for_id, get-put_self s.by_id r.id r) q,
        )
