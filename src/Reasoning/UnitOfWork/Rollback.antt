-- ===== src/Reasoning/UnitOfWork/Rollback.antt =====
-- What a restore brings back (src/sanuvia/application/reasoning/unit_of_work.py).
use sanuvia_reasoning_engine.Prelude.{
  String, ◌≡◌, refl, sym, ap, ◌∙◌, subst, ◌⊎◌, inl, inr, true, false, some, [], ◌∷◌, ◌++◌, arith,
  ◌||◌,
}
use sanuvia_reasoning_engine.Prelude.Tests.{Bool-cases, Option-cases, string_eq, ◌==◌}
use sanuvia_reasoning_engine.Prelude.Dict.{Dict, get, put, has, put-new}
use sanuvia_reasoning_engine.Domain.Errors.{
  Error, ok, err, breach_rejection, commit_atomicity, IsGoverned,
}
use sanuvia_reasoning_engine.Reasoning.UnitOfWork.{
  Snapshots, UnitOfWork, take_tokens, reinstate_at, reinstate_all, begin, restore, commit, or_kept,
}

-- No name repeats.
abbrev pub HasUniqueNames : {V : Type 0} → Dict String V → Type 0
HasUniqueNames [] = Unit
HasUniqueNames ((n, v) ∷ d) = (has d n ≡ false) × HasUniqueNames d

-- No name of the second dictionary is in the first.
abbrev IsApart : {V W : Type 0} → Dict String V → Dict String W → Type 0
IsApart d e = (n : String) → has e n ≡ true → has d n ≡ false

module _ {V : Type 0} where
  has-append : (d e : Dict String V) (n : String) → has (d ++ e) n ≡ (has d n || has e n)
  has-append [] e n = refl
  has-append ((j, w) ∷ d) e n = ground (arith, has-append d e n)

  get_middle :
      (d e : Dict String V) (n : String) (v : V)
      → has d n ≡ false
      → get (d ++ (n, v) ∷ e) n ≡ some v
  get_middle [] e n v h = rw ((string_eq.beq_iff n n).1 refl) refl
  get_middle ((j, w) ∷ d) e n v h = ground (arith, get_middle d e n v)

  put_middle :
      (d e : Dict String V) (n : String) (v w : V)
      → has d n ≡ false
      → put (d ++ (n, v) ∷ e) n w ≡ d ++ (n, w) ∷ e
  put_middle [] e n v w h = rw ((string_eq.beq_iff n n).1 refl) refl
  put_middle ((j, x) ∷ d) e n v w h = ground (arith, put_middle d e n v w)

  append_nil : (d : Dict String V) → d ++ [] ≡ d
  append_nil [] = refl
  append_nil (x ∷ d) = ap (λ z. x ∷ z) (append_nil d)

  append_snoc : (d e : Dict String V) (x : String × V) → (d ++ x ∷ []) ++ e ≡ d ++ x ∷ e
  append_snoc [] e x = refl
  append_snoc (y ∷ d) e x = ap (λ z. y ∷ z) (append_snoc d e x)

-- The next name leaves what comes after it apart.
IsApart-snoc :
    {V W : Type 0} (d : Dict String V) (n : String) (v : V) (w : W) (e : Dict String W)
    → IsApart d ((n, w) ∷ e)
    → has e n ≡ false
    → IsApart (d ++ (n, v) ∷ []) e
IsApart-snoc d n v w e a new m h = elim (Bool-cases (n == m)) [
  | inl t ↦ let same = (string_eq.beq_iff n m).0 t in cc (subst (λ i. has e i ≡ false) same new)
  | inr t ↦
      let before : has d m ≡ false = a m (ground arith) in
      has-append d ((n, v) ∷ []) m ∙ ground arith
]

module _ {X T : Type 0} (k : Snapshots X T) where
  -- The tokens of the stores, one for each, under its name
  abbrev IsCaptured : Dict String X → Dict String T → Type 0
  IsCaptured [] [] = Unit
  IsCaptured ((n, x) ∷ d) ((m, t) ∷ ts) = (n ≡ m) × (k.snapshot x ≡ some t) × IsCaptured d ts
  IsCaptured _ _ = ⊥

  -- Every store has snapshots.
  abbrev pub IsSnapshotable : Dict String X → Type 0
  IsSnapshotable [] = Unit
  IsSnapshotable ((n, x) ∷ d) = ((t : T) × (k.snapshot x ≡ some t)) × IsSnapshotable d

  take_tokens-IsCaptured :
      (done : Dict String T) (stores : Dict String X)
      → HasUniqueNames stores
      → IsApart done stores
      → IsSnapshotable stores
      → (ts : Dict String T) × (take_tokens k done stores ≡ ok (done ++ ts)) × IsCaptured stores ts
  unfolding take_tokens
  take_tokens-IsCaptured done [] u a s = ([], ap ok (sym (append_nil done)), tt)
  take_tokens-IsCaptured done ((n, x) ∷ rest) (new, u) a ((t, e), s) =
      let here : has done n ≡ false = a n (ground (arith, (string_eq.beq_iff n n).1 refl)) in
      let (ts, ran, captured) =
        take_tokens-IsCaptured (done ++ (n, t) ∷ []) rest u (IsApart-snoc done n t x rest a new)
          s in
      (
        (n, t) ∷ ts,
        rw (take_tokens, e)
            (ap (λ z. take_tokens k z rest) (put-new done n t here)
              ∙ ran
              ∙ ap ok (append_snoc done ts (n, t))),
        (refl, e, captured),
      )

  -- A store without snapshots stops the loop, with a governed rejection.
  take_tokens-cases :
      (done : Dict String T) (stores : Dict String X)
      → IsSnapshotable stores
        ⊎ ((¬ IsSnapshotable stores)
            × ((e : Error) × (take_tokens k done stores ≡ err e) × IsGoverned e))
  unfolding take_tokens breach_rejection
  take_tokens-cases done [] = inl tt
  take_tokens-cases done ((n, x) ∷ rest) = elim (Option-cases (k.snapshot x)) [
    | inl e ↦ inr (
      λ ((t, q), s). cc (sym e ∙ q),
      (breach_rejection commit_atomicity [], rw (take_tokens, e) refl, refl),
    )
    | inr (t, e) ↦ elim (take_tokens-cases (put done n t) rest) [
      | inl s ↦ inl ((t, e), s)
      | inr (bad, (x', ran, governed)) ↦
          inr (λ (t', s). bad s, (x', rw (take_tokens, e) ran, governed))
    ]
  ]

  -- The same stores, under the same names, in whatever state
  abbrev pub IsRenewed : Dict String X → Dict String X → Type 0
  IsRenewed [] [] = Unit
  IsRenewed ((n, x) ∷ d) ((m, y) ∷ e) = (n ≡ m) × IsRenewed d e
  IsRenewed _ _ = ⊥

  -- What a store's `restore` promises: whatever its state, a token brings back the state that it was taken of.
  abbrev pub Reinstates : Type 0
  Reinstates = (x y : X) (t : T) → k.snapshot x ≡ some t → k.reinstate y t ≡ x

  reinstate_at_middle :
      Reinstates
      → (done rest : Dict String X) (n : String) (x y : X) (t : T) → k.snapshot x ≡ some t
      → has done n ≡ false
      → reinstate_at k (done ++ (n, y) ∷ rest) n t ≡ (done ++ (n, x) ∷ []) ++ rest
  unfolding reinstate_at
  reinstate_at_middle law done rest n x y t e h =
      rw (reinstate_at, get_middle done rest n y h)
        (put_middle done rest n y (k.reinstate y t) h
          ∙ ap (λ z. done ++ (n, z) ∷ rest) (law x y t e)
          ∙ sym (append_snoc done rest (n, x)))

  reinstate_all-IsCaptured :
      Reinstates
      → (done stores later : Dict String X) (ts : Dict String T) → HasUniqueNames stores
      → IsApart done stores
      → IsCaptured stores ts
      → IsRenewed stores later
      → reinstate_all k ts (done ++ later) ≡ done ++ stores
  unfolding reinstate_all
  reinstate_all-IsCaptured law done [] [] [] u a c r = refl
  reinstate_all-IsCaptured law done [] [] (z ∷ ts) u a c r = absurd c
  reinstate_all-IsCaptured law done [] (z ∷ ys) ts u a c r = absurd r
  reinstate_all-IsCaptured law done (z ∷ rest) [] ts u a c r = absurd r
  reinstate_all-IsCaptured law done (z ∷ rest) (w ∷ ys) [] u a c r = absurd c
  reinstate_all-IsCaptured law done ((n, x) ∷ rest) ((m, y) ∷ ys) ((j, t) ∷ ts) (new, u) a (p, e, c)
        (q, r) =
      let here : has done n ≡ false = a n (ground (arith, (string_eq.beq_iff n n).1 refl)) in
      let one = reinstate_at_middle law done ys n x y t e here in
      let all =
        ap (reinstate_all k ts) one
        ∙ reinstate_all-IsCaptured law (done ++ (n, x) ∷ []) rest ys ts u
            (IsApart-snoc done n x x rest a new) c r
        ∙ append_snoc done rest (n, x) in
      subst (λ i. reinstate_all k ((i, t) ∷ ts) (done ++ (m, y) ∷ ys) ≡ done ++ (n, x) ∷ rest) p
        (subst (λ i. reinstate_all k ((n, t) ∷ ts) (done ++ (i, y) ∷ ys) ≡ done ++ (n, x) ∷ rest) q
          all)

module _ {X T S : Type 0} (k : Snapshots X T) where
  -- A restore of the unit changes neither the stores nor the ids.
  abbrev IsUndisturbed : UnitOfWork T S → Dict String X → S → Type 0
  IsUndisturbed u stores ids = (restore k u stores ids).1 ≡ (stores, ids)

  -- The unit that `begin` opens over the stores and the ids brings them back from the later ones, once; while it
  -- is open, another `begin` is a governed rejection.
  abbrev pub IsBoundary : UnitOfWork T S → Dict String X → S → Dict String X → S → Type 0
  IsBoundary v stores ids later issued =
      ((restore k v later issued).1 ≡ (stores, ids))
      × ((e : Error) × (begin k v later (some issued) ≡ err e) × IsGoverned e)
      × IsUndisturbed (restore k v later issued).0 later issued
      × IsUndisturbed (commit v) later issued

  begun-IsBoundary :
      (stores later : Dict String X) (ids issued : S) (ts : Dict String T)
      → reinstate_all k ts later ≡ stores
      → IsBoundary
          (record { tokens = ts; ids_token = some ids; is_open = true })
          stores
          ids
          later
          issued
  unfolding begin restore commit or_kept breach_rejection
  begun-IsBoundary stores later ids issued ts back =
      (ap (λ z. (z, ids)) back, (breach_rejection commit_atomicity [], refl, refl), refl, refl)

  -- For stores under names of which none repeats, each of which brings back by a token the state that the token was
  -- taken of: a closed unit begins exactly when every store has snapshots, and otherwise raises a governed
  -- rejection. If it begins, then whatever state the same stores are in later and whatever ids are issued, a
  -- restore brings back every store and the ids; a second begin is a governed rejection; and after the restore,
  -- or after a commit, a restore changes nothing.
  pub begin-restore :
      (u : UnitOfWork T S) (stores later : Dict String X) (ids issued : S)
      → u.is_open ≡ false
      → Reinstates k
      → HasUniqueNames stores
      → IsRenewed k stores later
      → (IsSnapshotable k stores
          × ((v : UnitOfWork T S) × (begin k u stores (some ids) ≡ ok v)
              × IsBoundary v stores ids later issued))
        ⊎ ((¬ IsSnapshotable k stores)
            × ((e : Error) × (begin k u stores (some ids) ≡ err e) × IsGoverned e))
  unfolding begin
  begin-restore u stores later ids issued closed law unique renewed =
      elim (take_tokens-cases k [] stores) [
        | inr (bad, (e, ran, governed)) ↦ inr (bad, (e, rw (begin, closed, ran) refl, governed))
        | inl s ↦
            let (ts, ran, captured) = take_tokens-IsCaptured k [] stores unique (λ n m. refl) s in
            let back =
              reinstate_all-IsCaptured k law [] stores later ts unique (λ n m. refl) captured
                renewed in
            inl (
              s,
              (
                record { tokens = ts; ids_token = some ids; is_open = true },
                rw (begin, closed, ran) refl,
                begun-IsBoundary stores later ids issued ts back,
              ),
            )
      ]
