-- ===== src/Stores/Ledger.antt =====
-- `InMemoryRevisionLedgerStore` of src/sanuvia/adapters/persistence/in_memory.py.
use sanuvia_reasoning_engine.Prelude.{
  ℕ, zero, suc, ◌+◌, ◌-◌, String, ◌≡◌, ◌≢◌, refl, sym, ap, ◌∙◌, subst, inl, inr, Bool, true, false,
  not, Option, none, some, List, [], ◌∷◌, ◌++◌, arith,
}
use sanuvia_reasoning_engine.Prelude.Tests.{
  ◌==◌, string_eq, pair_eq, Bool-cases, if◌then◌else◌, ltb,
}
use sanuvia_reasoning_engine.Prelude.Lists.{keep, length, drop}
use sanuvia_reasoning_engine.Prelude.Dict.{
  Dict, get_list, append_at, get_list-append_at_self, get_list-append_at_ne,
}
use sanuvia_reasoning_engine.Domain.Errors.{
  Result, ok, err, ◌>>=◌, invariant_violation, ok-injective,
}
use sanuvia_reasoning_engine.Domain.Revision.{
  RevisionEvent, RevisionLedgerEntry, make_entry, committed, committed_status, make_event, no_ids,
  is_committed,
}

-- By space and subject.
abbrev pub Ledger : Type 0
Ledger = Dict (String × String) (List RevisionLedgerEntry)

abbrev pub scope_of : RevisionEvent → String × String
scope_of event = (event.space_id, event.subject_id)

abbrev next_entry : Ledger → RevisionEvent → RevisionLedgerEntry
next_entry l event = record {
  sequence_no = length (get_list l (scope_of event));
  revision_event = event;
  appended_at = event.created_at;
}

unfoldable pub append : Ledger → RevisionEvent → Result (Ledger × RevisionLedgerEntry)
append l event =
    if not (is_committed event.status)
    then err invariant_violation
    else make_entry (next_entry l event) >>= λ entry. ok (append_at l (scope_of event) entry, entry)

pub read : Ledger → String → String → List RevisionLedgerEntry
read l subject space = get_list l (space, subject)

-- `n > after`: an integer below zero is `none`.
abbrev is_after : Option ℕ → ℕ → Bool
is_after none n = true
is_after (some k) n = ltb k n

pub read_since : Ledger → String → Option ℕ → String → List RevisionLedgerEntry
read_since l subject after_sequence_no space =
    keep (λ (e : RevisionLedgerEntry). is_after after_sequence_no e.sequence_no)
      (get_list l (space, subject))

-- The entries hold committed events, and are numbered from `n` on without a gap.
abbrev IsNumbered : ℕ → List RevisionLedgerEntry → Type 0
IsNumbered n [] = Unit
IsNumbered n (e ∷ es) =
    (e.sequence_no ≡ n) × (is_committed e.revision_event.status ≡ true) × IsNumbered (suc n) es

abbrev pub IsLedger : Ledger → Type 0
IsLedger l = (scope : String × String) → IsNumbered 0 (get_list l scope)

IsNumbered-snoc :
    (n : ℕ) (es : List RevisionLedgerEntry) (e : RevisionLedgerEntry)
    → IsNumbered n es
    → e.sequence_no ≡ n + length es
    → is_committed e.revision_event.status ≡ true
    → IsNumbered n (es ++ e ∷ [])
IsNumbered-snoc n [] e h s c = (omega (arith, s), c, tt)
IsNumbered-snoc n (x ∷ es) e (q, k, r) s c =
    (q, k, IsNumbered-snoc (suc n) es e r (omega (arith, s)) c)

append-ok :
    (l : Ledger) (event : RevisionEvent) (l' : Ledger) (entry : RevisionLedgerEntry)
    → append l event ≡ ok (l', entry)
    → (is_committed event.status ≡ true)
      × (append_at l (scope_of event) (next_entry l event) ≡ l')
      × (next_entry l event ≡ entry)
unfolding append make_entry
append-ok l event l' entry h = elim (Bool-cases (is_committed event.status)) [
  | inr t ↦ cc (rw t at h)
  | inl t ↦
      let q = ok-injective (rw t at h) in
      (
        t,
        ap (λ (p : Ledger × RevisionLedgerEntry). p.0) q,
        ap (λ (p : Ledger × RevisionLedgerEntry). p.1) q,
      )
]

-- Appending keeps every scope's entries numbered from 0 without a gap, and committed.
pub append-IsLedger :
    (l : Ledger) (event : RevisionEvent) (l' : Ledger) (entry : RevisionLedgerEntry)
    → IsLedger l
    → append l event ≡ ok (l', entry)
    → IsLedger l'
append-IsLedger l event l' entry i h scope =
    let (c, e, _) = append-ok l event l' entry h in
    let mine = scope_of event in
    subst (λ z. IsNumbered 0 (get_list z scope)) e
      (elim (Bool-cases (mine == scope)) [
        | inl t ↦
            let p = (pair_eq.beq_iff mine scope).0 t in
            subst (λ z. IsNumbered 0 (get_list (append_at l mine (next_entry l event)) z)) p
              (rw (get_list-append_at_self l mine (next_entry l event))
                (IsNumbered-snoc 0 (get_list l mine) (next_entry l event) (i mine) (omega arith) c))
        | inr t ↦
            rw
              (get_list-append_at_ne l mine scope (next_entry l event)
                (λ p. cc ((pair_eq.beq_iff mine scope).1 p)))
              (i scope)
      ])

-- An append adds its entry at the end of what its own subject and space read, and no other scope reads
-- anything else than before.
pub append-read :
    (l : Ledger) (event : RevisionEvent) (l' : Ledger) (entry : RevisionLedgerEntry)
    → append l event ≡ ok (l', entry)
    → (read l' event.subject_id event.space_id
        ≡ read l event.subject_id event.space_id ++ entry ∷ [])
      × ((subject space : String)
          → scope_of event ≢ (space, subject)
          → read l' subject space ≡ read l subject space)
unfolding read
append-read l event l' entry h =
    let (c, e, q) = append-ok l event l' entry h in
    let mine = scope_of event in
    subst
      (λ x.
        (get_list l' mine ≡ get_list l mine ++ x ∷ [])
        × ((subject space : String)
            → mine ≢ (space, subject)
            → get_list l' (space, subject) ≡ get_list l (space, subject)))
      q
      (subst
        (λ z.
          (get_list z mine ≡ get_list l mine ++ next_entry l event ∷ [])
          × ((subject space : String)
              → mine ≢ (space, subject)
              → get_list z (space, subject) ≡ get_list l (space, subject)))
        e
        (
          get_list-append_at_self l mine (next_entry l event),
          λ subject space n. get_list-append_at_ne l mine (space, subject) (next_entry l event) n,
        ))

drop-nil : {A : Type 0} (n : ℕ) → drop {A = A} n [] ≡ []
drop-nil zero = refl
drop-nil (suc n) = refl

keep-IsNumbered :
    (k n : ℕ) (es : List RevisionLedgerEntry)
    → IsNumbered n es
    → keep (λ (e : RevisionLedgerEntry). is_after (some k) e.sequence_no) es ≡ drop (suc k - n) es
keep-IsNumbered k n [] h = sym (drop-nil (suc k - n))
keep-IsNumbered k n (e ∷ es) (q, c, r) =
    let ih = keep-IsNumbered k (suc n) es r in
    elim (Bool-cases (ltb k e.sequence_no)) [
      | inl t ↦
          let now : suc k - n ≡ 0 = ground arith in
          let then' : suc k - suc n ≡ 0 = ground arith in
          rw (t, now) (ap (λ xs. e ∷ xs) (ih ∙ ap (λ m. drop m es) then'))
      | inr t ↦ let now : suc k - n ≡ suc (suc k - suc n) = ground arith in rw (t, now) ih
    ]

-- What is read since a sequence number is what is read at all, without the entries up to that number.
pub read_since-drop :
    (l : Ledger) (subject space : String) (k : ℕ)
    → IsLedger l
    → read_since l subject (some k) space ≡ drop (suc k) (read l subject space)
unfolding read_since read
read_since-drop l subject space k i =
    let all = get_list l (space, subject) in
    let whole : suc k - 0 ≡ suc k = omega arith in
    keep-IsNumbered k 0 all (i (space, subject)) ∙ ap (λ m. drop m all) whole

abbrev committed_as : RevisionEvent → String → RevisionEvent
committed_as e version = record e { status = committed_status; to_model_version_id = some version }

-- The ledger refuses an event that is not committed. If the event cites evidence, its committed counterpart
-- exists, and the ledger takes it.
pub append-committed :
    (l : Ledger) (e : RevisionEvent) (version : String)
    → is_committed e.status ≡ false
    → no_ids e.triggering_evidence_ids ≡ false
    → (append l e ≡ err invariant_violation)
      × ((e' : RevisionEvent) × (committed e version ≡ ok e')
          × (p : Ledger × RevisionLedgerEntry) × (append l e' ≡ ok p))
unfolding append committed make_event make_entry
append-committed l e version proposed_only cites =
    let e' = committed_as e version in
    (
      ground arith,
      (e', ground arith, (append_at l (scope_of e) (next_entry l e'), next_entry l e'), refl),
    )
