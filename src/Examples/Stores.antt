-- ===== src/Examples/Stores.antt =====
-- Examples of the stores.
use sanuvia_reasoning_engine.Prelude.{
  ℕ, String, ◌≡◌, ◌≢◌, ◌↔◌, ◌++◌, refl, none, some, List, [], ◌∷◌, map, suc, subst, sym, arith,
}
use sanuvia_reasoning_engine.Prelude.Lists.{In, drop}
use sanuvia_reasoning_engine.Prelude.Tests.{string_eq, nat_eq, pair_eq}
use sanuvia_reasoning_engine.Prelude.Dict.{get}
use sanuvia_reasoning_engine.Reasoning.Validation.Acceptance.{MapsBack}
use sanuvia_reasoning_engine.Reasoning.Validation.Edges.{maps_back}
use sanuvia_reasoning_engine.Reasoning.Validation.Loops.{Passes}
use sanuvia_reasoning_engine.Domain.Errors.{ok, err, invariant_violation}
use sanuvia_reasoning_engine.Domain.Dependency.{
  canonical_divergence_pair, canonical_divergence_pair_comm, canonical_divergence_pair-make_edge,
  make_edge,
}
use sanuvia_reasoning_engine.Domain.Evidence.{EvidenceRecord}
use sanuvia_reasoning_engine.Domain.Hypothesis.{Hypothesis}
use sanuvia_reasoning_engine.Domain.Revision.{
  RevisionEvent, RevisionLedgerEntry, make_entry, committed, proposed,
}
use sanuvia_reasoning_engine.Stores.Evidence.{
  EvidenceStore, add, id_for_ref, ref_for_id, IsIndexed, add-IsIndexed, add-keeps_records,
  add-keeps_index, add-round_trip,
}
use sanuvia_reasoning_engine.Stores.Hypotheses.{latest, list_for_subject}
use sanuvia_reasoning_engine.Stores.Hypotheses.Listing.{list_for_subject-latest}
use sanuvia_reasoning_engine.Stores.Hypotheses.Order.{first_seen, scoped_ids}
use sanuvia_reasoning_engine.Stores.Ledger.{
  Ledger, append, read, read_since, IsLedger, scope_of, append-IsLedger, append-read,
  append-committed, read_since-drop,
}
use sanuvia_reasoning_engine.Examples.Data.{by_ann, by_bob, hypothesis, event, divergence}

some-injective : {A : Type 0} {a b : A} → some a ≡ some b → a ≡ b
some-injective h = ground arith

abbrev no_evidence : EvidenceStore ℕ
no_evidence = record { by_id = []; by_ref = [] }

abbrev one_account : EvidenceStore ℕ
one_account = record {
  by_id = ("evidence-1", by_ann) ∷ [];
  by_ref = (("transcript", (0, 1)), "evidence-1") ∷ [];
}

abbrev two_accounts : EvidenceStore ℕ
two_accounts = record {
  by_id = ("evidence-1", by_ann) ∷ ("evidence-2", by_bob) ∷ [];
  by_ref = (("transcript", (0, 1)), "evidence-1") ∷ (("transcript", (0, 2)), "evidence-2") ∷ [];
}

no_evidence-IsIndexed : IsIndexed no_evidence
no_evidence-IsIndexed = record {
  ids = λ k r g. cc;
  refs = λ ref id g. cc;
  covered = λ k r ref g q. cc;
}

add_first : add no_evidence by_ann ≡ ok one_account
unfolding add
add_first = refl

add_second : add one_account by_bob ≡ ok two_accounts
unfolding add
add_second = refl

-- The empty index has no other record of the observation of Ann's account.
one_account-IsIndexed : IsIndexed one_account
unfolding maps_back
one_account-IsIndexed =
    (add-IsIndexed no_evidence by_ann one_account no_evidence-IsIndexed add_first).1 refl

-- Nothing is on record for the observation of Bob's account.
bob-MapsBack : MapsBack one_account.by_ref by_bob
bob-MapsBack ref mapped r g =
    let q : get one_account.by_ref ("transcript", (0, 2)) ≡ some mapped =
      subst (λ x. get one_account.by_ref x ≡ some mapped) (sym (some-injective r)) g in
    cc q

add-IsIndexed_example : IsIndexed two_accounts ↔ Passes (maps_back one_account.by_ref by_bob)
add-IsIndexed_example =
    add-IsIndexed one_account by_bob two_accounts one_account-IsIndexed add_second

add-keeps_records_example :
    (get two_accounts.by_id "evidence-2" ≡ some by_bob)
    × ((k : String) (q : EvidenceRecord ℕ)
        → get one_account.by_id k ≡ some q
        → get two_accounts.by_id k ≡ some q)
add-keeps_records_example = add-keeps_records one_account by_bob two_accounts add_second

add-keeps_index_example : get two_accounts.by_ref ("transcript", (0, 1)) ≡ some "evidence-1"
add-keeps_index_example =
    add-keeps_index one_account by_bob two_accounts ("transcript", (0, 1)) "evidence-1"
      one_account-IsIndexed.refs bob-MapsBack add_second refl

add-round_trip_example :
    (id_for_ref two_accounts ("transcript", (0, 2)) ≡ some "evidence-2")
    × (ref_for_id two_accounts "evidence-2" ≡ some ("transcript", (0, 2)))
add-round_trip_example =
    add-round_trip one_account by_bob two_accounts ("transcript", (0, 2)) add_second refl

list_for_subject-latest_example :
    (xs : List (Hypothesis ℕ)) × (list_for_subject "couple" "space:shared:home"
        (hypothesis ∷ hypothesis ∷ [])
      ≡ some xs)
    × (map (λ (h : Hypothesis ℕ). h.hypothesis_id) xs
        ≡ first_seen (scoped_ids "couple" "space:shared:home" (hypothesis ∷ hypothesis ∷ [])))
    × ((h : Hypothesis ℕ)
        → In h xs ↔ (
            latest "couple" "space:shared:home" (hypothesis ∷ hypothesis ∷ []) h.hypothesis_id
            ≡ some h))
list_for_subject-latest_example =
    list_for_subject-latest "couple" "space:shared:home" (hypothesis ∷ hypothesis ∷ [])

abbrev first_entry : RevisionLedgerEntry
first_entry = record { sequence_no = 0; revision_event = event; appended_at = 1 }

abbrev one_revision : Ledger
one_revision = (("space:shared:home", "couple"), first_entry ∷ []) ∷ []

append_first : append [] event ≡ ok (one_revision, first_entry)
unfolding append make_entry
append_first = refl

append-IsLedger_example : IsLedger one_revision
append-IsLedger_example =
    append-IsLedger [] event one_revision first_entry (λ scope. tt) append_first

one_revision-IsLedger : IsLedger one_revision
one_revision-IsLedger = append-IsLedger [] event one_revision first_entry (λ scope. tt) append_first

append-read_example :
    (read one_revision "couple" "space:shared:home"
      ≡ read [] "couple" "space:shared:home" ++ first_entry ∷ [])
    × ((subject space : String)
        → scope_of event ≢ (space, subject)
        → read one_revision subject space ≡ read [] subject space)
append-read_example = append-read [] event one_revision first_entry append_first

read_since-drop_example :
    read_since one_revision "couple" (some 0) "space:shared:home"
    ≡ drop (suc 0) (read one_revision "couple" "space:shared:home")
read_since-drop_example =
    read_since-drop one_revision "couple" "space:shared:home" 0 one_revision-IsLedger

abbrev proposed_event : RevisionEvent
proposed_event = record event { status = proposed; to_model_version_id = none }

append-committed_example :
    (append one_revision proposed_event ≡ err invariant_violation)
    × ((e' : RevisionEvent) × (committed proposed_event "model-2" ≡ ok e')
        × (p : Ledger × RevisionLedgerEntry) × (append one_revision e' ≡ ok p))
append-committed_example = append-committed one_revision proposed_event "model-2" refl refl

pair_of_evidence :
    canonical_divergence_pair "evidence-2" "evidence-1" ≡ ok ("evidence-1", "evidence-2")
unfolding canonical_divergence_pair
pair_of_evidence = refl

canonical_divergence_pair_comm_example :
    canonical_divergence_pair "evidence-1" "evidence-2"
    ≡ canonical_divergence_pair "evidence-2" "evidence-1"
canonical_divergence_pair_comm_example = canonical_divergence_pair_comm "evidence-1" "evidence-2"

canonical_divergence_pair-make_edge_example : make_edge divergence ≡ ok divergence
canonical_divergence_pair-make_edge_example =
    canonical_divergence_pair-make_edge "evidence-2" "evidence-1" divergence pair_of_evidence
