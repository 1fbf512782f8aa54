-- ===== src/Stores/Versions.antt =====
-- `InMemoryStatementVersionStore` of src/sanuvia/adapters/persistence/in_memory.py: the statements of a
-- lineage, oldest first.
use sanuvia_reasoning_engine.Prelude.{
  String, ◌≡◌, ◌≢◌, refl, ap, ◌∙◌, Option, some, List, [], ◌∷◌, ◌++◌,
}
use sanuvia_reasoning_engine.Prelude.Tests.{string_eq}
use sanuvia_reasoning_engine.Prelude.Lists.{last?}
use sanuvia_reasoning_engine.Prelude.Dict.{
  Dict, get_list, append_at, get_list-append_at_self, get_list-append_at_ne,
}
use sanuvia_reasoning_engine.Domain.Hypothesis.{StatementVersion}

abbrev pub Versions : Type 0
Versions = Dict String (List StatementVersion)

unfoldable pub append_version : Versions → StatementVersion → Versions
append_version s v = append_at s v.hypothesis_id v

unfoldable pub history : Versions → String → List StatementVersion
history s hid = get_list s hid

-- `versions[-1] if versions else None`
pub current : Versions → String → Option StatementVersion
current s hid = last? (get_list s hid)

last?-append : {A : Type 0} (xs : List A) (x : A) → last? (xs ++ x ∷ []) ≡ some x
last?-append [] x = refl
last?-append (y ∷ []) x = refl
last?-append (y ∷ z ∷ zs) x = last?-append (z ∷ zs) x

-- A version that is appended is the current one of its lineage and comes after every earlier one, none of
-- which changes; the other lineages keep their history.
pub append_version-history :
    (s : Versions) (v : StatementVersion)
    → (history (append_version s v) v.hypothesis_id ≡ history s v.hypothesis_id ++ v ∷ [])
      × (current (append_version s v) v.hypothesis_id ≡ some v)
      × ((hid : String)
          → v.hypothesis_id ≢ hid
          → (history (append_version s v) hid ≡ history s hid)
            × (current (append_version s v) hid ≡ current s hid))
unfolding append_version history current
append_version-history s v =
    let longer = get_list-append_at_self s v.hypothesis_id v in
    (
      longer,
      ap last? longer ∙ last?-append (get_list s v.hypothesis_id) v,
      λ hid n. let same = get_list-append_at_ne s v.hypothesis_id hid v n in (same, ap last? same),
    )
