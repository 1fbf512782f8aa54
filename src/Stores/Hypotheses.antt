-- ===== src/Stores/Hypotheses.antt =====
-- `InMemoryHypothesisRepository` of src/sanuvia/adapters/persistence/in_memory.py: every evaluation of
-- every lineage, in the order in which they were added. `F` is the type of the program's floats.
pub mod Listing
pub mod Order
pub mod Table
use mathlib.Core.Option
use sanuvia_reasoning_engine.Prelude.{
  String, ◌≡◌, ◌≢◌, refl, sym, ap, ◌∙◌, subst, ◌↔◌, ◌⊎◌, inl, inr, Bool, true, false, not, Option,
  none, some, List, [], ◌∷◌, ◌++◌, arith, ◌&&◌, ◌||◌,
}
use sanuvia_reasoning_engine.Prelude.Tests.{
  ◌==◌, string_eq, Bool-cases, Option-cases, if◌then◌else◌,
}
use sanuvia_reasoning_engine.Prelude.Lists.{In, keep, find, last?, contains, Distinct}
use sanuvia_reasoning_engine.Prelude.Dict.{
  Dict, get, put, has, get-put_cases, get-put_self, get-put_ne,
}
use sanuvia_reasoning_engine.Domain.Hypothesis.{Hypothesis}

module _ {F : Type 0} where
  abbrev pub add : List (Hypothesis F) → Hypothesis F → List (Hypothesis F)
  add records h = records ++ h ∷ []

  abbrev get_record : List (Hypothesis F) → String → String → Option (Hypothesis F)
  get_record records record_id space =
      find (λ (h : Hypothesis F). h.record_id == record_id && h.space_id == space) records

-- The state of the loop of `list_for_subject`: `latest`, a dictionary, and `order`.
abbrev pub Listing : Type 0 → Type 0
Listing F = Dict String (Hypothesis F) × List String

-- `[latest[hid] for hid in order]`: an id that is missing raises, which is `none`.
unfoldable pub pick :
    {F : Type 0} → Dict String (Hypothesis F) → List String → Option (List (Hypothesis F))
pick found [] = some []
pick found (hid ∷ hids) =
    let rest = pick found hids in
    elim (get found hid) [ none ↦ none | some h ↦ Option.map (λ hs. h ∷ hs) rest ]

unfoldable pub note : {F : Type 0} → Listing F → Hypothesis F → Listing F
note (found, order) h = (
  put found h.hypothesis_id h,
  if has found h.hypothesis_id then order else order ++ h.hypothesis_id ∷ [],
)

module _ {F : Type 0} (subject space : String) where
  abbrev pub in_scope : Hypothesis F → Bool
  in_scope h = h.subject_id == subject && h.space_id == space

  -- `latest = None; for h in self._records: if …: latest = h`
  pub latest_from : String → Option (Hypothesis F) → List (Hypothesis F) → Option (Hypothesis F)
  latest_from hid found [] = found
  latest_from hid found (h ∷ hs) =
      latest_from hid (if h.hypothesis_id == hid && in_scope h then some h else found) hs

  pub latest : List (Hypothesis F) → String → Option (Hypothesis F)
  latest records hid = latest_from hid none records

  abbrev lineage : List (Hypothesis F) → String → List (Hypothesis F)
  lineage records hid = keep (λ (h : Hypothesis F). h.hypothesis_id == hid && in_scope h) records

  unfoldable pub scan : Listing F → List (Hypothesis F) → Listing F
  scan l [] = l
  scan l (h ∷ hs) = scan (if in_scope h then note l h else l) hs

  unfoldable pub list_for_subject : List (Hypothesis F) → Option (List (Hypothesis F))
  list_for_subject records = let l = scan ([], []) records in pick l.0 l.1
