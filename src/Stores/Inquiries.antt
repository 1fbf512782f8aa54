-- ===== src/Stores/Inquiries.antt =====
-- `InMemoryInquiryRepository` of src/sanuvia/adapters/persistence/in_memory.py: every status of every inquiry,
-- in the order in which they were added. `F` is the type of the program's floats.
use mathlib.Core.Option
use sanuvia_reasoning_engine.Prelude.{String, ◌&&◌, Option, none, some, List, [], ◌∷◌, ◌++◌}
use sanuvia_reasoning_engine.Prelude.Tests.{if◌then◌else◌, ◌==◌, string_eq}
use sanuvia_reasoning_engine.Prelude.Lists.{keep}
use sanuvia_reasoning_engine.Prelude.Dict.{Dict, get, has, put}
use sanuvia_reasoning_engine.Domain.Inquiry.{Inquiry}

module _ {F : Type 0} where
  abbrev pub add_inquiry : List (Inquiry F) → Inquiry F → List (Inquiry F)
  add_inquiry records i = records ++ i ∷ []

  abbrev latest_inquiry_from : String → Option (Inquiry F) → List (Inquiry F) → Option (Inquiry F)
  latest_inquiry_from id found [] = found
  latest_inquiry_from id found (i ∷ is) =
      latest_inquiry_from id (if i.id == id then some i else found) is

  abbrev latest_inquiry : List (Inquiry F) → String → Option (Inquiry F)
  latest_inquiry records id = latest_inquiry_from id none records

  abbrev inquiry_history : List (Inquiry F) → String → List (Inquiry F)
  inquiry_history records id = keep (λ (i : Inquiry F). i.id == id) records

  -- The loop of `list_for_subject`: the last record of each id, and the ids in their order
  abbrev scan_inquiries :
      String
      → String
      → Dict String (Inquiry F)
      → List String
      → List (Inquiry F)
      → Dict String (Inquiry F) × List String
  scan_inquiries subject space found order [] = (found, order)
  scan_inquiries subject space found order (i ∷ is) =
      let skipped = scan_inquiries subject space found order is in
      let noted =
        scan_inquiries subject space (put found i.id i)
          (if has found i.id then order else order ++ i.id ∷ []) is in
      if i.subject_id == subject && i.space_id == space then noted else skipped

  -- `[latest[iid] for iid in order]`: an id that is missing raises, which is `none`.
  abbrev pick_inquiries : Dict String (Inquiry F) → List String → Option (List (Inquiry F))
  pick_inquiries found [] = some []
  pick_inquiries found (id ∷ ids) =
      let rest = pick_inquiries found ids in
      elim (get found id) [ none ↦ none | some i ↦ Option.map (λ is. i ∷ is) rest ]

  abbrev inquiries_for : List (Inquiry F) → String → String → Option (List (Inquiry F))
  inquiries_for records subject space =
      let (found, order) = scan_inquiries subject space [] [] records in pick_inquiries found order
