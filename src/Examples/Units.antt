-- ===== src/Examples/Units.antt =====
-- Examples of a unit of work over the in-memory bundle.
use sanuvia_reasoning_engine.Prelude.{ℕ, ◌≡◌, refl, sym, ◌⊎◌, some, [], ◌∷◌, arith}
use sanuvia_reasoning_engine.Prelude.Tests.{string_eq}
use sanuvia_reasoning_engine.Domain.Errors.{Error, ok, err, IsGoverned}
use sanuvia_reasoning_engine.Reasoning.UnitOfWork.{UnitOfWork, new_unit, begin}
use sanuvia_reasoning_engine.Reasoning.UnitOfWork.Rollback.{
  HasUniqueNames, IsRenewed, IsSnapshotable, IsBoundary, Reinstates, begin-restore,
}
use sanuvia_reasoning_engine.Stores.Bundle.{Bundle}
use sanuvia_reasoning_engine.Stores.Snapshots.{StoreState, bundle_stores, store_snapshots}
use sanuvia_reasoning_engine.Support.{Counters}
use sanuvia_reasoning_engine.Examples.Engine.{empty_bundle, established}

some-injective : {A : Type 0} {a b : A} → some a ≡ some b → a ≡ b
some-injective h = ground arith

store_snapshots-Reinstates : Reinstates (store_snapshots {F = ℕ})
store_snapshots-Reinstates x y t e = sym (some-injective e)

-- Half of a plan is written.
abbrev half_written : Bundle ℕ
half_written = record empty_bundle { hypotheses = established ∷ [] }

empty-HasUniqueNames : HasUniqueNames (bundle_stores empty_bundle)
unfolding bundle_stores
empty-HasUniqueNames = (
  refl,
  (
    refl,
    (refl, (refl, (refl, (refl, (refl, (refl, (refl, (refl, (refl, (refl, (refl, tt))))))))))),
  ),
)

half_written-IsRenewed :
    IsRenewed store_snapshots (bundle_stores empty_bundle) (bundle_stores half_written)
unfolding bundle_stores
half_written-IsRenewed = (
  refl,
  (
    refl,
    (refl, (refl, (refl, (refl, (refl, (refl, (refl, (refl, (refl, (refl, (refl, tt))))))))))),
  ),
)

begin-restore_example :
    (IsSnapshotable store_snapshots (bundle_stores empty_bundle)
      × ((v : UnitOfWork (StoreState ℕ) Counters) × (begin store_snapshots new_unit
              (bundle_stores empty_bundle)
              (some [])
            ≡ ok v)
          × IsBoundary store_snapshots v
              (bundle_stores empty_bundle)
              []
              (bundle_stores half_written)
              (("hyp", 1) ∷ [])))
    ⊎ ((¬ IsSnapshotable store_snapshots (bundle_stores empty_bundle))
        × ((e : Error) × (begin {S = Counters} store_snapshots new_unit
                (bundle_stores empty_bundle)
                (some [])
              ≡ err e)
            × IsGoverned e))
begin-restore_example =
    begin-restore store_snapshots new_unit (bundle_stores empty_bundle) (bundle_stores half_written)
      [] (("hyp", 1) ∷ []) refl store_snapshots-Reinstates empty-HasUniqueNames
      half_written-IsRenewed
