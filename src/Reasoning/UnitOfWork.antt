-- ===== src/Reasoning/UnitOfWork.antt =====
-- src/sanuvia/application/reasoning/unit_of_work.py. `X` is the type of the states of the stores, which stand under
-- their names, `T` that of their tokens, and `S` the state of the id generator, whose token is the state itself.
pub mod Rollback
use sanuvia_reasoning_engine.Prelude.{String, Bool, true, false, Option, none, some, [], ◌∷◌}
use sanuvia_reasoning_engine.Prelude.Tests.{if◌then◌else◌, string_eq}
use sanuvia_reasoning_engine.Prelude.Dict.{Dict, get, put}
use sanuvia_reasoning_engine.Domain.Errors.{
  Result, ok, err, ◌>>=◌, breach_rejection, commit_atomicity,
}

-- `snapshot` and `restore` of a store: `none` for a store that has no `snapshot`.
pub record Snapshots (X T : Type 0) : Type 0 where
  pub snapshot : X → Option T
  pub reinstate : X → T → X

-- What `begin` captured, and whether the unit is open. A unit without a generator has `none`.
pub record UnitOfWork (T S : Type 0) : Type 0 where
  pub tokens : Dict String T
  pub ids_token : Option S
  pub is_open : Bool

abbrev pub new_unit : {T S : Type 0} → UnitOfWork T S
new_unit = record { tokens = []; ids_token = none; is_open = false }

unfoldable pub or_kept : {A : Type 0} → Option A → A → A
or_kept none a = a
or_kept (some b) a = b

module _ {X T : Type 0} (k : Snapshots X T) where
  -- The loop of `begin`
  unfoldable pub take_tokens : Dict String T → Dict String X → Result (Dict String T)
  take_tokens tokens [] = ok tokens
  take_tokens tokens ((name, x) ∷ rest) = elim (k.snapshot x) [
    | none ↦ err (breach_rejection commit_atomicity [])
    | some t ↦ take_tokens (put tokens name t) rest
  ]

  unfoldable pub reinstate_at : Dict String X → String → T → Dict String X
  reinstate_at stores name t = elim (get stores name) [
    | none ↦ stores
    | some x ↦ put stores name (k.reinstate x t)
  ]

  -- The loop of `restore`
  unfoldable pub reinstate_all : Dict String T → Dict String X → Dict String X
  unfolding reinstate_at
  reinstate_all [] stores = stores
  reinstate_all ((name, t) ∷ rest) stores = reinstate_all rest (reinstate_at stores name t)

module _ {X T S : Type 0} (k : Snapshots X T) where
  unfoldable pub begin : UnitOfWork T S → Dict String X → Option S → Result (UnitOfWork T S)
  unfolding take_tokens
  begin u stores ids =
      if u.is_open
      then err (breach_rejection commit_atomicity [])
      else take_tokens k [] stores >>= λ tokens.
          ok (record { tokens = tokens; ids_token = ids; is_open = true })

  -- The unit, the stores and the ids after the restore
  unfoldable pub restore : UnitOfWork T S → Dict String X → S → UnitOfWork T S × (Dict String X × S)
  unfolding reinstate_all or_kept
  restore u stores ids =
      if u.is_open
      then (
        record u { is_open = false },
        (reinstate_all k u.tokens stores, or_kept u.ids_token ids),
      )
      else (u, (stores, ids))

pub commit : {T S : Type 0} → UnitOfWork T S → UnitOfWork T S
commit u = record u { is_open = false }
