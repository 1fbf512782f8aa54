-- ===== src/Domain/Scope.antt =====
-- src/sanuvia/domain/scope.py: space ids and the kind that an id declares.
use text.Mathlib.Text.{starts_with}
use Prim.Native.String.{◌++◌}
use sanuvia_reasoning_engine.Prelude.{String, Option, none, some}
use sanuvia_reasoning_engine.Prelude.Tests.{if◌then◌else◌, ◌==◌, string_eq}
use sanuvia_reasoning_engine.Domain.Errors.{Result, ok, err, invariant_violation}

abbrev default_space_id : String
default_space_id = "space:default"

pub data SpaceKind : Type 0 where
  personal shared : SpaceKind

abbrev personal_space_id : String → Result String
personal_space_id owner =
    if owner == "" then err invariant_violation else ok ("space:personal:" ++ owner)

abbrev shared_space_id : String → Result String
shared_space_id name = if name == "" then err invariant_violation else ok ("space:shared:" ++ name)

abbrev pub space_kind_of : String → Option SpaceKind
space_kind_of space_id =
    if starts_with space_id "space:shared:"
    then some shared
    else if starts_with space_id "space:personal:"
    then some personal
    else none
