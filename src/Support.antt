-- ===== src/Support.antt =====
-- Adapters of the ports that a run uses: the id generator of src/sanuvia/adapters/support/deterministic.py and the
-- commit policy of src/sanuvia/adapters/reasoning/commit_policy.py.
use Prim.Native.String.{◌++◌ as append_text}
use sanuvia_reasoning_engine.Prelude.{ℕ, suc, String, Bool, true, Option, none, some}
use sanuvia_reasoning_engine.Prelude.Tests.{string_eq}
use sanuvia_reasoning_engine.Prelude.Dict.{Dict, get, put}
use sanuvia_reasoning_engine.Prelude.Numerals.{decimal}
use sanuvia_reasoning_engine.Domain.Revision.{RevisionEvent}

-- The counters of `SequentialIdGenerator`
abbrev pub Counters : Type 0
Counters = Dict String ℕ

abbrev next_count : Option ℕ → ℕ
next_count none = 1
next_count (some n) = suc n

-- `SequentialIdGenerator.new_id`
abbrev pub sequential_id : Counters → String → String × Counters
sequential_id counters kind =
    let n = next_count (get counters kind) in
    (append_text kind (append_text "-" (decimal n)), put counters kind n)

-- `should_commit` of the only policy: every proposal commits.
abbrev pub should_commit : RevisionEvent → Bool
should_commit e = true
