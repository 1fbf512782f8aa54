-- ===== src/Examples/Engine.antt =====
-- A concrete engine for the examples: floats as whole thousandths, sequential ids, and an appraiser that
-- proposes one commitment for every observation.
use Prim.Native.Nat.{◌*◌, ◌/◌}
use sanuvia_reasoning_engine.Prelude.{ℕ, ◌+◌, ◌-◌, arith, none, some, [], ◌∷◌}
use sanuvia_reasoning_engine.Prelude.Tests.{ltb}
use sanuvia_reasoning_engine.Domain.Errors.{Result, ok, err}
use sanuvia_reasoning_engine.Domain.Evidence.{EvidenceRecord}
use sanuvia_reasoning_engine.Domain.Hypothesis.{Hypothesis, behaviour_pattern, affirms}
use sanuvia_reasoning_engine.Reasoning.Ports.{AppraisalRequest, AppraisalResponse}
use sanuvia_reasoning_engine.Reasoning.Scoring.{Floats, ReasoningConfig}
use sanuvia_reasoning_engine.Reasoning.Scoring.Bounds.{FloatLaws}
use sanuvia_reasoning_engine.Reasoning.Revising.{Engine, Scene, Run}
use sanuvia_reasoning_engine.Stores.Bundle.{Bundle}
use sanuvia_reasoning_engine.Support.{Counters, sequential_id, should_commit}
use sanuvia_reasoning_engine.Examples.Data.{plain, by_ann, hypothesis}

abbrev pub thousandths : Floats ℕ
thousandths = record {
  zero_float = 0;
  one_float = 1000;
  lt = ltb;
  add = λ a b. a + b;
  sub = λ a b. a - b;
  mul = λ a b. a * b / 1000;
  half = λ a. a / 2;
}

pub thousandths-FloatLaws : FloatLaws thousandths
thousandths-FloatLaws = record {
  lt_irrefl = λ a. ground arith;
  lt_asymm = λ a b h. ground arith;
  le_trans = λ a b c h k. ground arith;
  one_positive = ground arith;
  add_grows = λ a b h. ground arith;
  sub_falls = λ a b h. ground arith;
  sub_headroom = λ a h. ground arith;
  mul_positive = λ a b h k. ground arith;
}

abbrev config : ReasoningConfig ℕ
config = record {
  support_learning_rate = 500;
  established_support_threshold = 600;
  contradiction_revise_reliability = 500;
  contradiction_reject_reliability = 200;
  prediction_support_threshold = 400;
  inquiry_uncertainty_threshold = 400;
}

-- It says that Cleo leaves.
abbrev appraise : AppraisalRequest → Result AppraisalResponse
appraise request = ok (record {
  proposals =
      record {
        local_ref = "c1";
        statement = "Cleo leaves.";
        signature = record {
          subject = "req-1::P2";
          attribution = "ann";
          claim_class = behaviour_pattern;
          stance = affirms;
          temporal_scope = none;
        };
        predicted_trajectory = none;
      }
      ∷ [];
  bearings = [];
  divergences = [];
  raw_response = some "raw";
})

abbrev pub engine : Engine ℕ Counters
engine = record {
  floats = thousandths;
  config = config;
  unicode = plain;
  new_id = sequential_id;
  appraise = appraise;
  resolver = none;
  should_commit = should_commit;
  reasoning_system_id = "system";
}

-- Ann's account, with a reliability of nine tenths
abbrev pub reliable : EvidenceRecord ℕ
reliable = record by_ann { reliability = 900 }

abbrev faint : EvidenceRecord ℕ
faint = record by_ann { id = "evidence-9"; reliability = 300 }

abbrev pub established : Hypothesis ℕ
established = record hypothesis { support = 700; supporting_evidence_ids = "evidence-0" ∷ [] }

abbrev pub empty_bundle : Bundle ℕ
empty_bundle = record {
  evidence = record { by_id = []; by_ref = [] };
  hypotheses = [];
  predictions = record { by_id = []; order = [] };
  inquiries = [];
  world_models = record { versions = []; pointers = [] };
  ledger = [];
  anomalies = [];
  recognition = [];
  provenance = [];
  dependencies = [];
  lineages = record { lineages = []; by_key = [] };
  statement_versions = [];
  identity_adjudications = [];
}

abbrev pub scene : Scene ℕ
scene = record {
  subject_id = "couple";
  from_version = none;
  new_version_id = "wm-1";
  now = 5;
  space_id = "space:shared:home";
  entering = established ∷ [];
  committed_views = [];
  admitted_pool = [];
  existing_divergence_pairs = [];
  stored_lineages = none;
  stored_versions = none;
}

-- A run over one established hypothesis
abbrev pub fresh_run : Run ℕ Counters
fresh_run = record {
  ids = [];
  working = ("hyp-1", established) ∷ [];
  traj_hints = [];
  intents = [];
  anomalies = [];
  edges = [];
  in_flight = [];
  lineages = [];
  statement_versions = [];
  adjudications = [];
  appraised = [];
  decisions = [];
  raw_responses = [];
}

-- What is returned, or something else
abbrev pub returned_or : {A : Type 0} → A → Result A → A
returned_or a (ok b) = b
returned_or a (err e) = a
