-- ===== src/Lib.antt =====
-- Sanuvia's reasoning engine: how one interaction becomes a revision of the model, and what is stored.
--
-- One interaction of the engine runs through an appraisal of each observation, an adjudication of every
-- hypothesis that the appraisal proposes, the revision of the working hypotheses, the construction of a
-- complete plan, its validation, and the writing of the plan to the stores. This library models these
-- parts. Paths are from the repository's root.
--
-- Prelude: Boolean tests, lists, sets as lists without repetitions, Python's insertion-ordered `dict` and
--   the order of texts, decimal numerals. Every dictionary of the code is a `Dict`, a set is a list.
-- Domain (src/sanuvia/domain): the records of errors.py, scope.py, evidence.py, hypothesis.py,
--   dependency.py, identity.py, prediction.py, revision.py, inquiry.py, world_model.py,
--   recognition.py and cognitive.py, one module for each. A constructor's
--   `__post_init__` is a function `make_…` into `Result`; a function that may raise returns a `Result`,
--   whose error is a `GovernedRejection` with its payload, or an `InvariantViolation`.
-- Reasoning.Ports (src/sanuvia/application/ports/reasoning.py): the data of an appraisal.
-- Reasoning.Handles (src/sanuvia/application/reasoning/handles.py): `HandleTable` and its resolution;
--   Request builds the table and the views of one request, Origin is about the request of a handle.
-- Reasoning.Candidates (the same file): `build_divergence_candidates`. Offered says which records it
--   offers, Order is about its sort.
-- Reasoning.Statement (src/sanuvia/application/reasoning/plan_validation.py): `normalise_statement`, over
--   code points.
-- Reasoning.Validation (the same file): `validate_plan`. `_check_1` to `_check_3a` stand in Responses, 4, 5
--   and 10 in Lineages, 9 in Standing, 7, 8, 8a, 8b and 11 in Edges, each under the name it has there. The
--   loops of the checks are `each` and `no_repeat` of Loops. The other modules prove what each check
--   asks, and Acceptance puts them together.
-- Reasoning.Identity (src/sanuvia/application/reasoning/identity.py): `DeterministicAdjudicator`. `adjudicate`
--   is the method of that name: `match_or_park` its case 2, `decide_inexact` its cases 3 and 4,
--   `govern_resolver_decision` and `protect_merge` the authority over a resolver's answer.
-- Reasoning.Scoring (src/sanuvia/application/reasoning/scoring.py, config.py and src/sanuvia/domain/uncertainty.py): the
--   scores and the constants. Bounds has the laws of the floats and the ranges of the scores.
-- Reasoning.Revising (src/sanuvia/application/reasoning/model_revision.py): `_RevisionRun`. `Scene` is what a run
--   reads, `Run` its state, `Engine` the injected ports; a method is a function from a run to a `Result` of
--   the run that it leaves. Decisions is `_apply_decision`, one function for each outcome; Ingest is `ingest`
--   (`interpret` is its `try` block, `take_response` what follows the appraisal); Plan is
--   `ModelRevisionEngine` (`conclude` is `plan` after the ingestion, `held_plan` and `committed_plan` its two
--   ends); Commit is `commit_plan`, a sequence of writes on the bundle of the stores that keeps what was
--   written when one raises. Replay and Steps carry an invariant through every method, Reread compares a
--   new model with the stores, Writes and Orphans are about the commit, Hold about a plan that commits
--   nothing, Bearings, Contradictions and Predictions about single methods.
-- Reasoning.UnitOfWork (src/sanuvia/application/reasoning/unit_of_work.py): the snapshots of one interaction, with the
--   loops of `begin` and `restore` over the named stores. Rollback says what a restore brings back. The stores
--   of the in-memory bundle under their names stand in Stores.Snapshots, where a token is a store's state.
-- Reasoning.CoreLoop (src/sanuvia/application/reasoning/core_loop.py): `CoreLoop.ingest` is `ingest_batch`. `prepare` is
--   what comes before the first write, `validate` is `_validate`, `observe` the result after the writes. Gate says
--   what the stores are after an interaction that returns.
-- Reasoning.Service (src/sanuvia/application/api/service.py): `record_interaction`, the transaction around one
--   interaction: `take_inputs` is its `try` block and `settle` what follows. Atomic is about its rollback.
-- Stores (src/sanuvia/adapters/persistence/in_memory.py): Evidence, Hypotheses, Ledger, Lineages, Versions,
--   Predictions, Inquiries and WorldModels, one module for each store, and Bundle, which has the stores that
--   are one dictionary or one list and puts all together. The first five are `InMemoryEvidenceStore`, `InMemoryHypothesisRepository`, `InMemoryRevisionLedgerStore`,
--   `InMemoryHypothesisLineageStore` and `InMemoryStatementVersionStore`. A store is a value, an operation
--   takes it and returns the new one.
-- Support (src/sanuvia/adapters/support/deterministic.py and src/sanuvia/adapters/reasoning/commit_policy.py): the
--   sequential ids and the commit policy.
-- Examples: concrete inputs, and what the code returns for them.
--
-- The validator reads what the adjudicator decides (`AppraisedObservation.decisions`) and the index that
-- the evidence store keeps (`Stored.source_ref_index`); its check 8a compares accounts by the rules that
-- the candidates were offered by.
--
-- The service begins a unit of work, makes records of its inputs, and has the core loop plan, validate and commit
-- them; a step that raises restores the unit.
--
-- A run uses the adjudicator on the views of its lineages and the candidates of Reasoning.Candidates, and
-- hands the appraised observations to the plan, which the validator reads; `commit_plan` uses the
-- operations of the stores.
--
-- Parameters. `F` is the type of the program's floats, with the operations that the scores use (`Floats`); a
-- theorem about ranges takes the laws of their order and rounding (`FloatLaws`). `S` is the state of the
-- injected id generator. An appraiser is any function from a request to a response, or an exception; a
-- commit policy is any test of events; a `Resolver` is any function from a candidate and the bounded
-- candidates to an answer, or an exception. `Unicode` says which characters are white space and how one
-- folds its case, tables of Python's library.
--
-- The clock is read when an input has no time of its own, and once for a plan: `read_at` and `now` are any times.
--
-- Bounds. Every loop is over a list, so that no fuel is needed. Integers do not overflow in Python; times
-- and sequence numbers are natural numbers. The one bound of the code is
-- `MAX_DIVERGENCE_CANDIDATES = 8`.
--
-- Not modelled: the text of messages and of a decision's `rationale`; the state of the id generator after
-- an exception, which a restore overwrites; bundles without the optional stores, except that a run may
-- lack lineages; the stores of inferences and modelling contexts; the aliasing of inner lists that
-- snapshots avoid; the service on bundles without snapshots, and its views; the adapters to HTTP and
-- SQLite, which are input and output; sanuvia-phase1, which is an experiment's runner.
pub mod Prelude
pub mod Domain
pub mod Reasoning
pub mod Stores
pub mod Support
pub mod Examples
