-- ===== src/Reasoning/Revising/Reread.antt =====
-- The active set of a new model against a later reading of the stores
-- (src/sanuvia/application/reasoning/model_revision.py). `F` is the type of the program's floats.
use sanuvia_reasoning_engine.Prelude.{
  ℕ, String, ◌≡◌, refl, sym, ap, ◌∙◌, subst, Bool, true, Option, none, some, List, [], ◌∷◌, ◌++◌,
  map, arith,
}
use sanuvia_reasoning_engine.Prelude.Tests.{string_eq}
use sanuvia_reasoning_engine.Prelude.Lists.{All, keep}
use sanuvia_reasoning_engine.Prelude.Dict.{Dict, values, or_empty}
use sanuvia_reasoning_engine.Domain.Errors.{ok}
use sanuvia_reasoning_engine.Domain.Evidence.{EvidenceRecord}
use sanuvia_reasoning_engine.Domain.Hypothesis.{Hypothesis}
use sanuvia_reasoning_engine.Domain.Prediction.{FutureTrajectory}
use sanuvia_reasoning_engine.Domain.Revision.{RevisionEvent}
use sanuvia_reasoning_engine.Domain.WorldModel.{WorldModel, make_snapshot}
use sanuvia_reasoning_engine.Stores.Bundle.{Bundle}
use sanuvia_reasoning_engine.Stores.Hypotheses.{list_for_subject, in_scope}
use sanuvia_reasoning_engine.Stores.Hypotheses.Table.{
  replay, table, table-append, table-IsTable, IsTable-by_key, list_for_subject-table,
}
use sanuvia_reasoning_engine.Reasoning.Handles.Request.{by_key_onto}
use sanuvia_reasoning_engine.Reasoning.Scoring.{make_unit}
use sanuvia_reasoning_engine.Reasoning.Revising.{Engine, Scene, Run, Intent}
use sanuvia_reasoning_engine.Reasoning.Revising.Ingest.{ingest_all}
use sanuvia_reasoning_engine.Reasoning.Revising.Plan.{
  PlannedRevision, plan, conclude, or_hold, committed_plan, held_plan, committed_intents,
  records_of, commit_events, working_uncertainty, new_pointer, scene_of, start_run,
}
use sanuvia_reasoning_engine.Reasoning.Revising.Forecast.{regenerate, maybe_open_inquiry}
use sanuvia_reasoning_engine.Reasoning.Revising.Replay.{
  Then, Then-ok, Then-map, bind-Then, bind-any, ok-Then, IsRun, IsIntent,
}
use sanuvia_reasoning_engine.Reasoning.Revising.Steps.{ingest_all-IsRun}

keep-all : {A : Type 0} (p : A → Bool) (xs : List A) → ((x : A) → p x ≡ true) → keep p xs ≡ xs
keep-all p [] t = refl
keep-all p (x ∷ xs) t = rw (t x) (ap (λ ys. x ∷ ys) (keep-all p xs t))

module _ {F S : Type 0} (d : Engine F S) where
  -- A committed plan has the records of every intent, and its model the working set's ids.
  abbrev Reports : Run F S → PlannedRevision F → Type 0
  Reports r p =
      p.is_committed_plan ≡ true
      → (p.records ≡ records_of r.intents)
        × ((m : WorldModel F)
            → p.model ≡ some m
            → m.active_hypothesis_ids
              ≡ map (λ (h : Hypothesis F). h.hypothesis_id) (values r.working))

  committed_plan-Reports :
      (c : Scene F) (batch : List (EvidenceRecord F)) (prior : Dict String FutureTrajectory)
      (events : List RevisionEvent) (r : Run F S)
      → Then (λ q. Reports r q.0) (committed_plan d c batch prior events (records_of r.intents) r)
  unfolding committed_plan
  committed_plan-Reports c batch prior events r =
      bind-any _ (regenerate d c prior (values r.working) r) _ (λ (predictions, r').
        bind-any _
          (maybe_open_inquiry d c (values r.working) (working_uncertainty d c r) events r'.ids) _
          (λ (inquiry, ids').
            bind-any _ (make_unit d.floats (working_uncertainty d c r)) _ (λ uncertainty.
              bind-any _ (make_snapshot (new_pointer d c)) _ (λ pointer. ok-Then _ _ (λ t. (
                refl,
                λ m e. sym (
                    ap
                      (λ (o : Option (WorldModel F)). elim o [
                        | none ↦ []
                        | some w ↦ w.active_hypothesis_ids
                      ])
                      e),
              ))))))

  or_hold-Reports :
      (c : Scene F) (batch : List (EvidenceRecord F)) (current_model : Option (WorldModel F))
      (prior : Dict String FutureTrajectory) (r : Run F S) (is : List (Intent F))
      → is ≡ r.intents
      → Then (λ q. Reports r q.0) (or_hold d c batch current_model prior r is)
  unfolding held_plan
  or_hold-Reports c batch current_model prior r [] e = ok-Then _ _ (λ t. cc)
  or_hold-Reports c batch current_model prior r (i ∷ is) e =
      bind-any _ (commit_events c.new_version_id (i ∷ is)) _ (λ events.
        subst
          (λ js.
            Then (λ q. Reports r q.0) (committed_plan d c batch prior events (records_of js) r))
          (sym e) (committed_plan-Reports c batch prior events r))

  conclude-Reports :
      (c : Scene F) (batch : List (EvidenceRecord F)) (current_model : Option (WorldModel F))
      (prior : Dict String FutureTrajectory) (r : Run F S)
      → ((e : RevisionEvent) → d.should_commit e ≡ true)
      → Then (λ q. Reports r q.0) (conclude d c batch current_model prior r)
  unfolding conclude committed_intents
  conclude-Reports c batch current_model prior r all =
      or_hold-Reports c batch current_model prior r (committed_intents d.should_commit r.intents)
        (keep-all (λ (i : Intent F). d.should_commit i.event) r.intents (λ i. all i.event))

  records_of-some :
      (i : Intent F) (h : Hypothesis F) (is : List (Intent F))
      → i.record_written ≡ some h
      → records_of (i ∷ is) ≡ h ∷ records_of is
  unfolding records_of
  records_of-some i h is p = ground arith

  -- A new run works on the dictionary that listing the subject builds.
  start-table :
      (b : Bundle F) (now : ℕ) (subject space : String) (ids : S)
      → (start_run d b now subject space ids).working ≡ table subject space b.hypotheses
  unfolding start_run
  start-table b now subject space ids =
      ap (λ o. by_key_onto (λ (h : Hypothesis F). h.hypothesis_id) [] (or_empty o))
        (list_for_subject-table subject space b.hypotheses)
      ∙ IsTable-by_key (table subject space b.hypotheses) (table-IsTable subject space b.hypotheses)

  start-IsRun :
      (b : Bundle F) (now : ℕ) (subject space : String) (ids : S) (c : Scene F)
      → IsRun d c
          (start_run d b now subject space ids).working
          (start_run d b now subject space ids)
  unfolding start_run records_of replay
  start-IsRun b now subject space ids c = (refl, tt, tt)

  records-in_scope :
      (c : Scene F) (is : List (Intent F))
      → All (IsIntent d c) is
      → All (λ h. in_scope c.subject_id c.space_id h ≡ true) (records_of is)
  unfolding records_of
  records-in_scope c [] t = tt
  records-in_scope c (i ∷ is) ((h, p, a, st, (s, sp, u)), t) =
      let scoped : in_scope c.subject_id c.space_id h ≡ true =
        rw ((string_eq.beq_iff h.subject_id c.subject_id).1 s)
          ((string_eq.beq_iff h.space_id c.space_id).1 sp) in
      subst (All (λ k. in_scope c.subject_id c.space_id k ≡ true)) (sym (records_of-some i h is p))
        (scoped, records-in_scope c is t)

  -- For a commit policy that accepts every event, and a plan that commits: reading the subject's hypotheses
  -- from the store with the plan's records added gives a list, and the plan's model has exactly its ids as the
  -- active ones, in its order, whatever the appraiser and the resolver answered.
  pub plan-Rereads :
      (b : Bundle F) (now : ℕ) (subject space : String) (batch : List (EvidenceRecord F))
      (current_model : Option (WorldModel F)) (ids : S) (q : PlannedRevision F × S)
      (m : WorldModel F)
      → ((e : RevisionEvent) → d.should_commit e ≡ true)
      → plan d b now subject space batch current_model ids ≡ ok q
      → q.0.is_committed_plan ≡ true
      → q.0.model ≡ some m
      → (hs : List (Hypothesis F)) × (list_for_subject subject space (b.hypotheses ++ q.0.records)
          ≡ some hs)
        × (m.active_hypothesis_ids ≡ map (λ (h : Hypothesis F). h.hypothesis_id) hs)
  unfolding plan scene_of
  plan-Rereads b now subject space batch current_model ids q m all planned committed model =
      let (version, ids') = d.new_id ids "wm" in
      let c = scene_of d b now subject space version batch current_model in
      let start = start_run d b now subject space ids' in
      let Found : PlannedRevision F × S → Type 0 =
        λ q. (r : Run F S) × IsRun d c start.working r × Reports r q.0 in
      let (r, (working, intents, lineages), reports) =
        Then-ok Found _ q
          (bind-Then (IsRun d c start.working) Found (ingest_all d c batch start) _
            (ingest_all-IsRun d c start.working batch start
              (start-IsRun b now subject space ids' c))
            (λ r k.
              Then-map _ Found _ (conclude-Reports c batch current_model _ r all)
                (λ q p. (r, k, p))))
          planned in
      let (records, active) = reports committed in
      let written = records_of r.intents in
      (
        values r.working,
        ap (λ rs. list_for_subject subject space (b.hypotheses ++ rs)) records
            ∙ list_for_subject-table subject space (b.hypotheses ++ written)
            ∙ ap (λ t. some (values t))
                (table-append subject space b.hypotheses written
                    (records-in_scope c r.intents intents)
                  ∙ ap (λ t. replay t written) (sym (start-table b now subject space ids'))
                  ∙ sym working),
        active m model,
      )
