-- ===== src/Tests/Runs.antt =====
-- Runs of the workflow with an engine that only counts its calls: a resumed review, and two runs
-- that close one older obligation.
use sentinel_act.Prelude.{
  String, ℕ, Option, suc, true, false, none, some, List, [], ◌∷◌, ◌≡◌, ◌≢◌, refl, sym, ap, ◌∙◌, ok,
  outside, is_blank, slice_to, template,
}
use sentinel_act.Prelude.Map
use sentinel_act.Schema.{tier_c, ObligationStatus}
use sentinel_act.Plan.{CommitPlan}
use sentinel_act.Graph.Store.{has_obligation, create_human_review, has_node}
use sentinel_act.Graph.Writer.{
  commit_proposal, execute_plan, write_plan, plan_result, each, create_edge, match_and_create_edge,
  apply_status_transition, finalize_supersession,
}
use sentinel_act.Graph.Validate.{
  validate_commit_plan, is_valid_plan, is_valid_nodes, is_valid_human_review, is_valid_edge,
  is_iso_date, is_iso_date_nullable, is_non_empty, is_valid_transition, is_valid_finalize,
}
use sentinel_act.Ledger.{query, append, next_entry, get_member}
use sentinel_act.Monitoring.{
  existing_reviews, sort_reviews, validate_event, decided_at, required_reviews, review_plan,
  assert_narrow_commit_plan, append_ledger_entry, compute_review_outcome,
}
use sentinel_act.Monitoring.Review.{
  RecordHumanReviewResult, record_human_review, review_obligation, commit_review, log_review,
  prior_match, new_review, entry_result,
}
use sentinel_act.Orchestrator.Plans.{
  FinalOutcome, build_finalize_commit_plan, explicit_overwrite, derive_proposal_id, to_iso_date,
}
use sentinel_act.Orchestrator.State.{ObligationPipelineState}
use sentinel_act.Orchestrator.RunIndex.{
  StepId, Slots, new_index, claim, assign, current_slots, get_claim_slots, find, record_run,
}
use sentinel_act.Orchestrator.RunIndex.Claims.{Op, run, apply}
use sentinel_act.Orchestrator.Workflow.{World, Engine}
use sentinel_act.Orchestrator.Workflow.Resume.{
  HumanReviewSubmissionEvent, check_envelope, check_maker, check_slot, record_and_resume,
  resume_recorded, resume_orchestrator_run,
}
use sentinel_act.Orchestrator.Workflow.Order.{
  was_resumed, recording, asks_engine, resume_orchestrator_run-recorded,
  resume_orchestrator_run-unrecorded, resume_orchestrator_run-two_reviewers,
}
use sentinel_act.Orchestrator.Workflow.Finalize.{
  Moment, finalize_commit, conclude, commit_with_conflict_reconciliation, emit_final_audit,
  fire_ticketing_trigger,
}
use sentinel_act.Orchestrator.Workflow.Ends.{reconciled, undone, finalize_commit-undone}
use sentinel_act.Orchestrator.Workflow.Races.{finalize_commit-loses, finalize_commit-once}
use sentinel_act.Orchestrator.Workflow.HandOver.{triggered, finalize_commit-hands_over}
use sentinel_act.Ticketing.Outbox.{has_in_flight_entry_for_task, insert_if_not_exists}
use sentinel_act.Ticketing.Intake.{handle_obligation_committed_event}
use sentinel_act.Ticketing.Intake
use sentinel_act.Router.{Tier}
use sentinel_act.Tests.{hundredths, platform, start}
use sentinel_act.Tests.Recordings.{event, calm, stormy, reads, storm_fails}
use sentinel_act.Tests.Outcomes.{state, plan, plan_is_built, under_review}

abbrev engine : Engine ℕ ℕ
engine = record {
  start = λ id w. (ok "run-1", record w { engine = suc w.engine });
  resume = λ p w. (ok (some ObligationStatus.committed), record w { engine = suc w.engine });
  current_suspended_step = λ id w. ok (some StepId.await_second_human_review);
  get_maker_reviewer_id = λ id w. ok (some "asha");
  get_obligation_status = λ id w. ok none;
}

abbrev history : List Op
history =
    Op.claimed "obligation-0" "asha"
    ∷ Op.claimed "obligation-0" "bo"
    ∷ Op.recorded "obligation-0" (record {
      run_id = "run-1";
      step_id = StepId.await_second_human_review;
      tier = Tier.review tier_c;
      suspended_at = "2026-02-02T00:00:00Z";
    })
    ∷ []

abbrev world : World ℕ ℕ
world = record {
  graph = start;
  ledger = [];
  index = run new_index history;
  audits = [];
  outbox = record { rows = []; mappings = [] };
  run_of_event = [];
  engine = 0;
}

abbrev submission : HumanReviewSubmissionEvent
submission = record {
  run_id = "run-1";
  step_id = StepId.await_second_human_review;
  obligation_id = "obligation-0";
  review = record event { tier = tier_c; reviewer_id = "bo"; rationale = some "it is in order" };
}

is_resumed :
    was_resumed
      (resume_orchestrator_run hundredths platform engine reads submission calm "2026-02-02"
        world).0
    ≡ true
unfolding resume_orchestrator_run check_envelope check_maker check_slot record_and_resume
    resume_recorded find run apply new_index claim assign current_slots get_claim_slots record_run
    Map.get Map.set record_human_review validate_event is_blank prior_match query review_obligation
    existing_reviews has_obligation sort_reviews decided_at required_reviews commit_review
    assert_narrow_commit_plan review_plan new_review log_review append_ledger_entry append
    compute_review_outcome entry_result next_entry get_member slice_to commit_proposal
    validate_commit_plan is_valid_plan is_valid_nodes is_valid_human_review is_valid_edge
    is_iso_date is_iso_date_nullable is_non_empty execute_plan write_plan each create_human_review
    create_edge match_and_create_edge has_node plan_result template
is_resumed = refl

resume_orchestrator_run-recorded_example :
    (result : RecordHumanReviewResult) × ((recording hundredths platform engine reads submission
        calm world).0
      ≡ ok result)
    × ((status : Option ObligationStatus) × ((asks_engine hundredths platform engine submission
            result.review_outcome "2026-02-02"
            (recording hundredths platform engine reads submission calm world).1
            world).0
          ≡ ok status)
        × (resume_orchestrator_run hundredths platform engine reads submission calm "2026-02-02"
              world
            ≡ (
              ok (true, status),
              (asks_engine hundredths platform engine submission result.review_outcome "2026-02-02"
                  (recording hundredths platform engine reads submission calm world).1
                  world).1,
            )))
resume_orchestrator_run-recorded_example =
    resume_orchestrator_run-recorded hundredths platform engine reads submission calm "2026-02-02"
      world is_resumed

resume_orchestrator_run-two_reviewers_example :
    (s : Slots) × (get_claim_slots world.index "obligation-0" ≡ some s)
    × (s.checker ≡ some "bo")
    × ((m : String) × (s.maker ≡ some m) × (m ≢ "bo"))
resume_orchestrator_run-two_reviewers_example =
    resume_orchestrator_run-two_reviewers hundredths platform engine reads submission calm
      "2026-02-02" world history refl refl refl is_resumed

-- A resumption with the ledger down for the query.
abbrev first : HumanReviewSubmissionEvent
first = record submission { review = event }

resume_orchestrator_run-unrecorded_example :
    (was_resumed
        (resume_orchestrator_run hundredths platform engine reads first stormy "2026-02-02" world).0
      ≡ false)
    × ((resume_orchestrator_run hundredths platform engine reads first stormy "2026-02-02"
          world).1.engine
        ≡ 0)
    × ((resume_orchestrator_run hundredths platform engine reads first stormy "2026-02-02"
          world).1.index
        ≡ world.index)
    × ((resume_orchestrator_run hundredths platform engine reads first stormy "2026-02-02"
          world).1.audits
        ≡ [])
    × ((resume_orchestrator_run hundredths platform engine reads first stormy "2026-02-02"
          world).1.ledger
        ≡ [])
resume_orchestrator_run-unrecorded_example =
    resume_orchestrator_run-unrecorded hundredths platform engine reads first stormy "2026-02-02"
      world (outside 1) storm_fails

-- Two runs on one graph: both close obligation-0 for their new obligation.
abbrev at : Moment
at = record {
  effective_date = "2026-02-01T10:00:00Z";
  occurred_at = "2026-02-03";
  now = "2026-02-03";
  committed_at = "2026-02-03";
  ticketing = true;
  event_id = "event-9";
  row_id = "row-9";
  ticketing_now = 100;
  ticketing_outage = none;
}

abbrev before : World ℕ ℕ
before = record world { graph = under_review }

abbrev after : World ℕ ℕ
after = (finalize_commit hundredths state FinalOutcome.approve at before).1

abbrev rival : ObligationPipelineState ℕ
rival = record state { run_id = "run-2" }

abbrev rival_plan : CommitPlan ℕ
rival_plan = record plan { proposal_id = "run-2:finalizeCommit:obligation-1" }

rival_plan_is_built :
    build_finalize_commit_plan rival FinalOutcome.approve "2026-02-01T10:00:00Z" ≡ some rival_plan
unfolding build_finalize_commit_plan explicit_overwrite derive_proposal_id to_iso_date template
    slice_to
rival_plan_is_built = refl

has_won : (finalize_commit hundredths state FinalOutcome.approve at before).0 ≡ ok true
unfolding finalize_commit commit_with_conflict_reconciliation conclude build_finalize_commit_plan
    explicit_overwrite derive_proposal_id to_iso_date template slice_to commit_proposal
    validate_commit_plan is_valid_plan is_valid_nodes is_valid_transition is_valid_finalize
    is_iso_date is_non_empty execute_plan write_plan plan_result each apply_status_transition
    finalize_supersession has_obligation Map.get
has_won = refl

is_valid_rival : is_valid_plan hundredths rival_plan ≡ true
unfolding is_valid_plan is_valid_nodes is_valid_transition is_valid_finalize is_iso_date
    is_non_empty
is_valid_rival = refl

rival_is_new : Map.get after.graph.commit_log rival_plan.proposal_id ≡ none
unfolding finalize_commit commit_with_conflict_reconciliation conclude emit_final_audit
    fire_ticketing_trigger build_finalize_commit_plan explicit_overwrite derive_proposal_id
    to_iso_date template slice_to commit_proposal validate_commit_plan is_valid_plan is_valid_nodes
    is_valid_transition is_valid_finalize is_iso_date is_non_empty execute_plan write_plan
    plan_result each apply_status_transition finalize_supersession has_obligation Map.get Map.set
rival_is_new = refl

overwrites : explicit_overwrite state.mapping.overwrite_check ≡ some "obligation-0"
unfolding explicit_overwrite
overwrites = refl

finalize_commit-once_example :
    ((finalize_commit hundredths rival FinalOutcome.approve at after).0 ≡ ok false)
    × ((finalize_commit hundredths rival FinalOutcome.approve at after).1.graph ≡ after.graph)
unfolding Map.get
finalize_commit-once_example =
    finalize_commit-once hundredths state rival FinalOutcome.approve FinalOutcome.approve at at
      before after "obligation-0" plan rival_plan overwrites overwrites refl refl plan_is_built
      rival_plan_is_built refl has_won refl is_valid_rival rival_is_new

-- The same with the older obligation closed from the start.
abbrev too_late : World ℕ ℕ
too_late = record world { graph = record under_review { obligations = [] } }

finalize_commit-loses_example :
    finalize_commit hundredths rival FinalOutcome.approve at too_late
    ≡ (ok false, reconciled hundredths rival at too_late)
unfolding Map.get
finalize_commit-loses_example =
    finalize_commit-loses hundredths rival FinalOutcome.approve at too_late "obligation-0"
      rival_plan overwrites refl rival_plan_is_built is_valid_rival refl refl

is_too_late : (finalize_commit hundredths rival FinalOutcome.approve at too_late).0 ≢ ok true
unfolding Map.get
is_too_late won =
    let lost =
      finalize_commit-loses hundredths rival FinalOutcome.approve at too_late "obligation-0"
        rival_plan overwrites refl rival_plan_is_built is_valid_rival refl refl in
    let bad : ok true ≡ ok false = sym won ∙ ap (λ d. d.0) lost in cc

finalize_commit-undone_example :
    (finalize_commit hundredths rival FinalOutcome.approve at too_late).1
    ≡ undone hundredths rival at too_late
        (finalize_commit hundredths rival FinalOutcome.approve at too_late).0
finalize_commit-undone_example =
    finalize_commit-undone hundredths rival FinalOutcome.approve at too_late is_too_late

is_taken : (triggered state FinalOutcome.approve at before.outbox).0 ≡ ok true
unfolding handle_obligation_committed_event Intake.validate_event is_blank insert_if_not_exists
is_taken = refl

finalize_commit-hands_over_example :
    has_in_flight_entry_for_task "task-1"
      (finalize_commit hundredths state FinalOutcome.approve at before).1.outbox
    ≡ true
finalize_commit-hands_over_example =
    finalize_commit-hands_over hundredths state FinalOutcome.approve at before has_won refl refl
      is_taken
