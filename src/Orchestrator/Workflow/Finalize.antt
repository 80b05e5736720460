-- ===== src/Orchestrator/Workflow/Finalize.antt =====
-- The end of an obligation's review, and its beginning: the commits, the audit, the trigger of the
-- ticketing (`finalizeCommit`, `routeAndPreCommitStep` and the suspending steps of
-- orchestrator.workflow.ts).
use sentinel_act.Prelude.{
  String, ℕ, Bool, true, false, Option, none, some, [], if◌then◌else◌, Result, ok, err, Error,
}
use sentinel_act.Prelude.Effects.{Run}
use sentinel_act.Float.{Float}
use sentinel_act.Schema.{tier_c}
use sentinel_act.Router.{Tier, TierRouteInput, compute_tier_decision, normalize_has_contradiction}
use sentinel_act.Plan.{CommitPlan}
use sentinel_act.Graph.Writer.{commit_proposal}
use sentinel_act.Ticketing.{ObligationCommittedEvent, FinalStatus}
use sentinel_act.Ticketing.Intake.{handle_obligation_committed_event}
use sentinel_act.Orchestrator.State.{ObligationPipelineState}
use sentinel_act.Orchestrator.Plans.{
  FinalOutcome, build_finalize_commit_plan, build_pre_review_commit_plan, is_explicit,
}
use sentinel_act.Orchestrator.RunIndex.{StepId, record_run, clear}
use sentinel_act.Orchestrator.Workflow.{
  World, AuditEvent, AuditEventKind, AuditPayload, audit, is_wrapped_conflict,
}

-- What a step meets: its reads of the clock (`referenceNow`), the database's clock, and, for the
-- ticketing, whether it is configured, two fresh identifiers, its database's clock and an outage.
pub record Moment : Type 0 where
  pub effective_date : String
  pub occurred_at : String
  pub now : String
  pub committed_at : String
  pub ticketing : Bool
  pub event_id : String
  pub row_id : String
  pub ticketing_now : ℕ
  pub ticketing_outage : Option Error

abbrev pub is_commit : FinalOutcome → Bool
is_commit FinalOutcome.tier_a = true
is_commit FinalOutcome.approve = true
is_commit _ = false

abbrev pub final_status : FinalOutcome → FinalStatus
final_status FinalOutcome.tier_a = FinalStatus.tier_a_committed
final_status _ = FinalStatus.committed

abbrev pub final_kind : FinalOutcome → AuditEventKind
final_kind FinalOutcome.reject = AuditEventKind.final_reject
final_kind _ = AuditEventKind.final_commit

-- "B" or "C" at the suspension: "ESCALATE" is written as "C".
abbrev pub suspended_tier : Tier → Tier
suspended_tier Tier.escalate = Tier.review tier_c
suspended_tier (Tier.review t) = Tier.review t

module _ {N : Type 0} where
  abbrev pub event_about :
      ObligationPipelineState N
      → AuditEventKind
      → AuditPayload N
      → (occurred_at : String) → AuditEvent N
  event_about s kind payload at = record {
    run_id = s.run_id;
    event_id = s.event_id;
    kind = kind;
    obligation_id = s.obligation_id;
    payload = payload;
    occurred_at = at;
  }

  abbrev pub committed_event :
      ObligationPipelineState N → FinalOutcome → Moment → ObligationCommittedEvent
  committed_event s outcome at = record {
    event_id = at.event_id;
    obligation_id = s.obligation_id;
    task_id = s.task_id;
    final_status = final_status outcome;
    tier = s.tier_decision.tier;
    committed_at = at.committed_at;
  }

  abbrev pub final_event : ObligationPipelineState N → FinalOutcome → Moment → AuditEvent N
  final_event s outcome at =
      event_about s (final_kind outcome) (AuditPayload.finalized outcome s.tier_decision.tier)
        at.occurred_at

  abbrev pub conflict_event : ObligationPipelineState N → Moment → AuditEvent N
  conflict_event s at =
      event_about s AuditEventKind.conflict_reconciled
        (AuditPayload.superseded_by_concurrent_run s.tier_decision.tier) at.occurred_at

module _ {N S : Type 0} where
  -- The trigger's errors are swallowed.
  unfoldable pub fire_ticketing_trigger :
      ObligationPipelineState N → FinalOutcome → Moment → World N S → World N S
  fire_ticketing_trigger s outcome at w =
      if is_commit outcome
      then (if at.ticketing
          then record w {
            outbox =
                (handle_obligation_committed_event at.row_id at.ticketing_now at.ticketing_outage
                  (committed_event s outcome at) w.outbox).1;
          }
          else w)
      else w

  unfoldable pub emit_final_audit :
      ObligationPipelineState N → FinalOutcome → Moment → World N S → World N S
  emit_final_audit s outcome at = audit (final_event s outcome at)

  abbrev suspend_at :
      StepId → ObligationPipelineState N → (suspended_at : String) → World N S → World N S
  suspend_at step s at w = record w {
    index = record_run w.index s.obligation_id (record {
      run_id = s.run_id;
      step_id = step;
      tier = suspended_tier s.tier_decision.tier;
      suspended_at = at;
    });
  }

  -- A step that is entered suspends the run; one that is resumed goes on.
  pub await_human_review_step :
      (resumed : Bool) → ObligationPipelineState N → (suspended_at : String) → World N S → World N S
  await_human_review_step true s at w = w
  await_human_review_step false s at w = suspend_at StepId.await_human_review s at w

  pub await_second_human_review_step :
      (resumed : Bool) → ObligationPipelineState N → (suspended_at : String) → World N S → World N S
  await_second_human_review_step true s at w = w
  await_second_human_review_step false s at w = suspend_at StepId.await_second_human_review s at w

module _ (F : Float) where
  open F use {Number}

  -- What the step adds to the state before it commits.
  pub with_decision : ObligationPipelineState Number → ObligationPipelineState Number
  with_decision s =
      let input : TierRouteInput Number = record {
        risk_score = s.mapping.risk_score_explain.risk_score;
        has_contradiction =
            normalize_has_contradiction s.verification.contradiction s.verification.verdict;
        confidence_score = s.proposal.confidence_score;
        grounding_score = s.verification.grounding_score;
        is_first_seen_obligation_type = s.mapping.first_seen_check.is_first_seen_obligation_type;
      } in
      record s {
        tier_route_input = input;
        tier_decision =
            compute_tier_decision F input s.verification.verdict
              s.mapping.overwrite_check.match_path;
      }

module _ (F : Float) {S : Type 0} where
  open F use {Number}

  unfoldable pub commit_with_conflict_reconciliation :
      ObligationPipelineState Number → CommitPlan Number → Moment → Run (World Number S) Bool
  unfolding is_wrapped_conflict
  commit_with_conflict_reconciliation s plan at w =
      let committed = commit_proposal F at.now plan w.graph in
      let w' : World Number S = record w { graph = committed.1 } in
      elim committed.0 [
        | ok _ ↦ (ok true, w')
        | err e ↦
            if is_wrapped_conflict e
            then (
              ok false,
              record (audit (conflict_event s at) w') { index = clear w.index s.obligation_id },
            )
            else (err e, w')
      ]

  -- What follows the commit, from its answer.
  unfoldable pub conclude :
      ObligationPipelineState Number
      → FinalOutcome
      → Moment
      → Result Bool × World Number S
      → Result Bool × World Number S
  unfolding fire_ticketing_trigger emit_final_audit
  conclude s outcome at (err e, w) = (err e, w)
  conclude s outcome at (ok false, w) = (ok false, w)
  conclude s outcome at (ok true, w) =
      let audited = emit_final_audit s outcome at w in
      (
        ok true,
        fire_ticketing_trigger s outcome at
            (record audited { index = clear audited.index s.obligation_id }),
      )

  -- The lock around the commit only orders calls of one process that close the same obligation; calls
  -- here come one after the other.
  unfoldable pub finalize_commit :
      ObligationPipelineState Number → FinalOutcome → Moment → Run (World Number S) Bool
  unfolding commit_with_conflict_reconciliation conclude
  finalize_commit s outcome at w = elim (build_finalize_commit_plan s outcome at.effective_date) [
    | none ↦ (ok true, fire_ticketing_trigger s outcome at (emit_final_audit s outcome at w))
    | some plan ↦ conclude s outcome at (commit_with_conflict_reconciliation s plan at w)
  ]

  -- The date of the plan is a third read of the clock.
  unfoldable pub route_and_pre_commit :
      ObligationPipelineState Number
      → Moment
      → Run (World Number S) (ObligationPipelineState Number)
  unfolding with_decision
  route_and_pre_commit s at w =
      let s' = with_decision F s in
      let decided =
        audit
          (event_about s' AuditEventKind.tier_decision (AuditPayload.decided s'.tier_decision)
            at.occurred_at)
          w in
      let plan = build_pre_review_commit_plan s' [] at.effective_date none in
      let committed = commit_proposal F at.now plan w.graph in
      let w' : World Number S = record decided { graph = committed.1 } in
      elim committed.0 [
        | err e ↦ (err e, w')
        | ok result ↦ (
          ok (record s' {
            pre_review_commit = some (record {
              committed_at = result.committed_at;
              supersedes_obligation_id =
                  if is_explicit s.mapping.overwrite_check.match_path
                  then s.mapping.overwrite_check.overwritten_obligation_id
                  else none;
            });
          }),
          audit
              (event_about s' AuditEventKind.pre_review_commit
                (AuditPayload.pre_committed s'.tier_decision s'.mapping.risk_score_explain
                  s'.verification.grounding_score)
                at.occurred_at)
              w',
        )
      ]
