-- ===== src/Orchestrator/Workflow.antt =====
-- The runtime of the workflow (apps/orchestrator/src/mastra/workflows/orchestrator.workflow.ts): its
-- stores, its audit log, and the engine that suspends and resumes runs, which is a parameter.
use sentinel_act.Prelude.{
  String, ℕ, Bool, true, false, Option, none, some, List, [], ◌∷◌, ◌++◌, Result, ok, err, Error,
  conflict_error, commit_error, ledger_append_error, zero, suc,
}
use sentinel_act.Prelude.Map.{Map}
use sentinel_act.Schema.{ObligationStatus, ReviewTier, tier_c}
use sentinel_act.Router.{Tier, TierDecision, RiskScoreExplain}
use sentinel_act.Graph.Store.{Graph}
use sentinel_act.Ledger.{Ledger, Json}
use sentinel_act.Monitoring.{HumanReviewSubmittedEvent, Stores}
use sentinel_act.Orchestrator.Plans.{FinalOutcome}
use sentinel_act.Orchestrator.RunIndex.{RunIndex, StepId}
use sentinel_act.Ticketing.Outbox.{Outbox}
pub mod Resume
pub mod Finalize
pub mod Order
pub mod Ends
pub mod Races
pub mod HandOver

pub data AuditEventKind : Type 0 where
  pre_review_commit tier_decision human_review_submitted final_commit final_reject
        conflict_reconciled run_failed :
      AuditEventKind

pub data AuditPayload (N : Type 0) : Type 0 where
  decided : TierDecision → AuditPayload N
  pre_committed : TierDecision → RiskScoreExplain N → (grounding_score : N) → AuditPayload N
  reviewed : HumanReviewSubmittedEvent → (review_outcome : Option Json) → AuditPayload N
  finalized : FinalOutcome → Tier → AuditPayload N
  superseded_by_concurrent_run : Tier → AuditPayload N

pub record AuditEvent (N : Type 0) : Type 0 where
  pub run_id : String
  pub event_id : String
  pub kind : AuditEventKind
  pub obligation_id : String
  pub payload : AuditPayload N
  pub occurred_at : String

-- Everything that the steps and the entry points read and write; `S` is the engine's own state.
pub record World (N S : Type 0) : Type 0 where
  pub graph : Graph N
  pub ledger : Ledger
  pub index : RunIndex
  pub audits : List (AuditEvent N)
  pub outbox : Outbox
  pub run_of_event : Map String
  pub engine : S

abbrev pub stores : {N S : Type 0} → World N S → Stores N
stores w = record { graph = w.graph; ledger = w.ledger }

abbrev pub with_stores : {N S : Type 0} → World N S → Stores N → World N S
with_stores w s = record w { graph = s.graph; ledger = s.ledger }

-- `auditLog` never throws.
abbrev pub audit : {N S : Type 0} → AuditEvent N → World N S → World N S
audit ev w = record w { audits = w.audits ++ ev ∷ [] }

-- What a run is resumed with.
pub record ResumeParams : Type 0 where
  pub run_id : String
  pub step_id : StepId
  pub review : HumanReviewSubmittedEvent
  pub review_outcome : Option Json

-- `WorkflowEnginePort`; a status of none is "still_pending". A run that is started or resumed goes
-- through the workflow's steps, so it may change all of the world.
pub record Engine (N S : Type 0) : Type 0 where
  pub start : (event_id : String) → World N S → Result String × World N S
  pub resume : ResumeParams → World N S → Result (Option ObligationStatus) × World N S
  pub current_suspended_step : (run_id : String) → World N S → Result (Option StepId)
  pub get_maker_reviewer_id : (run_id : String) → World N S → Result (Option String)
  pub get_obligation_status :
      (obligation_id : String) → World N S → Result (Option ObligationStatus)

-- A conflict in the chain of causes, at most `depth` deep.
pub is_conflict_within : (depth : ℕ) → Error → Bool
is_conflict_within zero e = false
is_conflict_within (suc depth) conflict_error = true
is_conflict_within (suc depth) (commit_error cause) = is_conflict_within depth cause
is_conflict_within (suc depth) (ledger_append_error cause) = is_conflict_within depth cause
is_conflict_within (suc depth) _ = false

pub is_wrapped_conflict : Error → Bool
unfolding is_conflict_within
is_wrapped_conflict e = is_conflict_within 5 e
