-- ===== src/Orchestrator/State.antt =====
-- The state of one obligation in the pipeline
-- (apps/orchestrator/src/mastra/workflows/orchestrator.types.ts) and what the agents hand to it
-- (obligation-extraction.types.ts, grounding-verification.types.ts, mapping-risk-scoring.agent.ts).
use sentinel_act.Prelude.{String, ℕ, Bool, Option, List}
use sentinel_act.Router.{Verdict, MatchPath, TierRouteInput, TierDecision, RiskScoreExplain}
use sentinel_act.Grounding.{FieldGroundingResult}

pub record ConfidenceBreakdown (N : Type 0) : Type 0 where
  pub model_self_reported : N
  pub field_completeness_penalty : N
  pub ambiguity_penalty : N
  pub graphrag_support_bonus : N
  pub final : N

pub record ObligationProposal (N : Type 0) : Type 0 where
  pub category : String
  pub requirement_text : String
  pub trigger_event : String
  pub deadline_rule : String
  pub responsible_role : String
  pub evidence_required : String
  pub penalty_ref : Option String
  pub applies_to_category_names : List String
  pub applies_to_unknown_category_names : List String
  pub derived_from_clause_id : String
  pub confidence_score : N
  pub confidence_breakdown : ConfidenceBreakdown N
  pub extraction_index : ℕ

-- The details of a contradiction are not read by the orchestrator and are left out.
pub record GroundingVerificationOutput (N : Type 0) : Type 0 where
  pub run_id : String
  pub grounding_score : N
  pub field_results : List (FieldGroundingResult N)
  pub contradiction : Bool
  pub verdict : Verdict
  pub summary : String
  pub duration_ms : N

pub record ProcessTaskDraft (N : Type 0) : Type 0 where
  pub obligation_id : String
  pub task_name : String
  pub owner_role : String
  pub sla_hours : N
  pub system_touchpoint : String
  pub risk_score : N

-- `Partial<ProcessTaskDraft>`; its `obligation_id` is overwritten wherever it is merged
pub record Redline (N : Type 0) : Type 0 where
  pub task_name : Option String
  pub owner_role : Option String
  pub sla_hours : Option N
  pub system_touchpoint : Option String
  pub risk_score : Option N

pub record OverwriteCheckResult : Type 0 where
  pub overwrites_live_obligation : Bool
  pub match_path : Option MatchPath
  pub overwritten_obligation_id : Option String
  pub degraded : Bool

pub record FirstSeenCheckResult : Type 0 where
  pub is_first_seen_obligation_type : Bool
  pub degraded : Bool

pub data SlaConfidence : Type 0 where
  high low : SlaConfidence

pub record MappingRiskScoringResult (N : Type 0) : Type 0 where
  pub process_task_draft : ProcessTaskDraft N
  pub risk_score_explain : RiskScoreExplain N
  pub sla_confidence : SlaConfidence
  pub overwrite_check : OverwriteCheckResult
  pub first_seen_check : FirstSeenCheckResult

pub record PreReviewCommit : Type 0 where
  pub committed_at : String
  pub supersedes_obligation_id : Option String

pub record ObligationPipelineState (N : Type 0) : Type 0 where
  pub run_id : String
  pub event_id : String
  pub clause_id : String
  pub circular_id : String
  pub proposal : ObligationProposal N
  pub verification : GroundingVerificationOutput N
  pub mapping : MappingRiskScoringResult N
  pub tier_route_input : TierRouteInput N
  pub tier_decision : TierDecision
  pub obligation_id : String
  pub task_id : String
  pub pre_review_commit : Option PreReviewCommit
