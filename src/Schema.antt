-- ===== src/Schema.antt =====
-- The node and edge types of the regulatory knowledge graph
-- (packages/graph-schema/src/nodes.ts, edges.ts). The records are the `CreateInput` forms, with all
-- fields but `recorded_at`, which the database stamps: `Recorded` adds it. `N` is the type of
-- numbers with a fraction.
use sentinel_act.Prelude.{String, Option, Bool, true, false}

-- `T` with its `recorded_at`
pub record Recorded (A : Type 0) : Type 0 where
  pub input : A
  pub recorded_at : String

pub record Circular : Type 0 where
  pub circular_id : String
  pub title : String
  pub type : String
  pub category : String
  pub date_issued : String
  pub date_effective : String
  pub source_hash : String
  pub supersedes_circular_id : Option String
  pub valid_from : String
  pub valid_to : Option String

pub record Clause : Type 0 where
  pub clause_id : String
  pub circular_id : String
  pub para_ref : String
  pub text : String
  pub embedding_ref : String
  pub valid_from : String
  pub valid_to : Option String

pub data ObligationStatus : Type 0 where
  proposed tier_a_committed tier_b_review tier_c_review escalated committed rejected :
      ObligationStatus

pub record Obligation (N : Type 0) : Type 0 where
  pub obligation_id : String
  pub derived_from_clause_id : String
  pub category : String
  pub requirement_text : String
  pub trigger_event : String
  pub deadline_rule : String
  pub responsible_role : String
  pub evidence_required : String
  pub penalty_ref : Option String
  pub confidence_score : N
  pub grounding_score : N
  pub status : ObligationStatus
  pub valid_from : String
  pub valid_to : Option String

pub record ProcessTask (N : Type 0) : Type 0 where
  pub task_id : String
  pub obligation_id : String
  pub task_name : String
  pub owner_role : String
  pub sla_hours : N
  pub system_touchpoint : String
  pub risk_score : N
  pub valid_from : String
  pub valid_to : Option String

pub record EvidenceArtifact : Type 0 where
  pub evidence_id : String
  pub task_id : String
  pub type : String
  pub hash : String
  pub uploaded_at : String
  pub uploaded_by : String
  pub valid_from : String
  pub valid_to : Option String

pub record IntermediaryCategory : Type 0 where
  pub category_id : String
  pub name : String

pub data ReviewTier : Type 0 where
  tier_a tier_b tier_c : ReviewTier

pub data ReviewDecision : Type 0 where
  approve reject : ReviewDecision

abbrev pub same_decision : ReviewDecision → ReviewDecision → Bool
same_decision approve approve = true
same_decision reject reject = true
same_decision _ _ = false

pub record HumanReview : Type 0 where
  pub review_id : String
  pub obligation_id : String
  pub reviewer_id : String
  pub tier : ReviewTier
  pub decision : ReviewDecision
  pub rationale : Option String
  pub decided_at : String
  pub valid_from : String
  pub valid_to : Option String

pub data GraphEdge : Type 0 where
  supersedes : (from_id to_id : String) → GraphEdge
  part_of : (clause_id circular_id : String) → GraphEdge
  derived_from : (obligation_id clause_id : String) → GraphEdge
  applies_to : (obligation_id category_id : String) → GraphEdge
  mapped_to : (obligation_id task_id : String) → GraphEdge
  evidenced_by : (task_id evidence_id : String) → GraphEdge
  reviewed_by : (obligation_id review_id : String) → GraphEdge
