-- ===== src/Plan.antt =====
-- What is handed to the graph's writer in one call (packages/graph-db/src/types.ts). An optional
-- array that is absent is the empty list: the code reads each by `?? []` or by its length.
use sentinel_act.Prelude.{String, ℕ, List, []}
use sentinel_act.Schema.{
  Circular, Clause, Obligation, ObligationStatus, ProcessTask, EvidenceArtifact,
  IntermediaryCategory, HumanReview, GraphEdge,
}

pub record PlanNodes (N : Type 0) : Type 0 where
  pub circulars : List Circular
  pub clauses : List Clause
  pub obligations : List (Obligation N)
  pub process_tasks : List (ProcessTask N)
  pub evidence_artifacts : List EvidenceArtifact
  pub intermediary_categories : List IntermediaryCategory
  pub human_reviews : List HumanReview

abbrev pub no_nodes : {N : Type 0} → PlanNodes N
no_nodes = record {
  circulars = [];
  clauses = [];
  obligations = [];
  process_tasks = [];
  evidence_artifacts = [];
  intermediary_categories = [];
  human_reviews = [];
}

pub data SupersessionKind : Type 0 where
  circular obligation : SupersessionKind

pub record SupersessionInstruction : Type 0 where
  pub kind : SupersessionKind
  pub old_id : String
  pub effective_date : String

pub record ObligationStatusTransition : Type 0 where
  pub obligation_id : String
  pub new_status : ObligationStatus

pub record FinalizeSupersessionInstruction : Type 0 where
  pub old_obligation_id : String
  pub new_obligation_id : String
  pub effective_date : String

pub record CommitPlan (N : Type 0) : Type 0 where
  pub proposal_id : String
  pub nodes : PlanNodes N
  pub edges : List GraphEdge
  pub supersessions : List SupersessionInstruction
  pub obligation_status_transitions : List ObligationStatusTransition
  pub finalize_supersessions : List FinalizeSupersessionInstruction

pub data NodeLabel : Type 0 where
  circular clause obligation process_task evidence_artifact intermediary_category human_review :
      NodeLabel

pub data EdgeType : Type 0 where
  supersedes part_of derived_from applies_to mapped_to evidenced_by reviewed_by : EdgeType

-- The counts are the keys that the code sets, each with its number.
pub record CommitResult : Type 0 where
  pub proposal_id : String
  pub committed_at : String
  pub node_counts : List (NodeLabel × ℕ)
  pub edge_counts : List (EdgeType × ℕ)
  pub supersessions_applied : ℕ
