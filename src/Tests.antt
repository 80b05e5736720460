-- ===== src/Tests.antt =====
-- The concrete data that the tests run on: numbers in hundredths, a platform whose hash keeps its
-- text, a graph with one clause, and the plan that commits an obligation under it.
use sentinel_act.Prelude.{
  String, ℕ, ◌+◌, ◌-◌, ◌*◌, ◌/◌, ◌^◌, min, max, ltb, leb, eqb, Bool, true, false, none, some, [],
  ◌∷◌, if◌then◌else◌,
}
use sentinel_act.Float.{Float}
use sentinel_act.Ledger.{Host}
use sentinel_act.Schema.{Recorded, Clause, Obligation, ObligationStatus, ProcessTask, GraphEdge}
use sentinel_act.Plan.{CommitPlan, no_nodes, EdgeType, NodeLabel}
use sentinel_act.Graph.Store.{Graph}
pub mod Commits
pub mod Routing
pub mod Ledgers
pub mod Reviews
pub mod Recordings
pub mod Outcomes
pub mod Tickets
pub mod Runs
pub mod Reminders

abbrev pub hundredths : Float
hundredths = record {
  Number = ℕ;
  lt = ltb;
  le = leb;
  add = λ a b. a + b;
  sub = λ a b. a - b;
  mul = λ a b. (a * b) / 100;
  div = λ a b. (a * 100) / b;
  least = min;
  most = max;
  dec = λ n k. (n * 100) / (10 ^ k);
}

abbrev pub platform : Host
platform = record {
  sha256 = λ s. s;
  stringify = λ j. "{}";
  precedes = λ a b. true;
  show = λ n. if eqb n 1 then "1" else "2";
  not_later = λ a b. true;
}

abbrev pub clause : Clause
clause = record {
  clause_id = "clause-1";
  circular_id = "circular-1";
  para_ref = "4.2";
  text = "Report within seven days.";
  embedding_ref = "embedding-1";
  valid_from = "2026-01-01";
  valid_to = none;
}

abbrev pub obligation : Obligation ℕ
obligation = record {
  obligation_id = "obligation-1";
  derived_from_clause_id = "clause-1";
  category = "reporting";
  requirement_text = "Report every breach.";
  trigger_event = "a breach";
  deadline_rule = "seven days";
  responsible_role = "compliance officer";
  evidence_required = "the report";
  penalty_ref = none;
  confidence_score = 95;
  grounding_score = 90;
  status = ObligationStatus.tier_c_review;
  valid_from = "2026-02-01";
  valid_to = none;
}

abbrev pub start : Graph ℕ
start = record {
  circulars = [];
  clauses = record { input = clause; recorded_at = "2026-01-01T00:00:00Z" } ∷ [];
  obligations =
      record {
        input = record obligation { obligation_id = "obligation-0" };
        recorded_at = "2026-01-01T00:00:00Z";
      }
      ∷ [];
  process_tasks = [];
  evidence_artifacts = [];
  intermediary_categories = [];
  human_reviews = [];
  links =
      record {
        type = EdgeType.derived_from;
        from = record { label = NodeLabel.obligation; id = "obligation-0" };
        to = record { label = NodeLabel.clause; id = "clause-1" };
      }
      ∷ [];
  commit_log = [];
}

abbrev pub task : ProcessTask ℕ
task = record {
  task_id = "task-1";
  obligation_id = "obligation-1";
  task_name = "Send the report";
  owner_role = "compliance officer";
  sla_hours = 16800;
  system_touchpoint = "portal";
  risk_score = 80;
  valid_from = "2026-02-01";
  valid_to = none;
}

abbrev pub pre_review_plan : CommitPlan ℕ
pre_review_plan = record {
  proposal_id = "run-1:routeAndPreCommit:obligation-1";
  nodes = record no_nodes { obligations = obligation ∷ []; process_tasks = task ∷ [] };
  edges =
      GraphEdge.derived_from "obligation-1" "clause-1"
      ∷ GraphEdge.mapped_to "obligation-1" "task-1"
      ∷ [];
  supersessions = [];
  obligation_status_transitions =
      record { obligation_id = "obligation-0"; new_status = ObligationStatus.committed } ∷ [];
  finalize_supersessions = [];
}
