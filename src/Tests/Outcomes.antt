-- ===== src/Tests/Outcomes.antt =====
-- The finalising plan of an obligation that overwrites another one.
use sentinel_act.Prelude.{ℕ, true, false, none, some, [], ◌∷◌, ◌≡◌, refl, ok, template, slice_to}
use sentinel_act.Router.{Tier, Verdict, MatchPath, TierReason}
use sentinel_act.Schema.{tier_b, ObligationStatus}
use sentinel_act.Plan.{CommitPlan, no_nodes}
use sentinel_act.Prelude.Map
use sentinel_act.Graph.Store.{Graph, has_obligation}
use sentinel_act.Graph.Validate.{
  validate_commit_plan, is_valid_plan, is_valid_nodes, is_valid_transition, is_valid_finalize,
  is_iso_date, is_non_empty,
}
use sentinel_act.Graph.Writer.{
  commit_proposal, execute_plan, write_plan, plan_result, each, apply_status_transition,
  finalize_supersession,
}
use sentinel_act.Orchestrator.Finalized.{IsSettled, commit_proposal-IsSettled}
use sentinel_act.Tests.{hundredths, start, obligation}
use sentinel_act.Orchestrator.State.{ObligationPipelineState, SlaConfidence}
use sentinel_act.Orchestrator.Plans.{
  FinalOutcome, build_finalize_commit_plan, explicit_overwrite, derive_proposal_id, to_iso_date,
}
use sentinel_act.Orchestrator.Outcomes.{Fits, build_finalize_commit_plan-Fits}

abbrev pub state : ObligationPipelineState ℕ
state = record {
  run_id = "run-1";
  event_id = "event-1";
  clause_id = "clause-1";
  circular_id = "circular-1";
  proposal = record {
    category = "reporting";
    requirement_text = "Report every breach.";
    trigger_event = "a breach";
    deadline_rule = "seven days";
    responsible_role = "compliance officer";
    evidence_required = "the report";
    penalty_ref = none;
    applies_to_category_names = [];
    applies_to_unknown_category_names = [];
    derived_from_clause_id = "clause-1";
    confidence_score = 90;
    confidence_breakdown = record {
      model_self_reported = 90;
      field_completeness_penalty = 0;
      ambiguity_penalty = 0;
      graphrag_support_bonus = 0;
      final = 90;
    };
    extraction_index = 0;
  };
  verification = record {
    run_id = "run-1";
    grounding_score = 90;
    field_results = [];
    contradiction = false;
    verdict = Verdict.pass;
    summary = "grounded";
    duration_ms = 10;
  };
  mapping = record {
    process_task_draft = record {
      obligation_id = "obligation-1";
      task_name = "Send the report";
      owner_role = "compliance officer";
      sla_hours = 16800;
      system_touchpoint = "portal";
      risk_score = 50;
    };
    risk_score_explain = record {
      inputs = record {
        penalty_severity = 50;
        deadline_proximity_days = 700;
        overwrites_live_obligation = true;
      };
      risk_score = 50;
      deadline_weight = 100;
      overwrite_weight = 100;
    };
    sla_confidence = SlaConfidence.high;
    overwrite_check = record {
      overwrites_live_obligation = true;
      match_path = some MatchPath.explicit;
      overwritten_obligation_id = some "obligation-0";
      degraded = false;
    };
    first_seen_check = record { is_first_seen_obligation_type = false; degraded = false };
  };
  tier_route_input = record {
    risk_score = 50;
    has_contradiction = false;
    confidence_score = 90;
    grounding_score = 90;
    is_first_seen_obligation_type = false;
  };
  tier_decision = record { tier = Tier.review tier_b; reasons = TierReason.risk_score_tier_b ∷ [] };
  obligation_id = "obligation-1";
  task_id = "task-1";
  pre_review_commit = none;
}

-- The plan for an approval: the new obligation is committed, the old one closed.
abbrev pub plan : CommitPlan ℕ
plan = record {
  proposal_id = "run-1:finalizeCommit:obligation-1";
  nodes = no_nodes;
  edges = [];
  supersessions = [];
  obligation_status_transitions =
      record { obligation_id = "obligation-1"; new_status = ObligationStatus.committed } ∷ [];
  finalize_supersessions =
      record {
        old_obligation_id = "obligation-0";
        new_obligation_id = "obligation-1";
        effective_date = "2026-02-01";
      }
      ∷ [];
}

pub plan_is_built :
    build_finalize_commit_plan state FinalOutcome.approve "2026-02-01T10:00:00Z" ≡ some plan
unfolding build_finalize_commit_plan explicit_overwrite derive_proposal_id to_iso_date template
    slice_to
plan_is_built = refl

build_finalize_commit_plan-Fits_example : Fits state FinalOutcome.approve plan
build_finalize_commit_plan-Fits_example =
    build_finalize_commit_plan-Fits state FinalOutcome.approve "2026-02-01T10:00:00Z" plan
      plan_is_built

-- The graph with both obligations, and the plan committed on it.
abbrev pub under_review : Graph ℕ
under_review = record start {
  obligations =
      record {
        input = record obligation {
          obligation_id = "obligation-0";
          status = ObligationStatus.committed;
        };
        recorded_at = "2026-01-01T00:00:00Z";
      }
      ∷ record { input = obligation; recorded_at = "2026-02-01T00:00:00Z" }
      ∷ [];
}

commits : commit_proposal hundredths "2026-02-03" plan under_review ≡ (
  ok (plan_result "2026-02-03" plan),
  (commit_proposal hundredths "2026-02-03" plan under_review).1,
)
unfolding commit_proposal validate_commit_plan is_valid_plan is_valid_nodes is_valid_transition
    is_valid_finalize is_iso_date is_non_empty execute_plan write_plan plan_result each
    apply_status_transition finalize_supersession has_obligation Map.get
commits = refl

commit_proposal-IsSettled_example :
    IsSettled state FinalOutcome.approve "2026-02-01T10:00:00Z" under_review
      (commit_proposal hundredths "2026-02-03" plan under_review).1
unfolding Map.get
commit_proposal-IsSettled_example =
    commit_proposal-IsSettled hundredths state FinalOutcome.approve "2026-02-01T10:00:00Z"
      "2026-02-03" plan under_review (commit_proposal hundredths "2026-02-03" plan under_review).1
      (plan_result "2026-02-03" plan) plan_is_built refl commits
