-- ===== src/Orchestrator/Plans.antt =====
-- The two plans of the orchestrator for an obligation, before and after its review
-- (apps/orchestrator/src/mastra/workflows/orchestrator.logic.ts).
use sentinel_act.Prelude.{
  String, Bool, true, false, ◌&&◌, Option, none, some, List, [], ◌∷◌, ◌++◌, ◌==◌, template,
  slice_to, or_else, if◌then◌else◌,
}
use sentinel_act.Prelude.Map
use sentinel_act.Prelude.Map.{Map}
use sentinel_act.Schema.{Obligation, ObligationStatus, ProcessTask, GraphEdge}
use sentinel_act.Plan.{CommitPlan, no_nodes, FinalizeSupersessionInstruction}
use sentinel_act.Router.{MatchPath, pre_review_status_for_tier}
use sentinel_act.Orchestrator.State.{
  ProcessTaskDraft, Redline, OverwriteCheckResult, ObligationPipelineState,
}

unfoldable pub derive_proposal_id : (run_id step_id obligation_id : String) → String
derive_proposal_id run_id step_id obligation_id =
    template (run_id ∷ ":" ∷ step_id ∷ ":" ∷ obligation_id ∷ [])

unfoldable pub to_iso_date : String → String
to_iso_date value = slice_to 10 value

-- The edges to the categories whose name is resolved, in the order of the names.
pub category_edges : Map String → String → List String → List GraphEdge
category_edges ids obligation_id [] = []
category_edges ids obligation_id (name ∷ names) =
    let rest = category_edges ids obligation_id names in
    elim (Map.get ids name) [
      | none ↦ rest
      | some category_id ↦
          if category_id == "" then rest else GraphEdge.applies_to obligation_id category_id ∷ rest
    ]

abbrev pub is_explicit : Option MatchPath → Bool
is_explicit (some MatchPath.explicit) = true
is_explicit _ = false

abbrev non_empty : Option String → Option String
non_empty none = none
non_empty (some s) = if s == "" then none else some s

-- `isExplicitOverwrite`: the obligation that is overwritten, if the match is explicit
unfoldable pub explicit_overwrite : OverwriteCheckResult → Option String
explicit_overwrite o =
    if o.overwrites_live_obligation && is_explicit o.match_path
    then non_empty o.overwritten_obligation_id
    else none

abbrev supersedes_edges : String → Option String → List GraphEdge
supersedes_edges obligation_id none = []
supersedes_edges obligation_id (some old_id) = GraphEdge.supersedes obligation_id old_id ∷ []

abbrev replace : {A : Type 0} → Option A → A → A
replace none a = a
replace (some b) a = b

module _ {N : Type 0} where
  -- `{ ...draft, ...(redline ?? {}), obligation_id }`
  pub merge_draft : ProcessTaskDraft N → Option (Redline N) → String → ProcessTaskDraft N
  merge_draft draft none obligation_id = record draft { obligation_id = obligation_id }
  merge_draft draft (some r) obligation_id = record {
    obligation_id = obligation_id;
    task_name = replace r.task_name draft.task_name;
    owner_role = replace r.owner_role draft.owner_role;
    sla_hours = replace r.sla_hours draft.sla_hours;
    system_touchpoint = replace r.system_touchpoint draft.system_touchpoint;
    risk_score = replace r.risk_score draft.risk_score;
  }

  pub new_obligation : ObligationPipelineState N → (valid_from : String) → Obligation N
  new_obligation s valid_from = record {
    obligation_id = s.obligation_id;
    derived_from_clause_id = or_else s.proposal.derived_from_clause_id s.clause_id;
    category = s.proposal.category;
    requirement_text = s.proposal.requirement_text;
    trigger_event = s.proposal.trigger_event;
    deadline_rule = s.proposal.deadline_rule;
    responsible_role = s.proposal.responsible_role;
    evidence_required = s.proposal.evidence_required;
    penalty_ref = s.proposal.penalty_ref;
    confidence_score = s.proposal.confidence_score;
    grounding_score = s.verification.grounding_score;
    status = pre_review_status_for_tier s.tier_decision.tier;
    valid_from = valid_from;
    valid_to = none;
  }

  pub new_process_task : ProcessTaskDraft N → (task_id valid_from : String) → ProcessTask N
  new_process_task d task_id valid_from = record {
    task_id = task_id;
    obligation_id = d.obligation_id;
    task_name = d.task_name;
    owner_role = d.owner_role;
    sla_hours = d.sla_hours;
    system_touchpoint = d.system_touchpoint;
    risk_score = d.risk_score;
    valid_from = valid_from;
    valid_to = none;
  }

  pub build_pre_review_commit_plan :
      (state : ObligationPipelineState N) (category_id_by_name : Map String)
      (effective_date : String) (redline : Option (Redline N))
      → CommitPlan N
  unfolding category_edges merge_draft new_obligation new_process_task derive_proposal_id
  build_pre_review_commit_plan s ids effective_date redline =
      let valid_from = to_iso_date effective_date in
      let obligation = new_obligation s valid_from in
      let draft = merge_draft s.mapping.process_task_draft redline s.obligation_id in
      record {
        proposal_id = derive_proposal_id s.run_id "routeAndPreCommit" s.obligation_id;
        nodes = record no_nodes {
          obligations = obligation ∷ [];
          process_tasks = new_process_task draft s.task_id valid_from ∷ [];
        };
        edges =
            GraphEdge.derived_from s.obligation_id obligation.derived_from_clause_id
            ∷ GraphEdge.mapped_to s.obligation_id s.task_id
            ∷ (category_edges ids s.obligation_id s.proposal.applies_to_category_names
                ++ supersedes_edges s.obligation_id (explicit_overwrite s.mapping.overwrite_check));
        supersessions = [];
        obligation_status_transitions = [];
        finalize_supersessions = [];
      }

-- "tier_a" | "approve" | "reject" | "disagreement"
pub data FinalOutcome : Type 0 where
  tier_a approve reject disagreement : FinalOutcome

abbrev pub finalize_instructions :
    String → String → Option String → List FinalizeSupersessionInstruction
finalize_instructions new_id effective_date none = []
finalize_instructions new_id effective_date (some old_id) =
    record {
      old_obligation_id = old_id;
      new_obligation_id = new_id;
      effective_date = effective_date;
    }
    ∷ []

module _ {N : Type 0} where
  -- The plan that only moves the obligation to a status.
  abbrev pub status_plan : (proposal_id obligation_id : String) → ObligationStatus → CommitPlan N
  status_plan proposal_id obligation_id new_status = record {
    proposal_id = proposal_id;
    nodes = no_nodes;
    edges = [];
    supersessions = [];
    obligation_status_transitions =
        record { obligation_id = obligation_id; new_status = new_status } ∷ [];
    finalize_supersessions = [];
  }

  unfoldable pub build_finalize_commit_plan :
      (state : ObligationPipelineState N)
      → FinalOutcome
      → (effective_date : String) → Option (CommitPlan N)
  unfolding derive_proposal_id to_iso_date explicit_overwrite
  build_finalize_commit_plan s outcome effective_date =
      let proposal_id = derive_proposal_id s.run_id "finalizeCommit" s.obligation_id in
      let old = explicit_overwrite s.mapping.overwrite_check in
      let closing = finalize_instructions s.obligation_id (to_iso_date effective_date) old in
      elim outcome [
        | FinalOutcome.tier_a ↦ elim old [
          | none ↦ none
          | some _ ↦
              some (record (status_plan proposal_id s.obligation_id ObligationStatus.committed) {
                obligation_status_transitions = [];
                finalize_supersessions = closing;
              })
        ]
        | FinalOutcome.approve ↦
            some (record (status_plan proposal_id s.obligation_id ObligationStatus.committed) {
              finalize_supersessions = closing;
            })
        | FinalOutcome.reject ↦
            some (status_plan proposal_id s.obligation_id ObligationStatus.rejected)
        | FinalOutcome.disagreement ↦
            some (status_plan proposal_id s.obligation_id ObligationStatus.escalated)
      ]
