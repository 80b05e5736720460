-- ===== src/Tests/Commits.antt =====
-- Commits to the graph on the concrete plan.
use sentinel_act.Prelude.{ok, ◌≡◌, refl}
use sentinel_act.Prelude.Map
use sentinel_act.Graph.Store.{has_node, has_obligation, create_obligation, create_process_task}
use sentinel_act.Graph.Writer.{
  commit_proposal, execute_plan, write_plan, plan_result, each, apply_status_transition,
  create_edge, match_and_create_edge,
}
use sentinel_act.Graph.Validate.{
  validate_commit_plan, is_valid_plan, is_valid_nodes, is_valid_obligation, is_valid_process_task,
  is_valid_edge, is_valid_transition, is_iso_date, is_iso_date_nullable, is_non_empty,
  is_unit_interval,
}
use sentinel_act.Graph.Writer.Grows.{Grows, commit_proposal-Grows}
use sentinel_act.Graph.Writer.Linked.{commit_proposal-IsLinked}
use sentinel_act.Graph.Writer.Nodes.{IsLinked, HasNodesOf}
use sentinel_act.Graph.Writer.Replay.{commit_proposal_replay}
use sentinel_act.Tests.{hundredths, start, pre_review_plan}

commit_proposal-Grows_example :
    Grows start.obligations
      (commit_proposal hundredths "2026-02-01" pre_review_plan start).1.obligations
commit_proposal-Grows_example = commit_proposal-Grows hundredths "2026-02-01" pre_review_plan start

start-IsLinked : IsLinked start
unfolding has_node has_obligation
start-IsLinked = ((refl, refl), tt)

commit_proposal-IsLinked_example :
    IsLinked (commit_proposal hundredths "2026-02-01" pre_review_plan start).1
    × HasNodesOf start (commit_proposal hundredths "2026-02-01" pre_review_plan start).1
commit_proposal-IsLinked_example =
    commit_proposal-IsLinked hundredths "2026-02-01" pre_review_plan start start-IsLinked

-- The first commit succeeds.
commits : commit_proposal hundredths "2026-02-01" pre_review_plan start ≡ (
  ok (plan_result "2026-02-01" pre_review_plan),
  (commit_proposal hundredths "2026-02-01" pre_review_plan start).1,
)
unfolding commit_proposal validate_commit_plan is_valid_plan is_valid_nodes is_valid_obligation
    is_valid_process_task is_valid_edge is_valid_transition is_iso_date is_iso_date_nullable
    is_non_empty is_unit_interval execute_plan write_plan plan_result each create_obligation
    create_process_task apply_status_transition create_edge match_and_create_edge has_node
    has_obligation Map.get
commits = refl

commit_proposal_replay_example :
    commit_proposal hundredths "2026-03-01" pre_review_plan
      (commit_proposal hundredths "2026-02-01" pre_review_plan start).1
    ≡ (
      ok (plan_result "2026-02-01" pre_review_plan),
      (commit_proposal hundredths "2026-02-01" pre_review_plan start).1,
    )
commit_proposal_replay_example =
    commit_proposal_replay hundredths "2026-02-01" "2026-03-01" pre_review_plan start
      (commit_proposal hundredths "2026-02-01" pre_review_plan start).1
      (plan_result "2026-02-01" pre_review_plan) commits
