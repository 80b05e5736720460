-- ===== src/Graph/Writer/Replay.antt =====
-- A proposal that was committed is answered from the log, and changes nothing again.
use sentinel_act.Prelude.{
  String, some, ok, err, Error, ◌≡◌, arith, eq_refl, Option-cases, Bool-cases, Result-cases, inl,
  inr,
}
use sentinel_act.Prelude.Map
use sentinel_act.Prelude.Map.{get-set}
use sentinel_act.Float.{Float}
use sentinel_act.Plan.{CommitPlan, CommitResult}
use sentinel_act.Graph.Store.{Graph}
use sentinel_act.Graph.Validate.{is_valid_plan, validate_commit_plan}
use sentinel_act.Graph.Writer.{commit_proposal, execute_plan, write_plan, plan_result, settle}

module _ {N : Type 0} where
  -- After a successful execution the log answers for the proposal.
  execute_plan-logs :
      (now : String) (p : CommitPlan N) (g g' : Graph N) (r : CommitResult)
      → execute_plan now p g ≡ ok (r, g')
      → Map.get g'.commit_log p.proposal_id ≡ some r
  unfolding execute_plan plan_result
  execute_plan-logs now p g g' r h = elim (Option-cases (Map.get g.commit_log p.proposal_id)) [
    | inr (r', old) ↦ ground arith
    | inl new ↦ elim (Result-cases (write_plan now p g)) [
      | inl (w, e) ↦
          ground (arith, eq_refl p.proposal_id, get-set w.commit_log p.proposal_id p.proposal_id r)
      | inr (x, e) ↦ ground arith
    ]
  ]

  settle_replay :
      (later : String) (p : CommitPlan N) (g : Graph N) (r : CommitResult)
      → Map.get g.commit_log p.proposal_id ≡ some r
      → settle (execute_plan later p g) g ≡ (ok r, g)
  unfolding execute_plan
  settle_replay later p g r h = ground arith

-- A commit that succeeded, made again at any later time on the graph it left, gives the same result
-- and leaves that graph as it is.
pub commit_proposal_replay :
    (F : Float) (now later : String) (p : CommitPlan F.Number) (g g' : Graph F.Number)
    (r : CommitResult)
    → commit_proposal F now p g ≡ (ok r, g')
    → commit_proposal F later p g' ≡ (ok r, g')
unfolding commit_proposal validate_commit_plan
commit_proposal_replay F now later p g g' r h = elim (Bool-cases (is_valid_plan F p)) [
  | inr bad ↦ ground arith
  | inl good ↦ elim (Result-cases (execute_plan now p g)) [
    | inr (x, e) ↦ ground arith
    | inl ((r', w), e) ↦
        ground (arith, execute_plan-logs now p g w r' e, settle_replay later p w r')
  ]
]

-- A commit that fails leaves the graph as it was.
pub commit_proposal-err :
    (F : Float) (now : String) (p : CommitPlan F.Number) (g : Graph F.Number) (e : Error)
    → (commit_proposal F now p g).0 ≡ err e
    → (commit_proposal F now p g).1 ≡ g
unfolding commit_proposal validate_commit_plan
commit_proposal-err F now p g e h = elim (Bool-cases (is_valid_plan F p)) [
  | inr bad ↦ ground arith
  | inl good ↦ elim (Result-cases (execute_plan now p g)) [
    | inr (x, refused) ↦ ground arith
    | inl ((r, w), done) ↦ ground arith
  ]
]
