-- ===== src/Orchestrator/Workflow/Races.antt =====
-- Two runs that close the same older obligation.
use sentinel_act.Prelude.{
  String, true, false, none, some, List, [], ◌∷◌, ◌≡◌, refl, sym, subst, ap, ◌∙◌, any, any-map, map,
  arith, inl, inr, ok, err, conflict_error, commit_error,
}
use sentinel_act.Prelude.Map
use sentinel_act.Float.{Float}
use sentinel_act.Schema.{Recorded, Obligation, ObligationStatus}
use sentinel_act.Plan.{CommitPlan}
use sentinel_act.Graph.Store.{Graph, is_live_obligation, set_status, close_obligation}
use sentinel_act.Graph.Validate.{validate_commit_plan, is_valid_plan}
use sentinel_act.Graph.Writer.{
  commit_proposal, execute_plan, write_plan, each, apply_status_transition, finalize_supersession,
}
use sentinel_act.Orchestrator.State.{ObligationPipelineState}
use sentinel_act.Orchestrator.Plans.{
  FinalOutcome, build_finalize_commit_plan, explicit_overwrite, status_plan, finalize_instructions,
  to_iso_date, derive_proposal_id,
}
use sentinel_act.Orchestrator.Outcomes.{tier_a-some, some_injective}
use sentinel_act.Orchestrator.Finalized.{
  approve-some, settled, with_status, commit_proposal-IsSettled,
}
use sentinel_act.Orchestrator.Workflow.{World, is_wrapped_conflict, is_conflict_within}
use sentinel_act.Orchestrator.Workflow.Finalize.{
  Moment, is_commit, commit_with_conflict_reconciliation, finalize_commit, conclude,
}
use sentinel_act.Orchestrator.Workflow.Ends.{finalize-cases, reconciled, concluded-graph}

module _ {N : Type 0} where
  abbrev pub IsClosed : (old : String) → Graph N → Type 0
  IsClosed old g = any (is_live_obligation old) g.obligations ≡ false

  set_status-live :
      (old id : String) (st : ObligationStatus) (xs : List (Recorded (Obligation N)))
      → any (is_live_obligation old) (map (set_status id st) xs) ≡ any (is_live_obligation old) xs
  set_status-live old id st xs =
      any-map (is_live_obligation old) (set_status id st) (λ r. ground arith) xs

  close-closed :
      (old date : String) (xs : List (Recorded (Obligation N)))
      → any (is_live_obligation old) (map (close_obligation old date) xs) ≡ false
  close-closed old date [] = refl
  close-closed old date (x ∷ xs) = ground (arith, close-closed old date xs)

  write_both-conflict :
      (now pid id old date : String) (st : ObligationStatus) (g : Graph N)
      → IsClosed old g
      → write_plan now
          (record (status_plan pid id st) {
            finalize_supersessions = finalize_instructions id date (some old);
          })
          g
        ≡ err conflict_error
  unfolding write_plan each apply_status_transition finalize_supersession
  write_both-conflict now pid id old date st g closed =
      ground (arith, set_status-live old id st g.obligations)

  write_close-conflict :
      (now pid id old date : String) (st : ObligationStatus) (g : Graph N)
      → IsClosed old g
      → write_plan now
          (record (status_plan pid id st) {
            obligation_status_transitions = [];
            finalize_supersessions = finalize_instructions id date (some old);
          })
          g
        ≡ err conflict_error
  unfolding write_plan each finalize_supersession
  write_close-conflict now pid id old date st g closed = ground arith

  write_plan-conflict :
      (s : ObligationPipelineState N) (outcome : FinalOutcome) (date now old : String)
      (p : CommitPlan N) (g : Graph N)
      → explicit_overwrite s.mapping.overwrite_check ≡ some old
      → is_commit outcome ≡ true
      → build_finalize_commit_plan s outcome date ≡ some p
      → IsClosed old g
      → write_plan now p g ≡ err conflict_error
  write_plan-conflict s FinalOutcome.reject date now old p g there commits built closed = cc
  write_plan-conflict s FinalOutcome.disagreement date now old p g there commits built closed = cc
  write_plan-conflict s FinalOutcome.approve date now old p g there commits built closed =
      subst (λ q. write_plan now q g ≡ err conflict_error)
        (some_injective (sym (approve-some s date old there) ∙ built))
        (write_both-conflict now (derive_proposal_id s.run_id "finalizeCommit" s.obligation_id)
          s.obligation_id old (to_iso_date date) ObligationStatus.committed g closed)
  write_plan-conflict s FinalOutcome.tier_a date now old p g there commits built closed =
      subst (λ q. write_plan now q g ≡ err conflict_error)
        (some_injective (sym (tier_a-some s date old there) ∙ built))
        (write_close-conflict now (derive_proposal_id s.run_id "finalizeCommit" s.obligation_id)
          s.obligation_id old (to_iso_date date) ObligationStatus.committed g closed)

  settled-closed :
      (outcome : FinalOutcome) (id old date : String) (xs : List (Recorded (Obligation N)))
      → is_commit outcome ≡ true
      → any (is_live_obligation old) (settled outcome id (some old) date xs) ≡ false
  unfolding settled
  settled-closed FinalOutcome.reject id old date xs commits = cc
  settled-closed FinalOutcome.disagreement id old date xs commits = cc
  settled-closed FinalOutcome.approve id old date xs commits =
      close-closed old date (with_status id ObligationStatus.committed xs)
  settled-closed FinalOutcome.tier_a id old date xs commits = close-closed old date xs

module _ (F : Float) where
  open F use {Number}

  commit_proposal-conflict :
      (now : String) (p : CommitPlan Number) (g : Graph Number)
      → is_valid_plan F p ≡ true
      → Map.get g.commit_log p.proposal_id ≡ none
      → write_plan now p g ≡ err conflict_error
      → commit_proposal F now p g ≡ (err (commit_error conflict_error), g)
  unfolding commit_proposal validate_commit_plan execute_plan
  commit_proposal-conflict now p g valid new conflict =
      rw (valid, commit_proposal) (rw (new, execute_plan) (rw conflict refl))

module _ (F : Float) {S : Type 0} where
  open F use {Number}

  finalize_conflict :
      (s : ObligationPipelineState Number) (outcome : FinalOutcome) (at : Moment)
      (w : World Number S) (p : CommitPlan Number)
      → build_finalize_commit_plan s outcome at.effective_date ≡ some p
      → commit_proposal F at.now p w.graph ≡ (err (commit_error conflict_error), w.graph)
      → finalize_commit F s outcome at w ≡ (ok false, reconciled F s at w)
  unfolding finalize_commit commit_with_conflict_reconciliation conclude is_wrapped_conflict
      is_conflict_within
  finalize_conflict s outcome at w p built lost =
      let answer : (commit_proposal F at.now p w.graph).0 ≡ err (commit_error conflict_error) =
        ap (λ d. d.0) lost in
      let graph : (commit_proposal F at.now p w.graph).1 ≡ w.graph = ap (λ d. d.1) lost in
      rw (built, finalize_commit) (rw (answer, commit_with_conflict_reconciliation) (rw graph refl))

  -- A run that closes an older obligation, by "approve" or "tier_a", loses if the older one is closed
  -- already: nothing of its plan is committed, not even its own status, and its answer is `false` with
  -- the race in the audit log and its obligation out of the index. Its plan is valid and not committed
  -- before.
  pub finalize_commit-loses :
      (s : ObligationPipelineState Number) (outcome : FinalOutcome) (at : Moment)
      (w : World Number S) (old : String) (p : CommitPlan Number)
      → explicit_overwrite s.mapping.overwrite_check ≡ some old
      → is_commit outcome ≡ true
      → build_finalize_commit_plan s outcome at.effective_date ≡ some p
      → is_valid_plan F p ≡ true
      → Map.get w.graph.commit_log p.proposal_id ≡ none
      → any (is_live_obligation old) w.graph.obligations ≡ false
      → finalize_commit F s outcome at w ≡ (ok false, reconciled F s at w)
  finalize_commit-loses s outcome at w old p there commits built valid new closed =
      finalize_conflict s outcome at w p built (
        commit_proposal-conflict F at.now p w.graph valid new (
          write_plan-conflict s outcome at.effective_date at.now old p w.graph there commits built
            closed))

  -- After a run has closed an older obligation, that one is closed.
  finalize_commit-closes :
      (s : ObligationPipelineState Number) (outcome : FinalOutcome) (at : Moment)
      (w : World Number S) (old : String) (p : CommitPlan Number)
      → explicit_overwrite s.mapping.overwrite_check ≡ some old
      → is_commit outcome ≡ true
      → build_finalize_commit_plan s outcome at.effective_date ≡ some p
      → Map.get w.graph.commit_log p.proposal_id ≡ none
      → (finalize_commit F s outcome at w).0 ≡ ok true
      → IsClosed old (finalize_commit F s outcome at w).1.graph
  finalize_commit-closes s outcome at w old p there commits built new won =
      elim (finalize-cases F s outcome at w p built) [
        | inr (inl e) ↦ let bad : ok true ≡ ok false = sym won ∙ ap (λ d. d.0) e in cc
        | inr (inr (x, e)) ↦ let bad : ok true ≡ err x = sym won ∙ ap (λ d. d.0) e in cc
        | inl (r, done, e) ↦
            let h = (commit_proposal F at.now p w.graph).1 in
            let written : commit_proposal F at.now p w.graph ≡ (ok r, h) = ap (λ a. (a, h)) done in
            let (obligations, reviews) =
              commit_proposal-IsSettled F s outcome at.effective_date at.now p w.graph h r built new
                written in
            subst (IsClosed old) (sym (ap (λ d. d.1.graph) e ∙ concluded-graph F s outcome at h w))
              (ap (any (is_live_obligation old)) obligations
                ∙ (ap
                      (λ o. any (is_live_obligation old) (
                        settled outcome s.obligation_id o (to_iso_date at.effective_date)
                          w.graph.obligations))
                      there
                    ∙ settled-closed outcome s.obligation_id old (to_iso_date at.effective_date)
                        w.graph.obligations commits))
      ]

  -- Of two runs that close the same older obligation only one does: once the first has answered
  -- `true`, the second, on the graph that the first left, answers `false` and leaves that graph as it
  -- is. Both plans are committed for the first time, and the second one is valid.
  pub finalize_commit-once :
      (s s' : ObligationPipelineState Number) (outcome outcome' : FinalOutcome) (at at' : Moment)
      (w w' : World Number S) (old : String) (p p' : CommitPlan Number)
      → explicit_overwrite s.mapping.overwrite_check ≡ some old
      → explicit_overwrite s'.mapping.overwrite_check ≡ some old
      → is_commit outcome ≡ true
      → is_commit outcome' ≡ true
      → build_finalize_commit_plan s outcome at.effective_date ≡ some p
      → build_finalize_commit_plan s' outcome' at'.effective_date ≡ some p'
      → Map.get w.graph.commit_log p.proposal_id ≡ none
      → (finalize_commit F s outcome at w).0 ≡ ok true
      → w'.graph ≡ (finalize_commit F s outcome at w).1.graph
      → is_valid_plan F p' ≡ true
      → Map.get w'.graph.commit_log p'.proposal_id ≡ none
      → ((finalize_commit F s' outcome' at' w').0 ≡ ok false)
        × ((finalize_commit F s' outcome' at' w').1.graph ≡ w'.graph)
  finalize_commit-once s s' outcome outcome' at at' w w' old p p' there there' commits commits'
        built built' new won after valid' new' =
      let closed =
        subst (IsClosed old) (sym after)
          (finalize_commit-closes s outcome at w old p there commits built new won) in
      let lost =
        finalize_commit-loses s' outcome' at' w' old p' there' commits' built' valid' new' closed in
      (ap (λ d. d.0) lost, ap (λ d. d.1.graph) lost)
