-- ===== src/Orchestrator/Workflow/Ends.antt =====
-- The end of a review, on every branch, and what two runs do that close the same obligation.
use sentinel_act.Prelude.{
  Bool, true, false, none, some, ◌≡◌, ◌≢◌, refl, sym, ap, ◌∙◌, arith, Bool-cases, Option-cases,
  Result-cases, inl, inr, ◌⊎◌, Result, ok, err, Error,
}
use sentinel_act.Float.{Float}
use sentinel_act.Plan.{CommitPlan, CommitResult}
use sentinel_act.Graph.Store.{Graph}
use sentinel_act.Graph.Writer.{commit_proposal}
use sentinel_act.Graph.Writer.Replay.{commit_proposal-err}
use sentinel_act.Orchestrator.State.{ObligationPipelineState}
use sentinel_act.Orchestrator.Plans.{FinalOutcome, build_finalize_commit_plan}
use sentinel_act.Orchestrator.RunIndex.{clear}
use sentinel_act.Orchestrator.Workflow.{World, audit, is_wrapped_conflict}
use sentinel_act.Orchestrator.Workflow.Finalize.{
  Moment, conflict_event, fire_ticketing_trigger, emit_final_audit,
  commit_with_conflict_reconciliation, finalize_commit, conclude,
}

module _ (F : Float) {S : Type 0} where
  open F use {Number}

  abbrev pub reconciled : ObligationPipelineState Number → Moment → World Number S → World Number S
  reconciled s at w = record (audit (conflict_event s at) w) {
    index = clear w.index s.obligation_id;
  }

  commit-cases :
      (s : ObligationPipelineState Number) (p : CommitPlan Number) (at : Moment)
      (w : World Number S)
      → ((r : CommitResult) × ((commit_proposal F at.now p w.graph).0 ≡ ok r)
          × (commit_with_conflict_reconciliation F s p at w
              ≡ (ok true, record w { graph = (commit_proposal F at.now p w.graph).1 })))
        ⊎ (commit_with_conflict_reconciliation F s p at w ≡ (ok false, reconciled s at w))
        ⊎ ((e : Error) × (commit_with_conflict_reconciliation F s p at w ≡ (err e, w)))
  unfolding commit_with_conflict_reconciliation
  commit-cases s p at w = elim (Result-cases (commit_proposal F at.now p w.graph).0) [
    | inl (r, done) ↦ inl (r, done, rw (done, commit_with_conflict_reconciliation) refl)
    | inr (e, failed) ↦
        let same = commit_proposal-err F at.now p w.graph e failed in
        elim (Bool-cases (is_wrapped_conflict e)) [
          | inl conflict ↦
              inr
                (inl (rw (failed, commit_with_conflict_reconciliation) (rw (conflict, same) refl)))
          | inr other ↦
              inr
                (inr (e, rw (failed, commit_with_conflict_reconciliation) (rw (other, same) refl)))
        ]
  ]

  -- The world after a review that ended with a commit.
  abbrev pub concluded :
      ObligationPipelineState Number
      → FinalOutcome
      → Moment
      → Graph Number
      → World Number S
      → World Number S
  concluded s outcome at g w =
      let audited = emit_final_audit s outcome at (record w { graph = g }) in
      fire_ticketing_trigger s outcome at
        (record audited { index = clear audited.index s.obligation_id })

  pub finalize-cases :
      (s : ObligationPipelineState Number) (outcome : FinalOutcome) (at : Moment)
      (w : World Number S) (p : CommitPlan Number)
      → build_finalize_commit_plan s outcome at.effective_date ≡ some p
      → ((r : CommitResult) × ((commit_proposal F at.now p w.graph).0 ≡ ok r)
          × (finalize_commit F s outcome at w
              ≡ (ok true, concluded s outcome at (commit_proposal F at.now p w.graph).1 w)))
        ⊎ (finalize_commit F s outcome at w ≡ (ok false, reconciled s at w))
        ⊎ ((e : Error) × (finalize_commit F s outcome at w ≡ (err e, w)))
  unfolding finalize_commit conclude
  finalize-cases s outcome at w p built =
      let through : finalize_commit F s outcome at w
          ≡ conclude F s outcome at (commit_with_conflict_reconciliation F s p at w) =
        rw (built, finalize_commit) refl in
      elim (commit-cases s p at w) [
        | inl (r, done, e) ↦ inl (r, done, through ∙ ap (conclude F s outcome at) e)
        | inr (inl e) ↦ inr (inl (through ∙ ap (conclude F s outcome at) e))
        | inr (inr (x, e)) ↦ inr (inr (x, through ∙ ap (conclude F s outcome at) e))
      ]

  pub finalize_none :
      (s : ObligationPipelineState Number) (outcome : FinalOutcome) (at : Moment)
      (w : World Number S)
      → build_finalize_commit_plan s outcome at.effective_date ≡ none
      → (finalize_commit F s outcome at w).0 ≡ ok true
  unfolding finalize_commit
  finalize_none s outcome at w nothing = rw (nothing, finalize_commit) refl

  -- The world after an answer that is not `true`.
  pub undone :
      ObligationPipelineState Number → Moment → World Number S → Result Bool → World Number S
  undone s at w (err e) = w
  undone s at w (ok b) = reconciled s at w

  -- A review whose end is not committed leaves no trace but this: an error leaves the world as it
  -- was, and the answer `false` an entry on the lost race in the audit log and an index without the
  -- obligation.
  pub finalize_commit-undone :
      (s : ObligationPipelineState Number) (outcome : FinalOutcome) (at : Moment)
      (w : World Number S)
      → (finalize_commit F s outcome at w).0 ≢ ok true
      → (finalize_commit F s outcome at w).1 ≡ undone s at w (finalize_commit F s outcome at w).0
  unfolding undone
  finalize_commit-undone s outcome at w not_true =
      elim (Option-cases (build_finalize_commit_plan s outcome at.effective_date)) [
        | inl nothing ↦ absurd (not_true (finalize_none s outcome at w nothing))
        | inr (p, built) ↦ elim (finalize-cases s outcome at w p built) [
          | inl (r, committed, e) ↦ absurd (not_true (ap (λ d. d.0) e))
          | inr (inl e) ↦ ap (λ d. d.1) e ∙ ap (undone s at w) (sym (ap (λ d. d.0) e))
          | inr (inr (x, e)) ↦ ap (λ d. d.1) e ∙ ap (undone s at w) (sym (ap (λ d. d.0) e))
        ]
      ]

  pub concluded-graph :
      (s : ObligationPipelineState Number) (outcome : FinalOutcome) (at : Moment) (g : Graph Number)
      (w : World Number S)
      → (concluded s outcome at g w).graph ≡ g
  unfolding fire_ticketing_trigger emit_final_audit
  concluded-graph s outcome at g w = ground arith
