-- ===== src/Orchestrator/Workflow/HandOver.antt =====
-- What the end of a review hands over to the ticketing.
use sentinel_act.Prelude.{
  Bool, true, false, ◌≡◌, refl, sym, ap, ◌∙◌, Option-cases, inl, inr, ok, err,
}
use sentinel_act.Prelude.Effects.{Run}
use sentinel_act.Float.{Float}
use sentinel_act.Ticketing.Outbox.{Outbox, has_in_flight_entry_for_task}
use sentinel_act.Ticketing.Intake.{handle_obligation_committed_event}
use sentinel_act.Ticketing.Sweep.{Takes, handle_obligation_committed_event-Takes, row_in_flight}
use sentinel_act.Orchestrator.State.{ObligationPipelineState}
use sentinel_act.Orchestrator.Plans.{FinalOutcome, build_finalize_commit_plan}
use sentinel_act.Orchestrator.Workflow.{World}
use sentinel_act.Orchestrator.Workflow.Finalize.{
  Moment, is_commit, committed_event, fire_ticketing_trigger, emit_final_audit, finalize_commit,
}
use sentinel_act.Orchestrator.Workflow.Ends.{finalize-cases}

-- The outbox that the trigger leaves.
abbrev pub triggered :
    {N : Type 0} → ObligationPipelineState N → FinalOutcome → Moment → Run Outbox Bool
triggered s outcome at o =
    handle_obligation_committed_event at.row_id at.ticketing_now at.ticketing_outage
      (committed_event s outcome at) o

module _ (F : Float) {S : Type 0} where
  open F use {Number}

  fire-outbox :
      (s : ObligationPipelineState Number) (outcome : FinalOutcome) (at : Moment)
      (w : World Number S)
      → is_commit outcome ≡ true
      → at.ticketing ≡ true
      → (fire_ticketing_trigger s outcome at w).outbox ≡ (triggered s outcome at w.outbox).1
  unfolding fire_ticketing_trigger
  fire-outbox s outcome at w commits configured =
      rw (commits, fire_ticketing_trigger) (simp configured refl)

  -- What an ended review fires on: a world with the outbox that was there.
  finalize-fired :
      (s : ObligationPipelineState Number) (outcome : FinalOutcome) (at : Moment)
      (w : World Number S)
      → (finalize_commit F s outcome at w).0 ≡ ok true
      → (v : World Number S) × (v.outbox ≡ w.outbox)
        × ((finalize_commit F s outcome at w).1 ≡ fire_ticketing_trigger s outcome at v)
  unfolding finalize_commit emit_final_audit
  finalize-fired s outcome at w won =
      elim (Option-cases (build_finalize_commit_plan s outcome at.effective_date)) [
        | inl nothing ↦ (emit_final_audit s outcome at w, refl, rw (nothing, finalize_commit) refl)
        | inr (p, built) ↦ elim (finalize-cases F s outcome at w p built) [
          | inl (r, done, e) ↦ (_, refl, ap (λ d. d.1) e)
          | inr (inl e) ↦ let bad : ok true ≡ ok false = sym won ∙ ap (λ d. d.0) e in cc
          | inr (inr (x, e)) ↦ let bad : ok true ≡ err x = sym won ∙ ap (λ d. d.0) e in cc
        ]
      ]

  -- A review whose end commits the obligation, by "approve" or "tier_a", is handed over to the
  -- ticketing: once it has answered `true`, a row is in flight for the obligation's task, if the
  -- ticketing is configured and its intake adds a row for the event.
  pub finalize_commit-hands_over :
      (s : ObligationPipelineState Number) (outcome : FinalOutcome) (at : Moment)
      (w : World Number S)
      → (finalize_commit F s outcome at w).0 ≡ ok true
      → is_commit outcome ≡ true
      → at.ticketing ≡ true
      → (triggered s outcome at w.outbox).0 ≡ ok true
      → has_in_flight_entry_for_task s.task_id (finalize_commit F s outcome at w).1.outbox ≡ true
  unfolding Takes
  finalize_commit-hands_over s outcome at w won commits configured accepted =
      let (v, same, fired) = finalize-fired s outcome at w won in
      let left =
        ap (λ u. u.outbox) fired
        ∙ (fire-outbox s outcome at v commits configured
            ∙ ap (λ o. (triggered s outcome at o).1) same) in
      let (mappings, taken) =
        handle_obligation_committed_event-Takes at.row_id at.ticketing_now at.ticketing_outage
          (committed_event s outcome at) w.outbox in
      ap (has_in_flight_entry_for_task s.task_id) left ∙ elim taken [
        | inl (rows, answered, no_row) ↦ absurd (no_row accepted)
        | inr (r, rows, own, named, running, added) ↦
            row_in_flight w.outbox (triggered s outcome at w.outbox).1 s.task_id r rows own running
      ]
