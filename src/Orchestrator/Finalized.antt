-- ===== src/Orchestrator/Finalized.antt =====
-- What the graph holds of the obligations after the commit that ends a review.
use sentinel_act.Prelude.{
  String, Option, none, some, true, List, [], ◌≡◌, refl, sym, ◌∙◌, subst, map, arith, ok,
  Result-cases, Bool-cases, Option-cases, inl, inr,
}
use sentinel_act.Prelude.Map
use sentinel_act.Float.{Float}
use sentinel_act.Schema.{Recorded, Obligation, ObligationStatus}
use sentinel_act.Plan.{CommitPlan, CommitResult}
use sentinel_act.Graph.Store.{Graph, set_status, close_obligation}
use sentinel_act.Graph.Validate.{validate_commit_plan, is_valid_plan}
use sentinel_act.Graph.Writer.{
  commit_proposal, execute_plan, write_plan, each, apply_status_transition, finalize_supersession,
  settle,
}
use sentinel_act.Orchestrator.Outcomes.{tier_a-none, tier_a-some, some_injective}
use sentinel_act.Orchestrator.State.{ObligationPipelineState}
use sentinel_act.Orchestrator.Plans.{
  FinalOutcome, build_finalize_commit_plan, explicit_overwrite, status_plan, finalize_instructions,
  to_iso_date, derive_proposal_id,
}

module _ {N : Type 0} where
  -- The obligations once the review of one ended: its status is the outcome's, and the one it
  -- overwrites is closed if the outcome commits it.
  abbrev pub with_status :
      (id : String)
      → ObligationStatus
      → List (Recorded (Obligation N))
      → List (Recorded (Obligation N))
  with_status id status xs = map (set_status id status) xs

  abbrev pub closing :
      Option String
      → (date : String) → List (Recorded (Obligation N))
      → List (Recorded (Obligation N))
  closing none date xs = xs
  closing (some old) date xs = map (close_obligation old date) xs

  unfoldable pub settled :
      FinalOutcome
      → (id : String) (old : Option String) (date : String) → List (Recorded (Obligation N))
      → List (Recorded (Obligation N))
  settled FinalOutcome.tier_a id old date xs = closing old date xs
  settled FinalOutcome.approve id old date xs =
      closing old date (with_status id ObligationStatus.committed xs)
  settled FinalOutcome.reject id old date xs = with_status id ObligationStatus.rejected xs
  settled FinalOutcome.disagreement id old date xs = with_status id ObligationStatus.escalated xs

  write_status-After :
      (now pid id : String) (st : ObligationStatus) (g h : Graph N)
      → write_plan now (status_plan pid id st) g ≡ ok h
      → (h.obligations ≡ with_status id st g.obligations) × (h.human_reviews ≡ g.human_reviews)
  unfolding write_plan each apply_status_transition
  write_status-After now pid id st g h e = (ground arith, ground arith)

  write_both-After :
      (now pid id old date : String) (st : ObligationStatus) (g h : Graph N)
      → write_plan now
          (record (status_plan pid id st) {
            finalize_supersessions = finalize_instructions id date (some old);
          })
          g
        ≡ ok h
      → (h.obligations ≡ closing (some old) date (with_status id st g.obligations))
        × (h.human_reviews ≡ g.human_reviews)
  unfolding write_plan each apply_status_transition finalize_supersession
  write_both-After now pid id old date st g h e = (ground arith, ground arith)

  write_close-After :
      (now pid id old date : String) (st : ObligationStatus) (g h : Graph N)
      → write_plan now
          (record (status_plan pid id st) {
            obligation_status_transitions = [];
            finalize_supersessions = finalize_instructions id date (some old);
          })
          g
        ≡ ok h
      → (h.obligations ≡ closing (some old) date g.obligations)
        × (h.human_reviews ≡ g.human_reviews)
  unfolding write_plan each apply_status_transition finalize_supersession
  write_close-After now pid id old date st g h e = (ground arith, ground arith)

  approve-none :
      (s : ObligationPipelineState N) (date : String)
      → explicit_overwrite s.mapping.overwrite_check ≡ none
      → build_finalize_commit_plan s FinalOutcome.approve date
        ≡ some (
            status_plan
              (derive_proposal_id s.run_id "finalizeCommit" s.obligation_id)
              s.obligation_id
              ObligationStatus.committed)
  unfolding build_finalize_commit_plan
  approve-none s date e = rw (e, build_finalize_commit_plan) refl

  pub approve-some :
      (s : ObligationPipelineState N) (date old : String)
      → explicit_overwrite s.mapping.overwrite_check ≡ some old
      → build_finalize_commit_plan s FinalOutcome.approve date
        ≡ some
            (record (status_plan
              (derive_proposal_id s.run_id "finalizeCommit" s.obligation_id)
              s.obligation_id
              ObligationStatus.committed) {
                finalize_supersessions =
                    finalize_instructions s.obligation_id (to_iso_date date) (some old);
              })
  unfolding build_finalize_commit_plan
  approve-some s date old e = rw (e, build_finalize_commit_plan) refl

  -- The obligations and the reviews after the plan of an outcome is written.
  abbrev pub IsSettled :
      ObligationPipelineState N → FinalOutcome → (date : String) → Graph N → Graph N → Type 0
  IsSettled s outcome date g h =
      (h.obligations
        ≡ settled outcome s.obligation_id (explicit_overwrite s.mapping.overwrite_check)
            (to_iso_date date) g.obligations)
      × (h.human_reviews ≡ g.human_reviews)

  write_plan-IsSettled :
      (s : ObligationPipelineState N) (outcome : FinalOutcome) (date now : String)
      (p : CommitPlan N) (g h : Graph N)
      → build_finalize_commit_plan s outcome date ≡ some p
      → write_plan now p g ≡ ok h
      → IsSettled s outcome date g h
  unfolding settled build_finalize_commit_plan
  write_plan-IsSettled s FinalOutcome.reject date now p g h b w =
      write_status-After now (derive_proposal_id s.run_id "finalizeCommit" s.obligation_id)
        s.obligation_id ObligationStatus.rejected g h
        (subst (λ q. write_plan now q g ≡ ok h) (sym (some_injective b)) w)
  write_plan-IsSettled s FinalOutcome.disagreement date now p g h b w =
      write_status-After now (derive_proposal_id s.run_id "finalizeCommit" s.obligation_id)
        s.obligation_id ObligationStatus.escalated g h
        (subst (λ q. write_plan now q g ≡ ok h) (sym (some_injective b)) w)
  write_plan-IsSettled s FinalOutcome.approve date now p g h b w =
      elim (Option-cases (explicit_overwrite s.mapping.overwrite_check)) [
        | inl nothing ↦ rw nothing (
            write_status-After now (derive_proposal_id s.run_id "finalizeCommit" s.obligation_id)
              s.obligation_id ObligationStatus.committed g h
              (subst (λ q. write_plan now q g ≡ ok h)
                (sym (some_injective (sym (approve-none s date nothing) ∙ b))) w))
        | inr (old, there) ↦ rw there (
            write_both-After now (derive_proposal_id s.run_id "finalizeCommit" s.obligation_id)
              s.obligation_id old (to_iso_date date) ObligationStatus.committed g h
              (subst (λ q. write_plan now q g ≡ ok h)
                (sym (some_injective (sym (approve-some s date old there) ∙ b))) w))
      ]
  write_plan-IsSettled s FinalOutcome.tier_a date now p g h b w =
      elim (Option-cases (explicit_overwrite s.mapping.overwrite_check)) [
        | inl nothing ↦ let bad = sym b ∙ tier_a-none s date nothing in cc
        | inr (old, there) ↦ rw there (
            write_close-After now (derive_proposal_id s.run_id "finalizeCommit" s.obligation_id)
              s.obligation_id old (to_iso_date date) ObligationStatus.committed g h
              (subst (λ q. write_plan now q g ≡ ok h)
                (sym (some_injective (sym (tier_a-some s date old there) ∙ b))) w))
      ]

  execute_plan-IsSettled :
      (s : ObligationPipelineState N) (outcome : FinalOutcome) (date now : String)
      (p : CommitPlan N) (g h : Graph N) (r : CommitResult)
      → build_finalize_commit_plan s outcome date ≡ some p
      → Map.get g.commit_log p.proposal_id ≡ none
      → settle (execute_plan now p g) g ≡ (ok r, h)
      → IsSettled s outcome date g h
  unfolding execute_plan
  execute_plan-IsSettled s outcome date now p g h r b new e =
      elim (Result-cases (write_plan now p g)) [
        | inr (x, failed) ↦ ground arith
        | inl (w, written) ↦
            let kept = write_plan-IsSettled s outcome date now p g w b written in
            ground (arith, kept)
      ]

commit_proposal-valid :
    (F : Float) (now : String) (p : CommitPlan F.Number) (g : Graph F.Number)
    → is_valid_plan F p ≡ true
    → commit_proposal F now p g ≡ settle (execute_plan now p g) g
unfolding commit_proposal validate_commit_plan
commit_proposal-valid F now p g good = rw (good, commit_proposal) refl

-- When the plan that ends a review is committed for the first time, exactly this becomes of the
-- obligations: the reviewed one gets the status of the outcome ("committed", "rejected",
-- "escalated", or the one it has for "tier_a"), the one that it explicitly overwrites is closed if
-- it was open and the outcome is "approve" or "tier_a", and all others and all reviews stay as they
-- are.
pub commit_proposal-IsSettled :
    (F : Float) (s : ObligationPipelineState F.Number) (outcome : FinalOutcome) (date now : String)
    (p : CommitPlan F.Number) (g h : Graph F.Number) (r : CommitResult)
    → build_finalize_commit_plan s outcome date ≡ some p
    → Map.get g.commit_log p.proposal_id ≡ none
    → commit_proposal F now p g ≡ (ok r, h)
    → IsSettled s outcome date g h
unfolding commit_proposal validate_commit_plan
commit_proposal-IsSettled F s outcome date now p g h r b new e =
    elim (Bool-cases (is_valid_plan F p)) [
      | inr bad ↦ ground arith
      | inl good ↦
          execute_plan-IsSettled s outcome date now p g h r b new
            (sym (commit_proposal-valid F now p g good) ∙ e)
    ]
