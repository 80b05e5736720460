-- ===== src/Orchestrator/Outcomes.antt =====
-- The plan that ends an obligation's review, for each of the outcomes.
use sentinel_act.Prelude.{
  String, none, some, [], ◌≡◌, refl, sym, subst, Option-cases, ◌⊎◌, ◌∙◌, inl, inr, All,
}
use sentinel_act.Schema.{ObligationStatus}
use sentinel_act.Plan.{CommitPlan, no_nodes}
use sentinel_act.Orchestrator.State.{ObligationPipelineState}
use sentinel_act.Orchestrator.Plans.{
  FinalOutcome, build_finalize_commit_plan, explicit_overwrite, status_plan, finalize_instructions,
  derive_proposal_id, to_iso_date,
}

-- A plan that creates no node and no edge and replaces nothing at once.
pub record IsStatusOnly {N : Type 0} (p : CommitPlan N) : Type 0 where
  pub nodes : p.nodes ≡ no_nodes
  pub edges : p.edges ≡ []
  pub supersessions : p.supersessions ≡ []

module _ {N : Type 0} where
  -- What a plan may do that ends the review of an obligation with an outcome.
  pub record Fits (s : ObligationPipelineState N) (outcome : FinalOutcome) (p : CommitPlan N)
      : Type 0 where
    pub status_only : IsStatusOnly p
    pub own_status : All (λ t. t.obligation_id ≡ s.obligation_id) p.obligation_status_transitions
    pub closes :
        (p.finalize_supersessions ≡ [])
        ⊎ (((outcome ≡ FinalOutcome.approve) ⊎ (outcome ≡ FinalOutcome.tier_a))
            × All
                (λ f.
                  (explicit_overwrite s.mapping.overwrite_check ≡ some f.old_obligation_id)
                  × (f.new_obligation_id ≡ s.obligation_id))
                p.finalize_supersessions)

  status_only :
      {p : CommitPlan N} → p.nodes ≡ no_nodes → p.edges ≡ [] → p.supersessions ≡ [] → IsStatusOnly p
  status_only a b c = record { nodes = a; edges = b; supersessions = c }

  pub some_injective : {p q : CommitPlan N} → some p ≡ some q → p ≡ q
  some_injective h = cc

  pub tier_a-none :
      (s : ObligationPipelineState N) (date : String)
      → explicit_overwrite s.mapping.overwrite_check ≡ none
      → build_finalize_commit_plan s FinalOutcome.tier_a date ≡ none
  unfolding build_finalize_commit_plan
  tier_a-none s date nothing = rw (nothing, build_finalize_commit_plan) refl

  pub tier_a-some :
      (s : ObligationPipelineState N) (date old : String)
      → explicit_overwrite s.mapping.overwrite_check ≡ some old
      → build_finalize_commit_plan s FinalOutcome.tier_a date
        ≡ some
            (record (status_plan
              (derive_proposal_id s.run_id "finalizeCommit" s.obligation_id)
              s.obligation_id
              ObligationStatus.committed) {
                obligation_status_transitions = [];
                finalize_supersessions =
                    finalize_instructions s.obligation_id (to_iso_date date) (some old);
              })
  unfolding build_finalize_commit_plan
  tier_a-some s date old there = rw (there, build_finalize_commit_plan) (rw there refl)

  -- Whatever the outcome of the review, the plan that ends it creates no node (no review either) and
  -- no edge, moves the status of this obligation only, and closes no older obligation but the one
  -- that is explicitly overwritten, and that only for "approve" and "tier_a".
  pub build_finalize_commit_plan-Fits :
      (s : ObligationPipelineState N) (outcome : FinalOutcome) (date : String) (p : CommitPlan N)
      → build_finalize_commit_plan s outcome date ≡ some p
      → Fits s outcome p
  unfolding build_finalize_commit_plan
  build_finalize_commit_plan-Fits s FinalOutcome.reject date p h =
      subst (Fits s FinalOutcome.reject) (some_injective h) (record {
        status_only = status_only refl refl refl;
        own_status = (refl, tt);
        closes = inl refl;
      })
  build_finalize_commit_plan-Fits s FinalOutcome.disagreement date p h =
      subst (Fits s FinalOutcome.disagreement) (some_injective h) (record {
        status_only = status_only refl refl refl;
        own_status = (refl, tt);
        closes = inl refl;
      })
  build_finalize_commit_plan-Fits s FinalOutcome.approve date p h =
      subst (Fits s FinalOutcome.approve) (some_injective h) (record {
        status_only = status_only refl refl refl;
        own_status = (refl, tt);
        closes = elim (Option-cases (explicit_overwrite s.mapping.overwrite_check)) [
          | inl nothing ↦ inl (rw nothing refl)
          | inr (old, there) ↦ inr (inl refl, rw there ((refl, refl), tt))
        ];
      })
  build_finalize_commit_plan-Fits s FinalOutcome.tier_a date p h =
      elim (Option-cases (explicit_overwrite s.mapping.overwrite_check)) [
        | inl nothing ↦ let bad = sym h ∙ tier_a-none s date nothing in cc
        | inr (old, there) ↦
            subst (Fits s FinalOutcome.tier_a)
              (some_injective (sym (tier_a-some s date old there) ∙ h))
              (record {
                status_only = status_only refl refl refl;
                own_status = tt;
                closes = inr (inr refl, ((there, refl), tt));
              })
      ]
