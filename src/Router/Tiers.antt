-- ===== src/Router/Tiers.antt =====
-- When an obligation is committed with no review, and when it is escalated.
use sentinel_act.Prelude.{ℕ, ◌≤◌, Bool, true, false, ◌≡◌, ◌≢◌, ◌↔◌, ◌⊎◌, Option, some, [], arith}
use sentinel_act.Float.{Float, ge}
use sentinel_act.Schema.{tier_a, tier_b, tier_c}
use sentinel_act.Router.{
  Tier, TierRouteInput, Verdict, MatchPath, compute_tier_decision, route_tier,
  normalize_has_contradiction, grounding_failure_threshold, confidence_high_threshold,
  grounding_high_threshold, risk_tier_c_threshold, risk_tier_b_threshold,
}

-- Every check that stands between a proposal and a commit with no human review.
pub record IsAutoCommit (F : Float) (i : TierRouteInput F.Number) (v : Verdict)
    (path : Option MatchPath) : Type 0 where
  pub consistent : i.has_contradiction ≡ false
  pub grounded : F.lt i.grounding_score (grounding_failure_threshold F) ≡ false
  pub below_c : ge F i.risk_score (risk_tier_c_threshold F) ≡ false
  pub below_b : ge F i.risk_score (risk_tier_b_threshold F) ≡ false
  pub confident : ge F i.confidence_score (confidence_high_threshold F) ≡ true
  pub well_grounded : ge F i.grounding_score (grounding_high_threshold F) ≡ true
  pub seen_before : i.is_first_seen_obligation_type ≡ false
  pub not_borderline : v ≢ Verdict.borderline
  pub not_heuristic : path ≢ some MatchPath.heuristic

-- Tier A, which commits with no human review, is decided exactly when every one of the checks
-- passes: no contradiction, grounding, risk and confidence on the right side of their thresholds, a
-- type seen before, no borderline verdict and no heuristic overwrite.
pub compute_tier_decision-tier_a_iff :
    (F : Float) (i : TierRouteInput F.Number) (v : Verdict) (path : Option MatchPath)
    → ((compute_tier_decision F i v path).tier ≡ Tier.review tier_a) ↔ IsAutoCommit F i v path
unfolding compute_tier_decision
compute_tier_decision-tier_a_iff F i v path = (λ h. ground arith, λ h. ground arith)

-- With the normalised contradiction flag, the decision is "ESCALATE" exactly when the verification
-- found a contradiction, its verdict is "fail", or the grounding score is below its threshold; in
-- particular no confidence or risk score and no overwrite path changes that.
pub compute_tier_decision-escalate_iff :
    (F : Float) (i : TierRouteInput F.Number) (conflicts : Bool) (v : Verdict)
    (path : Option MatchPath)
    → i.has_contradiction ≡ normalize_has_contradiction conflicts v
    → ((compute_tier_decision F i v path).tier ≡ Tier.escalate) ↔ (
        (conflicts ≡ true)
        ⊎ ((v ≡ Verdict.fail) ⊎ (F.lt i.grounding_score (grounding_failure_threshold F) ≡ true)))
unfolding compute_tier_decision normalize_has_contradiction
compute_tier_decision-escalate_iff F i conflicts v path n = (λ h. ground arith, λ h. ground arith)

-- A verdict other than "pass" never leads to Tier A.
pub not_pass-ne-tier_a :
    (F : Float) (i : TierRouteInput F.Number) (conflicts : Bool) (v : Verdict)
    (path : Option MatchPath)
    → i.has_contradiction ≡ normalize_has_contradiction conflicts v
    → v ≢ Verdict.pass
    → (compute_tier_decision F i v path).tier ≢ Tier.review tier_a
unfolding normalize_has_contradiction
not_pass-ne-tier_a F i conflicts v path n h e =
    let all = (compute_tier_decision-tier_a_iff F i v path).0 e in ground arith

abbrev pub rank : Tier → ℕ
rank (Tier.review tier_a) = 0
rank (Tier.review tier_b) = 1
rank (Tier.review tier_c) = 2
rank Tier.escalate = 3

-- The orchestrator's floors only ever raise the router's tier, to "B" at most, and every decision
-- has a reason.
pub compute_tier_decision-floors :
    (F : Float) (i : TierRouteInput F.Number) (v : Verdict) (path : Option MatchPath)
    → (rank (route_tier F i).tier ≤ rank (compute_tier_decision F i v path).tier)
      × ((compute_tier_decision F i v path).tier ≢ (route_tier F i).tier
          → (compute_tier_decision F i v path).tier ≡ Tier.review tier_b)
      × ((compute_tier_decision F i v path).reasons ≢ [])
unfolding compute_tier_decision
compute_tier_decision-floors F i v path = (ground arith, λ h. ground arith, ground arith)
