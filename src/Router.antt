-- ===== src/Router.antt =====
-- The deterministic tier router (apps/orchestrator/src/mastra/scorers/risk-score.scorer.ts) and the
-- orchestrator's rules on top of it (FR-11 to FR-13 and FR-23 of
-- apps/orchestrator/src/mastra/workflows/orchestrator.logic.ts).
pub mod Tiers
use sentinel_act.Prelude.{
  Bool, true, false, ◌&&◌, ◌||◌, not, Option, none, some, List, [], ◌∷◌, ◌++◌, if◌then◌else◌,
  is_empty,
}
use sentinel_act.Float.{Float, ge}
use sentinel_act.Schema.{ReviewTier, tier_a, tier_b, tier_c, ObligationStatus}

-- `ReviewTier | "ESCALATE"`
pub data Tier : Type 0 where
  review : ReviewTier → Tier
  escalate : Tier

pub data TierReason : Type 0 where
  contradiction grounding_failure risk_score_tier_c risk_score_tier_b sub_threshold
        first_seen_obligation_type base_tier_a grounding_borderline_floor
        heuristic_overwrite_floor :
      TierReason

pub record TierDecision : Type 0 where
  pub tier : Tier
  pub reasons : List TierReason

pub data Verdict : Type 0 where
  pass borderline fail : Verdict

pub data MatchPath : Type 0 where
  explicit heuristic : MatchPath

pub record TierRouteInput (N : Type 0) : Type 0 where
  pub risk_score : N
  pub has_contradiction : Bool
  pub confidence_score : N
  pub grounding_score : N
  pub is_first_seen_obligation_type : Bool

pub record RiskScoreInputs (N : Type 0) : Type 0 where
  pub penalty_severity : N
  pub deadline_proximity_days : N
  pub overwrites_live_obligation : Bool

pub record RiskScoreExplain (N : Type 0) : Type 0 where
  pub inputs : RiskScoreInputs N
  pub open inputs use *
  pub risk_score : N
  pub deadline_weight : N
  pub overwrite_weight : N

abbrev pub is_tier_a : Tier → Bool
is_tier_a (Tier.review tier_a) = true
is_tier_a _ = false

abbrev is_fail : Verdict → Bool
is_fail Verdict.fail = true
is_fail _ = false

abbrev is_borderline : Verdict → Bool
is_borderline Verdict.borderline = true
is_borderline _ = false

abbrev is_heuristic : Option MatchPath → Bool
is_heuristic (some MatchPath.heuristic) = true
is_heuristic _ = false

abbrev when : Bool → TierReason → List TierReason
when b r = if b then r ∷ [] else []

module _ (F : Float) where
  open F use {Number, lt, le, add, sub, mul, div, least, most, dec}

  pub deadline_weight_of : Number → Number
  deadline_weight_of days = most (dec 0 0) (sub (dec 1 0) (div days (dec 30 0)))

  abbrev overwrite_weight_of : Bool → Number
  overwrite_weight_of b = if b then dec 3 1 else dec 0 0

  pub score_risk : RiskScoreInputs Number → Number
  unfolding deadline_weight_of
  score_risk i =
      let raw =
        add
          (add (mul i.penalty_severity (dec 5 1))
            (mul (deadline_weight_of i.deadline_proximity_days) (dec 3 1)))
          (overwrite_weight_of i.overwrites_live_obligation) in
      least (dec 1 0) (most (dec 0 0) raw)

  pub explain_risk_score : RiskScoreInputs Number → RiskScoreExplain Number
  unfolding deadline_weight_of score_risk
  explain_risk_score i = record {
    inputs = i;
    risk_score = score_risk i;
    deadline_weight = deadline_weight_of i.deadline_proximity_days;
    overwrite_weight = overwrite_weight_of i.overwrites_live_obligation;
  }

  abbrev pub grounding_failure_threshold : Number
  grounding_failure_threshold = dec 5 1

  abbrev pub confidence_high_threshold : Number
  confidence_high_threshold = dec 85 2

  abbrev pub grounding_high_threshold : Number
  grounding_high_threshold = dec 85 2

  abbrev pub risk_tier_c_threshold : Number
  risk_tier_c_threshold = dec 75 2

  abbrev pub risk_tier_b_threshold : Number
  risk_tier_b_threshold = dec 4 1

  -- The reasons for an escalation, in the order of the pushes.
  pub escalation_reasons : TierRouteInput Number → List TierReason
  escalation_reasons i =
      when i.has_contradiction TierReason.contradiction
      ++ when (lt i.grounding_score grounding_failure_threshold) TierReason.grounding_failure

  abbrev is_eligible_for_tier_a : TierRouteInput Number → Bool
  is_eligible_for_tier_a i =
      ge F i.confidence_score confidence_high_threshold
      && ge F i.grounding_score grounding_high_threshold

  -- The reasons for raising a base tier of "A" to "B".
  pub upgrade_reasons : TierRouteInput Number → List TierReason
  upgrade_reasons i =
      when (not (is_eligible_for_tier_a i)) TierReason.sub_threshold
      ++ when i.is_first_seen_obligation_type TierReason.first_seen_obligation_type

  pub route_tier : TierRouteInput Number → TierDecision
  unfolding escalation_reasons upgrade_reasons
  route_tier i =
      if not (is_empty (escalation_reasons i))
      then record { tier = Tier.escalate; reasons = escalation_reasons i }
      else if ge F i.risk_score risk_tier_c_threshold
      then record { tier = Tier.review tier_c; reasons = TierReason.risk_score_tier_c ∷ [] }
      else if ge F i.risk_score risk_tier_b_threshold
      then record { tier = Tier.review tier_b; reasons = TierReason.risk_score_tier_b ∷ [] }
      else if not (is_empty (upgrade_reasons i))
      then record { tier = Tier.review tier_b; reasons = upgrade_reasons i }
      else record { tier = Tier.review tier_a; reasons = TierReason.base_tier_a ∷ [] }

unfoldable pub normalize_has_contradiction : (conflicts : Bool) → Verdict → Bool
normalize_has_contradiction conflicts verdict = conflicts || is_fail verdict

pub apply_borderline_floor : TierDecision → Verdict → TierDecision
apply_borderline_floor d verdict =
    if is_borderline verdict && is_tier_a d.tier
    then record {
      tier = Tier.review tier_b;
      reasons = d.reasons ++ TierReason.grounding_borderline_floor ∷ [];
    }
    else d

pub apply_heuristic_overwrite_floor : TierDecision → Option MatchPath → TierDecision
apply_heuristic_overwrite_floor d path =
    if is_heuristic path && is_tier_a d.tier
    then record {
      tier = Tier.review tier_b;
      reasons = d.reasons ++ TierReason.heuristic_overwrite_floor ∷ [];
    }
    else d

unfoldable pub compute_tier_decision :
    (F : Float) → TierRouteInput F.Number → Verdict → Option MatchPath → TierDecision
unfolding route_tier apply_borderline_floor apply_heuristic_overwrite_floor
compute_tier_decision F i verdict path =
    apply_heuristic_overwrite_floor (apply_borderline_floor (route_tier F i) verdict) path

pub requires_second_review : Tier → Bool
requires_second_review (Tier.review tier_c) = true
requires_second_review Tier.escalate = true
requires_second_review _ = false

pub pre_review_status_for_tier : Tier → ObligationStatus
pre_review_status_for_tier (Tier.review tier_a) = ObligationStatus.tier_a_committed
pre_review_status_for_tier (Tier.review tier_b) = ObligationStatus.tier_b_review
pre_review_status_for_tier (Tier.review tier_c) = ObligationStatus.tier_c_review
pre_review_status_for_tier Tier.escalate = ObligationStatus.escalated
