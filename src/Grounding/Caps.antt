-- ===== src/Grounding/Caps.antt =====
-- What the caps on the score guarantee, through the verdict to the tier.
use sentinel_act.Prelude.{
  Bool, true, false, ◌≡◌, ◌≢◌, Option, List, [], ◌∷◌, ◌++◌, arith, any, map, length, inl, inr,
}
use sentinel_act.Float.{Float}
use sentinel_act.Router.{
  Tier, Verdict, MatchPath, TierRouteInput, compute_tier_decision, normalize_has_contradiction,
}
use sentinel_act.Schema.{tier_a}
use sentinel_act.Router.Tiers.{not_pass-ne-tier_a, compute_tier_decision-escalate_iff}
use sentinel_act.Grounding.{
  FieldCase, RawFieldAssessment, FieldGroundingResult, build_field_grounding_result, sum_scores,
  cap_dropped_condition, aggregate_grounding_score, classify_verdict,
}

-- What the caps need of the arithmetic: `Math.min(x, c)` is not at least a bound that `c` is below
-- (a NaN is not at least anything), and the literals are in order.
pub record HasCaps (F : Float) : Type 0 where
  pub least_below : (x c t : F.Number) → F.lt c t ≡ true → F.le t (F.least x c) ≡ false
  pub fabricated_below : F.lt (F.dec 4 1) (F.dec 5 1) ≡ true
  pub fabricated_below_pass : F.lt (F.dec 4 1) (F.dec 75 2) ≡ true
  pub dropped_below_pass : F.lt (F.dec 6 1) (F.dec 75 2) ≡ true

module _ (F : Float) where
  -- A mark that the field at some place sets is found among the results.
  any-fabricated :
      (raw : RawFieldAssessment) (pre post : List RawFieldAssessment)
      → raw.case ≡ FieldCase.fabricated
      → any (λ f. f.fabricated) (map (build_field_grounding_result F) (pre ++ raw ∷ post)) ≡ true
  unfolding build_field_grounding_result
  any-fabricated raw [] post h = ground arith
  any-fabricated raw (x ∷ pre) post h = ground (arith, any-fabricated raw pre post h)

  any-dropped_condition :
      (raw : RawFieldAssessment) (pre post : List RawFieldAssessment)
      → raw.case ≡ FieldCase.dropped_condition
      → any (λ f. f.dropped_condition) (map (build_field_grounding_result F) (pre ++ raw ∷ post))
        ≡ true
  unfolding build_field_grounding_result
  any-dropped_condition raw [] post h = ground arith
  any-dropped_condition raw (x ∷ pre) post h = ground (arith, any-dropped_condition raw pre post h)

  -- The mean of the scores.
  abbrev mean : FieldGroundingResult F.Number → List (FieldGroundingResult F.Number) → F.Number
  mean f fs = F.div (sum_scores F (F.dec 0 0) (f ∷ fs)) (F.dec (length (f ∷ fs)) 0)

module _ (F : Float) (caps : HasCaps F) where
  fabricated-fail :
      (fs : List (FieldGroundingResult F.Number))
      → any (λ f. f.fabricated) fs ≡ true
      → classify_verdict F (aggregate_grounding_score F fs) ≡ Verdict.fail
  unfolding classify_verdict aggregate_grounding_score
  fabricated-fail [] h = cc
  fabricated-fail (f ∷ fs) h =
      let x = cap_dropped_condition F (f ∷ fs) (mean F f fs) in
      ground (
        arith,
        caps.least_below x (F.dec 4 1) (F.dec 5 1) caps.fabricated_below,
        caps.least_below x (F.dec 4 1) (F.dec 75 2) caps.fabricated_below_pass,
      )

  dropped_condition-ne-pass :
      (fs : List (FieldGroundingResult F.Number))
      → any (λ f. f.dropped_condition) fs ≡ true
      → classify_verdict F (aggregate_grounding_score F fs) ≢ Verdict.pass
  unfolding classify_verdict aggregate_grounding_score
  dropped_condition-ne-pass [] h = cc
  dropped_condition-ne-pass (f ∷ fs) h =
      let x = cap_dropped_condition F (f ∷ fs) (mean F f fs) in
      ground (
        arith,
        caps.least_below (mean F f fs) (F.dec 6 1) (F.dec 75 2) caps.dropped_below_pass,
        caps.least_below x (F.dec 4 1) (F.dec 75 2) caps.fabricated_below_pass,
      )

-- One field that the model calls fabricated, wherever it stands among the fields and whatever the
-- others say, makes the verdict "fail" and, by the contradiction flag that the orchestrator derives
-- from it, the tier "ESCALATE", at any risk, confidence and grounding score and overwrite path.
pub fabricated-escalate :
    (F : Float) (caps : HasCaps F) (raw : RawFieldAssessment) (pre post : List RawFieldAssessment)
    (i : TierRouteInput F.Number) (conflicts : Bool) (path : Option MatchPath)
    → raw.case ≡ FieldCase.fabricated
    → let fields = map (build_field_grounding_result F) (pre ++ raw ∷ post) in
      let verdict = classify_verdict F (aggregate_grounding_score F fields) in
      i.has_contradiction ≡ normalize_has_contradiction conflicts verdict
      → (verdict ≡ Verdict.fail) × ((compute_tier_decision F i verdict path).tier ≡ Tier.escalate)
fabricated-escalate F caps raw pre post i conflicts path h n =
    let failed = fabricated-fail F caps _ (any-fabricated F raw pre post h) in
    (failed, (compute_tier_decision-escalate_iff F i conflicts _ path n).1 (inr (inl failed)))

-- One field with a dropped condition, wherever it stands, keeps the obligation from being committed
-- with no human review: the verdict is not "pass" and the tier is not "A".
pub dropped_condition-ne-tier_a :
    (F : Float) (caps : HasCaps F) (raw : RawFieldAssessment) (pre post : List RawFieldAssessment)
    (i : TierRouteInput F.Number) (conflicts : Bool) (path : Option MatchPath)
    → raw.case ≡ FieldCase.dropped_condition
    → let fields = map (build_field_grounding_result F) (pre ++ raw ∷ post) in
      let verdict = classify_verdict F (aggregate_grounding_score F fields) in
      i.has_contradiction ≡ normalize_has_contradiction conflicts verdict
      → (verdict ≢ Verdict.pass)
        × ((compute_tier_decision F i verdict path).tier ≢ Tier.review tier_a)
dropped_condition-ne-tier_a F caps raw pre post i conflicts path h n =
    let not_pass = dropped_condition-ne-pass F caps _ (any-dropped_condition F raw pre post h) in
    (not_pass, not_pass-ne-tier_a F i conflicts _ path n not_pass)
