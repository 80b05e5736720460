-- ===== src/Tests/Routing.antt =====
-- Decisions on concrete scores.
use sentinel_act.Prelude.{
  ℕ, ltb, leb, min, true, false, ◌≡◌, ◌≢◌, ◌↔◌, ◌⊎◌, ◌≤◌, refl, arith, none, [], ◌∷◌, ◌++◌, map,
}
use sentinel_act.Schema.{tier_a, tier_b}
use sentinel_act.Router.{
  Tier, TierRouteInput, Verdict, compute_tier_decision, route_tier, grounding_failure_threshold,
  normalize_has_contradiction,
}
use sentinel_act.Router.Tiers.{
  IsAutoCommit, rank, compute_tier_decision-tier_a_iff, compute_tier_decision-escalate_iff,
  compute_tier_decision-floors,
}
use sentinel_act.Grounding.{
  FieldCase, CheckableField, RawFieldAssessment, build_field_grounding_result,
  aggregate_grounding_score, classify_verdict,
}
use sentinel_act.Grounding.Caps.{HasCaps, fabricated-escalate, dropped_condition-ne-tier_a}
use sentinel_act.Tests.{hundredths}

-- A proposal that every check lets pass, and one that a contradiction stops.
abbrev confident : TierRouteInput ℕ
confident = record {
  risk_score = 20;
  has_contradiction = false;
  confidence_score = 95;
  grounding_score = 90;
  is_first_seen_obligation_type = false;
}

abbrev contradicted : TierRouteInput ℕ
contradicted = record confident { has_contradiction = true }

tier_a_example :
    ((compute_tier_decision hundredths confident Verdict.pass none).tier ≡ Tier.review tier_a)
    ↔ IsAutoCommit hundredths confident Verdict.pass none
tier_a_example = compute_tier_decision-tier_a_iff hundredths confident Verdict.pass none

confident_commits :
    (compute_tier_decision hundredths confident Verdict.pass none).tier ≡ Tier.review tier_a
unfolding compute_tier_decision
confident_commits = refl

escalate_example :
    ((compute_tier_decision hundredths contradicted Verdict.pass none).tier ≡ Tier.escalate) ↔ (
      (true ≡ true)
      ⊎ ((Verdict.pass ≡ Verdict.fail)
          ⊎ (hundredths.lt contradicted.grounding_score (grounding_failure_threshold hundredths)
              ≡ true)))
unfolding normalize_has_contradiction
escalate_example =
    compute_tier_decision-escalate_iff hundredths contradicted true Verdict.pass none refl

floors_example :
    (rank (route_tier hundredths confident).tier
      ≤ rank (compute_tier_decision hundredths confident Verdict.borderline none).tier)
    × ((compute_tier_decision hundredths confident Verdict.borderline none).tier
          ≢ (route_tier hundredths confident).tier
        → (compute_tier_decision hundredths confident Verdict.borderline none).tier
          ≡ Tier.review tier_b)
    × ((compute_tier_decision hundredths confident Verdict.borderline none).reasons ≢ [])
floors_example = compute_tier_decision-floors hundredths confident Verdict.borderline none

least_below : (x c t : ℕ) → ltb c t ≡ true → leb t (min x c) ≡ false
least_below x c t h = ground arith

hundredths-HasCaps : HasCaps hundredths
hundredths-HasCaps = record {
  least_below = least_below;
  fabricated_below = refl;
  fabricated_below_pass = refl;
  dropped_below_pass = refl;
}

abbrev assessed : FieldCase → RawFieldAssessment
assessed case = record {
  field = CheckableField.deadline_rule;
  case = case;
  supporting_spans = [];
  rationale = "read against the clause";
}

fabricated-escalate_example :
    (classify_verdict hundredths (
        aggregate_grounding_score hundredths (
          map
            (build_field_grounding_result hundredths)
            (assessed FieldCase.directly_stated ∷ [] ++ assessed FieldCase.fabricated ∷ [])))
      ≡ Verdict.fail)
    × ((compute_tier_decision hundredths contradicted
          (classify_verdict hundredths (
            aggregate_grounding_score hundredths (
              map
                (build_field_grounding_result hundredths)
                (assessed FieldCase.directly_stated ∷ [] ++ assessed FieldCase.fabricated ∷ []))))
          none).tier
        ≡ Tier.escalate)
unfolding normalize_has_contradiction classify_verdict aggregate_grounding_score
    build_field_grounding_result
fabricated-escalate_example =
    fabricated-escalate hundredths hundredths-HasCaps (assessed FieldCase.fabricated)
      (assessed FieldCase.directly_stated ∷ []) [] contradicted false none refl refl

dropped_condition-ne-tier_a_example :
    (classify_verdict hundredths (
        aggregate_grounding_score hundredths (
          map
            (build_field_grounding_result hundredths)
            (assessed FieldCase.directly_stated ∷ [] ++ assessed FieldCase.dropped_condition ∷ [])))
      ≢ Verdict.pass)
    × ((compute_tier_decision hundredths confident
          (classify_verdict hundredths (
            aggregate_grounding_score hundredths (
              map (build_field_grounding_result hundredths) (
                assessed FieldCase.directly_stated ∷ []
                ++ assessed FieldCase.dropped_condition ∷ []))))
          none).tier
        ≢ Tier.review tier_a)
unfolding normalize_has_contradiction classify_verdict aggregate_grounding_score
    build_field_grounding_result
dropped_condition-ne-tier_a_example =
    dropped_condition-ne-tier_a hundredths hundredths-HasCaps (assessed FieldCase.dropped_condition)
      (assessed FieldCase.directly_stated ∷ []) [] confident false none refl refl
