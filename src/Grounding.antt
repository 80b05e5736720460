-- ===== src/Grounding.antt =====
-- The deterministic part of grounding and verification
-- (apps/orchestrator/src/mastra/agents/grounding-scoring.ts): from the model's case for each field to
-- a score and a verdict.
pub mod Caps
use sentinel_act.Prelude.{
  ℕ, String, Bool, true, false, List, [], ◌∷◌, any, length, if◌then◌else◌, map,
}
use sentinel_act.Float.{Float, ge}
use sentinel_act.Router.{Verdict}

pub data FieldCase : Type 0 where
  directly_stated paraphrase dropped_condition fabricated legitimately_absent : FieldCase

pub data CheckableField : Type 0 where
  requirement_text trigger_event deadline_rule responsible_role evidence_required penalty_ref :
      CheckableField

pub record RawFieldAssessment : Type 0 where
  pub field : CheckableField
  pub case : FieldCase
  pub supporting_spans : List String
  pub rationale : String

pub record FieldGroundingResult (N : Type 0) : Type 0 where
  pub field : CheckableField
  pub score : N
  pub fabricated : Bool
  pub dropped_condition : Bool
  pub supporting_spans : List String
  pub rationale : String

abbrev is_fabricated : FieldCase → Bool
is_fabricated FieldCase.fabricated = true
is_fabricated _ = false

abbrev is_dropped_condition : FieldCase → Bool
is_dropped_condition FieldCase.dropped_condition = true
is_dropped_condition _ = false

module _ (F : Float) where
  open F use {Number, add, div, least, dec}

  pub score_field : FieldCase → Number
  score_field FieldCase.directly_stated = dec 10 1
  score_field FieldCase.paraphrase = dec 85 2
  score_field FieldCase.dropped_condition = dec 4 1
  score_field FieldCase.fabricated = dec 0 0
  score_field FieldCase.legitimately_absent = dec 10 1

  unfoldable pub build_field_grounding_result : RawFieldAssessment → FieldGroundingResult Number
  unfolding score_field
  build_field_grounding_result raw = record {
    field = raw.field;
    score = score_field raw.case;
    fabricated = is_fabricated raw.case;
    dropped_condition = is_dropped_condition raw.case;
    supporting_spans = raw.supporting_spans;
    rationale = raw.rationale;
  }

  -- The sum of the scores, from the left.
  pub sum_scores : Number → List (FieldGroundingResult Number) → Number
  sum_scores sum [] = sum
  sum_scores sum (f ∷ fs) = sum_scores (add sum f.score) fs

  abbrev cap_dropped_condition : List (FieldGroundingResult Number) → Number → Number
  cap_dropped_condition fs x = if any (λ f. f.dropped_condition) fs then least x (dec 6 1) else x

  abbrev cap_fabricated : List (FieldGroundingResult Number) → Number → Number
  cap_fabricated fs x = if any (λ f. f.fabricated) fs then least x (dec 4 1) else x

  unfoldable pub aggregate_grounding_score : List (FieldGroundingResult Number) → Number
  unfolding sum_scores
  aggregate_grounding_score [] = dec 0 0
  aggregate_grounding_score (f ∷ fs) = cap_fabricated (f ∷ fs) (
      cap_dropped_condition (f ∷ fs)
        (div (sum_scores (dec 0 0) (f ∷ fs)) (dec (length (f ∷ fs)) 0)))

  unfoldable pub classify_verdict : Number → Verdict
  classify_verdict score =
      if ge F score (dec 75 2)
      then Verdict.pass
      else if ge F score (dec 5 1)
      then Verdict.borderline
      else Verdict.fail
