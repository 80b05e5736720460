-- ===== src/Graph/Validate.antt =====
-- The schema that a plan must meet before a transaction is opened
-- (packages/graph-db/src/commit/commit-plan-validator.ts). What the types of the model already say
-- (a field is a text, a status is one of seven) needs no test. The regular expression for a date
-- is matched code point by code point.
use Prim.Native.Char.{code}
use sentinel_act.Prelude.{
  String, Bool, true, false, not, ◌&&◌, Option, none, some, List, [], ◌∷◌, ◌==◌, ℕ, leb, eqb, all,
  Result, ok, err, validation_error, if◌then◌else◌,
}
use sentinel_act.Float.{Float, ge}
use sentinel_act.Schema.{
  Circular, Clause, Obligation, ProcessTask, EvidenceArtifact, IntermediaryCategory, HumanReview,
  GraphEdge,
}
use sentinel_act.Plan.{
  PlanNodes, CommitPlan, SupersessionInstruction, ObligationStatusTransition,
  FinalizeSupersessionInstruction,
}

-- The code points of a text.
abbrev pub codes : String → List ℕ
codes String.[] = []
codes (String.◌∷◌ c s) = code c ∷ codes s

pub data DateSign : Type 0 where
  digit dash : DateSign

abbrev matches : List DateSign → List ℕ → Bool
matches [] [] = true
matches (digit ∷ ps) (c ∷ cs) = leb b'0' c && leb c b'9' && matches ps cs
matches (dash ∷ ps) (c ∷ cs) = eqb c b'-' && matches ps cs
matches _ _ = false

-- ^\d{4}-\d{2}-\d{2}$
abbrev date_signs : List DateSign
date_signs = digit ∷ digit ∷ digit ∷ digit ∷ dash ∷ digit ∷ digit ∷ dash ∷ digit ∷ digit ∷ []

unfoldable pub is_iso_date : String → Bool
is_iso_date s = matches date_signs (codes s)

unfoldable pub is_iso_date_nullable : Option String → Bool
is_iso_date_nullable none = true
is_iso_date_nullable (some s) = is_iso_date s

unfoldable pub is_non_empty : String → Bool
is_non_empty s = not (s == "")

module _ (F : Float) where
  open F use {Number, le, dec}

  unfoldable pub is_unit_interval : Number → Bool
  is_unit_interval x = ge F x (dec 0 0) && le x (dec 1 0)

  unfoldable pub is_valid_obligation : Obligation Number → Bool
  is_valid_obligation o =
      is_iso_date o.valid_from
      && is_iso_date_nullable o.valid_to
      && is_non_empty o.obligation_id
      && is_non_empty o.derived_from_clause_id
      && is_non_empty o.category
      && is_non_empty o.requirement_text
      && is_non_empty o.trigger_event
      && is_non_empty o.deadline_rule
      && is_non_empty o.responsible_role
      && is_non_empty o.evidence_required
      && is_unit_interval o.confidence_score
      && is_unit_interval o.grounding_score

  -- `z.number().nonnegative()`
  unfoldable pub is_valid_process_task : ProcessTask Number → Bool
  is_valid_process_task t =
      is_iso_date t.valid_from
      && is_iso_date_nullable t.valid_to
      && is_non_empty t.task_id
      && is_non_empty t.obligation_id
      && is_non_empty t.task_name
      && is_non_empty t.owner_role
      && ge F t.sla_hours (dec 0 0)
      && is_non_empty t.system_touchpoint
      && is_unit_interval t.risk_score

pub is_valid_circular : Circular → Bool
is_valid_circular c =
    is_iso_date c.valid_from
    && is_iso_date_nullable c.valid_to
    && is_non_empty c.circular_id
    && is_non_empty c.title
    && is_non_empty c.type
    && is_non_empty c.category
    && is_iso_date c.date_issued
    && is_iso_date c.date_effective
    && is_non_empty c.source_hash

pub is_valid_clause : Clause → Bool
is_valid_clause c =
    is_iso_date c.valid_from
    && is_iso_date_nullable c.valid_to
    && is_non_empty c.clause_id
    && is_non_empty c.circular_id
    && is_non_empty c.para_ref
    && is_non_empty c.text

pub is_valid_evidence_artifact : EvidenceArtifact → Bool
is_valid_evidence_artifact e =
    is_iso_date e.valid_from
    && is_iso_date_nullable e.valid_to
    && is_non_empty e.evidence_id
    && is_non_empty e.task_id
    && is_non_empty e.type
    && is_non_empty e.hash
    && is_non_empty e.uploaded_at
    && is_non_empty e.uploaded_by

pub is_valid_intermediary_category : IntermediaryCategory → Bool
is_valid_intermediary_category c = is_non_empty c.category_id && is_non_empty c.name

unfoldable pub is_valid_human_review : HumanReview → Bool
is_valid_human_review r =
    is_iso_date r.valid_from
    && is_iso_date_nullable r.valid_to
    && is_non_empty r.review_id
    && is_non_empty r.obligation_id
    && is_non_empty r.reviewer_id
    && is_non_empty r.decided_at

unfoldable pub is_valid_edge : GraphEdge → Bool
is_valid_edge (GraphEdge.supersedes from to) = is_non_empty from && is_non_empty to
is_valid_edge (GraphEdge.part_of clause circular) = is_non_empty clause && is_non_empty circular
is_valid_edge (GraphEdge.derived_from obligation clause) =
    is_non_empty obligation && is_non_empty clause
is_valid_edge (GraphEdge.applies_to obligation category) =
    is_non_empty obligation && is_non_empty category
is_valid_edge (GraphEdge.mapped_to obligation task) = is_non_empty obligation && is_non_empty task
is_valid_edge (GraphEdge.evidenced_by task evidence) = is_non_empty task && is_non_empty evidence
is_valid_edge (GraphEdge.reviewed_by obligation review) =
    is_non_empty obligation && is_non_empty review

pub is_valid_supersession : SupersessionInstruction → Bool
is_valid_supersession s = is_non_empty s.old_id && is_iso_date s.effective_date

unfoldable pub is_valid_transition : ObligationStatusTransition → Bool
is_valid_transition t = is_non_empty t.obligation_id

unfoldable pub is_valid_finalize : FinalizeSupersessionInstruction → Bool
is_valid_finalize f =
    is_non_empty f.old_obligation_id
    && is_non_empty f.new_obligation_id
    && is_iso_date f.effective_date

module _ (F : Float) where
  open F use {Number}

  unfoldable pub is_valid_nodes : PlanNodes Number → Bool
  is_valid_nodes n =
      all is_valid_circular n.circulars
      && all is_valid_clause n.clauses
      && all (is_valid_obligation F) n.obligations
      && all (is_valid_process_task F) n.process_tasks
      && all is_valid_evidence_artifact n.evidence_artifacts
      && all is_valid_intermediary_category n.intermediary_categories
      && all is_valid_human_review n.human_reviews

  unfoldable pub is_valid_plan : CommitPlan Number → Bool
  is_valid_plan p =
      is_non_empty p.proposal_id
      && is_valid_nodes p.nodes
      && all is_valid_edge p.edges
      && all is_valid_supersession p.supersessions
      && all is_valid_transition p.obligation_status_transitions
      && all is_valid_finalize p.finalize_supersessions

  unfoldable pub validate_commit_plan : CommitPlan Number → Result (CommitPlan Number)
  validate_commit_plan p = if is_valid_plan p then ok p else err validation_error
