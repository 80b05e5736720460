-- ===== src/Monitoring.antt =====
-- The recording of human reviews by the monitoring and audit agent
-- (apps/orchestrator/src/mastra/agents/monitoring-and-audit.agent.ts): the one way a review
-- reaches the graph, with its entry in the ledger.
use sentinel_act.Prelude.{
  String, ℕ, zero, suc, Bool, true, false, ◌&&◌, ◌||◌, not, Option, none, some, List, [], ◌∷◌, ◌++◌,
  ◌==◌, any, find?, filter, map, length, is_empty, leb, if◌then◌else◌, Result, ok, err, guard,
  ◌>>=◌, ◌>>◌, or_throw, Error, invalid_field, same_reviewer_not_allowed, review_already_complete,
  monitoring_audit_invariant, outside, is_blank, slice_to, template,
}
use sentinel_act.Float.{Float}
use sentinel_act.Schema.{
  Recorded, HumanReview, ReviewTier, tier_a, tier_b, tier_c, ReviewDecision, same_decision,
  GraphEdge,
}
use sentinel_act.Plan.{CommitPlan, PlanNodes, no_nodes, CommitResult, EdgeType, NodeLabel}
use sentinel_act.Graph.Store.{Graph, Link, has_obligation}
use sentinel_act.Graph.Writer.{commit_proposal}
use sentinel_act.Ledger.{
  Host, Ledger, LedgerEntry, LedgerEventType, LedgerAppendInput, EntityType, ActorType, Json, Items,
  Members, LedgerQuery, query, append, get_member,
}
pub mod Review
pub mod Replay
pub mod Narrow
pub mod Effects

pub data ReviewOutcome : Type 0 where
  awaiting_second_reviewer approved rejected escalated_disagreement : ReviewOutcome

pub record HumanReviewSubmittedEvent : Type 0 where
  pub event_id : String
  pub obligation_id : String
  pub reviewer_id : String
  pub tier : ReviewTier
  -- none for a text that is neither "approve" nor "reject"
  pub decision : Option ReviewDecision
  pub rationale : Option String
  pub decided_at : Option String
  pub source : String
  pub source_ref : Option String

-- The graph and the ledger, the two stores that the agent writes.
pub record Stores (N : Type 0) : Type 0 where
  pub graph : Graph N
  pub ledger : Ledger

-- What a call meets outside: the ledger's query or the graph's read may fail, so may each attempt
-- to append; the database's and the ledger's clock, the agent's reference date and a fresh id.
pub record Surroundings : Type 0 where
  pub query_outage : Option Error
  pub read_outage : Option Error
  pub append_outage : ℕ → Option Error
  pub now : String
  pub reference_date : String
  pub review_id : String

abbrev is_approve : ReviewDecision → Bool
is_approve ReviewDecision.approve = true
is_approve ReviewDecision.reject = false

abbrev decided : ReviewDecision → ReviewOutcome
decided d = if is_approve d then ReviewOutcome.approved else ReviewOutcome.rejected

-- none where the code reads a property of no review and throws
unfoldable pub compute_review_outcome :
    ReviewTier → List (Recorded HumanReview) → Option ReviewOutcome
compute_review_outcome tier [] = none
compute_review_outcome tier_b (x ∷ []) = some (decided x.input.decision)
compute_review_outcome tier_b (x ∷ y ∷ ys) = compute_review_outcome tier_b (y ∷ ys)
compute_review_outcome tier (x ∷ []) = some ReviewOutcome.awaiting_second_reviewer
compute_review_outcome tier (x ∷ y ∷ ys) = some (
    if same_decision x.input.decision y.input.decision
    then decided x.input.decision
    else ReviewOutcome.escalated_disagreement)

abbrev is_tier_a : ReviewTier → Bool
is_tier_a tier_a = true
is_tier_a _ = false

abbrev pub is_tier_c : ReviewTier → Bool
is_tier_c tier_c = true
is_tier_c _ = false

abbrev blank_or_null : Option String → Bool
blank_or_null none = true
blank_or_null (some s) = is_blank s

-- The checks before any store is touched; what they leave is the decision.
unfoldable pub validate_event : HumanReviewSubmittedEvent → Result ReviewDecision
validate_event ev =
    guard (not (is_tier_a ev.tier)) (invalid_field "tier")
    >> or_throw ev.decision (invalid_field "decision")
    >>= λ decision.
        guard (not (is_blank ev.obligation_id)) (invalid_field "obligation_id")
        >> guard (not (is_blank ev.reviewer_id)) (invalid_field "reviewer_id")
        >> guard (not (is_tier_c ev.tier && blank_or_null ev.rationale)) (invalid_field "rationale")
        >> ok decision

-- Which texts `new Date` reads is the platform's.
unfoldable pub decided_at : (is_date_time : String → Bool) → Option String → String → String
decided_at is_date_time none reference = reference
decided_at is_date_time (some d) reference =
    if not (d == "") && is_date_time d then d else reference

unfoldable pub required_reviews : ReviewTier → ℕ
required_reviews tier = if is_tier_c tier then 2 else 1

-- (o)-[:REVIEWED_BY]->(r)
abbrev pub is_review_link : (obligation_id review_id : String) → Link → Bool
is_review_link o r l = elim l.type [
  | EdgeType.reviewed_by ↦ l.from.id == o && l.to.id == r
  | _ ↦ false
]

-- ORDER BY r.decided_at ASC
abbrev insert_review :
    (String → String → Bool)
    → Recorded HumanReview
    → List (Recorded HumanReview)
    → List (Recorded HumanReview)
insert_review le x [] = x ∷ []
insert_review le x (y ∷ ys) =
    let rest = insert_review le x ys in
    if le y.input.decided_at x.input.decided_at then y ∷ rest else x ∷ y ∷ ys

unfoldable pub sort_reviews :
    (String → String → Bool) → List (Recorded HumanReview) → List (Recorded HumanReview)
sort_reviews le [] = []
sort_reviews le (x ∷ xs) = insert_review le x (sort_reviews le xs)

module _ {N : Type 0} (H : Host) where
  -- The reviews that the graph links to an obligation, by the time of their decision.
  unfoldable pub existing_reviews : Graph N → (obligation_id : String) → List (Recorded HumanReview)
  unfolding sort_reviews
  existing_reviews g o =
      if has_obligation o g
      then sort_reviews (λ a b. Host.precedes H a b)
          (filter (λ r. any (is_review_link o r.input.review_id) g.links) g.human_reviews)
      else []

  unfoldable pub get_reviews_visible_to :
      Graph N → (obligation_id requesting_reviewer_id : String) → List (Recorded HumanReview)
  unfolding existing_reviews
  get_reviews_visible_to g o requester =
      let reviews = existing_reviews g o in
      if any (λ r. r.input.reviewer_id == requester) reviews then reviews else []

module _ {N : Type 0} where
  unfoldable pub review_plan : HumanReview → CommitPlan N
  review_plan r = record {
    proposal_id = template ("human-review-" ∷ r.review_id ∷ []);
    nodes = record no_nodes { human_reviews = r ∷ [] };
    edges = GraphEdge.reviewed_by r.obligation_id r.review_id ∷ [];
    supersessions = [];
    obligation_status_transitions = [];
    finalize_supersessions = [];
  }

  unfoldable pub assert_narrow_commit_plan : CommitPlan N → Result (Unit {0})
  assert_narrow_commit_plan p =
      guard
        (is_empty p.nodes.circulars
          && is_empty p.nodes.clauses
          && is_empty p.nodes.obligations
          && is_empty p.nodes.process_tasks
          && is_empty p.nodes.intermediary_categories)
        monitoring_audit_invariant
      >> guard (is_empty p.nodes.human_reviews || is_empty p.nodes.evidence_artifacts)
          monitoring_audit_invariant
      >> guard (is_empty p.supersessions) monitoring_audit_invariant

-- Up to as many attempts as are left, the first of a number; the last error is thrown.
unfoldable pub append_ledger_entry :
    (H : Host) (outage : ℕ → Option Error) (left attempt : ℕ)
    → Ledger
    → (timestamp : String) → LedgerAppendInput
    → Result LedgerEntry × Ledger
unfolding append
append_ledger_entry H outage zero attempt ledger t input = append H (outage attempt) ledger t input
append_ledger_entry H outage (suc left) attempt ledger t input =
    let tried = append H (outage attempt) ledger t input in
    let again = append_ledger_entry H outage left (suc attempt) tried.1 t input in
    elim tried.0 [ ok e ↦ tried | err x ↦ again ]
