-- ===== src/Monitoring/Review.antt =====
-- `recordHumanReview` (apps/orchestrator/src/mastra/agents/monitoring-and-audit.agent.ts): its
-- checks in their order, the commit to the graph and the entry in the ledger. A result is given as
-- the JSON values that the ledger's payload holds, from which a replayed result is read.
use sentinel_act.Prelude.{
  String, Bool, false, Option, none, some, List, [], ◌∷◌, ◌++◌, ◌==◌, any, find?, length, leb,
  if◌then◌else◌, Result, ok, err, ◌>>=◌, same_reviewer_not_allowed, review_already_complete,
  outside, slice_to,
}
use sentinel_act.Float.{Float}
use sentinel_act.Schema.{Recorded, HumanReview, ReviewTier, tier_a, tier_b, tier_c, ReviewDecision}
use sentinel_act.Plan.{CommitResult}
use sentinel_act.Graph.Writer.{commit_proposal}
use sentinel_act.Ledger.{
  Host, Ledger, LedgerEntry, LedgerEventType, LedgerAppendInput, EntityType, ActorType, Json, Items,
  Members, LedgerQuery, query, get_member,
}
use sentinel_act.Monitoring.{
  ReviewOutcome, HumanReviewSubmittedEvent, Stores, Surroundings, compute_review_outcome,
  validate_event, decided_at, required_reviews, existing_reviews, review_plan,
  assert_narrow_commit_plan, append_ledger_entry,
}

pub record RecordHumanReviewResult : Type 0 where
  pub human_review : Option Json
  pub review_outcome : Option Json
  pub all_reviews_for_obligation : Option Json
  pub ledger_entry : LedgerEntry

abbrev tier_text : ReviewTier → String
tier_text tier_a = "A"
tier_text tier_b = "B"
tier_text tier_c = "C"

abbrev decision_text : ReviewDecision → String
decision_text ReviewDecision.approve = "approve"
decision_text ReviewDecision.reject = "reject"

abbrev outcome_text : ReviewOutcome → String
outcome_text ReviewOutcome.awaiting_second_reviewer = "AWAITING_SECOND_REVIEWER"
outcome_text ReviewOutcome.approved = "APPROVED"
outcome_text ReviewOutcome.rejected = "REJECTED"
outcome_text ReviewOutcome.escalated_disagreement = "ESCALATED_DISAGREEMENT"

abbrev nullable : Option String → Json
nullable none = Json.null
nullable (some s) = Json.text s

pub review_json : Recorded HumanReview → Json
review_json r = Json.object (
    Members.member "review_id" (Json.text r.input.review_id) (
      Members.member "obligation_id" (Json.text r.input.obligation_id) (
        Members.member "reviewer_id" (Json.text r.input.reviewer_id) (
          Members.member "tier" (Json.text (tier_text r.input.tier)) (
            Members.member "decision" (Json.text (decision_text r.input.decision)) (
              Members.member "rationale" (nullable r.input.rationale) (
                Members.member "decided_at" (Json.text r.input.decided_at) (
                  Members.member "valid_from" (Json.text r.input.valid_from) (
                    Members.member "valid_to" (nullable r.input.valid_to)
                      (Members.member "recorded_at" (Json.text r.recorded_at) Members.end))))))))))

pub review_items : List (Recorded HumanReview) → Items
unfolding review_json
review_items [] = Items.done
review_items (r ∷ rs) = Items.item (review_json r) (review_items rs)

-- The payload of the ledger's entry.
unfoldable pub review_payload :
    HumanReviewSubmittedEvent
    → Recorded HumanReview
    → ReviewOutcome
    → List (Recorded HumanReview)
    → Json
unfolding review_json review_items
review_payload ev r outcome all = Json.object (
    Members.member "event_id" (Json.text ev.event_id) (
      Members.member "obligation_id" (Json.text ev.obligation_id) (
        Members.member "reviewer_id" (Json.text ev.reviewer_id) (
          Members.member "tier" (Json.text (tier_text ev.tier)) (
            Members.member "decision" (Json.text (decision_text r.input.decision)) (
              Members.member "rationale" (nullable ev.rationale) (
                Members.member "decided_at" (Json.text r.input.decided_at) (
                  Members.member "source" (Json.text ev.source) (
                    Members.member "source_ref" (nullable ev.source_ref) (
                      Members.member "reviewOutcome" (Json.text (outcome_text outcome)) (
                        Members.member "humanReview" (review_json r) (
                          Members.member "allReviewsForObligation" (Json.array (review_items all))
                            Members.end))))))))))))

abbrev pub review_input :
    HumanReviewSubmittedEvent → (review_id : String) → Json → LedgerAppendInput
review_input ev review_id payload = record {
  event_type = LedgerEventType.human_review_submitted;
  actor = record { type = ActorType.human; id = ev.reviewer_id };
  entity_ref = record { entity_type = some EntityType.human_review; entity_id = some review_id };
  payload = payload;
}

-- The result that an entry of the ledger answers for.
unfoldable pub entry_result : LedgerEntry → RecordHumanReviewResult
unfolding get_member
entry_result e = record {
  human_review = get_member e.payload "humanReview";
  review_outcome = get_member e.payload "reviewOutcome";
  all_reviews_for_obligation = get_member e.payload "allReviewsForObligation";
  ledger_entry = e;
}

abbrev is_text : Option Json → String → Bool
is_text (some (Json.text s)) t = s == t
is_text _ t = false

abbrev pub submissions_query : (obligation_id : String) → LedgerQuery
submissions_query o = record {
  entity_type = some (some EntityType.obligation);
  entity_id = some o;
  event_types = LedgerEventType.human_review_submitted ∷ [];
  from_timestamp = none;
  to_timestamp = none;
  from_sequence = none;
  to_sequence = none;
  limit = some 1000;
}

abbrev pub is_event : (event_id : String) → LedgerEntry → Bool
is_event id e = is_text (get_member e.payload "event_id") id

unfoldable pub prior_match : Host → Ledger → HumanReviewSubmittedEvent → Option LedgerEntry
prior_match H ledger ev =
    find? (is_event ev.event_id) (query H ledger (submissions_query ev.obligation_id))

unfoldable pub new_review :
    HumanReviewSubmittedEvent → ReviewDecision → (review_id decided_at : String) → HumanReview
new_review ev decision review_id at = record {
  review_id = review_id;
  obligation_id = ev.obligation_id;
  reviewer_id = ev.reviewer_id;
  tier = ev.tier;
  decision = decision;
  rationale = ev.rationale;
  decided_at = at;
  valid_from = slice_to 10 at;
  valid_to = none;
}

module _ (F : Float) (H : Host) where
  open F use {Number}

  -- After the commit: the outcome, the entry in the ledger, the result.
  unfoldable pub log_review :
      HumanReviewSubmittedEvent
      → Surroundings
      → HumanReview
      → List (Recorded HumanReview)
      → CommitResult
      → Stores Number
      → Result RecordHumanReviewResult × Stores Number
  unfolding review_payload append_ledger_entry compute_review_outcome
  log_review ev at review existing committed s =
      let recorded : Recorded HumanReview = record {
        input = review;
        recorded_at = committed.committed_at;
      } in
      let all = existing ++ recorded ∷ [] in
      elim (compute_review_outcome ev.tier all) [
        | none ↦ (err (outside 0), s)
        | some outcome ↦
            let payload = review_payload ev recorded outcome all in
            let logged =
              append_ledger_entry H at.append_outage 2 1 s.ledger at.now
                (review_input ev review.review_id payload) in
            (
              logged.0 >>= λ e. ok (record {
                human_review = some (review_json recorded);
                review_outcome = some (Json.text (outcome_text outcome));
                all_reviews_for_obligation = some (Json.array (review_items all));
                ledger_entry = e;
              }),
              record { graph = s.graph; ledger = logged.1 },
            )
      ]

  -- The commit of a review that no check refuses.
  unfoldable pub commit_review :
      HumanReviewSubmittedEvent
      → Surroundings
      → HumanReview
      → List (Recorded HumanReview)
      → Stores Number
      → Result RecordHumanReviewResult × Stores Number
  unfolding log_review review_plan assert_narrow_commit_plan
  commit_review ev at review existing s =
      let plan = review_plan review in
      let written = commit_proposal F at.now plan s.graph in
      let s' : Stores Number = record { graph = written.1; ledger = s.ledger } in
      elim (assert_narrow_commit_plan {N = Number} plan) [
        | err e ↦ (err e, s)
        | ok _ ↦ elim written.0 [
          | err e ↦ (err e, s')
          | ok committed ↦ log_review ev at review existing committed s'
        ]
      ]

  -- The checks against the reviews that are there.
  unfoldable pub review_obligation :
      (is_date_time : String → Bool)
      → HumanReviewSubmittedEvent
      → ReviewDecision
      → Surroundings
      → Stores Number
      → Result RecordHumanReviewResult × Stores Number
  unfolding commit_review new_review decided_at required_reviews existing_reviews
  review_obligation is_date_time ev decision at s =
      let existing = existing_reviews H s.graph ev.obligation_id in
      let at_time = decided_at is_date_time ev.decided_at at.reference_date in
      if any (λ r. r.input.reviewer_id == ev.reviewer_id) existing
      then (err same_reviewer_not_allowed, s)
      else (if leb (required_reviews ev.tier) (length existing)
          then (err review_already_complete, s)
          else commit_review ev at (new_review ev decision at.review_id at_time) existing s)

  unfoldable pub record_human_review :
      (is_date_time : String → Bool)
      → HumanReviewSubmittedEvent
      → Surroundings
      → Stores Number
      → Result RecordHumanReviewResult × Stores Number
  unfolding validate_event prior_match review_obligation entry_result
  record_human_review is_date_time ev at s = elim (validate_event ev) [
    | err e ↦ (err e, s)
    | ok decision ↦ elim at.query_outage [
      | some e ↦ (err e, s)
      | none ↦ elim (prior_match H s.ledger ev) [
        | some entry ↦ (ok (entry_result entry), s)
        | none ↦ elim at.read_outage [
          | some e ↦ (err e, s)
          | none ↦ review_obligation is_date_time ev decision at s
        ]
      ]
    ]
  ]
