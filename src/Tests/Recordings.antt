-- ===== src/Tests/Recordings.antt =====
-- A review that is recorded, on the graph that the pre-review commit left, and what is shown of it.
use sentinel_act.Prelude.{
  String, ℕ, ◌≤◌, ◌<◌, Bool, true, none, some, [], ◌∷◌, ◌≡◌, refl, ok, err, any, length, ◌==◌,
  arith, is_blank, slice_to, template, Result, outside,
}
use sentinel_act.Prelude.Map
use sentinel_act.Schema.{HumanReview, Recorded, tier_b, ReviewDecision}
use sentinel_act.Router.{Tier}
use sentinel_act.Graph.Store.{Graph, has_obligation, create_human_review, has_node}
use sentinel_act.Graph.Writer.{
  commit_proposal, execute_plan, write_plan, plan_result, each, create_edge, match_and_create_edge,
}
use sentinel_act.Graph.Validate.{
  validate_commit_plan, is_valid_plan, is_valid_nodes, is_valid_human_review, is_valid_edge,
  is_iso_date, is_iso_date_nullable, is_non_empty,
}
use sentinel_act.Orchestrator.RunIndex.{derive_review_gate_view}
use sentinel_act.Ledger.{query, append, next_entry, get_member}
use sentinel_act.Ledger.Chain.{IsChain, IsChainFrom}
use sentinel_act.Plan.{EdgeType, NodeLabel}
use sentinel_act.Monitoring.{
  HumanReviewSubmittedEvent, Stores, Surroundings, existing_reviews, sort_reviews, validate_event,
  decided_at, required_reviews, review_plan, assert_narrow_commit_plan, append_ledger_entry,
  compute_review_outcome, ReviewOutcome, get_reviews_visible_to,
}
use sentinel_act.Monitoring.Review.{
  RecordHumanReviewResult, record_human_review, review_obligation, commit_review, log_review,
  prior_match, new_review, entry_result, review_input, review_payload,
}
use sentinel_act.Monitoring.Replay.{
  submissions, record_human_review-err, record_human_review-IsChain, record_human_review_replay,
}
use sentinel_act.Monitoring.Narrow.{SameContent, record_human_review-SameContent}
use sentinel_act.Orchestrator.Gates.{gate_view, gate_inputs, gate_view-reveal}
use sentinel_act.Tests.{hundredths, platform, start}

abbrev pub event : HumanReviewSubmittedEvent
event = record {
  event_id = "event-1";
  obligation_id = "obligation-0";
  reviewer_id = "asha";
  tier = tier_b;
  decision = some ReviewDecision.approve;
  rationale = none;
  decided_at = none;
  source = "web";
  source_ref = none;
}

abbrev pub calm : Surroundings
calm = record {
  query_outage = none;
  read_outage = none;
  append_outage = λ n. none;
  now = "2026-02-02T00:00:00Z";
  reference_date = "2026-02-02T00:00:00Z";
  review_id = "review-1";
}

abbrev before : Stores ℕ
before = record { graph = start; ledger = [] }

abbrev pub reads : String → Bool
reads s = true

record_human_review-IsChain_example :
    IsChain platform (record_human_review hundredths platform reads event calm before).1.ledger
unfolding IsChain IsChainFrom
record_human_review-IsChain_example =
    record_human_review-IsChain hundredths platform reads event calm before tt

-- With the ledger down for the query, the call fails.
abbrev pub stormy : Surroundings
stormy = record calm { query_outage = some (outside 1) }

pub storm_fails :
    (record_human_review hundredths platform reads event stormy before).0 ≡ err (outside 1)
unfolding record_human_review validate_event is_blank
storm_fails = refl

record_human_review-err_example :
    ((record_human_review hundredths platform reads event stormy before).1.ledger ≡ [])
    × (stormy.append_outage 1 ≡ none
        → (record_human_review hundredths platform reads event stormy before).1 ≡ before)
record_human_review-err_example =
    record_human_review-err hundredths platform reads event stormy before (outside 1) storm_fails

few : submissions platform [] event < 1000
unfolding submissions
few = omega arith

abbrev out : Result RecordHumanReviewResult × Stores ℕ
out = record_human_review hundredths platform reads event calm before

abbrev review : HumanReview
review = record {
  review_id = "review-1";
  obligation_id = "obligation-0";
  reviewer_id = "asha";
  tier = tier_b;
  decision = ReviewDecision.approve;
  rationale = none;
  decided_at = "2026-02-02T00:00:00Z";
  valid_from = "2026-02-02";
  valid_to = none;
}

abbrev recorded : Recorded HumanReview
recorded = record { input = review; recorded_at = "2026-02-02T00:00:00Z" }

-- The result that the first call returns.
abbrev receipt : RecordHumanReviewResult
receipt = entry_result (
    next_entry platform [] "2026-02-02T00:00:00Z" (
      review_input event "review-1"
        (review_payload event recorded ReviewOutcome.approved (recorded ∷ []))))

succeeds : out ≡ (ok receipt, out.1)
unfolding record_human_review validate_event is_blank prior_match query review_obligation
    existing_reviews has_obligation sort_reviews decided_at required_reviews commit_review
    assert_narrow_commit_plan review_plan new_review log_review append_ledger_entry append
    compute_review_outcome entry_result review_payload next_entry get_member slice_to
    commit_proposal validate_commit_plan is_valid_plan is_valid_nodes is_valid_human_review
    is_valid_edge is_iso_date is_iso_date_nullable is_non_empty execute_plan write_plan each
    create_human_review create_edge match_and_create_edge has_node plan_result template Map.get
succeeds = refl

record_human_review_replay_example :
    record_human_review hundredths platform reads event
      (record calm { review_id = "review-2" })
      out.1
    ≡ (ok receipt, out.1)
record_human_review_replay_example =
    record_human_review_replay hundredths platform reads event calm
      (record calm { review_id = "review-2" }) before out.1 receipt few succeeds refl

record_human_review-SameContent_example :
    SameContent start (record_human_review hundredths platform reads event calm before).1.graph
record_human_review-SameContent_example =
    record_human_review-SameContent hundredths platform reads event calm before

-- The obligation with that review in the graph.
abbrev reviewed : Graph ℕ
reviewed = record start {
  human_reviews = recorded ∷ [];
  links =
      record {
        type = EdgeType.reviewed_by;
        from = record { label = NodeLabel.obligation; id = "obligation-0" };
        to = record { label = NodeLabel.human_review; id = "review-1" };
      }
      ∷ [];
}

is_revealed :
    (gate_view platform reviewed "obligation-0" (Tier.review tier_b) "asha").reveal
    ≡ some (review ∷ [])
unfolding gate_view get_reviews_visible_to derive_review_gate_view existing_reviews has_obligation
    sort_reviews
is_revealed = refl

gate_view-reveal_example :
    (any (λ r. r.reviewer_id == "asha") (review ∷ []) ≡ true)
    × (review ∷ [] ≡ gate_inputs (existing_reviews platform reviewed "obligation-0"))
    × (1 ≤ length (review ∷ []))
gate_view-reveal_example =
    gate_view-reveal platform reviewed "obligation-0" (Tier.review tier_b) "asha" (review ∷ [])
      is_revealed
