-- ===== src/Monitoring/Effects.antt =====
-- What recording a review does to the two stores, on every path.
use sentinel_act.Prelude.{
  String, ℕ, zero, suc, Bool, Option, none, some, List, [], ◌∷◌, ◌++◌, ◌≡◌, ◌≢◌, ◌⊎◌, refl, ap, sym,
  subst, inl, inr, arith, Result, ok, err, Error, ledger_append_error, same_reviewer_not_allowed,
  review_already_complete, Option-cases, Bool-cases, Result-cases, any, ◌==◌, leb, length,
}
use sentinel_act.Float.{Float}
use sentinel_act.Schema.{HumanReview, Recorded, ReviewDecision, ReviewTier, tier_a, tier_b, tier_c}
use sentinel_act.Graph.Store.{Graph}
use sentinel_act.Graph.Writer.{commit_proposal}
use sentinel_act.Graph.Writer.Replay.{commit_proposal-err}
use sentinel_act.Ledger.{
  Host, Ledger, LedgerAppendInput, LedgerEntry, append, next_entry, get_member,
}
use sentinel_act.Plan.{CommitResult}
use sentinel_act.Monitoring.{
  ReviewOutcome, HumanReviewSubmittedEvent, Stores, Surroundings, append_ledger_entry,
  validate_event, compute_review_outcome, existing_reviews, required_reviews, review_plan,
  assert_narrow_commit_plan, decided_at,
}
use sentinel_act.Monitoring.Review.{
  RecordHumanReviewResult, record_human_review, review_obligation, commit_review, log_review,
  prior_match, new_review, review_input, review_payload, entry_result,
}

module _ (F : Float) (H : Host) where
  open F use {Number}

  append-up :
      (o : Option Error) (ledger : Ledger) (t : String) (input : LedgerAppendInput)
      → o ≡ none
      → append H o ledger t input
        ≡ (ok (next_entry H ledger t input), ledger ++ next_entry H ledger t input ∷ [])
  unfolding append
  append-up o ledger t input h = rw h refl

  append-down :
      (o : Option Error) (e : Error) (ledger : Ledger) (t : String) (input : LedgerAppendInput)
      → o ≡ some e
      → append H o ledger t input ≡ (err (ledger_append_error e), ledger)
  unfolding append
  append-down o e ledger t input h = rw h refl

  -- The attempts to append end with no change, and then the first one failed, or with one entry.
  append_ledger_entry-cases :
      (outage : ℕ → Option Error) (left attempt : ℕ) (ledger : Ledger) (t : String)
      (input : LedgerAppendInput)
      → ((e : Error) × (append_ledger_entry H outage left attempt ledger t input ≡ (err e, ledger))
          × (outage attempt ≢ none))
        ⊎ (append_ledger_entry H outage left attempt ledger t input
            ≡ (ok (next_entry H ledger t input), ledger ++ next_entry H ledger t input ∷ []))
  unfolding append_ledger_entry
  append_ledger_entry-cases outage zero attempt ledger t input =
      elim (Option-cases (outage attempt)) [
        | inl up ↦ inr (append-up (outage attempt) ledger t input up)
        | inr (e, down) ↦ inl (
          ledger_append_error e,
          append-down (outage attempt) e ledger t input down,
          ground arith,
        )
      ]
  append_ledger_entry-cases outage (suc left) attempt ledger t input =
      elim (Option-cases (outage attempt)) [
        | inl up ↦ inr (
            rw (append-up (outage attempt) ledger t input up, append_ledger_entry)
              (append-up (outage attempt) ledger t input up))
        | inr (e, down) ↦
            elim (append_ledger_entry-cases outage left (suc attempt) ledger t input) [
              | inl (x, same, _) ↦ inl (
                x,
                rw (append-down (outage attempt) e ledger t input down, append_ledger_entry)
                    (rw (append-down (outage attempt) e ledger t input down) same),
                ground arith,
              )
              | inr grown ↦ inr (
                  rw (append-down (outage attempt) e ledger t input down, append_ledger_entry)
                    (rw (append-down (outage attempt) e ledger t input down) grown))
            ]
      ]

  outcome-some :
      (tier : ReviewTier) (xs : List (Recorded HumanReview)) (x : Recorded HumanReview)
      → (o : ReviewOutcome) × (compute_review_outcome tier (xs ++ x ∷ []) ≡ some o)
  unfolding compute_review_outcome
  outcome-some tier_a [] x = (ReviewOutcome.awaiting_second_reviewer, refl)
  outcome-some tier_b [] x = (_, refl)
  outcome-some tier_c [] x = (ReviewOutcome.awaiting_second_reviewer, refl)
  outcome-some tier_a (y ∷ []) x = (_, refl)
  outcome-some tier_b (y ∷ []) x = (_, refl)
  outcome-some tier_c (y ∷ []) x = (_, refl)
  outcome-some tier_a (y ∷ z ∷ zs) x = (_, refl)
  outcome-some tier_b (y ∷ z ∷ zs) x = outcome-some tier_b (z ∷ zs) x
  outcome-some tier_c (y ∷ z ∷ zs) x = (_, refl)

  log_review-cases :
      (ev : HumanReviewSubmittedEvent) (at : Surroundings) (review : HumanReview)
      (existing : List (Recorded HumanReview)) (committed : CommitResult) (s : Stores Number)
      → ((e : Error) × (log_review F H ev at review existing committed s ≡ (err e, s))
          × (at.append_outage 1 ≢ none))
        ⊎ ((recorded : Recorded HumanReview) × (o : ReviewOutcome) × (e : LedgerEntry) × (log_review
                F H ev at review existing committed s
              ≡ (ok (entry_result e), record { graph = s.graph; ledger = s.ledger ++ e ∷ [] }))
            × (e
                ≡ next_entry H s.ledger at.now (
                    review_input ev review.review_id
                      (review_payload ev recorded o (existing ++ recorded ∷ [])))))
  unfolding log_review entry_result get_member next_entry review_payload
  log_review-cases ev at review existing committed s =
      let recorded : Recorded HumanReview = record {
        input = review;
        recorded_at = committed.committed_at;
      } in
      let (o, known) = outcome-some ev.tier existing recorded in
      let input =
        review_input ev review.review_id
          (review_payload ev recorded o (existing ++ recorded ∷ [])) in
      elim (append_ledger_entry-cases at.append_outage 2 1 s.ledger at.now input) [
        | inl (e, same, down) ↦ inl (e, rw (known, same, log_review) refl, down)
        | inr grown ↦ inr (
          recorded,
          o,
          next_entry H s.ledger at.now input,
          rw (known, grown, log_review) refl,
          refl,
        )
      ]

  -- What a commit of a review ends in: nothing changed; or the graph committed and the first
  -- attempt to append failed; or both stores written.
  pub data Ending (ev : HumanReviewSubmittedEvent) (at : Surroundings) (s : Stores Number)
      (out : Result RecordHumanReviewResult × Stores Number) : Type 0 where
    refused : (e : Error) → out ≡ (err e, s) → Ending ev at s out
    lagging :
        (e : Error) (g : Graph Number)
        → out ≡ (err e, record { graph = g; ledger = s.ledger })
        → at.append_outage 1 ≢ none
        → Ending ev at s out
    recorded :
        (g : Graph Number) (r : Recorded HumanReview) (o : ReviewOutcome)
        (all : List (Recorded HumanReview)) (review_id : String) (e : LedgerEntry)
        → out ≡ (ok (entry_result e), record { graph = g; ledger = s.ledger ++ e ∷ [] })
        → e ≡ next_entry H s.ledger at.now (review_input ev review_id (review_payload ev r o all))
        → Ending ev at s out

  commit_review-Ending :
      (ev : HumanReviewSubmittedEvent) (at : Surroundings) (review : HumanReview)
      (existing : List (Recorded HumanReview)) (s : Stores Number)
      → Ending ev at s (commit_review F H ev at review existing s)
  unfolding commit_review assert_narrow_commit_plan review_plan
  commit_review-Ending ev at review existing s =
      let written = commit_proposal F at.now (review_plan review) s.graph in
      let after : Stores Number = record { graph = written.1; ledger = s.ledger } in
      elim (Result-cases written.0) [
        | inr (e, failed) ↦ Ending.refused e (
            rw (failed, commit_review)
              (ap (λ g. (err e, record { graph = g; ledger = s.ledger }))
                (commit_proposal-err F at.now (review_plan review) s.graph e failed)))
        | inl (c, done) ↦ elim (log_review-cases ev at review existing c after) [
          | inl (e, same, down) ↦ Ending.lagging e written.1 (rw (done, commit_review) same) down
          | inr (r, o, e, same, entry) ↦
              Ending.recorded written.1 r o (existing ++ r ∷ []) review.review_id e
                (rw (done, commit_review) same) entry
        ]
      ]

  pub review_obligation-Ending :
      (is_date_time : String → Bool) (ev : HumanReviewSubmittedEvent) (decision : ReviewDecision)
      (at : Surroundings) (s : Stores Number)
      → Ending ev at s (review_obligation F H is_date_time ev decision at s)
  unfolding review_obligation
  review_obligation-Ending is_date_time ev decision at s =
      let existing = existing_reviews H s.graph ev.obligation_id in
      let review =
        new_review ev decision at.review_id
          (decided_at is_date_time ev.decided_at at.reference_date) in
      elim (Bool-cases (any (λ r. r.input.reviewer_id == ev.reviewer_id) existing)) [
        | inl twice ↦ rw (twice, review_obligation) (Ending.refused same_reviewer_not_allowed refl)
        | inr once ↦ elim (Bool-cases (leb (required_reviews ev.tier) (length existing))) [
          | inl full ↦
              rw (once, full, review_obligation) (Ending.refused review_already_complete refl)
          | inr fewer ↦
              rw (once, fewer, review_obligation) (commit_review-Ending ev at review existing s)
        ]
      ]

  -- The ways a call goes: refused before the reviews are read, answered from the ledger, or on to
  -- the obligation's reviews.
  pub data Course (is_date_time : String → Bool) (ev : HumanReviewSubmittedEvent)
      (at : Surroundings) (s : Stores Number) (out : Result RecordHumanReviewResult × Stores Number)
      : Type 0 where
    refused : (e : Error) → out ≡ (err e, s) → Course is_date_time ev at s out
    replayed :
        (d : ReviewDecision) (e : LedgerEntry)
        → validate_event ev ≡ ok d
        → prior_match H s.ledger ev ≡ some e
        → out ≡ (ok (entry_result e), s)
        → Course is_date_time ev at s out
    reviewed :
        (d : ReviewDecision)
        → validate_event ev ≡ ok d
        → prior_match H s.ledger ev ≡ none
        → Ending ev at s out
        → Course is_date_time ev at s out

  pub reviewed_eq :
      (is_date_time : String → Bool) (ev : HumanReviewSubmittedEvent) (at : Surroundings)
      (s : Stores Number) (d : ReviewDecision)
      → validate_event ev ≡ ok d
      → at.query_outage ≡ none
      → prior_match H s.ledger ev ≡ none
      → at.read_outage ≡ none
      → record_human_review F H is_date_time ev at s ≡ review_obligation F H is_date_time ev d at s
  unfolding record_human_review
  reviewed_eq is_date_time ev at s d good up new reads =
      rw (good, record_human_review) (rw up (rw new (rw reads refl)))

  pub record_human_review-Course :
      (is_date_time : String → Bool) (ev : HumanReviewSubmittedEvent) (at : Surroundings)
      (s : Stores Number)
      → Course is_date_time ev at s (record_human_review F H is_date_time ev at s)
  unfolding record_human_review
  record_human_review-Course is_date_time ev at s = elim (Result-cases (validate_event ev)) [
    | inr (e, bad) ↦ Course.refused e (rw (bad, record_human_review) refl)
    | inl (d, good) ↦ elim (Option-cases at.query_outage) [
      | inr (e, down) ↦ Course.refused e (rw (good, down, record_human_review) refl)
      | inl up ↦ elim (Option-cases (prior_match H s.ledger ev)) [
        | inr (entry, there) ↦
            Course.replayed d entry good there (rw (good, up, there, record_human_review) refl)
        | inl new ↦ elim (Option-cases at.read_outage) [
          | inr (e, down) ↦ Course.refused e (rw (good, up, new, down, record_human_review) refl)
          | inl reads ↦ Course.reviewed d good new (
              subst (Ending ev at s) (sym (reviewed_eq is_date_time ev at s d good up new reads))
                (review_obligation-Ending is_date_time ev d at s))
        ]
      ]
    ]
  ]
