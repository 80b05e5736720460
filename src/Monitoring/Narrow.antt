-- ===== src/Monitoring/Narrow.antt =====
-- What recording a review leaves alone in the graph.
use sentinel_act.Prelude.{
  String, Bool, List, [], ◌∷◌, ◌++◌, ◌≡◌, refl, sym, subst, arith, ok, Result-cases, Bool-cases,
  Option-cases, inl, inr, any, ◌==◌, leb, length,
}
use sentinel_act.Prelude.Map
use sentinel_act.Float.{Float}
use sentinel_act.Schema.{HumanReview, Recorded, ReviewDecision}
use sentinel_act.Plan.{CommitResult}
use sentinel_act.Graph.Store.{Graph, create_human_review}
use sentinel_act.Graph.Validate.{validate_commit_plan, is_valid_plan}
use sentinel_act.Graph.Writer.{
  commit_proposal, execute_plan, write_plan, each, create_edge, match_and_create_edge, settle,
}
use sentinel_act.Ledger.{Host}
use sentinel_act.Monitoring.Effects.{reviewed_eq}
use sentinel_act.Monitoring.{
  HumanReviewSubmittedEvent, Stores, Surroundings, review_plan, existing_reviews, required_reviews,
  decided_at, validate_event, compute_review_outcome, assert_narrow_commit_plan,
}
use sentinel_act.Monitoring.Review.{
  record_human_review, review_obligation, commit_review, log_review, new_review, prior_match,
}

-- Two graphs with the same obligations, tasks, circulars and clauses.
pub record SameContent {N : Type 0} (g h : Graph N) : Type 0 where
  pub obligations : h.obligations ≡ g.obligations
  pub process_tasks : h.process_tasks ≡ g.process_tasks
  pub circulars : h.circulars ≡ g.circulars
  pub clauses : h.clauses ≡ g.clauses

same : {N : Type 0} (g : Graph N) → SameContent g g
same g = record { obligations = refl; process_tasks = refl; circulars = refl; clauses = refl }

module _ {N : Type 0} where
  write_review-obligations :
      (now : String) (r : HumanReview) (g g' : Graph N)
      → write_plan now (review_plan r) g ≡ ok g'
      → SameContent g g'
  unfolding write_plan each create_human_review create_edge match_and_create_edge review_plan
  write_review-obligations now r g g' h = record {
    obligations = ground arith;
    process_tasks = ground arith;
    circulars = ground arith;
    clauses = ground arith;
  }

  execute_review-SameContent :
      (now : String) (r : HumanReview) (g : Graph N)
      → SameContent g (settle (execute_plan now (review_plan r) g) g).1
  unfolding execute_plan review_plan
  execute_review-SameContent now r g =
      elim (Option-cases (Map.get g.commit_log (review_plan {N = N} r).proposal_id)) [
        | inr (logged, old) ↦ rw (old, settle, execute_plan) (same g)
        | inl new ↦ elim (Result-cases (write_plan now (review_plan r) g)) [
          | inr (e, failed) ↦ rw (new, settle, execute_plan) (rw failed (same g))
          | inl (g', written) ↦
              let kept = write_review-obligations now r g g' written in
              rw (new, settle, execute_plan)
                (rw written (record {
                  obligations = kept.obligations;
                  process_tasks = kept.process_tasks;
                  circulars = kept.circulars;
                  clauses = kept.clauses;
                }))
        ]
      ]

module _ (F : Float) (H : Host) where
  open F use {Number}

  commit_proposal-SameContent :
      (now : String) (r : HumanReview) (g : Graph Number)
      → SameContent g (commit_proposal F now (review_plan r) g).1
  unfolding commit_proposal validate_commit_plan
  commit_proposal-SameContent now r g = elim (Bool-cases (is_valid_plan F (review_plan r))) [
    | inr bad ↦ rw (bad, commit_proposal) (same g)
    | inl good ↦ rw (good, commit_proposal) (execute_review-SameContent now r g)
  ]

  log_review-graph :
      (ev : HumanReviewSubmittedEvent) (at : Surroundings) (review : HumanReview)
      (existing : List (Recorded HumanReview)) (committed : CommitResult) (s : Stores Number)
      → (log_review F H ev at review existing committed s).1.graph ≡ s.graph
  unfolding log_review
  log_review-graph ev at review existing committed s =
      elim (Option-cases (
        compute_review_outcome ev.tier
          (existing ++ record { input = review; recorded_at = committed.committed_at } ∷ []))) [
            | inl none_known ↦ rw (none_known, log_review) refl
            | inr (o, known) ↦ rw (known, log_review) refl
          ]

  -- From graphs to the stores that a call returns.
  abbrev Keeps : {A : Type 0} → Stores Number → A × Stores Number → Type 0
  Keeps s out = SameContent s.graph out.1.graph

  commit_review-Keeps :
      (ev : HumanReviewSubmittedEvent) (at : Surroundings) (review : HumanReview)
      (existing : List (Recorded HumanReview)) (s : Stores Number)
      → Keeps s (commit_review F H ev at review existing s)
  unfolding commit_review assert_narrow_commit_plan review_plan
  commit_review-Keeps ev at review existing s =
      let written = commit_proposal F at.now (review_plan review) s.graph in
      let after : Stores Number = record { graph = written.1; ledger = s.ledger } in
      let kept = commit_proposal-SameContent at.now review s.graph in
      elim (Result-cases written.0) [
        | inr (e, failed) ↦ rw (failed, commit_review) kept
        | inl (c, done) ↦
            rw (done, commit_review)
              (subst (SameContent s.graph) (sym (log_review-graph ev at review existing c after))
                kept)
      ]

  review_obligation-Keeps :
      (is_date_time : String → Bool) (ev : HumanReviewSubmittedEvent) (decision : ReviewDecision)
      (at : Surroundings) (s : Stores Number)
      → Keeps s (review_obligation F H is_date_time ev decision at s)
  unfolding review_obligation
  review_obligation-Keeps is_date_time ev decision at s =
      let existing = existing_reviews H s.graph ev.obligation_id in
      let review =
        new_review ev decision at.review_id
          (decided_at is_date_time ev.decided_at at.reference_date) in
      elim (Bool-cases (any (λ r. r.input.reviewer_id == ev.reviewer_id) existing)) [
        | inl twice ↦ rw (twice, review_obligation) (same s.graph)
        | inr once ↦ elim (Bool-cases (leb (required_reviews ev.tier) (length existing))) [
          | inl full ↦ rw (once, review_obligation) (rw full (same s.graph))
          | inr fewer ↦
              rw (once, review_obligation) (rw fewer (commit_review-Keeps ev at review existing s))
        ]
      ]

  -- Recording a review, however it ends, leaves every obligation with its status, every process
  -- task, circular and clause of the graph as they are.
  pub record_human_review-SameContent :
      (is_date_time : String → Bool) (ev : HumanReviewSubmittedEvent) (at : Surroundings)
      (s : Stores Number)
      → SameContent s.graph (record_human_review F H is_date_time ev at s).1.graph
  unfolding record_human_review
  record_human_review-SameContent is_date_time ev at s = elim (Result-cases (validate_event ev)) [
    | inr (e, bad) ↦ rw (bad, record_human_review) (same s.graph)
    | inl (d, good) ↦ elim (Option-cases at.query_outage) [
      | inr (e, down) ↦ rw (good, record_human_review) (rw down (same s.graph))
      | inl up ↦ elim (Option-cases (prior_match H s.ledger ev)) [
        | inr (entry, there) ↦ rw (good, record_human_review) (rw up (rw there (same s.graph)))
        | inl new ↦ elim (Option-cases at.read_outage) [
          | inr (e, down) ↦ rw (good, record_human_review) (rw up (rw new (rw down (same s.graph))))
          | inl reads ↦
              subst (Keeps s) (sym (reviewed_eq F H is_date_time ev at s d good up new reads))
                (review_obligation-Keeps is_date_time ev d at s)
        ]
      ]
    ]
  ]
