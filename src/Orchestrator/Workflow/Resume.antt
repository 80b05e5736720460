-- ===== src/Orchestrator/Workflow/Resume.antt =====
-- The resuming of a run by a human review, and the starting of one
-- (`resumeOrchestratorRun` and `startOrchestratorRun` of orchestrator.workflow.ts).
use sentinel_act.Prelude.{
  String, Bool, true, false, ◌&&◌, not, Option, none, some, ◌==◌, if◌then◌else◌, Result, ok, err,
  guard, ◌>>=◌, ◌>>◌, or_throw, resume_validation, reviewer_independence, not_assigned,
}
use sentinel_act.Prelude.Map
use sentinel_act.Prelude.Effects.{Run}
use sentinel_act.Float.{Float}
use sentinel_act.Schema.{ObligationStatus}
use sentinel_act.Ledger.{Host, Json}
use sentinel_act.Monitoring.{HumanReviewSubmittedEvent, Surroundings, is_tier_c}
use sentinel_act.Monitoring.Review.{record_human_review}
use sentinel_act.Orchestrator.RunIndex.{RunIndex, StepId, Slots, find, get_claim_slots}
use sentinel_act.Orchestrator.Workflow.{
  World, AuditEvent, AuditEventKind, AuditPayload, audit, stores, with_stores, ResumeParams, Engine,
}

pub record HumanReviewSubmissionEvent : Type 0 where
  pub run_id : String
  pub step_id : StepId
  pub obligation_id : String
  pub review : HumanReviewSubmittedEvent

abbrev pub same_step : StepId → StepId → Bool
same_step StepId.await_human_review StepId.await_human_review = true
same_step StepId.await_second_human_review StepId.await_second_human_review = true
same_step _ _ = false

abbrev pub is_at : Option StepId → StepId → Bool
is_at none step = false
is_at (some s) step = same_step s step

-- FR-21: the envelope against the recorded run
unfoldable pub check_envelope : HumanReviewSubmissionEvent → RunIndex → Result (Unit {0})
check_envelope ev i =
    guard (ev.review.obligation_id == ev.obligation_id) resume_validation
    >> or_throw (find i ev.obligation_id) resume_validation
    >>= λ indexed.
        guard (indexed.0 == ev.run_id) resume_validation
        >> guard (same_step indexed.1 ev.step_id) resume_validation

-- The slot of a step, among those that are claimed.
abbrev pub assigned : StepId → Option Slots → Option String
assigned step none = none
assigned StepId.await_human_review (some s) = s.maker
assigned StepId.await_second_human_review (some s) = s.checker

abbrev pub is_reviewer : (reviewer_id : String) → Option String → Bool
is_reviewer r none = false
is_reviewer r (some s) = s == r

-- FR-20, FR-31: for tier "C", who holds the slot
unfoldable pub check_slot : HumanReviewSubmissionEvent → RunIndex → Result (Unit {0})
check_slot ev i =
    if is_tier_c ev.review.tier
    then guard
        (is_reviewer ev.review.reviewer_id
          (assigned ev.step_id (get_claim_slots i ev.obligation_id)))
        not_assigned
    else ok tt

-- FR-25: the maker is not the checker; an empty text is no maker
abbrev is_maker : Option String → (reviewer_id : String) → Bool
is_maker none r = false
is_maker (some m) r = not (m == "") && m == r

abbrev pub submitted :
    {N : Type 0}
    → HumanReviewSubmissionEvent
    → (review_outcome : Option Json) (occurred_at : String) → AuditEvent N
submitted ev outcome at = record {
  run_id = ev.run_id;
  event_id = ev.obligation_id;
  kind = AuditEventKind.human_review_submitted;
  obligation_id = ev.obligation_id;
  payload = AuditPayload.reviewed ev.review outcome;
  occurred_at = at;
}

abbrev pub resume_params :
    HumanReviewSubmissionEvent → (review_outcome : Option Json) → ResumeParams
resume_params ev outcome = record {
  run_id = ev.run_id;
  step_id = ev.step_id;
  review = ev.review;
  review_outcome = outcome;
}

module _ {N S : Type 0} (E : Engine N S) where
  unfoldable pub check_maker : HumanReviewSubmissionEvent → World N S → Result (Unit {0})
  check_maker ev w = elim ev.step_id [
    | StepId.await_human_review ↦ ok tt
    | StepId.await_second_human_review ↦ Engine.get_maker_reviewer_id E ev.run_id w >>= λ maker.
        guard (not (is_maker maker ev.review.reviewer_id)) reviewer_independence
  ]

  -- §5.3: an event that was started before is answered from the map; an empty run id is no answer
  unfoldable pub start_orchestrator_run : (event_id : String) → Run (World N S) String
  start_orchestrator_run event_id w =
      let started = Engine.start E event_id w in
      elim (Map.get w.run_of_event event_id) [
        | some run_id ↦ if run_id == "" then remember event_id started else (ok run_id, w)
        | none ↦ remember event_id started
      ]
    where
      remember : String → Result String × World N S → Result String × World N S
      remember event_id (err e, w') = (err e, w')
      remember event_id (ok run_id, w') =
          (ok run_id, record w' { run_of_event = Map.set w'.run_of_event event_id run_id })

module _ (F : Float) (H : Host) {S : Type 0} (E : Engine (Float.Number F) S) where
  open F use {Number}

  -- After the review is recorded: the audit, then the engine. The result says whether the run was
  -- resumed, and the obligation's status.
  unfoldable pub resume_recorded :
      HumanReviewSubmissionEvent
      → (review_outcome : Option Json) (occurred_at : String)
      → Run (World Number S) (Bool × Option ObligationStatus)
  resume_recorded ev outcome at w =
      let resumed =
        Engine.resume E (resume_params ev outcome) (audit (submitted ev outcome at) w) in
      (resumed.0 >>= λ status. ok (true, status), resumed.1)

  unfoldable pub record_and_resume :
      (is_date_time : String → Bool)
      → HumanReviewSubmissionEvent
      → Surroundings
      → (occurred_at : String) → Run (World Number S) (Bool × Option ObligationStatus)
  unfolding resume_recorded
  record_and_resume reads ev at occurred w =
      let recorded = record_human_review F H reads ev.review at (stores w) in
      let w' = with_stores w recorded.1 in
      elim recorded.0 [
        | err e ↦ (err e, w')
        | ok result ↦ resume_recorded ev result.review_outcome occurred w'
      ]

  -- §8: a step at which the run is not suspended any more was resumed before
  unfoldable pub resume_orchestrator_run :
      (is_date_time : String → Bool)
      → HumanReviewSubmissionEvent
      → Surroundings
      → (occurred_at : String) → Run (World Number S) (Bool × Option ObligationStatus)
  unfolding check_envelope check_maker check_slot record_and_resume
  resume_orchestrator_run reads ev at occurred w = elim (check_envelope ev w.index) [
    | err e ↦ (err e, w)
    | ok _ ↦ elim (Engine.current_suspended_step E ev.run_id w) [
      | err e ↦ (err e, w)
      | ok step ↦
          if not (is_at step ev.step_id)
          then (
            Engine.get_obligation_status E ev.obligation_id w >>= λ status. ok (false, status),
            w,
          )
          else elim (check_maker E ev w >> check_slot ev w.index) [
            | err e ↦ (err e, w)
            | ok _ ↦ record_and_resume reads ev at occurred w
          ]
    ]
  ]
