-- ===== src/Orchestrator/Workflow/Order/Steps.antt =====
-- How a call of the resumption goes: it stops at a check, or it records the review.
use sentinel_act.Prelude.{
  String, Bool, false, Option, ◌≡◌, refl, ◌⊎◌, inl, inr, Bool-cases, Result-cases, Result, ok, err,
  Error, ◌>>◌,
}
use sentinel_act.Float.{Float}
use sentinel_act.Schema.{ObligationStatus}
use sentinel_act.Ledger.{Host}
use sentinel_act.Monitoring.{Surroundings, Stores}
use sentinel_act.Monitoring.Review.{RecordHumanReviewResult, record_human_review}
use sentinel_act.Orchestrator.Workflow.{World, stores, with_stores, Engine}
use sentinel_act.Orchestrator.Workflow.Resume.{
  HumanReviewSubmissionEvent, check_envelope, check_maker, check_slot, is_at, record_and_resume,
  resume_recorded, resume_orchestrator_run,
}

-- Whether a result says that the run was resumed.
abbrev pub was_resumed : Result (Bool × Option ObligationStatus) → Bool
was_resumed (err e) = false
was_resumed (ok answer) = answer.0

module _ (F : Float) (H : Host) {S : Type 0} (E : Engine (Float.Number F) S) where
  open F use {Number}

  -- The review is recorded by `record_human_review` on the stores of the world.
  abbrev pub recording :
      (is_date_time : String → Bool)
      → HumanReviewSubmissionEvent
      → Surroundings
      → World Number S
      → Result RecordHumanReviewResult × Stores Number
  recording reads ev at w = record_human_review F H reads ev.review at (stores w)

  abbrev pub Passes : HumanReviewSubmissionEvent → World Number S → Type 0
  Passes ev w =
      (check_envelope ev w.index ≡ ok tt) × ((check_maker E ev w >> check_slot ev w.index) ≡ ok tt)

  -- A call of the run's resumption either stops at a check, with the world as it was, or passes all
  -- of them and records the review before anything else.
  pub resume-cases :
      (reads : String → Bool) (ev : HumanReviewSubmissionEvent) (at : Surroundings)
      (occurred : String) (w : World Number S)
      → ((was_resumed (resume_orchestrator_run F H E reads ev at occurred w).0 ≡ false)
          × ((resume_orchestrator_run F H E reads ev at occurred w).1 ≡ w))
        ⊎ (Passes ev w
            × (resume_orchestrator_run F H E reads ev at occurred w
                ≡ record_and_resume F H E reads ev at occurred w))
  unfolding resume_orchestrator_run
  resume-cases reads ev at occurred w = elim (Result-cases (check_envelope ev w.index)) [
    | inr (e, refused) ↦ inl (rw (refused, resume_orchestrator_run) (refl, refl))
    | inl (u, envelope) ↦ elim (Result-cases (Engine.current_suspended_step E ev.run_id w)) [
      | inr (e, broken) ↦ inl (
          rw (envelope, resume_orchestrator_run)
            (rw (broken, resume_orchestrator_run) (refl, refl)))
      | inl (step, asked) ↦ elim (Bool-cases (is_at step ev.step_id)) [
        | inr elsewhere ↦ elim (Result-cases (Engine.get_obligation_status E ev.obligation_id w)) [
          | inl (status, told) ↦ inl (
              rw (envelope, resume_orchestrator_run)
                (rw (asked, resume_orchestrator_run) (rw elsewhere (rw told (refl, refl)))))
          | inr (e, broken) ↦ inl (
              rw (envelope, resume_orchestrator_run)
                (rw (asked, resume_orchestrator_run) (rw elsewhere (rw broken (refl, refl)))))
        ]
        | inl here ↦ elim (Result-cases (check_maker E ev w >> check_slot ev w.index)) [
          | inr (e, refused) ↦ inl (
              rw (envelope, resume_orchestrator_run)
                (rw (asked, resume_orchestrator_run) (rw here (rw refused (refl, refl)))))
          | inl (v, passed) ↦ inr (
            (envelope, passed),
            rw (envelope, resume_orchestrator_run)
                (rw (asked, resume_orchestrator_run) (rw here (rw passed refl))),
          )
        ]
      ]
    ]
  ]

  pub record_and_resume-ok :
      (reads : String → Bool) (ev : HumanReviewSubmissionEvent) (at : Surroundings)
      (occurred : String) (w : World Number S) (result : RecordHumanReviewResult)
      → (recording reads ev at w).0 ≡ ok result
      → record_and_resume F H E reads ev at occurred w
        ≡ resume_recorded F H E ev result.review_outcome occurred
            (with_stores w (recording reads ev at w).1)
  unfolding record_and_resume
  record_and_resume-ok reads ev at occurred w result done = rw (done, record_and_resume) refl

  pub record_and_resume-err :
      (reads : String → Bool) (ev : HumanReviewSubmissionEvent) (at : Surroundings)
      (occurred : String) (w : World Number S) (e : Error)
      → (recording reads ev at w).0 ≡ err e
      → record_and_resume F H E reads ev at occurred w
        ≡ (err e, with_stores w (recording reads ev at w).1)
  unfolding record_and_resume
  record_and_resume-err reads ev at occurred w e failed = rw (failed, record_and_resume) refl
