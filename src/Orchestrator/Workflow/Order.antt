-- ===== src/Orchestrator/Workflow/Order.antt =====
-- In which order a resumed run does things, and who may resume it.
use sentinel_act.Prelude.{
  String, Bool, true, false, Option, none, some, List, [], ◌∷◌, ◌++◌, ◌≡◌, ◌≢◌, refl, sym, subst,
  ap, ◌∙◌, ◌⊎◌, inl, inr, arith, eq_iff, Bool-cases, Option-cases, Result-cases, Result, ok, err,
  Error, ◌>>◌, guard-ok, second-ok, not_assigned,
}
use sentinel_act.Float.{Float}
use sentinel_act.Schema.{ObligationStatus, tier_c}
use sentinel_act.Ledger.{Host, Json}
use sentinel_act.Monitoring.{Surroundings, Stores, is_tier_c}
use sentinel_act.Monitoring.Replay.{record_human_review-err}
use sentinel_act.Monitoring.Review.{RecordHumanReviewResult, record_human_review}
use sentinel_act.Orchestrator.RunIndex.{RunIndex, StepId, Slots, get_claim_slots, new_index}
use sentinel_act.Orchestrator.RunIndex.Claims.{
  Op, run, IsFair, IsIndependent, run-IsIndependent, new_index-IsIndependent,
}
use sentinel_act.Orchestrator.Workflow.{
  World, stores, with_stores, Engine, AuditEventKind, AuditPayload,
}
use sentinel_act.Orchestrator.Workflow.Resume.{
  HumanReviewSubmissionEvent, check_envelope, check_maker, check_slot, is_at, assigned, is_reviewer,
  record_and_resume, resume_recorded, resume_orchestrator_run,
}
mod Steps
unfoldable pub use Steps.*

module _ (F : Float) (H : Host) {S : Type 0} (E : Engine (Float.Number F) S) where
  open F use {Number}

  -- The call of the engine that a recorded review asks for: for the run and the step of the
  -- submission, with its review and the outcome of the recording, from a world that has what the
  -- recording wrote and, at the end of its audit log, the submission with the review and that outcome.
  unfoldable pub asks_engine :
      (ev : HumanReviewSubmissionEvent) (outcome : Option Json) (occurred : String)
      (recorded : Stores Number) (w : World Number S)
      → Result (Option ObligationStatus) × World Number S
  asks_engine ev outcome occurred recorded w =
      Engine.resume E
        (record {
          run_id = ev.run_id;
          step_id = ev.step_id;
          review = ev.review;
          review_outcome = outcome;
        })
        (record {
          graph = recorded.graph;
          ledger = recorded.ledger;
          index = w.index;
          audits =
              w.audits
              ++ record {
                run_id = ev.run_id;
                event_id = ev.obligation_id;
                kind = AuditEventKind.human_review_submitted;
                obligation_id = ev.obligation_id;
                payload = AuditPayload.reviewed ev.review outcome;
                occurred_at = occurred;
              }
                ∷ [];
          outbox = w.outbox;
          run_of_event = w.run_of_event;
          engine = w.engine;
        })

  resume_recorded-asks :
      (ev : HumanReviewSubmissionEvent) (outcome : Option Json) (occurred : String)
      (recorded : Stores Number) (w : World Number S)
      → was_resumed (resume_recorded F H E ev outcome occurred (with_stores w recorded)).0 ≡ true
      → (status : Option ObligationStatus) × ((asks_engine ev outcome occurred recorded w).0
          ≡ ok status)
        × (resume_recorded F H E ev outcome occurred (with_stores w recorded)
            ≡ (ok (true, status), (asks_engine ev outcome occurred recorded w).1))
  unfolding resume_recorded asks_engine
  resume_recorded-asks ev outcome occurred recorded w resumed =
      elim (Result-cases (asks_engine ev outcome occurred recorded w).0) [
        | inl (status, answered) ↦ (status, answered, rw (answered, resume_recorded) refl)
        | inr (e, thrown) ↦
            let stopped : was_resumed
                  (resume_recorded F H E ev outcome occurred (with_stores w recorded)).0
                ≡ false =
              rw (thrown, resume_recorded) refl in
            let bad : true ≡ false = sym resumed ∙ stopped in cc
      ]

  -- If a run is resumed, its review was recorded, and the status that comes back and the world that is
  -- left are those of one call of the engine, which does not throw: a call for the submission's run
  -- and step, with its review and the outcome of the recording, that starts after the recording was
  -- written and the submission was audited with that outcome.
  pub resume_orchestrator_run-recorded :
      (reads : String → Bool) (ev : HumanReviewSubmissionEvent) (at : Surroundings)
      (occurred : String) (w : World Number S)
      → was_resumed (resume_orchestrator_run F H E reads ev at occurred w).0 ≡ true
      → (result : RecordHumanReviewResult) × ((recording F H E reads ev at w).0 ≡ ok result)
        × ((status : Option ObligationStatus) × ((asks_engine ev result.review_outcome occurred
                (recording F H E reads ev at w).1
                w).0
              ≡ ok status)
            × (resume_orchestrator_run F H E reads ev at occurred w ≡ (
              ok (true, status),
              (asks_engine ev result.review_outcome occurred (recording F H E reads ev at w).1 w).1,
            )))
  resume_orchestrator_run-recorded reads ev at occurred w resumed =
      elim (resume-cases F H E reads ev at occurred w) [
        | inl (stopped, same) ↦ let bad : true ≡ false = sym resumed ∙ stopped in cc
        | inr (passed, through) ↦ elim (Result-cases (recording F H E reads ev at w).0) [
          | inl (result, done) ↦
              let whole = through ∙ record_and_resume-ok F H E reads ev at occurred w result done in
              let (status, answered, left) =
                resume_recorded-asks ev result.review_outcome occurred
                  (recording F H E reads ev at w).1 w
                  (sym (ap (λ r. was_resumed r.0) whole) ∙ resumed) in
              (result, done, (status, answered, whole ∙ left))
          | inr (e, failed) ↦
              let ended = through ∙ record_and_resume-err F H E reads ev at occurred w e failed in
              let bad : true ≡ false = sym resumed ∙ ap (λ r. was_resumed r.0) ended in cc
        ]
      ]

  -- If the recording of the review fails, the run is not resumed: the engine, the index of the
  -- suspended runs, the audit log and the ledger stay as they were.
  pub resume_orchestrator_run-unrecorded :
      (reads : String → Bool) (ev : HumanReviewSubmissionEvent) (at : Surroundings)
      (occurred : String) (w : World Number S) (e : Error)
      → (recording F H E reads ev at w).0 ≡ err e
      → (was_resumed (resume_orchestrator_run F H E reads ev at occurred w).0 ≡ false)
        × ((resume_orchestrator_run F H E reads ev at occurred w).1.engine ≡ w.engine)
        × ((resume_orchestrator_run F H E reads ev at occurred w).1.index ≡ w.index)
        × ((resume_orchestrator_run F H E reads ev at occurred w).1.audits ≡ w.audits)
        × ((resume_orchestrator_run F H E reads ev at occurred w).1.ledger ≡ w.ledger)
  resume_orchestrator_run-unrecorded reads ev at occurred w e failed =
      elim (resume-cases F H E reads ev at occurred w) [
        | inl (stopped, same) ↦ (
          stopped,
          ap (λ v. v.engine) same,
          ap (λ v. v.index) same,
          ap (λ v. v.audits) same,
          ap (λ v. v.ledger) same,
        )
        | inr (passed, through) ↦
            let ended = through ∙ record_and_resume-err F H E reads ev at occurred w e failed in
            (
              ap (λ r. was_resumed r.0) ended,
              ap (λ r. r.1.engine) ended,
              ap (λ r. r.1.index) ended,
              ap (λ r. r.1.audits) ended,
              ap (λ r. r.1.ledger) ended
                  ∙ (record_human_review-err F H reads ev.review at (stores w) e failed).0,
            )
      ]

  slot_held :
      (ev : HumanReviewSubmissionEvent) (i : RunIndex)
      → is_tier_c ev.review.tier ≡ true
      → check_slot ev i ≡ ok tt
      → assigned ev.step_id (get_claim_slots i ev.obligation_id) ≡ some ev.review.reviewer_id
  unfolding check_slot
  slot_held ev i tier passed =
      let slot = assigned ev.step_id (get_claim_slots i ev.obligation_id) in
      holder slot ev.review.reviewer_id (
        guard-ok (is_reviewer ev.review.reviewer_id slot) not_assigned
          (sym (rw tier refl) ∙ passed))
    where
      holder : (o : Option String) (r : String) → is_reviewer r o ≡ true → o ≡ some r
      holder none r h = cc
      holder (some s) r h = ap some ((eq_iff s r).0 h)

  second_slots :
      (found : Option Slots) (r : String)
      → assigned StepId.await_second_human_review found ≡ some r
      → (s : Slots) × (found ≡ some s) × (s.checker ≡ some r)
  second_slots none r h = cc
  second_slots (some s) r h = (s, refl, h)

  fair_maker :
      (s : Slots) (r : String)
      → IsFair s
      → s.checker ≡ some r
      → (m : String) × (s.maker ≡ some m) × (m ≢ r)
  unfolding IsFair
  fair_maker s r fair held = elim (Option-cases s.maker) [
    | inl unset ↦
        let open_too : s.checker ≡ none = subst_maker unset in
        let bad : some r ≡ none = sym held ∙ open_too in cc
    | inr (m, set_maker) ↦
        (m, set_maker, λ same. subst_other m set_maker (held ∙ ap some (sym same)))
  ]
    where
      subst_maker : s.maker ≡ none → s.checker ≡ none
      subst_maker e = ground arith

      subst_other : (m : String) → s.maker ≡ some m → s.checker ≡ some m → ⊥
      subst_other m e h = ground arith

  -- A second review that is submitted as one of tier C, which is the submission's own word, only
  -- resumes its run if the reviewer holds the checker's slot and somebody else holds the maker's,
  -- whatever claims, suspensions, reminders and clearings the index has gone through.
  pub resume_orchestrator_run-two_reviewers :
      (reads : String → Bool) (ev : HumanReviewSubmissionEvent) (at : Surroundings)
      (occurred : String) (w : World Number S) (ops : List Op)
      → w.index ≡ run new_index ops
      → ev.step_id ≡ StepId.await_second_human_review
      → ev.review.tier ≡ tier_c
      → was_resumed (resume_orchestrator_run F H E reads ev at occurred w).0 ≡ true
      → (s : Slots) × (get_claim_slots w.index ev.obligation_id ≡ some s)
        × (s.checker ≡ some ev.review.reviewer_id)
        × ((m : String) × (s.maker ≡ some m) × (m ≢ ev.review.reviewer_id))
  unfolding IsIndependent get_claim_slots
  resume_orchestrator_run-two_reviewers reads ev at occurred w ops history second tier resumed =
      elim (resume-cases F H E reads ev at occurred w) [
        | inl (stopped, same) ↦ let bad : true ≡ false = sym resumed ∙ stopped in cc
        | inr ((envelope, passed), through) ↦
            let held =
              slot_held ev w.index (ap is_tier_c tier)
                (second-ok (check_maker E ev w) (check_slot ev w.index) tt passed) in
            let (s, there, checker) =
              second_slots (get_claim_slots w.index ev.obligation_id) ev.review.reviewer_id (
                subst
                  (λ step.
                    assigned step (get_claim_slots w.index ev.obligation_id)
                    ≡ some ev.review.reviewer_id)
                  second held) in
            let independent =
              subst IsIndependent (sym history)
                (run-IsIndependent new_index ops new_index-IsIndependent) in
            (
              s,
              there,
              checker,
              fair_maker s ev.review.reviewer_id (independent ev.obligation_id s there) checker,
            )
      ]
