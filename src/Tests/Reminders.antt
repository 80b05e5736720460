-- ===== src/Tests/Reminders.antt =====
-- The feed of reminders on two claimed reviews.
use sentinel_act.Prelude.{
  String, ℕ, ◌*◌, none, some, List, [], ◌∷◌, ◌==◌, eqb, refl, template, if◌then◌else◌, ok, All, ◌≡◌,
}
use sentinel_act.Prelude.Map
use sentinel_act.Schema.{ReviewTier}
use sentinel_act.Router.{Tier}
use sentinel_act.Orchestrator.RunIndex.{
  RunIndex, SuspendedRun, StepId, list_active, get_claim_slots, has_sent_due_soon_reminder,
  mark_due_soon_reminder_sent,
}
use sentinel_act.Orchestrator.SlaFeed.{
  Calendar, SlaDueSoonFeedEntry, compute_sla_due_at, compute_feed_sla_state, remind, remind_slots,
  feed_run, feed_runs, handle_sla_breach_feed_request,
}
use sentinel_act.Orchestrator.SlaFeed.Reminders.{
  IsFirst, handle_sla_breach_feed_request-IsFirst, handle_sla_breach_feed_request-once,
}

abbrev hour : ℕ
hour = 60 * 60 * 1000

-- Two starts of the count, and twelve hours later.
abbrev calendar : Calendar
calendar = record {
  get_time = λ s.
      if s == "midnight"
      then some 0
      else (if s == "two"
          then some (2 * hour)
          else (if s == "noon"
              then some (12 * hour)
              else (if s == "fourteen" then some (14 * hour) else none)));
  to_iso_string = λ ms.
      if eqb ms (12 * hour) then "noon" else (if eqb ms (14 * hour) then "fourteen" else "later");
}

abbrev tier_c_run : (suspended_at : String) → SuspendedRun
tier_c_run at = record {
  run_id = "run1";
  step_id = StepId.await_human_review;
  tier = Tier.review ReviewTier.tier_c;
  suspended_at = at;
}

abbrev claimed : RunIndex
claimed = record {
  runs = ("o1", tier_c_run "midnight") ∷ ("o2", tier_c_run "two") ∷ [];
  claims =
      ("o1", record { maker = some "ann"; checker = some "bob" })
      ∷ ("o2", record { maker = some "ann"; checker = none })
      ∷ [];
  due_soon_reminders = "o1:bob" ∷ [];
}

abbrev reminded : List SlaDueSoonFeedEntry
reminded = record { obligation_id = "o1"; reviewer_id = "ann"; sla_due_at = "noon" } ∷ []

given : (handle_sla_breach_feed_request calendar (9 * hour) claimed).0 ≡ ok reminded
unfolding handle_sla_breach_feed_request feed_runs feed_run compute_sla_due_at
    compute_feed_sla_state remind_slots remind list_active get_claim_slots
    has_sent_due_soon_reminder Map.get template mark_due_soon_reminder_sent
given = refl

handle_sla_breach_feed_request-IsFirst_example :
    All (IsFirst claimed (handle_sla_breach_feed_request calendar (9 * hour) claimed).1) reminded
handle_sla_breach_feed_request-IsFirst_example =
    handle_sla_breach_feed_request-IsFirst calendar (9 * hour) claimed reminded given

abbrev after : RunIndex
after = (handle_sla_breach_feed_request calendar (9 * hour) claimed).1

abbrev reminded_later : List SlaDueSoonFeedEntry
reminded_later = record { obligation_id = "o2"; reviewer_id = "ann"; sla_due_at = "fourteen" } ∷ []

given_later : (handle_sla_breach_feed_request calendar (11 * hour) after).0 ≡ ok reminded_later
unfolding handle_sla_breach_feed_request feed_runs feed_run compute_sla_due_at
    compute_feed_sla_state remind_slots remind list_active get_claim_slots
    has_sent_due_soon_reminder Map.get template mark_due_soon_reminder_sent
given_later = refl

handle_sla_breach_feed_request-once_example :
    All
      (λ f.
        All
          (λ e. ¬ ((f.obligation_id ≡ e.obligation_id) × (f.reviewer_id ≡ e.reviewer_id)))
          reminded)
      reminded_later
handle_sla_breach_feed_request-once_example =
    handle_sla_breach_feed_request-once calendar (9 * hour) (11 * hour) claimed reminded
      reminded_later given given_later
