-- ===== src/Orchestrator/SlaFeed.antt =====
-- The feed of reviews that are due soon (apps/orchestrator/src/mastra/workflows/
-- orchestrator.sla-feed.ts), which gives each reviewer one reminder per obligation.
use sentinel_act.Prelude.{
  String, Bool, true, false, ℕ, ◌+◌, ◌-◌, ◌*◌, Option, none, some, List, [], ◌∷◌, ◌++◌, ◌==◌, leb,
  if◌then◌else◌, Result, ok, err, outside,
}
use sentinel_act.Prelude.Effects.{Run}
use sentinel_act.Router.{Tier}
use sentinel_act.Orchestrator.RunIndex.{
  RunIndex, Slots, SuspendedRun, list_active, get_claim_slots, has_sent_due_soon_reminder,
  mark_due_soon_reminder_sent, is_tier_b,
}
pub mod Reminders

-- `new Date(s).getTime()`, none for a date that is not one, and `new Date(ms).toISOString()`.
pub record Calendar : Type 0 where
  pub get_time : String → Option ℕ
  pub to_iso_string : ℕ → String

abbrev pub review_sla_hours : Tier → ℕ
review_sla_hours tier = if is_tier_b tier then 24 else 12

-- The date of a text that is no date throws.
unfoldable pub compute_sla_due_at : Calendar → (suspended_at : String) → Tier → Result String
compute_sla_due_at K at tier = elim (Calendar.get_time K at) [
  | none ↦ err (outside 0)
  | some ms ↦ ok (Calendar.to_iso_string K (ms + review_sla_hours tier * 60 * 60 * 1000))
]

pub data FeedSlaState : Type 0 where
  in_time due_soon breached : FeedSlaState

-- Every comparison with a date that is not one is false.
unfoldable pub compute_feed_sla_state : Calendar → (sla_due_at : String) (now : ℕ) → FeedSlaState
compute_feed_sla_state K due now = elim (Calendar.get_time K due) [
  | none ↦ FeedSlaState.in_time
  | some ms ↦
      if leb ms now
      then FeedSlaState.breached
      else if leb (ms - now) (4 * 60 * 60 * 1000)
      then FeedSlaState.due_soon
      else FeedSlaState.in_time
]

pub record SlaDueSoonFeedEntry : Type 0 where
  pub obligation_id : String
  pub reviewer_id : String
  pub sla_due_at : String

-- One claimed slot: a reminder that was not given before is given, and noted.
unfoldable pub remind :
    (obligation_id sla_due_at : String) (reviewer_id : Option String)
    → RunIndex
    → List SlaDueSoonFeedEntry × RunIndex
remind o due none i = ([], i)
remind o due (some r) i =
    if r == ""
    then ([], i)
    else (if has_sent_due_soon_reminder i o r then ([], i) else (
      record { obligation_id = o; reviewer_id = r; sla_due_at = due } ∷ [],
      mark_due_soon_reminder_sent i o r,
    ))

abbrev pub maker_of : Option Slots → Option String
maker_of none = none
maker_of (some s) = s.maker

abbrev pub checker_of : Option Slots → Option String
checker_of none = none
checker_of (some s) = s.checker

-- The maker, then the checker.
unfoldable pub remind_slots :
    (obligation_id sla_due_at : String)
    → Option Slots
    → RunIndex
    → List SlaDueSoonFeedEntry × RunIndex
remind_slots o due slots i =
    let first = remind o due (maker_of slots) i in
    let second = remind o due (checker_of slots) first.1 in (first.0 ++ second.0, second.1)

abbrev pub is_due_soon : FeedSlaState → Bool
is_due_soon FeedSlaState.due_soon = true
is_due_soon _ = false

-- One suspended run: for tier "B" nobody is known to be reminded.
unfoldable pub feed_run :
    Calendar → (now : ℕ) → String × SuspendedRun → Run RunIndex (List SlaDueSoonFeedEntry)
feed_run K now (o, entry) i =
    if is_tier_b entry.tier
    then (ok [], i)
    else elim (compute_sla_due_at K entry.suspended_at entry.tier) [
      | err e ↦ (err e, i)
      | ok due ↦
          if is_due_soon (compute_feed_sla_state K due now)
          then (let reminded = remind_slots o due (get_claim_slots i o) i in
              (ok reminded.0, reminded.1))
          else (ok [], i)
    ]

unfoldable pub feed_runs :
    Calendar → (now : ℕ) → List (String × SuspendedRun) → Run RunIndex (List SlaDueSoonFeedEntry)
feed_runs K now [] i = (ok [], i)
feed_runs K now (entry ∷ entries) i =
    let one = feed_run K now entry i in
    let rest = feed_runs K now entries one.1 in
    elim one.0 [
      | err e ↦ (err e, one.1)
      | ok found ↦ elim rest.0 [ err e ↦ (err e, rest.1) | ok more ↦ (ok (found ++ more), rest.1) ]
    ]

-- `breached` is always empty and left out.
unfoldable pub handle_sla_breach_feed_request :
    Calendar → (now : ℕ) → Run RunIndex (List SlaDueSoonFeedEntry)
handle_sla_breach_feed_request K now i = feed_runs K now (list_active i) i
