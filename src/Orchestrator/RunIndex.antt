-- ===== src/Orchestrator/RunIndex.antt =====
-- The index of the suspended runs: which run waits for which obligation, who holds its review
-- slots, which reminders were sent (`InMemorySuspendedRunIndex` of
-- apps/orchestrator/src/mastra/workflows/orchestrator.logic.ts, its port in orchestrator.types.ts),
-- and the view of a review gate that is derived for a caller.
use text.Mathlib.Text.{starts_with}
use sentinel_act.Prelude.{
  String, Bool, true, false, not, ◌&&◌, Option, none, some, List, [], ◌∷◌, ◌==◌, template, any,
  filter, map, eqb, leb, length, if◌then◌else◌,
}
use sentinel_act.Prelude.Map
use sentinel_act.Prelude.Map.{Map}
use sentinel_act.Schema.{HumanReview, ReviewTier}
use sentinel_act.Router.{Tier}
pub mod Claims
pub mod Clears

-- "awaitHumanReview" | "awaitSecondHumanReview": the steps that suspend a run
pub data StepId : Type 0 where
  await_human_review await_second_human_review : StepId

pub data ReviewSlot : Type 0 where
  maker checker : ReviewSlot

pub record Slots : Type 0 where
  pub maker : Option String
  pub checker : Option String

pub record SuspendedRun : Type 0 where
  pub run_id : String
  pub step_id : StepId
  pub tier : Tier
  pub suspended_at : String

pub record RunIndex : Type 0 where
  pub runs : Map SuspendedRun
  pub claims : Map Slots
  pub due_soon_reminders : List String

unfoldable pub new_index : RunIndex
new_index = record { runs = []; claims = []; due_soon_reminders = [] }

unfoldable pub record_run : RunIndex → (obligation_id : String) → SuspendedRun → RunIndex
record_run i o entry = record i { runs = Map.set i.runs o entry }

unfoldable pub find : RunIndex → (obligation_id : String) → Option (String × StepId)
find i o = elim (Map.get i.runs o) [ none ↦ none | some entry ↦ some (entry.run_id, entry.step_id) ]

unfoldable pub list_active : RunIndex → List (String × SuspendedRun)
list_active i = i.runs

unfoldable pub reminder_key : (obligation_id reviewer_id : String) → String
reminder_key o r = template (o ∷ ":" ∷ r ∷ [])

unfoldable pub has_sent_due_soon_reminder : RunIndex → (obligation_id reviewer_id : String) → Bool
unfolding reminder_key
has_sent_due_soon_reminder i o r = any (λ key. key == reminder_key o r) i.due_soon_reminders

unfoldable pub mark_due_soon_reminder_sent :
    RunIndex → (obligation_id reviewer_id : String) → RunIndex
unfolding reminder_key has_sent_due_soon_reminder
mark_due_soon_reminder_sent i o r =
    if has_sent_due_soon_reminder i o r
    then i
    else record i { due_soon_reminders = reminder_key o r ∷ i.due_soon_reminders }

pub clear : RunIndex → (obligation_id : String) → RunIndex
clear i o = record {
  runs = Map.delete i.runs o;
  claims = Map.delete i.claims o;
  due_soon_reminders =
      filter (λ key. not (starts_with key (template (o ∷ ":" ∷ [])))) i.due_soon_reminders;
}

-- The slots after a claim, and the slot that the caller got.
unfoldable pub assign : Slots → (reviewer_id : String) → Slots × Option ReviewSlot
assign s r = elim s.maker [
  | none ↦ (record { maker = some r; checker = s.checker }, some ReviewSlot.maker)
  | some m ↦ elim s.checker [
    | none ↦
        if m == r
        then (s, none)
        else (record { maker = some m; checker = some r }, some ReviewSlot.checker)
    | some _ ↦ (s, none)
  ]
]

unfoldable pub current_slots : RunIndex → String → Slots
current_slots i o = elim (Map.get i.claims o) [
  | none ↦ record { maker = none; checker = none }
  | some s ↦ s
]

unfoldable pub claim :
    RunIndex → (obligation_id reviewer_id : String) → RunIndex × Option ReviewSlot
unfolding assign current_slots
claim i o r =
    let taken = assign (current_slots i o) r in
    (record i { claims = Map.set i.claims o taken.0 }, taken.1)

unfoldable pub get_claim_slots : RunIndex → (obligation_id : String) → Option Slots
get_claim_slots i o = Map.get i.claims o

pub data ReviewGateStatus : Type 0 where
  awaiting_maker awaiting_checker awaiting_review complete : ReviewGateStatus

pub record ReviewGateView : Type 0 where
  pub obligation_id : String
  pub tier : Tier
  pub status : ReviewGateStatus
  pub reveal : Option (List HumanReview)

abbrev pub is_tier_b : Tier → Bool
is_tier_b (Tier.review ReviewTier.tier_b) = true
is_tier_b _ = false

unfoldable pub derive_review_gate_view :
    (obligation_id : String) → Tier → (visible_reviews : List HumanReview) → ReviewGateView
derive_review_gate_view o tier reviews =
    let complete = leb (if is_tier_b tier then 1 else 2) (length reviews) in
    record {
      obligation_id = o;
      tier = tier;
      status =
          if complete
          then ReviewGateStatus.complete
          else (if is_tier_b tier
              then ReviewGateStatus.awaiting_review
              else (if eqb (length reviews) 1
                  then ReviewGateStatus.awaiting_checker
                  else ReviewGateStatus.awaiting_maker));
      reveal = if complete then some reviews else none;
    }
