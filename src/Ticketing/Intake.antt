-- ===== src/Ticketing/Intake.antt =====
-- The intake of committed obligations, and the sweep for those that the trigger missed
-- (apps/orchestrator/src/mastra/integrations/grc-ticketing.ts).
use sentinel_act.Prelude.{
  String, ℕ, zero, suc, Bool, true, false, not, Option, none, some, List, [], ◌∷◌, leb, eqb,
  if◌then◌else◌, Result, ok, err, Error, ◌>>◌, guard, is_blank, ticketing_validation,
  ticketing_unavailable,
}
use sentinel_act.Prelude.Effects.{Run}
use sentinel_act.Schema.{tier_a, tier_b, tier_c}
use sentinel_act.Router.{Tier}
use sentinel_act.Ticketing.{FinalStatus, ObligationCommittedEvent}
use sentinel_act.Ticketing.Outbox.{
  Outbox, NewEntry, insert_if_not_exists, find_mapping, has_in_flight_entry_for_task,
}

-- A text that is empty or white space; the status is one of the two by its type.
unfoldable pub validate_event : ObligationCommittedEvent → Result (Unit {0})
validate_event ev =
    guard (not (is_blank ev.event_id)) (ticketing_validation "event_id")
    >> guard (not (is_blank ev.obligation_id)) (ticketing_validation "obligation_id")
    >> guard (not (is_blank ev.task_id)) (ticketing_validation "task_id")

abbrev pub entry_of : (id : String) → ObligationCommittedEvent → NewEntry
entry_of id ev = record {
  id = id;
  event_id = ev.event_id;
  obligation_id = ev.obligation_id;
  task_id = ev.task_id;
  tier = ev.tier;
}

-- `id` is a fresh identifier, `now` the database's clock, `outage` that of its statement.
unfoldable pub handle_obligation_committed_event :
    (id : String) (now : ℕ) (outage : Option Error) → ObligationCommittedEvent → Run Outbox Bool
unfolding validate_event insert_if_not_exists
handle_obligation_committed_event id now outage ev o = elim (validate_event ev) [
  | err e ↦ (err e, o)
  | ok _ ↦ elim outage [
    | some e ↦ (err e, o)
    | none ↦ insert_if_not_exists ticketing_unavailable now (entry_of id ev) o
  ]
]

pub record ReconcileCandidate : Type 0 where
  pub obligation_id : String
  pub obligation_status : FinalStatus
  pub obligation_recorded_at : Option String
  pub task_id : String
  pub review_count : ℕ

pub infer_tier : (review_count : ℕ) → Tier
infer_tier n =
    if leb 2 n
    then Tier.review tier_c
    else (if eqb n 1 then Tier.review tier_b else Tier.review tier_a)

abbrev pub event_for :
    (event_id reference_date : String) → ReconcileCandidate → ObligationCommittedEvent
event_for event_id reference_date c = record {
  event_id = event_id;
  obligation_id = c.obligation_id;
  task_id = c.task_id;
  final_status = c.obligation_status;
  tier = infer_tier c.review_count;
  committed_at = elim c.obligation_recorded_at [ none ↦ reference_date | some at ↦ at ];
}

-- What one pass of the loop meets: two fresh identifiers, for its row and its event, and an outage
-- of each of its three statements.
pub record Pass : Type 0 where
  pub id : String
  pub event_id : String
  pub find_outage : Option Error
  pub flight_outage : Option Error
  pub insert_outage : Option Error

-- Whether the task has a ticket, or a row that is not through.
unfoldable pub is_covered : Outbox → (task_id : String) → Bool
is_covered o t = elim (find_mapping t o) [ some m ↦ true | none ↦ has_in_flight_entry_for_task t o ]

-- The same with the outages of its two statements.
unfoldable pub check_covered : Pass → Outbox → (task_id : String) → Result Bool
check_covered p o t = elim p.find_outage [
  | some e ↦ err e
  | none ↦ elim (find_mapping t o) [
    | some m ↦ ok true
    | none ↦ elim p.flight_outage [ some e ↦ err e | none ↦ ok (has_in_flight_entry_for_task t o) ]
  ]
]

-- One candidate: whether a row was added for it.
unfoldable pub backfill_one :
    Pass → (now : ℕ) (reference_date : String) → ReconcileCandidate → Run Outbox Bool
unfolding check_covered handle_obligation_committed_event infer_tier
backfill_one p now date c o = elim (check_covered p o c.task_id) [
  | err e ↦ (err e, o)
  | ok true ↦ (ok false, o)
  | ok false ↦
      handle_obligation_committed_event p.id now p.insert_outage (event_for p.event_id date c) o
]

-- The loop of `reconcileMissedCommits`; the n-th candidate meets the n-th pass. The result is the
-- number of rows that were added.
unfoldable pub backfill :
    (passes : ℕ → Pass) (now : ℕ) (reference_date : String) (limit backfilled : ℕ)
    → List ReconcileCandidate
    → Run Outbox ℕ
unfolding backfill_one
backfill passes now date limit n [] o = (ok n, o)
backfill passes now date limit n (c ∷ cs) o =
    let handled = backfill_one (passes zero) now date c o in
    let next : ℕ → Pass = λ k. passes (suc k) in
    let kept = backfill next now date limit n cs handled.1 in
    let added = backfill next now date limit (suc n) cs handled.1 in
    if leb limit n then (ok n, o) else elim handled.0 [
      | err e ↦ (err e, handled.1)
      | ok enqueued ↦ if enqueued then added else kept
    ]

-- The rows of the query are the graph's; the limit is 100 unless it is given.
unfoldable pub reconcile_missed_commits :
    (passes : ℕ → Pass) (now : ℕ) (reference_date : String) (limit : Option ℕ)
    → Result (List ReconcileCandidate)
    → Run Outbox ℕ
unfolding backfill
reconcile_missed_commits passes now date limit (err e) o = (err e, o)
reconcile_missed_commits passes now date limit (ok rows) o =
    backfill passes now date (elim limit [ none ↦ 100 | some n ↦ n ]) 0 rows o
