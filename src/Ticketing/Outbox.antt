-- ===== src/Ticketing/Outbox.antt =====
-- The two tables of the outbox, each statement a function on lists of rows
-- (packages/ticketing-adapter/src/postgres-ticketing-outbox.ts, migrations/001_ticketing_outbox.sql).
-- `now` is the database's clock.
use sentinel_act.Prelude.{
  String, ℕ, suc, Bool, true, false, ◌&&◌, Option, none, some, List, [], ◌∷◌, ◌++◌, ◌==◌, any,
  filter, map, find?, take, leb, if◌then◌else◌, Result, ok, err, Error, ◌>>=◌,
}
use sentinel_act.Prelude.Effects.{Run}
use sentinel_act.Router.{Tier}
use sentinel_act.Ticketing.{OutboxStatus, OutboxEntry, TicketMapping}

pub record Outbox : Type 0 where
  pub rows : List OutboxEntry
  pub mappings : List TicketMapping

-- What a caller of `insertIfNotExists` gives; the other columns have defaults.
pub record NewEntry : Type 0 where
  pub id : String
  pub event_id : String
  pub obligation_id : String
  pub task_id : String
  pub tier : Tier

unfoldable pub new_row : (now : ℕ) → NewEntry → OutboxEntry
new_row now e = record {
  id = e.id;
  event_id = e.event_id;
  obligation_id = e.obligation_id;
  task_id = e.task_id;
  tier = e.tier;
  status = OutboxStatus.pending;
  attempts = 0;
  next_attempt_at = now;
  last_error = none;
  created_at = now;
  updated_at = now;
}

-- INSERT … ON CONFLICT (event_id) DO NOTHING; a second row with one id breaks the primary key.
unfoldable pub insert_if_not_exists :
    (broken_key : Error) (now : ℕ) → NewEntry → Outbox → Result Bool × Outbox
unfolding new_row
insert_if_not_exists broken_key now e o =
    if any (λ r. r.event_id == e.event_id) o.rows
    then (ok false, o)
    else (if any (λ r. r.id == e.id) o.rows
        then (err broken_key, o)
        else (ok true, record o { rows = o.rows ++ new_row now e ∷ [] }))

-- status IN ('pending', 'failed_retryable')
abbrev pub is_open : OutboxStatus → Bool
is_open OutboxStatus.pending = true
is_open OutboxStatus.failed_retryable = true
is_open _ = false

-- status IN ('pending', 'processing', 'failed_retryable')
abbrev pub is_in_flight : OutboxStatus → Bool
is_in_flight OutboxStatus.processing = true
is_in_flight s = is_open s

-- UPDATE … WHERE id = $1, with the trigger that sets `updated_at`
unfoldable pub update : (now : ℕ) → (OutboxEntry → OutboxEntry) → (id : String) → Outbox → Outbox
update now f id o = record o {
  rows = map (λ r. if r.id == id then record (f r) { updated_at = now } else r) o.rows;
}

abbrev pub set_succeeded : OutboxEntry → OutboxEntry
set_succeeded r = record r { status = OutboxStatus.succeeded }

abbrev pub set_retryable : (next_attempt_at : ℕ) (error : String) → OutboxEntry → OutboxEntry
set_retryable at error r = record r {
  status = OutboxStatus.failed_retryable;
  attempts = suc r.attempts;
  next_attempt_at = at;
  last_error = some error;
}

abbrev pub set_permanent : (error : String) → OutboxEntry → OutboxEntry
set_permanent error r = record r {
  status = OutboxStatus.failed_permanent;
  attempts = suc r.attempts;
  last_error = some error;
}

abbrev pub set_pending : (now : ℕ) → OutboxEntry → OutboxEntry
set_pending now r = record r {
  status = OutboxStatus.pending;
  attempts = 0;
  last_error = none;
  next_attempt_at = now;
}

abbrev pub set_processing : OutboxEntry → OutboxEntry
set_processing r = record r { status = OutboxStatus.processing }

unfoldable pub mark_succeeded : (now : ℕ) (id : String) → Outbox → Outbox
mark_succeeded now = update now set_succeeded

unfoldable pub mark_retryable :
    (now : ℕ) (id : String) (next_attempt_at : ℕ) (error : String) → Outbox → Outbox
mark_retryable now id at error = update now (set_retryable at error) id

unfoldable pub mark_permanent_failure : (now : ℕ) (id error : String) → Outbox → Outbox
mark_permanent_failure now id error = update now (set_permanent error) id

unfoldable pub reset_to_pending : (now : ℕ) (id : String) → Outbox → Outbox
reset_to_pending now id = update now (set_pending now) id

-- ORDER BY created_at ASC
abbrev pub insert_by_age : OutboxEntry → List OutboxEntry → List OutboxEntry
insert_by_age x [] = x ∷ []
insert_by_age x (y ∷ ys) =
    let rest = insert_by_age x ys in if leb x.created_at y.created_at then x ∷ y ∷ ys else y ∷ rest

unfoldable pub by_age : List OutboxEntry → List OutboxEntry
by_age [] = []
by_age (x ∷ xs) = insert_by_age x (by_age xs)

abbrev pub is_due : (now : ℕ) → OutboxEntry → Bool
is_due now r = is_open r.status && leb r.next_attempt_at now

unfoldable pub candidates : (limit now : ℕ) → Outbox → List String
unfolding by_age
candidates limit now o = map (λ r. r.id) (take limit (by_age (filter (is_due now) o.rows)))

abbrev pub is_claimable : (id : String) → OutboxEntry → Bool
is_claimable id r = r.id == id && is_open r.status

-- UPDATE … SET status = 'processing' WHERE id = $1 AND status IN (…) RETURNING *
abbrev pub taken : (now : ℕ) (id : String) → OutboxEntry → OutboxEntry
taken now id r = if is_claimable id r then record (set_processing r) { updated_at = now } else r

unfoldable pub claim_row : (now : ℕ) (id : String) → Outbox → Option OutboxEntry × Outbox
claim_row now id o = (
  elim (find? (is_claimable id) o.rows) [ none ↦ none | some r ↦ some (taken now id r) ],
  record o { rows = map (taken now id) o.rows },
)

-- The candidates, claimed one after the other; one that is no longer claimable is skipped, and a
-- statement that fails ends the claim with the rows before it claimed.
unfoldable pub claim_each :
    (outage : String → Option Error) (now : ℕ) → List String → Run Outbox (List OutboxEntry)
unfolding claim_row
claim_each outage now [] o = (ok [], o)
claim_each outage now (id ∷ ids) o =
    let claimed = claim_row now id o in
    let rest = claim_each outage now ids claimed.1 in
    elim (outage id) [
      | some e ↦ (err e, o)
      | none ↦ elim claimed.0 [ none ↦ rest | some r ↦ (rest.0 >>= λ rs. ok (r ∷ rs), rest.1) ]
    ]

-- `selecting` is an outage of the first statement, `claiming` of those for each candidate.
unfoldable pub claim_batch :
    (selecting : Option Error) (claiming : String → Option Error) (limit clock now : ℕ)
    → Run Outbox (List OutboxEntry)
unfolding candidates claim_each
claim_batch (some e) claiming limit clock now o = (err e, o)
claim_batch none claiming limit clock now o = claim_each claiming clock (candidates limit now o) o

unfoldable pub find_mapping : (task_id : String) → Outbox → Option TicketMapping
find_mapping t o = find? (λ m. m.task_id == t) o.mappings

-- INSERT … ON CONFLICT (task_id) DO NOTHING; `created_at` is the database's default.
unfoldable pub insert_mapping : (now : ℕ) → TicketMapping → Outbox → Bool × Outbox
insert_mapping now m o =
    if any (λ n. n.task_id == m.task_id) o.mappings
    then (false, o)
    else (true, record o { mappings = o.mappings ++ record m { created_at = now } ∷ [] })

unfoldable pub has_in_flight_entry_for_task : (task_id : String) → Outbox → Bool
has_in_flight_entry_for_task t o = any (λ r. r.task_id == t && is_in_flight r.status) o.rows
