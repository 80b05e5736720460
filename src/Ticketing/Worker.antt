-- ===== src/Ticketing/Worker.antt =====
-- The worker that turns the rows of the outbox into tickets
-- (packages/ticketing-adapter/src/outbox-worker.ts).
use sentinel_act.Prelude.{
  String, ℕ, suc, ◌+◌, Bool, true, false, Option, none, some, List, [], ◌∷◌, ◌++◌, template, ltb,
  if◌then◌else◌, Result, ok, err, Error, adapter_call_error,
}
use sentinel_act.Prelude.Effects.{Run, ◌>>=◌, ◌>>◌, reading, change}
use sentinel_act.Float.{Float}
use sentinel_act.Schema.{Obligation, ProcessTask}
use sentinel_act.Router.{is_tier_a}
use sentinel_act.Ledger.{
  Host, Ledger, LedgerAppendInput, LedgerEventType, ActorType, EntityType, Json, Members, append,
}
use sentinel_act.Ticketing.{
  TicketAssignee, CreateTicketRequest, CreateTicketResult, FinalStatus, ObligationCommittedEvent,
  OutboxEntry, TicketMapping, TicketLineage, TicketingConfig,
}
use sentinel_act.Ticketing.Outbox.{
  Outbox, find_mapping, insert_mapping, mark_succeeded, mark_retryable, mark_permanent_failure,
  reset_to_pending, claim_batch,
}
use sentinel_act.Ticketing.Mapping.{Dates, compute_backoff_delay_ms, build_create_ticket_request}
mod Stores
unfoldable pub use Stores.*

module _ (F : Float) (H : Host) (C : TicketingContext (Float.Number F)) where
  open F use {Number}

  unfoldable pub append_ledger_safely : LedgerAppendInput → (task_id : String) → Run Desk (Unit {0})
  append_ledger_safely input task_id = change (λ d. record d {
    ledger =
        (append H (TicketingContext.ledger_outage C task_id) d.ledger (TicketingContext.timestamp C)
          input).1;
  })

  unfoldable pub handle_succeeded : OutboxEntry → Run Desk (Unit {0})
  unfolding execute
  handle_succeeded row =
      execute (TicketingContext.outage C Statement.succeeding row.id)
        (mark_succeeded (TicketingContext.clock C) row.id)

  unfoldable pub handle_permanent : (caught : Bool) → OutboxEntry → String → Run Desk (Unit {0})
  unfolding execute append_ledger_safely failed_input
  handle_permanent caught row error =
      execute
        (TicketingContext.outage C (if caught then Statement.failing_caught else Statement.failing)
          row.id)
        (mark_permanent_failure (TicketingContext.clock C) row.id error)
      >> tally add_permanent
      >> append_ledger_safely (failed_input row error) row.task_id

  abbrev pub retry_at : OutboxEntry → ℕ
  retry_at row =
      TicketingContext.reference_date C
      + compute_backoff_delay_ms (suc row.attempts) (TicketingContext.config C)

  abbrev pub exhausted : (error : String) → String
  exhausted error = template (
      error
      ∷ " (exceeded maxAttempts="
      ∷ TicketingContext.show C (TicketingConfig.max_attempts (TicketingContext.config C))
      ∷ ")"
      ∷ [])

  unfoldable pub handle_retryable : (caught : Bool) → OutboxEntry → String → Run Desk (Unit {0})
  unfolding handle_permanent execute
  handle_retryable caught row error =
      if ltb (TicketingConfig.max_attempts (TicketingContext.config C)) (suc row.attempts)
      then handle_permanent caught row (exhausted error)
      else (execute
            (TicketingContext.outage C
              (if caught then Statement.retrying_caught else Statement.retrying) row.id)
            (mark_retryable (TicketingContext.clock C) row.id (retry_at row) error)
          >> tally add_retryable)

  -- The call to the adapter, which may open a ticket, also when it throws.
  unfoldable pub create_ticket : CreateTicketRequest → Run Desk CreateTicketResult
  create_ticket request d =
      let answer = TicketingContext.create_ticket C d.tickets request in
      (answer.0, open_ticket answer.1 request d)

  unfoldable pub handle_call_error : OutboxEntry → Error → Run Desk (Unit {0})
  unfolding handle_retryable handle_permanent is_permanent
  handle_call_error row e =
      let error = TicketingContext.message C e in
      if is_permanent e then handle_permanent false row error else handle_retryable false row error

  -- After the adapter has opened a ticket.
  unfoldable pub settle_created : OutboxEntry → CreateTicketResult → Run Desk (Unit {0})
  unfolding execute handle_succeeded append_ledger_safely created_input
  settle_created row created =
      execute (TicketingContext.outage C Statement.mapping row.id) (λ o.
        (insert_mapping (TicketingContext.clock C)
          (new_mapping (TicketingContext.adapter_name C) (TicketingContext.reference_date C) row
            created)
          o).1)
      >> handle_succeeded row
      >> tally add_succeeded
      >> append_ledger_safely (created_input (TicketingContext.adapter_name C) row created)
          row.task_id

  unfoldable pub submit : OutboxEntry → CreateTicketRequest → Run Desk (Unit {0})
  unfolding create_ticket settle_created handle_call_error
  submit row request d =
      let called = create_ticket request d in
      elim called.0 [
        | err e ↦ handle_call_error row e called.1
        | ok created ↦ settle_created row created called.1
      ]

  abbrev unresolved : OutboxEntry → String
  unresolved row = template (
      "Obligation \"" ∷ row.obligation_id ∷ "\" / ProcessTask \"" ∷ row.task_id
      ∷ "\" no longer resolves via the read-only lookup — append-only graph model, will never resolve on a later retry."
      ∷ [])

  abbrev malformed : String
  malformed = "Malformed Obligation/ProcessTask row returned by the lineage lookup."

  -- The request for a row whose lookup gave these rows.
  unfoldable pub resolve_row : OutboxEntry → List (LineageRow Number) → Run Desk (Unit {0})
  unfolding handle_permanent submit build_create_ticket_request event_of
  resolve_row row [] = handle_permanent false row (unresolved row)
  resolve_row row (found ∷ more) = elim found.obligation [
    | none ↦ handle_permanent false row malformed
    | some o ↦ elim found.task [
      | none ↦ handle_permanent false row malformed
      | some t ↦
          reading (
            build_create_ticket_request F (TicketingContext.dates C) (TicketingContext.resolve C)
              (TicketingContext.config C) o t found.lineage
              (event_of (TicketingContext.iso C row.created_at) row))
          >>= λ request. submit row request
    ]
  ]

  -- The body of the `try` around each row.
  unfoldable pub try_row : OutboxEntry → Run Desk (Unit {0})
  unfolding handle_succeeded resolve_row
  try_row row d = elim (TicketingContext.outage C Statement.finding row.id) [
    | some e ↦ (err e, d)
    | none ↦ elim (find_mapping row.task_id d.outbox) [
      | some m ↦ (handle_succeeded row >> tally add_succeeded) d
      | none ↦
          (reading (TicketingContext.run_cypher C row.obligation_id row.task_id)
              >>= resolve_row row)
            d
    ]
  ]

  unfoldable pub process_row : OutboxEntry → Run Desk (Unit {0})
  unfolding try_row handle_retryable
  process_row row d =
      let tried = try_row row (record d { result = add_processed d.result }) in
      elim tried.0 [
        | ok _ ↦ tried
        | err e ↦ handle_retryable true row (TicketingContext.message C e) tried.1
      ]

  unfoldable pub process_rows : List OutboxEntry → Run Desk (Unit {0})
  unfolding process_row
  process_rows [] = reading (ok tt)
  process_rows (row ∷ rows) = process_row row >> process_rows rows

module _ (F : Float) (H : Host) (C : TicketingContext (Float.Number F)) where
  -- A batch is claimed, and its rows are processed one after the other.
  unfoldable pub process_outbox_once : Run Desk (Unit {0})
  unfolding process_rows
  process_outbox_once d =
      let batch = claim_due C d.outbox in
      let d' : Desk = record d { outbox = batch.1; result = no_counts } in
      elim batch.0 [ err e ↦ (err e, d') | ok rows ↦ process_rows F H C rows d' ]

  unfoldable pub reset_outbox_entry : (id : String) → Run Desk (Unit {0})
  unfolding execute
  reset_outbox_entry id =
      execute (TicketingContext.outage C Statement.resetting id)
        (reset_to_pending (TicketingContext.clock C) id)
