-- ===== src/Ticketing/Settles.antt =====
-- What the processing of one row does to the table, whatever the surroundings do.
use sentinel_act.Prelude.{
  String, ℕ, suc, ◌≤◌, Bool, true, false, List, [], ◌∷◌, ◌≡◌, refl, sym, subst, ap, ◌∙◌, map, ◌++◌,
  arith, ◌==◌, Bool-cases, Option-cases, Result-cases, inl, inr, Result, ok, err, Error, ltb,
  if◌then◌else◌,
}
use sentinel_act.Prelude.Effects.{◌>>◌}
use sentinel_act.Float.{Float}
use sentinel_act.Ledger.{Host, LedgerAppendInput}
use sentinel_act.Ticketing.{
  OutboxEntry, TicketingConfig, CreateTicketRequest, CreateTicketResult, TicketMapping,
}
use sentinel_act.Ticketing.Outbox.{
  Outbox, update, set_succeeded, set_retryable, set_permanent, mark_succeeded, mark_retryable,
  mark_permanent_failure, find_mapping, insert_mapping,
}
use sentinel_act.Ticketing.Mapping.{build_create_ticket_request}
use sentinel_act.Ticketing.Worker.{
  TicketingContext, Desk, Statement, LineageRow, exhausted, retry_at, execute, handle_succeeded,
  handle_permanent, handle_retryable, handle_call_error, create_ticket, open_ticket, settle_created,
  submit, resolve_row, try_row, process_row, append_ledger_safely, add_processed, add_succeeded,
  new_mapping, created_input, is_permanent, event_of,
}
mod Fates
unfoldable pub use Fates.*

pub open_ticket-outbox :
    (opens : Bool) (request : CreateTicketRequest) (d : Desk)
    → (open_ticket opens request d).outbox ≡ d.outbox
open_ticket-outbox true request d = refl
open_ticket-outbox false request d = refl

module _ (F : Float) (H : Host) (C : TicketingContext (Float.Number F)) where
  open F use {Number}

  -- The desk with the ticket of a row noted in the outbox.
  abbrev pub noted : OutboxEntry → CreateTicketResult → Desk → Desk
  noted row created d = record d {
    outbox =
        (insert_mapping (TicketingContext.clock C)
          (new_mapping (TicketingContext.adapter_name C) (TicketingContext.reference_date C) row
            created)
          d.outbox).1;
  }

  insert_mapping-rows :
      (now : ℕ) (m : TicketMapping) (o : Outbox) → (insert_mapping now m o).1.rows ≡ o.rows
  unfolding insert_mapping
  insert_mapping-rows now m o = ground arith

  abbrev logged : (task_id : String) → LedgerAppendInput → Desk → Desk
  logged task_id input d = (append_ledger_safely F H C input task_id d).1

  logged-outbox :
      (task_id : String) (input : LedgerAppendInput) (d : Desk)
      → (logged task_id input d).outbox ≡ d.outbox
  unfolding append_ledger_safely
  logged-outbox task_id input d = refl

  abbrev counted : Desk → Desk
  counted d = record d { result = add_succeeded d.result }

  settle_created-Settles :
      (row : OutboxEntry) (created : CreateTicketResult) (d : Desk)
      → Settles F H C row d (settle_created F H C row created d)
  unfolding settle_created execute append_ledger_safely
  settle_created-Settles row created d =
      let input = created_input (TicketingContext.adapter_name C) row created in
      let d' = noted row created d in
      elim (Option-cases (TicketingContext.outage C Statement.mapping row.id)) [
        | inr (e, down) ↦ rw (down, settle_created) (throws-Settles F H C row d d e refl)
        | inl up ↦
            rw (up, settle_created)
              (before-Settles F H C row d d' _ (insert_mapping-rows _ _ d.outbox) (
                after-Settles F H C row d' _ (logged row.task_id input)
                  (logged-outbox row.task_id input)
                  (after-Settles F H C row d' (handle_succeeded F H C row d') counted (λ k. refl)
                    (handle_succeeded-Settles F H C row d'))))
      ]

  submit-Settles :
      (row : OutboxEntry) (request : CreateTicketRequest) (d : Desk)
      → Settles F H C row d (submit F H C row request d)
  unfolding submit create_ticket
  submit-Settles row request d =
      let answer = TicketingContext.create_ticket C d.tickets request in
      let d' = open_ticket answer.1 request d in
      let same = ap (λ o. o.rows) (open_ticket-outbox answer.1 request d) in
      elim (Result-cases answer.0) [
        | inl (created, answered) ↦
            rw (answered, submit)
              (before-Settles F H C row d d' _ same (settle_created-Settles row created d'))
        | inr (e, refused) ↦
            rw (refused, submit)
              (before-Settles F H C row d d' _ same (handle_call_error-Settles F H C row e d'))
      ]

  resolve_row-Settles :
      (row : OutboxEntry) (found : List (LineageRow Number)) (d : Desk)
      → Settles F H C row d (resolve_row F H C row found d)
  unfolding resolve_row
  resolve_row-Settles row [] d = handle_permanent-Settles F H C false row _ d
  resolve_row-Settles row (l ∷ more) d = elim (Option-cases l.obligation) [
    | inl missing ↦ rw (missing, resolve_row) (handle_permanent-Settles F H C false row _ d)
    | inr (o, there) ↦ elim (Option-cases l.task) [
      | inl missing ↦
          rw (there, resolve_row)
            (rw (missing, resolve_row) (handle_permanent-Settles F H C false row _ d))
      | inr (t, task_there) ↦
          elim (Result-cases (
            build_create_ticket_request F (TicketingContext.dates C) (TicketingContext.resolve C)
              (TicketingContext.config C) o t l.lineage
              (event_of (TicketingContext.iso C row.created_at) row))) [
                | inl (request, built) ↦
                    rw (there, resolve_row)
                      (rw (task_there, resolve_row) (rw built (submit-Settles row request d)))
                | inr (e, broken) ↦
                    rw (there, resolve_row)
                      (rw (task_there, resolve_row)
                        (rw broken (throws-Settles F H C row d d e refl)))
              ]
    ]
  ]

  try_row-Settles : (row : OutboxEntry) (d : Desk) → Settles F H C row d (try_row F H C row d)
  unfolding try_row
  try_row-Settles row d = elim (Option-cases (TicketingContext.outage C Statement.finding row.id)) [
    | inr (e, down) ↦ rw (down, try_row) (throws-Settles F H C row d d e refl)
    | inl up ↦ elim (Option-cases (find_mapping row.task_id d.outbox)) [
      | inr (m, mapped) ↦
          rw (up, try_row)
            (rw (mapped, try_row)
              (after-Settles F H C row d (handle_succeeded F H C row d) counted (λ k. refl)
                (handle_succeeded-Settles F H C row d)))
      | inl unmapped ↦
          elim (Result-cases (TicketingContext.run_cypher C row.obligation_id row.task_id)) [
            | inl (rows, read) ↦
                rw (up, try_row)
                  (rw (unmapped, try_row) (rw (read, try_row) (resolve_row-Settles row rows d)))
            | inr (e, broken) ↦
                rw (up, try_row)
                  (rw (unmapped, try_row)
                    (rw (broken, try_row) (throws-Settles F H C row d d e refl)))
          ]
    ]
  ]

  -- A throw inside leaves the row for the `catch` around it.
  caught-Settles :
      (row : OutboxEntry) (d d' : Desk) (e : Error) (done : Result (Unit {0}) × Desk)
      → Settles F H C row d (err e, d')
      → Settles F H C row d' done
      → Settles F H C row d done
  unfolding Settles
  caught-Settles row d d' e done (Fate.failed, rows, agrees) after =
      before-Settles F H C row d d' done (rows ∙ sym (map_id F H C d.outbox.rows)) after
  caught-Settles row d d' e done (Fate.delivered, rows, agrees) after = cc
  caught-Settles row d d' e done (Fate.retried at error h, rows, agrees) after = cc
  caught-Settles row d d' e done (Fate.gave_up error, rows, agrees) after = cc

  pub process_row-Settles :
      (row : OutboxEntry) (d : Desk) → Settles F H C row d (process_row F H C row d)
  unfolding process_row
  process_row-Settles row d =
      let d0 : Desk = record d { result = add_processed d.result } in
      let tried = try_row-Settles row d0 in
      elim (Result-cases (try_row F H C row d0).0) [
        | inl (u, done) ↦ rw (done, process_row) (before-Settles F H C row d d0 _ refl tried)
        | inr (e, thrown) ↦
            rw (thrown, process_row)
              (caught-Settles row d (try_row F H C row d0).1 e _
                (subst (λ r. Settles F H C row d (r, (try_row F H C row d0).1)) thrown
                  (before-Settles F H C row d d0 (try_row F H C row d0) refl tried))
                (handle_retryable-Settles F H C true row (TicketingContext.message C e)
                  (try_row F H C row d0).1))
      ]
