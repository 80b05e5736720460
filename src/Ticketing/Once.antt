-- ===== src/Ticketing/Once.antt =====
-- At most one ticket for a task.
use sentinel_act.Prelude.{
  String, ℕ, Bool, true, false, Option, none, some, List, [], ◌∷◌, ◌++◌, ◌≡◌, refl, sym, subst, ap,
  ◌∙◌, any, find?, All, All-map, All-append, arith, ◌==◌, eq_iff, Bool-cases, Option-cases,
  Result-cases, inl, inr, Result, ok, err, Error, if◌then◌else◌, any-append, ltb, suc,
  any-append_left,
}
use sentinel_act.Prelude.Effects.{◌>>◌, then-err, then-ok}
use sentinel_act.Float.{Float}
use sentinel_act.Schema.{Obligation, ProcessTask}
use sentinel_act.Ledger.{Host}
use sentinel_act.Ticketing.{
  OutboxEntry, TicketingConfig, CreateTicketRequest, CreateTicketResult, TicketMapping,
  TicketLineage,
}
use sentinel_act.Ticketing.Outbox.{
  Outbox, update, mark_succeeded, mark_retryable, mark_permanent_failure, find_mapping,
  insert_mapping, claim_batch, claim_each, claim_row, candidates,
}
use sentinel_act.Ticketing.Mapping.{
  build_create_ticket_request, resolve_assignee, compute_ticket_due_date,
}
use sentinel_act.Ticketing.Claims.{claim_each-skip, claim_each-take, claim_each-stop}
use sentinel_act.Ticketing.Settles.{limit, open_ticket-outbox}
use sentinel_act.Ticketing.Worker.{
  TicketingContext, Desk, Statement, LineageRow, exhausted, execute, handle_succeeded,
  handle_permanent, handle_retryable, handle_call_error, create_ticket, open_ticket, settle_created,
  submit, resolve_row, try_row, process_row, process_rows, process_outbox_once,
  append_ledger_safely, add_processed, is_permanent, event_of, new_mapping, claim_due, no_counts,
  tally, add_succeeded,
}
use sentinel_act.Ticketing.Once.Noted.{
  has_mapping, IsServedOnce, Apart, opened-IsServedOnce, more-IsServedOnce, find_mapping-none,
  insert_mapping-new,
}
use sentinel_act.Ticketing.Once.Silent.{
  Quiet, Serves, Quiet-Serves, Quiet-refl, counted-Quiet, claim_batch-mappings,
  handle_succeeded-Quiet, handle_permanent-Quiet, handle_retryable-Quiet, handle_call_error-Quiet,
}
use sentinel_act.Ticketing.Once.Carries.{IsLookup, process_outbox_once-carries}
pub mod Noted
pub mod Silent
pub mod Carries
pub mod Mapped

-- A call of the adapter that throws has opened no ticket.
unfoldable pub IsAllOrNothing :
    (List CreateTicketRequest → CreateTicketRequest → Result CreateTicketResult × Bool) → Type 0
IsAllOrNothing create_ticket =
    (tickets : List CreateTicketRequest) (request : CreateTicketRequest) (e : Error)
    → (create_ticket tickets request).0 ≡ err e
    → (create_ticket tickets request).1 ≡ false

module _ (F : Float) (H : Host) (C : TicketingContext (Float.Number F)) where
  open F use {Number}

  -- The statement that notes a ticket never fails.
  Notes : Type 0
  Notes = (id : String) → TicketingContext.outage C Statement.mapping id ≡ none

  -- After a ticket was answered, whether or not the call opened it.
  answered-IsServedOnce :
      (opens : Bool) (request : CreateTicketRequest) (m : TicketMapping) (d : Desk)
      → has_mapping d.outbox.mappings m.task_id ≡ false
      → request.dedupe_key ≡ m.task_id
      → IsServedOnce d.outbox.mappings d.tickets
      → IsServedOnce (d.outbox.mappings ++ m ∷ []) (open_ticket opens request d).tickets
  answered-IsServedOnce true request m d new key h =
      opened-IsServedOnce d.outbox.mappings d.tickets m request new key h
  answered-IsServedOnce false request m d new key h =
      more-IsServedOnce d.outbox.mappings d.tickets m h

  -- What is noted once a ticket was answered.
  abbrev note : OutboxEntry → CreateTicketResult → TicketMapping
  note row created =
      record (new_mapping (TicketingContext.adapter_name C) (TicketingContext.reference_date C) row
        created) { created_at = TicketingContext.clock C }

  settle_created-notes :
      (row : OutboxEntry) (created : CreateTicketResult) (d : Desk)
      → Notes
      → find_mapping row.task_id d.outbox ≡ none
      → ((settle_created F H C row created d).1.outbox.mappings
          ≡ d.outbox.mappings ++ note row created ∷ [])
        × ((settle_created F H C row created d).1.tickets ≡ d.tickets)
  unfolding settle_created handle_succeeded mark_succeeded update append_ledger_safely execute Notes
  settle_created-notes row created d notes unmapped =
      let m =
        new_mapping (TicketingContext.adapter_name C) (TicketingContext.reference_date C) row
          created in
      let mapped =
        insert_mapping-new (TicketingContext.clock C) m d.outbox
          (find_mapping-none row.task_id d.outbox unmapped) in
      elim (Option-cases (TicketingContext.outage C Statement.succeeding row.id)) [
        | inl up ↦ rw (notes row.id, settle_created) (rw (up, execute) (mapped, refl))
        | inr (e, down) ↦ rw (notes row.id, settle_created) (rw (down, execute) (mapped, refl))
      ]

  submit-Serves :
      (row : OutboxEntry) (request : CreateTicketRequest) (d : Desk)
      → Notes
      → IsAllOrNothing (TicketingContext.create_ticket C)
      → find_mapping row.task_id d.outbox ≡ none
      → request.dedupe_key ≡ row.task_id
      → Serves d (submit F H C row request d).1
  unfolding submit create_ticket settle_created handle_succeeded mark_succeeded update
      append_ledger_safely execute Serves Notes IsAllOrNothing
  submit-Serves row request d notes atomic unmapped key =
      let answer = TicketingContext.create_ticket C d.tickets request in
      elim (Result-cases answer.0) [
        | inr (e, refused) ↦
            rw (refused, submit)
              (rw (atomic d.tickets request e refused) (
                Quiet-Serves d (handle_call_error F H C row e d).1
                  (handle_call_error-Quiet F H C row e d)))
        | inl (created, answered) ↦
            let d' = open_ticket answer.1 request d in
            let same = open_ticket-outbox answer.1 request d in
            let (mapped, kept) =
              settle_created-notes row created d' notes
                (ap (find_mapping row.task_id) same ∙ unmapped) in
            rw (answered, submit)
              (λ h.
                subst (λ ms. IsServedOnce ms (settle_created F H C row created d').1.tickets)
                  (sym (mapped ∙ ap (λ o. o.mappings ++ note row created ∷ []) same))
                  (subst (IsServedOnce (d.outbox.mappings ++ note row created ∷ [])) (sym kept) (
                    answered-IsServedOnce answer.1 request (note row created) d
                      (find_mapping-none row.task_id d.outbox unmapped) key h)))
      ]

  -- As long as the statement that notes a ticket does not fail, a call of the adapter that throws has
  -- opened no ticket, and the lookup in the graph gives the task that it is asked for, a call of the
  -- worker keeps this: every ticket that the adapter has opened is noted under its task, and no task
  -- has two.
  pub process_outbox_once-IsServedOnce :
      (d : Desk)
      → ((id : String) → TicketingContext.outage C Statement.mapping id ≡ none)
      → IsAllOrNothing (TicketingContext.create_ticket C)
      → IsLookup (TicketingContext.run_cypher C)
      → IsServedOnce d.outbox.mappings d.tickets
      → IsServedOnce
          (process_outbox_once F H C d).1.outbox.mappings
          (process_outbox_once F H C d).1.tickets
  unfolding process_outbox_once Notes Serves
  process_outbox_once-IsServedOnce d notes atomic finds h =
      process_outbox_once-carries F H C Serves Quiet-Serves (λ d e f g k x. k (g x)) finds
        (λ row request d. submit-Serves row request d notes atomic) d h
