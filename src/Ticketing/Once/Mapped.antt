-- ===== src/Ticketing/Once/Mapped.antt =====
-- That a task whose ticket is noted gets no other one.
use sentinel_act.Prelude.{
  String, ℕ, Bool, true, false, none, List, [], ◌∷◌, ◌++◌, ◌≡◌, refl, sym, ap, ◌∙◌, any, filter,
  ◌==◌, eq_iff, Bool-cases, Option-cases, Result-cases, inl, inr, any-append_left,
}
use sentinel_act.Float.{Float}
use sentinel_act.Ledger.{Host}
use sentinel_act.Ticketing.{OutboxEntry, CreateTicketRequest, CreateTicketResult, TicketMapping}
use sentinel_act.Ticketing.Outbox.{Outbox, update, mark_succeeded, find_mapping, insert_mapping}
use sentinel_act.Ticketing.Worker.{
  TicketingContext, Desk, Statement, execute, handle_succeeded, handle_call_error, create_ticket,
  open_ticket, settle_created, submit, append_ledger_safely, new_mapping, process_outbox_once,
}
use sentinel_act.Ticketing.Once.Noted.{has_mapping, find_mapping-none}
use sentinel_act.Ticketing.Once.Silent.{Quiet, handle_call_error-Quiet}
use sentinel_act.Ticketing.Once.Carries.{IsLookup, process_outbox_once-carries}

-- The tickets that were opened for a task.
abbrev pub of_task : (task_id : String) → List CreateTicketRequest → List CreateTicketRequest
of_task t qs = filter (λ q. q.dedupe_key == t) qs

-- A task with a mapping keeps it, and has the tickets that it had.
unfoldable Closed : String → Desk → Desk → Type 0
Closed t d d' =
    has_mapping d.outbox.mappings t ≡ true
    → (has_mapping d'.outbox.mappings t ≡ true) × (of_task t d'.tickets ≡ of_task t d.tickets)

Quiet-Closed : (t : String) (d d' : Desk) → Quiet d d' → Closed t d d'
unfolding Quiet Closed
Quiet-Closed t d d' (mappings, tickets) h =
    (ap (λ ms. has_mapping ms t) mappings ∙ h, ap (of_task t) tickets)

Closed-trans : (t : String) (d e f : Desk) → Closed t d e → Closed t e f → Closed t d f
unfolding Closed
Closed-trans t d e f h g m = ((g (h m).0).0, (g (h m).0).1 ∙ (h m).1)

of_task-other :
    (t : String) (qs : List CreateTicketRequest) (q : CreateTicketRequest)
    → (q.dedupe_key == t) ≡ false
    → of_task t (qs ++ q ∷ []) ≡ of_task t qs
of_task-other t [] q h = rw h refl
of_task-other t (p ∷ qs) q h = rw (of_task-other t qs q h) refl

open_ticket-Closed :
    (t : String) (opens : Bool) (request : CreateTicketRequest) (d : Desk)
    → (request.dedupe_key == t) ≡ false
    → Closed t d (open_ticket opens request d)
unfolding Closed
open_ticket-Closed t true request d other m = (m, of_task-other t d.tickets request other)
open_ticket-Closed t false request d other m = (m, refl)

insert_mapping-keeps :
    (t : String) (now : ℕ) (m : TicketMapping) (o : Outbox)
    → has_mapping o.mappings t ≡ true
    → has_mapping (insert_mapping now m o).1.mappings t ≡ true
unfolding insert_mapping
insert_mapping-keeps t now m o h =
    elim (Bool-cases (any (λ n. n.task_id == m.task_id) o.mappings)) [
      | inl noted ↦ rw (noted, insert_mapping) h
      | inr new ↦
          rw (new, insert_mapping)
            (any-append_left (λ n. n.task_id == t) o.mappings (record m { created_at = now } ∷ [])
              h)
    ]

other_task :
    (t task key : String) (o : Outbox)
    → find_mapping task o ≡ none
    → key ≡ task
    → has_mapping o.mappings t ≡ true
    → (key == t) ≡ false
other_task t task key o unmapped same known = elim (Bool-cases (key == t)) [
  | inr other ↦ other
  | inl equal ↦
      let absent =
        ap (has_mapping o.mappings) (sym ((eq_iff key t).0 equal) ∙ same)
        ∙ find_mapping-none task o unmapped in
      let bad : true ≡ false = sym known ∙ absent in cc
]

module _ (F : Float) (H : Host) (C : TicketingContext (Float.Number F)) where
  open F use {Number}

  settle_created-Closed :
      (t : String) (row : OutboxEntry) (created : CreateTicketResult) (d : Desk)
      → Closed t d (settle_created F H C row created d).1
  unfolding Closed settle_created handle_succeeded mark_succeeded update append_ledger_safely
      execute
  settle_created-Closed t row created d m =
      let kept =
        insert_mapping-keeps t (TicketingContext.clock C)
          (new_mapping (TicketingContext.adapter_name C) (TicketingContext.reference_date C) row
            created)
          d.outbox m in
      elim (Option-cases (TicketingContext.outage C Statement.mapping row.id)) [
        | inr (e, down) ↦ rw (down, settle_created) (m, refl)
        | inl up ↦ elim (Option-cases (TicketingContext.outage C Statement.succeeding row.id)) [
          | inl through ↦ rw (up, settle_created) (rw (through, execute) (kept, refl))
          | inr (e, down) ↦ rw (up, settle_created) (rw (down, execute) (kept, refl))
        ]
      ]

  submit-Closed :
      (t : String) (row : OutboxEntry) (request : CreateTicketRequest) (d : Desk)
      → find_mapping row.task_id d.outbox ≡ none
      → request.dedupe_key ≡ row.task_id
      → Closed t d (submit F H C row request d).1
  unfolding submit create_ticket Closed
  submit-Closed t row request d unmapped key m =
      let answer = TicketingContext.create_ticket C d.tickets request in
      let d' = open_ticket answer.1 request d in
      let called =
        open_ticket-Closed t answer.1 request d
          (other_task t row.task_id request.dedupe_key d.outbox unmapped key m) in
      elim (Result-cases answer.0) [
        | inr (e, refused) ↦
            rw (refused, submit)
              (Closed-trans t d d' (handle_call_error F H C row e d').1 called
                (Quiet-Closed t d' (handle_call_error F H C row e d').1
                  (handle_call_error-Quiet F H C row e d'))
                m)
        | inl (created, answered) ↦
            rw (answered, submit)
              (Closed-trans t d d' (settle_created F H C row created d').1 called
                (settle_created-Closed t row created d') m)
      ]

  -- If the lookup in the graph gives the task that it is asked for, a task whose ticket is noted
  -- keeps its mapping and gets no other ticket from a call of the worker, whatever the adapter
  -- answers or leaves open and whichever statements fail.
  pub process_outbox_once-of_task :
      (t : String) (d : Desk)
      → IsLookup (TicketingContext.run_cypher C)
      → has_mapping d.outbox.mappings t ≡ true
      → (has_mapping (process_outbox_once F H C d).1.outbox.mappings t ≡ true)
        × (of_task t (process_outbox_once F H C d).1.tickets ≡ of_task t d.tickets)
  unfolding Closed
  process_outbox_once-of_task t d finds =
      process_outbox_once-carries F H C (Closed t) (Quiet-Closed t) (Closed-trans t) finds
        (submit-Closed t) d
