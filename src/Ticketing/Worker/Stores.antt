-- ===== src/Ticketing/Worker/Stores.antt =====
-- What the worker is built with, its stores, and the data of its ledger entries
-- (packages/ticketing-adapter/src/outbox-worker.ts).
use sentinel_act.Prelude.{
  String, ℕ, suc, Bool, true, false, [], ◌∷◌, ◌++◌, Option, none, some, List, if◌then◌else◌, Result,
  ok, err, Error, adapter_call_error,
}
use sentinel_act.Prelude.Effects.{Run, change}
use sentinel_act.Schema.{Obligation, ProcessTask}
use sentinel_act.Router.{is_tier_a}
use sentinel_act.Ledger.{
  Ledger, LedgerAppendInput, LedgerEventType, ActorType, EntityType, Json, Members,
}
use sentinel_act.Ticketing.{
  TicketAssignee, CreateTicketRequest, CreateTicketResult, FinalStatus, ObligationCommittedEvent,
  OutboxEntry, TicketMapping, TicketLineage, TicketingConfig,
}
use sentinel_act.Ticketing.Outbox.{Outbox, claim_batch}
use sentinel_act.Ticketing.Mapping.{Dates}

pub record ProcessOutboxResult : Type 0 where
  pub processed : ℕ
  pub succeeded : ℕ
  pub failed_retryable : ℕ
  pub failed_permanent : ℕ

-- A row of the lineage query, its nodes unwrapped; none for a node that is null.
pub record LineageRow (N : Type 0) : Type 0 where
  pub obligation : Option (Obligation N)
  pub task : Option (ProcessTask N)
  pub lineage : TicketLineage

-- A statement of the outbox that may fail; the rows of a batch are retried once more from the
-- `catch` around each.
pub data Statement : Type 0 where
  selecting claiming finding mapping succeeding retrying retrying_caught failing failing_caught
        resetting :
      Statement

-- What the worker is built with, and how its surroundings behave during the call: the graph, the
-- role map, the outages of the two databases, and the adapter, which sees the tickets that are open
-- already: what it answers, and whether its call opened a ticket. A call that throws may have opened
-- one, as on a timeout, and an answer may name a ticket that was open.
pub record TicketingContext (N : Type 0) : Type 0 where
  pub config : TicketingConfig
  pub adapter_name : String
  pub reference_date : ℕ
  pub clock : ℕ
  pub timestamp : String
  pub run_cypher : (obligation_id task_id : String) → Result (List (LineageRow N))
  pub resolve : String → Result (Option TicketAssignee)
  pub create_ticket :
      List CreateTicketRequest → CreateTicketRequest → Result CreateTicketResult × Bool
  pub dates : Dates N
  pub outage : Statement → (id : String) → Option Error
  pub ledger_outage : (entity_id : String) → Option Error
  pub message : Error → String
  pub show : ℕ → String
  pub iso : ℕ → String

-- The stores: the outbox, the ledger, the tickets of the external system, and the counters.
pub record Desk : Type 0 where
  pub outbox : Outbox
  pub ledger : Ledger
  pub tickets : List CreateTicketRequest
  pub result : ProcessOutboxResult

-- "retryable" unless the adapter says otherwise
unfoldable pub is_permanent : Error → Bool
is_permanent (adapter_call_error p) = p
is_permanent _ = false

abbrev pub system_input : LedgerEventType → (task_id : String) → Json → LedgerAppendInput
system_input type task_id payload = record {
  event_type = type;
  actor = record { type = ActorType.system; id = "grc-ticketing" };
  entity_ref = record { entity_type = some EntityType.process_task; entity_id = some task_id };
  payload = payload;
}

abbrev ids_of : OutboxEntry → Members → Members
ids_of row rest = Members.member "obligation_id" (Json.text row.obligation_id) (
    Members.member "task_id" (Json.text row.task_id)
      (Members.member "event_id" (Json.text row.event_id) rest))

abbrev url_json : Option String → Json
url_json none = Json.null
url_json (some url) = Json.text url

unfoldable pub created_input :
    (adapter_name : String) → OutboxEntry → CreateTicketResult → LedgerAppendInput
created_input adapter_name row created = system_input LedgerEventType.ticket_created row.task_id (
    Json.object (
      ids_of row (
        Members.member "adapter_name" (Json.text adapter_name) (
          Members.member "external_ticket_id" (Json.text created.external_ticket_id) (
            Members.member "external_ticket_url" (url_json created.external_ticket_url)
              Members.end)))))

unfoldable pub failed_input : OutboxEntry → (error : String) → LedgerAppendInput
failed_input row error =
    system_input LedgerEventType.ticket_create_failed row.task_id
      (Json.object (ids_of row (Members.member "error" (Json.text error) Members.end)))

-- The event that a row was made from.
unfoldable pub event_of : (created_at : String) → OutboxEntry → ObligationCommittedEvent
event_of created_at row = record {
  event_id = row.event_id;
  obligation_id = row.obligation_id;
  task_id = row.task_id;
  final_status = if is_tier_a row.tier then FinalStatus.tier_a_committed else FinalStatus.committed;
  tier = row.tier;
  committed_at = created_at;
}

abbrev pub new_mapping :
    (adapter_name : String) (reference_date : ℕ) → OutboxEntry → CreateTicketResult → TicketMapping
new_mapping adapter_name reference_date row created = record {
  task_id = row.task_id;
  adapter_name = adapter_name;
  external_ticket_id = created.external_ticket_id;
  external_ticket_url = created.external_ticket_url;
  created_at = reference_date;
}

-- The external system after a call that opened a ticket, or none.
abbrev pub open_ticket : (opens : Bool) → CreateTicketRequest → Desk → Desk
open_ticket true request d = record d { tickets = d.tickets ++ request ∷ [] }
open_ticket false request d = d

-- A statement that changes the outbox, unless the database fails.
unfoldable pub execute : Option Error → (Outbox → Outbox) → Run Desk (Unit {0})
execute (some e) f d = (err e, d)
execute none f d = (ok tt, record d { outbox = f d.outbox })

abbrev pub tally : (ProcessOutboxResult → ProcessOutboxResult) → Run Desk (Unit {0})
tally f = change (λ d. record d { result = f d.result })

abbrev pub add_processed : ProcessOutboxResult → ProcessOutboxResult
add_processed r = record r { processed = suc r.processed }

abbrev pub add_succeeded : ProcessOutboxResult → ProcessOutboxResult
add_succeeded r = record r { succeeded = suc r.succeeded }

abbrev pub add_retryable : ProcessOutboxResult → ProcessOutboxResult
add_retryable r = record r { failed_retryable = suc r.failed_retryable }

abbrev pub add_permanent : ProcessOutboxResult → ProcessOutboxResult
add_permanent r = record r { failed_permanent = suc r.failed_permanent }

abbrev pub no_counts : ProcessOutboxResult
no_counts = record { processed = 0; succeeded = 0; failed_retryable = 0; failed_permanent = 0 }

-- The batch of a call.
abbrev pub claim_due : {N : Type 0} → TicketingContext N → Run Outbox (List OutboxEntry)
claim_due C =
    claim_batch (TicketingContext.outage C Statement.selecting "")
      (TicketingContext.outage C Statement.claiming)
      (TicketingConfig.outbox_batch_size (TicketingContext.config C)) (TicketingContext.clock C)
      (TicketingContext.reference_date C)
