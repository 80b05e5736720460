-- ===== src/Ticketing.antt =====
-- The data of the ticketing adapter (packages/ticketing-adapter/src/types.ts): the outbox that
-- carries each committed task to an external ticketing system. Times in the outbox are milliseconds.
use sentinel_act.Prelude.{String, ℕ, Bool, Option, List}
use sentinel_act.Router.{Tier}
pub mod Outbox
pub mod Mapping
pub mod Worker
pub mod Intake
pub mod Rows
pub mod Machine
pub mod Claims
pub mod Settles
pub mod Refines
pub mod Sound
pub mod Drains
pub mod Once
pub mod Sweep

pub data TicketPriority : Type 0 where
  p1_urgent p2_high p3_normal : TicketPriority

pub record TicketAssignee : Type 0 where
  pub external_assignee_ref : String
  pub display_label : String
  pub is_fallback : Bool

pub record SourceRefs : Type 0 where
  pub obligation_id : String
  pub task_id : String
  pub circular_id : Option String
  pub clause_para_ref : Option String

pub record CreateTicketRequest : Type 0 where
  pub dedupe_key : String
  pub title : String
  pub description : String
  pub assignee : TicketAssignee
  pub due_date : String
  pub priority : TicketPriority
  pub labels : List String
  pub source_refs : SourceRefs

-- What the adapter answers; its raw response is kept for debugging only and is left out.
pub record CreateTicketResult : Type 0 where
  pub external_ticket_id : String
  pub external_ticket_url : Option String

-- "tier_a_committed" | "committed"
pub data FinalStatus : Type 0 where
  tier_a_committed committed : FinalStatus

pub record ObligationCommittedEvent : Type 0 where
  pub event_id : String
  pub obligation_id : String
  pub task_id : String
  pub final_status : FinalStatus
  pub tier : Tier
  pub committed_at : String

pub data OutboxStatus : Type 0 where
  pending processing succeeded failed_retryable failed_permanent : OutboxStatus

pub record OutboxEntry : Type 0 where
  pub id : String
  pub event_id : String
  pub obligation_id : String
  pub task_id : String
  pub tier : Tier
  pub status : OutboxStatus
  pub attempts : ℕ
  pub next_attempt_at : ℕ
  pub last_error : Option String
  pub created_at : ℕ
  pub updated_at : ℕ

pub record TicketMapping : Type 0 where
  pub task_id : String
  pub adapter_name : String
  pub external_ticket_id : String
  pub external_ticket_url : Option String
  pub created_at : ℕ

pub record TicketLineage : Type 0 where
  pub clause_para_ref : Option String
  pub circular_title : Option String
  pub circular_date_effective : Option String
  pub circular_id : Option String

pub record TicketingConfig : Type 0 where
  pub default_assignee_ref : String
  pub max_attempts : ℕ
  pub base_backoff_ms : ℕ
  pub max_backoff_ms : ℕ
  pub outbox_batch_size : ℕ
