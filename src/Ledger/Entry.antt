-- ===== src/Ledger/Entry.antt =====
-- The entries of the ledger, what is appended to it, and the platform that it runs on
-- (packages/audit-ledger/src/types.ts).
use sentinel_act.Prelude.{String, ℕ, Bool, Option, List}

-- A JSON value. A number is given by the text that JSON prints for it, a date by its ISO text.
mutual
  pub data Json : Type 0 where
    null : Json
    boolean : Bool → Json
    number text date : String → Json
    array : Items → Json
    object : Members → Json

  pub data Items : Type 0 where
    done : Items
    item : Json → Items → Items

  pub data Members : Type 0 where
    end : Members
    member : String → Json → Members → Members

-- What the ledger takes from its platform: SHA-256 in hexadecimal (node:crypto), `JSON.stringify`,
-- the order of texts (of `Array.prototype.sort`, and of the database's `ORDER BY`), the decimal text of a number, and PostgreSQL's
-- order on time stamps.
pub record Host : Type 0 where
  pub sha256 : String → String
  pub stringify : Json → String
  pub precedes : String → String → Bool
  pub show : ℕ → String
  pub not_later : String → String → Bool

pub data LedgerEventType : Type 0 where
  agent_proposal tier_routing_decision graph_commit human_review_submitted
        evidence_artifact_ingested evidence_hash_mismatch sla_approaching sla_breached
        chain_verification_run ticket_created ticket_create_failed ticket_updated
        ticket_update_failed :
      LedgerEventType

abbrev pub event_name : LedgerEventType → String
event_name LedgerEventType.agent_proposal = "AGENT_PROPOSAL"
event_name LedgerEventType.tier_routing_decision = "TIER_ROUTING_DECISION"
event_name LedgerEventType.graph_commit = "GRAPH_COMMIT"
event_name LedgerEventType.human_review_submitted = "HUMAN_REVIEW_SUBMITTED"
event_name LedgerEventType.evidence_artifact_ingested = "EVIDENCE_ARTIFACT_INGESTED"
event_name LedgerEventType.evidence_hash_mismatch = "EVIDENCE_HASH_MISMATCH"
event_name LedgerEventType.sla_approaching = "SLA_APPROACHING"
event_name LedgerEventType.sla_breached = "SLA_BREACHED"
event_name LedgerEventType.chain_verification_run = "CHAIN_VERIFICATION_RUN"
event_name LedgerEventType.ticket_created = "TICKET_CREATED"
event_name LedgerEventType.ticket_create_failed = "TICKET_CREATE_FAILED"
event_name LedgerEventType.ticket_updated = "TICKET_UPDATED"
event_name LedgerEventType.ticket_update_failed = "TICKET_UPDATE_FAILED"

pub data ActorType : Type 0 where
  agent human system : ActorType

pub record LedgerActor : Type 0 where
  pub type : ActorType
  pub id : String

pub data EntityType : Type 0 where
  circular clause obligation process_task evidence_artifact human_review : EntityType

abbrev pub entity_name : EntityType → String
entity_name EntityType.circular = "Circular"
entity_name EntityType.clause = "Clause"
entity_name EntityType.obligation = "Obligation"
entity_name EntityType.process_task = "ProcessTask"
entity_name EntityType.evidence_artifact = "EvidenceArtifact"
entity_name EntityType.human_review = "HumanReview"

pub record LedgerEntityRef : Type 0 where
  pub entity_type : Option EntityType
  pub entity_id : Option String

-- A row of the table: a `LedgerEntry` and the column `related_obligation_id`.
pub record LedgerEntry : Type 0 where
  pub sequence_number : ℕ
  pub timestamp : String
  pub event_type : LedgerEventType
  pub actor : LedgerActor
  pub entity_ref : LedgerEntityRef
  pub related_obligation_id : Option String
  pub payload : Json
  pub payload_hash : String
  pub prev_entry_hash : String
  pub entry_hash : String

abbrev pub Ledger : Type 0
Ledger = List LedgerEntry

pub record LedgerAppendInput : Type 0 where
  pub event_type : LedgerEventType
  pub actor : LedgerActor
  pub entity_ref : LedgerEntityRef
  pub payload : Json

-- "0".repeat(64)
abbrev pub genesis_hash : String
genesis_hash = "0000000000000000000000000000000000000000000000000000000000000000"
