-- ===== src/Ledger.antt =====
-- The hash-chained audit ledger (packages/audit-ledger/src): its entries, the hashes that chain
-- them (canonicalize.ts), appending and querying (postgres-audit-ledger.ts). The table is the list
-- of its rows in the order of their sequence numbers, which is the order of every query.
use sentinel_act.Prelude.{
  String, ℕ, suc, ◌+◌, ◌-◌, min, Bool, true, false, ◌&&◌, Option, none, some, List, [], ◌∷◌, ◌++◌,
  ◌==◌, template, any, filter, take, get_last?, leb, eqb, if◌then◌else◌, Result, ok, err, Error,
  ledger_append_error, is_empty,
}
mod Entry
pub mod Verify
pub mod Chain
pub mod Pages
pub mod Audit
unfoldable pub use Entry.*

module _ (H : Host) where
  open H use {sha256, stringify, precedes, show, not_later}

  -- Sorting the members of an object by their keys: each goes in front of the first it precedes.
  abbrev insert_member : String → Json → Members → Members
  insert_member k v Members.end = Members.member k v Members.end
  insert_member k v (Members.member j w ms) =
      let rest = insert_member k v ms in
      if precedes j k then Members.member j w rest else Members.member k v (Members.member j w ms)

  unfoldable mutual
    pub sort_value : Json → Json
    sort_value (Json.array items) = Json.array (sort_items items)
    sort_value (Json.date iso) = Json.text iso
    sort_value (Json.object members) = Json.object (sort_members members)
    sort_value Json.null = Json.null
    sort_value (Json.boolean b) = Json.boolean b
    sort_value (Json.number n) = Json.number n
    sort_value (Json.text s) = Json.text s

    pub sort_items : Items → Items
    sort_items Items.done = Items.done
    sort_items (Items.item v vs) = Items.item (sort_value v) (sort_items vs)

    pub sort_members : Members → Members
    sort_members Members.end = Members.end
    sort_members (Members.member k v ms) = insert_member k (sort_value v) (sort_members ms)

  unfoldable pub canonicalize : Json → String
  canonicalize value = stringify (sort_value value)

  unfoldable pub compute_payload_hash : Json → String
  compute_payload_hash payload = sha256 (canonicalize payload)

  unfoldable pub compute_entry_hash :
      (sequence_number : ℕ) (timestamp : String)
      → LedgerEventType
      → (payload_hash prev_entry_hash : String) → String
  compute_entry_hash n timestamp event payload_hash prev = sha256 (
      template
        (show n ∷ "|" ∷ timestamp ∷ "|" ∷ event_name event ∷ "|" ∷ payload_hash ∷ "|" ∷ prev ∷ []))

-- The value of a member, the last one under that key.
unfoldable pub get_member : Json → String → Option Json
get_member (Json.object Members.end) key = none
get_member (Json.object (Members.member k v ms)) key = elim (get_member (Json.object ms) key) [
  | some w ↦ some w
  | none ↦ if k == key then some v else none
]
get_member _ key = none

abbrev text_member : Option Json → Option String
text_member (some (Json.text s)) = if s == "" then none else some s
text_member _ = none

abbrev obligation_ref : Option EntityType → Option String → Option String
obligation_ref (some EntityType.obligation) (some id) = if id == "" then none else some id
obligation_ref _ _ = none

pub derive_related_obligation_id : LedgerAppendInput → Option String
unfolding get_member
derive_related_obligation_id input =
    elim (obligation_ref input.entity_ref.entity_type input.entity_ref.entity_id) [
      | some id ↦ some id
      | none ↦ text_member (get_member input.payload "obligation_id")
    ]

abbrev prev_hash : Option LedgerEntry → String
prev_hash none = genesis_hash
prev_hash (some e) = e.entry_hash

abbrev next_number : Option LedgerEntry → ℕ
next_number none = 1
next_number (some e) = e.sequence_number + 1

module _ (H : Host) where
  -- The row that an append at a time of the store's clock inserts.
  unfoldable pub next_entry : Ledger → (timestamp : String) → LedgerAppendInput → LedgerEntry
  unfolding compute_payload_hash compute_entry_hash derive_related_obligation_id
  next_entry ledger timestamp input =
      let last = get_last? ledger in
      let payload_hash = compute_payload_hash H input.payload in
      record {
        sequence_number = next_number last;
        timestamp = timestamp;
        event_type = input.event_type;
        actor = input.actor;
        entity_ref = input.entity_ref;
        related_obligation_id = derive_related_obligation_id input;
        payload = input.payload;
        payload_hash = payload_hash;
        prev_entry_hash = prev_hash last;
        entry_hash =
            compute_entry_hash H (next_number last) timestamp input.event_type payload_hash
              (prev_hash last);
      }

  -- `append`: the transaction runs, or the database fails in it (`outage`) and it is rolled back.
  unfoldable pub append :
      (outage : Option Error)
      → Ledger
      → (timestamp : String) → LedgerAppendInput
      → Result LedgerEntry × Ledger
  unfolding next_entry
  append (some e) ledger timestamp input = (err (ledger_append_error e), ledger)
  append none ledger timestamp input =
      let entry = next_entry ledger timestamp input in (ok entry, ledger ++ entry ∷ [])

-- `entityType` may be absent, null, or an entity type.
pub record LedgerQuery : Type 0 where
  pub entity_type : Option (Option EntityType)
  pub entity_id : Option String
  pub event_types : List LedgerEventType
  pub from_timestamp : Option String
  pub to_timestamp : Option String
  pub from_sequence : Option ℕ
  pub to_sequence : Option ℕ
  pub limit : Option ℕ

-- SQL's `column = value`, which holds of no null.
pub equals : Option String → Option String → Bool
equals (some a) (some b) = a == b
equals _ _ = false

abbrev pub name_of : Option EntityType → Option String
name_of none = none
name_of (some t) = some (entity_name t)

-- The conditions on the entity that a query puts into its `WHERE`.
pub selects_entity : Option (Option EntityType) → Option String → LedgerEntry → Bool
unfolding equals
selects_entity none none e = true
selects_entity none (some id) e = equals e.entity_ref.entity_id (some id)
selects_entity (some t) none e = equals (name_of e.entity_ref.entity_type) (name_of t)
selects_entity (some (some EntityType.obligation)) (some id) e =
    equals e.related_obligation_id (some id)
selects_entity (some t) (some id) e =
    equals (name_of e.entity_ref.entity_type) (name_of t) && equals e.entity_ref.entity_id (some id)

abbrev bounded {ℓ} : {A : Type ℓ} → (A → Bool) → Option A → Bool
bounded p none = true
bounded p (some a) = p a

pub has_event : List LedgerEventType → LedgerEntry → Bool
has_event ts e = any (λ t. event_name e.event_type == event_name t) ts

module _ (H : Host) where
  open H use {not_later}

  -- An empty bound on the time stamps is no bound.
  abbrev time_bound : (String → Bool) → Option String → Bool
  time_bound p none = true
  time_bound p (some t) = if t == "" then true else p t

  unfoldable pub selects : LedgerQuery → LedgerEntry → Bool
  unfolding selects_entity has_event
  selects q e =
      selects_entity q.entity_type q.entity_id e
      && (if is_empty q.event_types then true else has_event q.event_types e)
      && time_bound (λ t. not_later t e.timestamp) q.from_timestamp
      && time_bound (λ t. not_later e.timestamp t) q.to_timestamp
      && bounded (λ n. leb n e.sequence_number) q.from_sequence
      && bounded (λ n. leb e.sequence_number n) q.to_sequence

  abbrev row_limit : Option ℕ → ℕ
  row_limit none = 100
  row_limit (some n) = min n 1000

  unfoldable pub query : Ledger → LedgerQuery → List LedgerEntry
  unfolding selects
  query ledger q = take (row_limit q.limit) (filter (selects q) ledger)

pub get_latest_entry_for_entity :
    Ledger → Option EntityType → (entity_id : String) → List LedgerEventType → Option LedgerEntry
unfolding equals has_event
get_latest_entry_for_entity ledger t id events = get_last? (
    filter
      (λ e.
        equals (name_of e.entity_ref.entity_type) (name_of t)
        && equals e.entity_ref.entity_id (some id)
        && has_event events e)
      ledger)
