-- ===== src/Ticketing/Sound.antt =====
-- The table of the outbox under every sequence of the operations that write it.
use sentinel_act.Prelude.{
  String, ℕ, false, Option, none, some, List, [], ◌∷◌, ◌++◌, ◌≡◌, refl, sym, subst, ap, ◌∙◌, any,
  arith, ◌==◌, eq_iff, Bool-cases, Option-cases, Result-cases, inl, inr, Error, if◌then◌else◌,
  any-append, find?-append_none, find?-append_some, ticketing_unavailable,
}
use sentinel_act.Float.{Float}
use sentinel_act.Ledger.{Host}
use sentinel_act.Ticketing.{OutboxEntry, TicketingConfig, ObligationCommittedEvent}
use sentinel_act.Ticketing.Outbox.{
  Outbox, NewEntry, new_row, insert_if_not_exists, reset_to_pending, set_pending, update,
}
use sentinel_act.Ticketing.Rows.{lookup, on, IsKeyed, lookup-map, map-IsKeyed}
use sentinel_act.Ticketing.Machine.{Steps-IsBounded, IsBounded, allowed, Tracks, Related}
use sentinel_act.Ticketing.Refines.{process_outbox_once-Refines}
use sentinel_act.Ticketing.Intake.{handle_obligation_committed_event, entry_of, validate_event}
use sentinel_act.Ticketing.Worker.{
  TicketingContext, Desk, Statement, process_outbox_once, reset_outbox_entry, execute,
}

-- The rows have different identifiers, and no row has more attempts on its counter than the number
-- allowed, or one more if it is given up.
unfoldable pub IsSound : (max : ℕ) → List OutboxEntry → Type 0
IsSound max rows =
    IsKeyed rows × ((id : String) (r : OutboxEntry) → lookup id rows ≡ some r → IsBounded max r)

Related-IsBounded :
    (max : ℕ) (before : Option OutboxEntry) (r' : OutboxEntry)
    → ((r : OutboxEntry) → before ≡ some r → IsBounded max r)
    → Related max before (some r')
    → IsBounded max r'
unfolding Related
Related-IsBounded max none r' h related = elim related [ ]
Related-IsBounded max (some r) r' h related = Steps-IsBounded max r r' related (h r refl)

Tracks-IsSound :
    (max : ℕ) (rows rows' : List OutboxEntry)
    → Tracks max rows rows'
    → IsKeyed rows'
    → IsSound max rows
    → IsSound max rows'
unfolding IsSound Tracks
Tracks-IsSound max rows rows' tracks keyed h = (
  keyed,
  λ id r' there.
      Related-IsBounded max (lookup id rows) r' (h.1 id)
        (subst (Related max (lookup id rows)) there (tracks id)),
)

append-IsKeyed :
    (rows : List OutboxEntry) (n : OutboxEntry)
    → any (λ r. r.id == n.id) rows ≡ false
    → IsKeyed rows
    → IsKeyed (rows ++ n ∷ [])
unfolding IsKeyed
append-IsKeyed [] n h keyed = (refl, tt)
append-IsKeyed (r ∷ rs) n h keyed =
    let split = any-append (λ s. s.id == r.id) rs (n ∷ []) in
    (ground (arith, eq_iff n.id r.id, eq_iff r.id n.id), append-IsKeyed rs n (ground arith) keyed.1)

append-IsSound :
    (max now : ℕ) (rows : List OutboxEntry) (e : NewEntry)
    → any (λ r. r.id == e.id) rows ≡ false
    → IsSound max rows
    → IsSound max (rows ++ new_row now e ∷ [])
unfolding IsSound lookup IsBounded allowed new_row
append-IsSound max now rows e h sound = (
  append-IsKeyed rows (new_row now e) h sound.0,
  λ id r there. elim (Option-cases (lookup id rows)) [
    | inr (s, found) ↦
        let same =
          sym there ∙ find?-append_some (λ t. t.id == id) rows (new_row now e ∷ []) s found in
        let eq : s ≡ r = cc in subst (IsBounded max) eq (sound.1 id s found)
    | inl absent ↦
        let same = find?-append_none (λ t. t.id == id) rows (new_row now e ∷ []) absent in
        elim (Bool-cases (e.id == id)) [
          | inl own ↦
              let made : some (new_row now e) ≡ some r = sym (same ∙ rw own refl) ∙ there in
              let eq : new_row now e ≡ r = cc in subst (IsBounded max) eq (omega arith)
          | inr other ↦ let gone : some r ≡ none = sym there ∙ (same ∙ rw other refl) in cc
        ]
  ],
)

insert_if_not_exists-IsSound :
    (max : ℕ) (broken_key : Error) (now : ℕ) (e : NewEntry) (o : Outbox)
    → IsSound max o.rows
    → IsSound max (insert_if_not_exists broken_key now e o).1.rows
unfolding insert_if_not_exists
insert_if_not_exists-IsSound max broken_key now e o h =
    elim (Bool-cases (any (λ r. r.event_id == e.event_id) o.rows)) [
      | inl known ↦ rw (known, insert_if_not_exists) h
      | inr new ↦ elim (Bool-cases (any (λ r. r.id == e.id) o.rows)) [
        | inl clash ↦ rw (new, insert_if_not_exists) (rw clash h)
        | inr free ↦
            rw (new, insert_if_not_exists) (rw free (append-IsSound max now o.rows e free h))
      ]
    ]

handle_obligation_committed_event-IsSound :
    (max : ℕ) (id : String) (now : ℕ) (outage : Option Error) (ev : ObligationCommittedEvent)
    (o : Outbox)
    → IsSound max o.rows
    → IsSound max (handle_obligation_committed_event id now outage ev o).1.rows
unfolding handle_obligation_committed_event
handle_obligation_committed_event-IsSound max id now outage ev o h =
    elim (Result-cases (validate_event ev)) [
      | inr (e, invalid) ↦ rw (invalid, handle_obligation_committed_event) h
      | inl (u, valid) ↦ elim (Option-cases outage) [
        | inr (e, down) ↦ rw (valid, handle_obligation_committed_event) (rw down h)
        | inl up ↦
            rw (valid, handle_obligation_committed_event)
              (rw up
                (insert_if_not_exists-IsSound max ticketing_unavailable now (entry_of id ev) o h))
      ]
    ]

abbrev reset_row : (now : ℕ) (id : String) → OutboxEntry → OutboxEntry
reset_row now id r = if r.id == id then record (set_pending now r) { updated_at = now } else r

reset_row-IsBounded :
    (max now : ℕ) (id : String) (r : OutboxEntry)
    → IsBounded max r
    → IsBounded max (reset_row now id r)
unfolding IsBounded allowed
reset_row-IsBounded max now id r h = elim (Bool-cases (r.id == id)) [
  | inl own ↦ simp own (omega arith)
  | inr other ↦ simp other h
]

reset_row-id : (now : ℕ) (id : String) (r : OutboxEntry) → (reset_row now id r).id ≡ r.id
reset_row-id now id r = elim (Bool-cases (r.id == id)) [
  | inl own ↦ simp own refl
  | inr other ↦ simp other refl
]

reset_to_pending-IsSound :
    (max now : ℕ) (id : String) (o : Outbox)
    → IsSound max o.rows
    → IsSound max (reset_to_pending now id o).rows
unfolding reset_to_pending update IsSound on
reset_to_pending-IsSound max now id o h = (
  map-IsKeyed (reset_row now id) (reset_row-id now id) o.rows h.0,
  λ j r' there.
      let same = lookup-map (reset_row now id) (reset_row-id now id) o.rows j in
      elim (Option-cases (lookup j o.rows)) [
        | inl absent ↦
            let gone : some r' ≡ none = sym there ∙ (same ∙ ap (on (reset_row now id)) absent) in cc
        | inr (r, found) ↦
            let both : some r' ≡ some (reset_row now id r) =
              sym there ∙ (same ∙ ap (on (reset_row now id)) found) in
            let eq : reset_row now id r ≡ r' = cc in
            subst (IsBounded max) eq (reset_row-IsBounded max now id r (h.1 j r found))
      ],
)

-- An operation that writes the outbox; a call of the worker brings its surroundings, and the
-- configuration is that of the deployment.
pub data Op (N : Type 0) : Type 0 where
  enqueued : (id : String) (now : ℕ) (outage : Option Error) → ObligationCommittedEvent → Op N
  worked : TicketingContext N → Op N
  reset : TicketingContext N → (id : String) → Op N

abbrev pub configured : {N : Type 0} → TicketingConfig → TicketingContext N → TicketingContext N
configured config C = record C { config = config }

module _ (F : Float) (H : Host) (config : TicketingConfig) where
  open F use {Number}

  unfoldable pub apply : Op Number → Desk → Desk
  apply (Op.enqueued id now outage ev) d = record d {
    outbox = (handle_obligation_committed_event id now outage ev d.outbox).1;
  }
  apply (Op.worked C) d = (process_outbox_once F H (configured config C) d).1
  apply (Op.reset C id) d = (reset_outbox_entry F H (configured config C) id d).1

  unfoldable pub run : List (Op Number) → Desk → Desk
  unfolding apply
  run [] d = d
  run (op ∷ ops) d = run ops (apply op d)

  reset_outbox_entry-IsSound :
      (C : TicketingContext Number) (id : String) (d : Desk)
      → IsSound config.max_attempts d.outbox.rows
      → IsSound config.max_attempts
          (reset_outbox_entry F H (configured config C) id d).1.outbox.rows
  unfolding reset_outbox_entry execute
  reset_outbox_entry-IsSound C id d h =
      elim (Option-cases (TicketingContext.outage C Statement.resetting id)) [
        | inl up ↦
            rw (up, execute)
              (reset_to_pending-IsSound config.max_attempts (TicketingContext.clock C) id d.outbox
                h)
        | inr (e, down) ↦ rw (down, execute) h
      ]

  pub apply-IsSound :
      (op : Op Number) (d : Desk)
      → IsSound config.max_attempts d.outbox.rows
      → IsSound config.max_attempts (apply op d).outbox.rows
  unfolding apply IsSound
  apply-IsSound (Op.enqueued id now outage ev) d h =
      handle_obligation_committed_event-IsSound config.max_attempts id now outage ev d.outbox h
  apply-IsSound (Op.worked C) d h =
      let refined = process_outbox_once-Refines F H (configured config C) d h.0 in
      Tracks-IsSound config.max_attempts d.outbox.rows
        (process_outbox_once F H (configured config C) d).1.outbox.rows refined.tracks
        (refined.keyed h.0) h
  apply-IsSound (Op.reset C id) d h = reset_outbox_entry-IsSound C id d h

  -- Whatever sequence of enqueued events, calls of the worker and resets a table goes through, and
  -- whatever fails in them, its identifiers stay different and no row's counter of attempts passes
  -- the configured number, but by one when the row is given up.
  pub run-IsSound :
      (ops : List (Op Number)) (d : Desk)
      → IsSound config.max_attempts d.outbox.rows
      → IsSound config.max_attempts (run ops d).outbox.rows
  unfolding run
  run-IsSound [] d h = h
  run-IsSound (op ∷ ops) d h = run-IsSound ops (apply op d) (apply-IsSound op d h)
