-- ===== src/Ticketing/Sweep/Intake.antt =====
-- What one intake of an event leaves in the outbox, and which tasks it covers.
use sentinel_act.Prelude.{
  String, ℕ, Bool, true, false, ◌&&◌, Option, List, [], ◌∷◌, ◌++◌, ◌==◌, ◌≡◌, ◌≢◌, ◌⊎◌, refl, sym,
  ◌∙◌, any, any-append, any-append_left, arith, eq_iff, Bool-cases, Option-cases, Result-cases, inl,
  inr, Result, ok, Error, ticketing_unavailable, find?,
}
use sentinel_act.Ticketing.{OutboxEntry, ObligationCommittedEvent}
use sentinel_act.Ticketing.Outbox.{
  Outbox, new_row, insert_if_not_exists, find_mapping, has_in_flight_entry_for_task, is_in_flight,
}
use sentinel_act.Ticketing.Intake.{
  handle_obligation_committed_event, validate_event, entry_of, is_covered,
}

-- A text that no row has as its event.
abbrev pub IsNewEvent : (event_id : String) → Outbox → Type 0
IsNewEvent id o = any (λ r. r.event_id == id) o.rows ≡ false

-- What an intake leaves: the table as it was, or one more row, for the event's task.
unfoldable pub Takes : ObligationCommittedEvent → Outbox → Result Bool × Outbox → Type 0
Takes ev o done =
    (done.1.mappings ≡ o.mappings)
    × (((done.1.rows ≡ o.rows)
          × (IsNewEvent ev.event_id o → done.0 ≢ ok false)
          × (done.0 ≢ ok true))
        ⊎ ((r : OutboxEntry) × (done.1.rows ≡ o.rows ++ r ∷ [])
            × (r.task_id ≡ ev.task_id)
            × (r.event_id ≡ ev.event_id)
            × (is_in_flight r.status ≡ true)
            × (done.0 ≡ ok true)))

pub insert_if_not_exists-Takes :
    (broken_key : Error) (now : ℕ) (id : String) (ev : ObligationCommittedEvent) (o : Outbox)
    → Takes ev o (insert_if_not_exists broken_key now (entry_of id ev) o)
unfolding Takes insert_if_not_exists new_row
insert_if_not_exists-Takes broken_key now id ev o =
    elim (Bool-cases (any (λ r. r.event_id == ev.event_id) o.rows)) [
      | inl known ↦
          rw (known, insert_if_not_exists) (refl, inl (refl, λ new. ground arith, λ e. cc))
      | inr new ↦ elim (Bool-cases (any (λ r. r.id == id) o.rows)) [
        | inl clash ↦
            rw (new, insert_if_not_exists) (rw clash (refl, inl (refl, λ fresh e. cc, λ e. cc)))
        | inr free ↦
            rw (new, insert_if_not_exists)
              (rw free (refl, inr (new_row now (entry_of id ev), refl, refl, refl, refl, refl)))
      ]
    ]

pub handle_obligation_committed_event-Takes :
    (id : String) (now : ℕ) (outage : Option Error) (ev : ObligationCommittedEvent) (o : Outbox)
    → Takes ev o (handle_obligation_committed_event id now outage ev o)
unfolding Takes handle_obligation_committed_event
handle_obligation_committed_event-Takes id now outage ev o =
    elim (Result-cases (validate_event ev)) [
      | inr (e, invalid) ↦
          rw (invalid, handle_obligation_committed_event) (refl, inl (refl, λ fresh h. cc, λ h. cc))
      | inl (u, valid) ↦ elim (Option-cases outage) [
        | inr (e, down) ↦
            rw (valid, handle_obligation_committed_event)
              (rw down (refl, inl (refl, λ fresh h. cc, λ h. cc)))
        | inl up ↦
            rw (valid, handle_obligation_committed_event)
              (rw up (insert_if_not_exists-Takes ticketing_unavailable now id ev o))
      ]
    ]

-- An outbox with the mappings of another one, and its rows or one more.
pub grown_covers :
    (o o' : Outbox) (t : String) (more : List OutboxEntry)
    → o'.mappings ≡ o.mappings
    → o'.rows ≡ o.rows ++ more
    → is_covered o t ≡ true
    → is_covered o' t ≡ true
unfolding is_covered find_mapping has_in_flight_entry_for_task
grown_covers o o' t more mappings rows h =
    elim (Option-cases (find? (λ m. m.task_id == t) o.mappings)) [
      | inr (m, mapped) ↦ rw (mappings, is_covered) (rw (mapped, is_covered) refl)
      | inl unmapped ↦
          let running : any (λ r. r.task_id == t && is_in_flight r.status) o.rows ≡ true =
            sym (rw (unmapped, is_covered) refl) ∙ h in
          rw (mappings, is_covered)
            (rw (unmapped, is_covered)
              (rw (rows, has_in_flight_entry_for_task)
                (any-append_left (λ r. r.task_id == t && is_in_flight r.status) o.rows more
                  running)))
    ]

pub in_flight_covers :
    (o : Outbox) (t : String) → has_in_flight_entry_for_task t o ≡ true → is_covered o t ≡ true
unfolding is_covered
in_flight_covers o t h = elim (Option-cases (find_mapping t o)) [
  | inr (m, mapped) ↦ rw (mapped, is_covered) refl
  | inl unmapped ↦ rw (unmapped, is_covered) h
]

pub row_in_flight :
    (o o' : Outbox) (t : String) (r : OutboxEntry)
    → o'.rows ≡ o.rows ++ r ∷ []
    → r.task_id ≡ t
    → is_in_flight r.status ≡ true
    → has_in_flight_entry_for_task t o' ≡ true
unfolding has_in_flight_entry_for_task
row_in_flight o o' t r rows own running =
    rw (rows, has_in_flight_entry_for_task)
      (any-append (λ s. s.task_id == t && is_in_flight s.status) o.rows (r ∷ [])
        ∙ ground (arith, eq_iff r.task_id t))
