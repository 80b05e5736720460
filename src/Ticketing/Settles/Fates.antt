-- ===== src/Ticketing/Settles/Fates.antt =====
-- What can become of a claimed row, and the endings of the worker that give each fate.
use sentinel_act.Prelude.{
  String, ℕ, suc, ◌≤◌, Bool, true, false, List, [], ◌∷◌, ◌≡◌, refl, ap, ◌∙◌, map, arith, ◌==◌,
  Bool-cases, Option-cases, inl, inr, Result, ok, err, Error, ltb, if◌then◌else◌,
}
use sentinel_act.Prelude.Effects.{◌>>◌}
use sentinel_act.Float.{Float}
use sentinel_act.Ledger.{Host}
use sentinel_act.Ticketing.{OutboxEntry, TicketingConfig}
use sentinel_act.Ticketing.Outbox.{
  update, set_succeeded, set_retryable, set_permanent, mark_succeeded, mark_retryable,
  mark_permanent_failure,
}
use sentinel_act.Ticketing.Worker.{
  TicketingContext, Desk, Statement, exhausted, retry_at, execute, handle_succeeded,
  handle_permanent, handle_retryable, handle_call_error, append_ledger_safely, is_permanent,
}

-- What becomes of a claimed row; `failed` is a throw, which leaves the row as it was claimed.
pub data Fate (max : ℕ) (row : OutboxEntry) : Type 0 where
  failed delivered : Fate max row
  retried : (next_attempt_at : ℕ) (error : String) → suc row.attempts ≤ max → Fate max row
  gave_up : (error : String) → Fate max row

abbrev set_row : (now : ℕ) → OutboxEntry → (OutboxEntry → OutboxEntry) → OutboxEntry → OutboxEntry
set_row now row f r = if r.id == row.id then record (f r) { updated_at = now } else r

-- The row of the table after it.
abbrev pub mark : {max : ℕ} (now : ℕ) (row : OutboxEntry) → Fate max row → OutboxEntry → OutboxEntry
mark now row Fate.failed r = r
mark now row Fate.delivered r = set_row now row set_succeeded r
mark now row (Fate.retried at error h) r = set_row now row (set_retryable at error) r
mark now row (Fate.gave_up error) r = set_row now row (set_permanent error) r

abbrev pub has_failed : {max : ℕ} {row : OutboxEntry} → Fate max row → Bool
has_failed Fate.failed = true
has_failed _ = false

abbrev pub is_err : Result (Unit {0}) → Bool
is_err (err e) = true
is_err (ok u) = false

module _ (F : Float) (H : Host) (C : TicketingContext (Float.Number F)) where
  open F use {Number}

  abbrev pub limit : ℕ
  limit = TicketingConfig.max_attempts (TicketingContext.config C)

  -- A call ends with one of the fates of the row, throws exactly if it is `failed`, and leaves the
  -- rest of the table alone.
  unfoldable pub Settles : OutboxEntry → Desk → Result (Unit {0}) × Desk → Type 0
  Settles row d done =
      (fate : Fate limit row) × (done.1.outbox.rows
        ≡ map (mark (TicketingContext.clock C) row fate) d.outbox.rows)
      × (is_err done.0 ≡ has_failed fate)

  pub map_id : (rows : List OutboxEntry) → rows ≡ map (λ r. r) rows
  map_id [] = refl
  map_id (r ∷ rs) = rw⁻¹ (map_id rs) refl

  pub throws-Settles :
      (row : OutboxEntry) (d d' : Desk) (e : Error)
      → d'.outbox.rows ≡ d.outbox.rows
      → Settles row d (err e, d')
  unfolding Settles
  throws-Settles row d d' e h = (Fate.failed, h ∙ map_id d.outbox.rows, refl)

  pub handle_succeeded-Settles :
      (row : OutboxEntry) (d : Desk) → Settles row d (handle_succeeded F H C row d)
  unfolding Settles handle_succeeded execute mark_succeeded update
  handle_succeeded-Settles row d =
      elim (Option-cases (TicketingContext.outage C Statement.succeeding row.id)) [
        | inl up ↦ rw (up, execute) (Fate.delivered, refl, refl)
        | inr (e, down) ↦ rw (down, execute) (Fate.failed, map_id d.outbox.rows, refl)
      ]

  pub handle_permanent-Settles :
      (caught : Bool) (row : OutboxEntry) (error : String) (d : Desk)
      → Settles row d (handle_permanent F H C caught row error d)
  unfolding Settles handle_permanent execute mark_permanent_failure update append_ledger_safely
  handle_permanent-Settles caught row error d =
      let site = if caught then Statement.failing_caught else Statement.failing in
      elim (Option-cases (TicketingContext.outage C site row.id)) [
        | inl up ↦ rw (up, execute) (Fate.gave_up error, refl, refl)
        | inr (e, down) ↦ rw (down, execute) (Fate.failed, map_id d.outbox.rows, refl)
      ]

  -- After a call that is through, something that does not touch the table.
  pub after-Settles :
      (row : OutboxEntry) (d : Desk) (done : Result (Unit {0}) × Desk) (f : Desk → Desk)
      → ((k : Desk) → (f k).outbox ≡ k.outbox)
      → Settles row d done
      → Settles row d (((λ k. done) >> (λ k. (ok tt, f k))) d)
  unfolding Settles
  after-Settles row d (err e, d') f keeps h = h
  after-Settles row d (ok u, d') f keeps (fate, rows, agrees) =
      (fate, ap (λ o. o.rows) (keeps d') ∙ rows, agrees)

  pub before-Settles :
      (row : OutboxEntry) (d d' : Desk) (done : Result (Unit {0}) × Desk)
      → d'.outbox.rows ≡ d.outbox.rows
      → Settles row d' done
      → Settles row d done
  unfolding Settles
  before-Settles row d d' done h (fate, rows, agrees) =
      (fate, rows ∙ ap (λ rs. map (mark (TicketingContext.clock C) row fate) rs) h, agrees)

  pub handle_retryable-Settles :
      (caught : Bool) (row : OutboxEntry) (error : String) (d : Desk)
      → Settles row d (handle_retryable F H C caught row error d)
  unfolding Settles handle_retryable execute mark_retryable update
  handle_retryable-Settles caught row error d =
      let site = if caught then Statement.retrying_caught else Statement.retrying in
      elim (Bool-cases (ltb limit (suc row.attempts))) [
        | inl over ↦
            rw (over, handle_retryable)
              (handle_permanent-Settles caught row (exhausted F H C error) d)
        | inr under ↦ elim (Option-cases (TicketingContext.outage C site row.id)) [
          | inl up ↦
              rw (under, handle_retryable)
                (rw (up, execute)
                  (Fate.retried (retry_at F H C row) error (ground arith), refl, refl))
          | inr (e, down) ↦
              rw (under, handle_retryable)
                (rw (down, execute) (Fate.failed, map_id d.outbox.rows, refl))
        ]
      ]

  pub handle_call_error-Settles :
      (row : OutboxEntry) (e : Error) (d : Desk) → Settles row d (handle_call_error F H C row e d)
  unfolding handle_call_error
  handle_call_error-Settles row e d =
      let error = TicketingContext.message C e in
      elim (Bool-cases (is_permanent e)) [
        | inl final ↦ rw (final, handle_call_error) (handle_permanent-Settles false row error d)
        | inr passing ↦ rw (passing, handle_call_error) (handle_retryable-Settles false row error d)
      ]
