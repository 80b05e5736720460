-- ===== src/Ticketing/Drains/Ends.antt =====
-- The end of each row of a batch, and of every row that is due.
use sentinel_act.Prelude.{
  String, ℕ, suc, Bool, true, false, none, some, List, [], ◌∷◌, ◌≡◌, refl, sym, subst, ap, ◌∙◌, any,
  All, arith, ◌==◌, eq_iff, eq_refl, Bool-cases, Option-cases, Result-cases, inl, inr, ◌⊎◌,
  if◌then◌else◌, ltb,
}
use sentinel_act.Prelude.Effects.{then-err, then-ok}
use sentinel_act.Float.{Float}
use sentinel_act.Ledger.{Host}
use sentinel_act.Ticketing.{OutboxEntry, OutboxStatus}
use sentinel_act.Ticketing.Outbox.{is_open}
use sentinel_act.Ticketing.Rows.{lookup, on, IsKeyed, lookup-map, lookup-id}
use sentinel_act.Ticketing.Claims.{Holds}
use sentinel_act.Ticketing.Settles.{
  Fate, mark, has_failed, is_err, Settles, process_row-Settles, limit,
}
use sentinel_act.Ticketing.Refines.{mark-id, mark-other, process_row-Refines}
use sentinel_act.Ticketing.Worker.{
  TicketingContext, Desk, Statement, try_row, process_row, process_rows, handle_retryable,
  handle_permanent, execute, exhausted, add_processed,
}

abbrev pub is_done : OutboxStatus → Bool
is_done OutboxStatus.succeeded = true
is_done OutboxStatus.failed_permanent = true
is_done _ = false

-- The row is through, or it waits with one more attempt on its counter.
unfoldable pub Advances : OutboxEntry → OutboxEntry → Type 0
Advances row r' =
    (is_done r'.status ≡ true) ⊎ ((is_open r'.status ≡ true) × (r'.attempts ≡ suc row.attempts))

-- The row of the table that a row has become.
unfoldable pub Ended : List OutboxEntry → OutboxEntry → Type 0
unfolding Advances
Ended rows row = (r' : OutboxEntry) × (lookup row.id rows ≡ some r') × Advances row r'

mark-Advances :
    {max : ℕ} (now : ℕ) (row : OutboxEntry) (fate : Fate max row)
    → has_failed fate ≡ false
    → Advances row (mark now row fate row)
unfolding Advances
mark-Advances now row Fate.failed h = cc
mark-Advances now row Fate.delivered h = inl (rw (eq_refl row.id) refl)
mark-Advances now row (Fate.retried at error b) h =
    inr (rw (eq_refl row.id) refl, rw (eq_refl row.id) refl)
mark-Advances now row (Fate.gave_up error) h = inl (rw (eq_refl row.id) refl)

module _ (F : Float) (H : Host) (C : TicketingContext (Float.Number F)) where
  -- The outbox's database answers every statement of the call.
  unfoldable pub Answers : Type 0
  Answers = (s : Statement) (id : String) → TicketingContext.outage C s id ≡ none

  handle_permanent-answers :
      (caught : Bool) (row : OutboxEntry) (error : String) (d : Desk)
      → Answers
      → is_err (handle_permanent F H C caught row error d).0 ≡ false
  unfolding handle_permanent execute Answers
  handle_permanent-answers caught row error d up =
      rw (up (if caught then Statement.failing_caught else Statement.failing) row.id, execute) refl

  handle_retryable-answers :
      (caught : Bool) (row : OutboxEntry) (error : String) (d : Desk)
      → Answers
      → is_err (handle_retryable F H C caught row error d).0 ≡ false
  unfolding handle_retryable execute Answers
  handle_retryable-answers caught row error d up =
      elim (Bool-cases (ltb (limit F H C) (suc row.attempts))) [
        | inl over ↦
            rw (over, handle_retryable)
              (handle_permanent-answers caught row (exhausted F H C error) d up)
        | inr under ↦
            rw (under, handle_retryable)
              (rw
                (
                  up (if caught then Statement.retrying_caught else Statement.retrying) row.id,
                  execute,
                )
                refl)
      ]

  -- No row throws out of its `catch`.
  process_row-answers :
      (row : OutboxEntry) (d : Desk) → Answers → is_err (process_row F H C row d).0 ≡ false
  unfolding process_row
  process_row-answers row d up =
      let d0 : Desk = record d { result = add_processed d.result } in
      elim (Result-cases (try_row F H C row d0).0) [
        | inl (u, done) ↦ rw (done, process_row) (rw done refl)
        | inr (e, thrown) ↦
            rw (thrown, process_row)
              (handle_retryable-answers true row (TicketingContext.message C e)
                (try_row F H C row d0).1 up)
      ]

  process_row-Ended :
      (row : OutboxEntry) (d : Desk)
      → Answers
      → Holds d.outbox.rows row
      → Ended (process_row F H C row d).1.outbox.rows row
  unfolding Settles Holds on Ended
  process_row-Ended row d up held =
      let (fate, rows, agrees) = process_row-Settles F H C row d in
      let now = TicketingContext.clock C in
      (
        mark now row fate row,
        ap (lookup row.id) rows
            ∙ (lookup-map (mark now row fate) (mark-id now row fate) d.outbox.rows row.id
                ∙ ap (on (mark now row fate)) held.0),
        mark-Advances now row fate (sym agrees ∙ process_row-answers row d up),
      )

  process_row-other :
      (row : OutboxEntry) (d : Desk) (j : String)
      → (row.id == j) ≡ false
      → lookup j (process_row F H C row d).1.outbox.rows ≡ lookup j d.outbox.rows
  unfolding Settles on
  process_row-other row d j other =
      let (fate, rows, agrees) = process_row-Settles F H C row d in
      let now = TicketingContext.clock C in
      let mapped =
        ap (lookup j) rows
        ∙ lookup-map (mark now row fate) (mark-id now row fate) d.outbox.rows j in
      elim (Option-cases (lookup j d.outbox.rows)) [
        | inl absent ↦ mapped ∙ (ap (on (mark now row fate)) absent ∙ sym absent)
        | inr (s, there) ↦
            let own = lookup-id d.outbox.rows j s there in
            let apart : (s.id == row.id) ≡ false =
              ground (arith, eq_iff s.id row.id, eq_iff row.id j) in
            mapped
            ∙ (ap (on (mark now row fate)) there
                ∙ (ap some (mark-other now row fate s apart) ∙ sym there))
      ]

  process_rows-other :
      (batch : List OutboxEntry) (d : Desk) (j : String)
      → any (λ s. s.id == j) batch ≡ false
      → lookup j (process_rows F H C batch d).1.outbox.rows ≡ lookup j d.outbox.rows
  unfolding process_rows
  process_rows-other [] d j h = refl
  process_rows-other (row ∷ batch) d j h =
      let one = process_row-other row d j (ground arith) in
      elim (Result-cases (process_row F H C row d).0) [
        | inr (e, thrown) ↦
            ap (λ r. lookup j r.1.outbox.rows)
              (then-err (process_row F H C row) (process_rows F H C batch) d e thrown)
            ∙ one
        | inl (u, done) ↦
            ap (λ r. lookup j r.1.outbox.rows)
              (then-ok (process_row F H C row) (process_rows F H C batch) d u done)
            ∙ (process_rows-other batch (process_row F H C row d).1 j (ground arith) ∙ one)
      ]

  pub process_rows-Ended :
      (batch : List OutboxEntry) (d : Desk)
      → Answers
      → IsKeyed batch
      → All (Holds d.outbox.rows) batch
      → All (Ended (process_rows F H C batch d).1.outbox.rows) batch
  unfolding process_rows IsKeyed Ended
  process_rows-Ended [] d up keyed held = tt
  process_rows-Ended (row ∷ batch) d up keyed held =
      let d' = (process_row F H C row d).1 in
      let (r', there, advanced) = process_row-Ended row d up held.0 in
      let others = (process_row-Refines F H C row d batch held.0 keyed.0 held.1).1 in
      elim (Result-cases (process_row F H C row d).0) [
        | inr (e, thrown) ↦
            let quiet = process_row-answers row d up in
            let loud : is_err (process_row F H C row d).0 ≡ true = rw thrown refl in ground arith
        | inl (u, done) ↦
            subst (λ r. All (Ended r.1.outbox.rows) (row ∷ batch))
              (sym (then-ok (process_row F H C row) (process_rows F H C batch) d u done))
              (
                (r', process_rows-other batch d' row.id keyed.0 ∙ there, advanced),
                process_rows-Ended batch d' up keyed.1 others,
              )
      ]
