-- ===== src/Ticketing/Drains/Rounds.antt =====
-- Calls of the worker, one after another, until a row is through.
use sentinel_act.Prelude.{
  String, ℕ, suc, ◌≤◌, true, none, some, List, ◌≡◌, sym, subst, ap, ◌∙◌, any, All, All-any, length,
  arith, eq_iff, eqb→eq, ◌⊎◌, ok,
}
use sentinel_act.Float.{Float}
use sentinel_act.Ledger.{Host}
use sentinel_act.Ticketing.{OutboxEntry, TicketingConfig}
use sentinel_act.Ticketing.Outbox.{is_open, claim_batch, candidates, is_due}
use sentinel_act.Ticketing.Rows.{lookup, IsKeyed}
use sentinel_act.Ticketing.Claims.{Holds, Returned, claim_batch-IsClaim}
use sentinel_act.Ticketing.Settles.{limit}
use sentinel_act.Ticketing.Drains.Takes.{stands_for, claim_each-takes, candidates-any}
use sentinel_act.Ticketing.Drains.Ends.{Answers, Advances, Ended, is_done, process_rows-Ended}
use sentinel_act.Ticketing.Worker.{
  TicketingContext, Desk, Statement, process_rows, process_outbox_once, no_counts, claim_due,
}

-- What a call needs to get a row on: a database that answers, room for every row, and the time of
-- the row's next attempt.
pub record Suits {N : Type 0} (C : TicketingContext N) (d : Desk) (id : String) : Type 0 where
  pub answers : (s : Statement) (j : String) → TicketingContext.outage C s j ≡ none
  pub room : length d.outbox.rows ≤ TicketingConfig.outbox_batch_size (TicketingContext.config C)
  pub due :
      (r : OutboxEntry)
      → lookup id d.outbox.rows ≡ some r
      → is_open r.status ≡ true
      → r.next_attempt_at ≤ TicketingContext.reference_date C

open_due :
    (now : ℕ) (r : OutboxEntry)
    → is_open r.status ≡ true
    → r.next_attempt_at ≤ now
    → is_due now r ≡ true
open_due now r free early = ground arith

module _ (F : Float) (H : Host) (C : TicketingContext (Float.Number F)) where
  claim_due-takes :
      (d : Desk) (id : String) (r : OutboxEntry)
      → Suits C d id
      → IsKeyed d.outbox.rows
      → lookup id d.outbox.rows ≡ some r
      → is_open r.status ≡ true
      → (batch : List OutboxEntry) × ((claim_due C d.outbox).0 ≡ ok batch)
        × (any (stands_for id r) batch ≡ true)
  unfolding claim_batch
  claim_due-takes d id r suits keyed there free =
      let now = TicketingContext.reference_date C in
      let room = TicketingConfig.outbox_batch_size (TicketingContext.config C) in
      rw (suits.answers Statement.selecting "", claim_batch)
        (claim_each-takes (TicketingContext.outage C Statement.claiming) (TicketingContext.clock C)
          (candidates room now d.outbox) id d.outbox r (suits.answers Statement.claiming) keyed
          (candidates-any room now id d.outbox r there
            (open_due now r free (suits.due r there free)) suits.room)
          there free)

  -- A row that is open is through after the call, or open with one more attempt on its counter.
  pub process_outbox_once-Advances :
      (d : Desk) (id : String) (r : OutboxEntry)
      → Suits C d id
      → IsKeyed d.outbox.rows
      → lookup id d.outbox.rows ≡ some r
      → is_open r.status ≡ true
      → (r' : OutboxEntry) × (lookup id (process_outbox_once F H C d).1.outbox.rows ≡ some r')
        × Advances r r'
  unfolding process_outbox_once Answers Returned Ended Advances
  process_outbox_once-Advances d id r suits keyed there free =
      let (batch, got, stands) = claim_due-takes d id r suits keyed there free in
      let c =
        claim_batch-IsClaim (limit F H C) (TicketingContext.outage C Statement.selecting "")
          (TicketingContext.outage C Statement.claiming)
          (TicketingConfig.outbox_batch_size (TicketingContext.config C)) (TicketingContext.clock C)
          (TicketingContext.reference_date C) d.outbox keyed in
      let d' : Desk = record d { outbox = (claim_due C d.outbox).1; result = no_counts } in
      let final = (process_rows F H C batch d').1.outbox.rows in
      let ended =
        process_rows-Ended F H C batch d' suits.answers (subst (Returned IsKeyed) got c.distinct)
          (subst (Returned (All (Holds d'.outbox.rows))) got c.holds) in
      let (s, (r', now_there, advanced), same) =
        All-any (Ended final) (stands_for id r) batch ended stands in
      let own : s.id ≡ id = (eq_iff s.id id).0 (ground arith) in
      let count : s.attempts ≡ r.attempts = eqb→eq s.attempts r.attempts (ground arith) in
      rw (got, process_outbox_once)
        (
          r',
          ap (λ j. lookup j final) (sym own) ∙ now_there,
          subst
              (λ n.
                (is_done r'.status ≡ true) ⊎ ((is_open r'.status ≡ true) × (r'.attempts ≡ suc n)))
              count advanced,
        )
