-- ===== src/Ticketing/Once/Silent.antt =====
-- The statements and endings of the worker that open no ticket and note none.
use sentinel_act.Prelude.{
  String, ℕ, Bool, false, Option, none, some, List, [], ◌∷◌, ◌≡◌, refl, sym, subst, ap, ◌∙◌,
  Bool-cases, Option-cases, inl, inr, Result, ok, err, Error, if◌then◌else◌, ltb, suc,
}
use sentinel_act.Prelude.Effects.{◌>>◌}
use sentinel_act.Float.{Float}
use sentinel_act.Ledger.{Host}
use sentinel_act.Ticketing.{OutboxEntry}
use sentinel_act.Ticketing.Outbox.{
  Outbox, update, mark_succeeded, mark_retryable, mark_permanent_failure, claim_batch, claim_each,
  claim_row, candidates,
}
use sentinel_act.Ticketing.Claims.{claim_each-skip, claim_each-take, claim_each-stop}
use sentinel_act.Ticketing.Settles.{limit}
use sentinel_act.Ticketing.Worker.{
  TicketingContext, Desk, Statement, exhausted, execute, handle_succeeded, handle_permanent,
  handle_retryable, handle_call_error, append_ledger_safely, is_permanent, tally, add_succeeded,
}
use sentinel_act.Ticketing.Once.Noted.{IsServedOnce}

-- A call that opens no ticket and notes none.
unfoldable pub Quiet : Desk → Desk → Type 0
Quiet d d' = (d'.outbox.mappings ≡ d.outbox.mappings) × (d'.tickets ≡ d.tickets)

unfoldable pub Serves : Desk → Desk → Type 0
Serves d d' = IsServedOnce d.outbox.mappings d.tickets → IsServedOnce d'.outbox.mappings d'.tickets

pub Quiet-Serves : (d d' : Desk) → Quiet d d' → Serves d d'
unfolding Quiet Serves
Quiet-Serves d d' (mappings, tickets) h =
    subst (λ ms. IsServedOnce ms d'.tickets) (sym mappings)
      (subst (IsServedOnce d.outbox.mappings) (sym tickets) h)

execute-Quiet :
    (outage : Option Error) (f : Outbox → Outbox) (d : Desk)
    → (f d.outbox).mappings ≡ d.outbox.mappings
    → Quiet d (execute outage f d).1
unfolding execute Quiet
execute-Quiet (some e) f d h = (refl, refl)
execute-Quiet none f d h = (h, refl)

pub Quiet-refl : (d : Desk) → Quiet d d
unfolding Quiet
Quiet-refl d = (refl, refl)

pub counted-Quiet :
    (d : Desk) (done : Result (Unit {0}) × Desk)
    → Quiet d done.1
    → Quiet d (((λ k. done) >> tally add_succeeded) d).1
unfolding Quiet
counted-Quiet d (err e, d') h = h
counted-Quiet d (ok u, d') h = h

claim_each-mappings :
    (outage : String → Option Error) (now : ℕ) (ids : List String) (o : Outbox)
    → (claim_each outage now ids o).1.mappings ≡ o.mappings
unfolding claim_each claim_row
claim_each-mappings outage now [] o = refl
claim_each-mappings outage now (id ∷ ids) o =
    let rest = claim_each-mappings outage now ids (claim_row now id o).1 in
    elim (Option-cases (outage id)) [
      | inr (e, down) ↦ ap (λ d. d.1.mappings) (claim_each-stop outage now id ids o e down)
      | inl up ↦ elim (Option-cases (claim_row now id o).0) [
        | inl lost ↦ ap (λ d. d.1.mappings) (claim_each-skip outage now id ids o up lost) ∙ rest
        | inr (r, got) ↦
            ap (λ d. d.1.mappings) (claim_each-take outage now id ids o r up got) ∙ rest
      ]
    ]

pub claim_batch-mappings :
    (selecting : Option Error) (claiming : String → Option Error) (room clock now : ℕ) (o : Outbox)
    → (claim_batch selecting claiming room clock now o).1.mappings ≡ o.mappings
unfolding claim_batch
claim_batch-mappings (some e) claiming room clock now o = refl
claim_batch-mappings none claiming room clock now o =
    claim_each-mappings claiming clock (candidates room now o) o

module _ (F : Float) (H : Host) (C : TicketingContext (Float.Number F)) where
  open F use {Number}

  pub handle_succeeded-Quiet :
      (row : OutboxEntry) (d : Desk) → Quiet d (handle_succeeded F H C row d).1
  unfolding handle_succeeded mark_succeeded update
  handle_succeeded-Quiet row d =
      execute-Quiet (TicketingContext.outage C Statement.succeeding row.id)
        (mark_succeeded (TicketingContext.clock C) row.id) d refl

  pub handle_permanent-Quiet :
      (caught : Bool) (row : OutboxEntry) (error : String) (d : Desk)
      → Quiet d (handle_permanent F H C caught row error d).1
  unfolding handle_permanent mark_permanent_failure update append_ledger_safely execute Quiet
  handle_permanent-Quiet caught row error d =
      let site = if caught then Statement.failing_caught else Statement.failing in
      elim (Option-cases (TicketingContext.outage C site row.id)) [
        | inl up ↦ rw (up, execute) (refl, refl)
        | inr (e, down) ↦ rw (down, execute) (refl, refl)
      ]

  pub handle_retryable-Quiet :
      (caught : Bool) (row : OutboxEntry) (error : String) (d : Desk)
      → Quiet d (handle_retryable F H C caught row error d).1
  unfolding handle_retryable mark_retryable update execute Quiet
  handle_retryable-Quiet caught row error d =
      let site = if caught then Statement.retrying_caught else Statement.retrying in
      elim (Bool-cases (ltb (limit F H C) (suc row.attempts))) [
        | inl over ↦
            rw (over, handle_retryable)
              (handle_permanent-Quiet caught row (exhausted F H C error) d)
        | inr under ↦ elim (Option-cases (TicketingContext.outage C site row.id)) [
          | inl up ↦ rw (under, handle_retryable) (rw (up, execute) (refl, refl))
          | inr (e, down) ↦ rw (under, handle_retryable) (rw (down, execute) (refl, refl))
        ]
      ]

  pub handle_call_error-Quiet :
      (row : OutboxEntry) (e : Error) (d : Desk) → Quiet d (handle_call_error F H C row e d).1
  unfolding handle_call_error
  handle_call_error-Quiet row e d = elim (Bool-cases (is_permanent e)) [
    | inl final ↦
        rw (final, handle_call_error)
          (handle_permanent-Quiet false row (TicketingContext.message C e) d)
    | inr passing ↦
        rw (passing, handle_call_error)
          (handle_retryable-Quiet false row (TicketingContext.message C e) d)
  ]
