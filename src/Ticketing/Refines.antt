-- ===== src/Ticketing/Refines.antt =====
-- The worker refines the state machine of Ticketing.Machine, whatever its surroundings do.
use sentinel_act.Prelude.{
  String, ℕ, false, some, List, [], ◌∷◌, ◌≡◌, refl, sym, subst, ap, ◌∙◌, map, any, All, arith, ◌==◌,
  eq_iff, eq_refl, Bool-cases, Result-cases, inl, inr,
}
use sentinel_act.Prelude.Effects.{then-err, then-ok}
use sentinel_act.Float.{Float}
use sentinel_act.Ledger.{Host}
use sentinel_act.Ticketing.{OutboxEntry, OutboxStatus, TicketingConfig}
use sentinel_act.Ticketing.Outbox.{set_succeeded, set_retryable, set_permanent, claim_batch}
use sentinel_act.Ticketing.Rows.{lookup, on, IsKeyed, lookup-map, lookup-id, map-IsKeyed}
use sentinel_act.Ticketing.Machine.{
  Step, Steps, Steps-refl, Tracks, Tracks-refl, Tracks-trans, Tracks-map,
}
use sentinel_act.Ticketing.Claims.{Holds, Returned, claim_batch-IsClaim}
use sentinel_act.Ticketing.Settles.{Fate, mark, Settles, process_row-Settles, limit}
use sentinel_act.Ticketing.Worker.{
  TicketingContext, Desk, Statement, process_row, process_rows, process_outbox_once, no_counts,
  claim_due,
}

module _ {max : ℕ} (now : ℕ) (row : OutboxEntry) where
  pub mark-id : (fate : Fate max row) (r : OutboxEntry) → (mark now row fate r).id ≡ r.id
  mark-id Fate.failed r = refl
  mark-id Fate.delivered r = ground arith
  mark-id (Fate.retried at error h) r = ground arith
  mark-id (Fate.gave_up error) r = ground arith

  pub mark-other :
      (fate : Fate max row) (r : OutboxEntry) → (r.id == row.id) ≡ false → mark now row fate r ≡ r
  mark-other Fate.failed r h = refl
  mark-other Fate.delivered r h = rw h refl
  mark-other (Fate.retried at error b) r h = rw h refl
  mark-other (Fate.gave_up error) r h = rw h refl

  mark-own :
      (fate : Fate max row)
      → row.status ≡ OutboxStatus.processing
      → Steps max row (mark now row fate row)
  mark-own Fate.failed h = Steps-refl row
  mark-own Fate.delivered h =
      rw (eq_refl row.id)
        (Steps.moves {m = set_succeeded row} (Step.delivers h refl refl) (Steps.rests refl refl))
  mark-own (Fate.retried at error b) h = rw (eq_refl row.id) (
      Steps.moves {m = set_retryable at error row} (Step.retries h refl refl b)
        (Steps.rests refl refl))
  mark-own (Fate.gave_up error) h = rw (eq_refl row.id) (
      Steps.moves {m = set_permanent error row} (Step.gives_up h refl refl) (Steps.rests refl refl))

  mark-Steps :
      (fate : Fate max row) (rows : List OutboxEntry)
      → Holds rows row
      → (id : String) (r : OutboxEntry) → lookup id rows ≡ some r
      → Steps max r (mark now row fate r)
  unfolding Holds
  mark-Steps fate rows held id r there = elim (Bool-cases (r.id == row.id)) [
    | inl same ↦
        let here = sym (lookup-id rows id r there) ∙ (eq_iff r.id row.id).0 same in
        let both = sym there ∙ (ap (λ j. lookup j rows) here ∙ held.0) in
        let eq : row ≡ r = cc in
        subst (λ s. Steps max s (mark now row fate s)) eq (mark-own fate held.1)
    | inr other ↦ subst (Steps max r) (sym (mark-other fate r other)) (Steps-refl r)
  ]

  mark-Holds :
      (fate : Fate max row) (rows : List OutboxEntry) (s : OutboxEntry)
      → (s.id == row.id) ≡ false
      → Holds rows s
      → Holds (map (mark now row fate) rows) s
  unfolding Holds on
  mark-Holds fate rows s other held = (
    lookup-map (mark now row fate) (mark-id fate) rows s.id
        ∙ (ap (on (mark now row fate)) held.0 ∙ ap some (mark-other fate s other)),
    held.1,
  )

  mark-Holds_all :
      (fate : Fate max row) (rows batch : List OutboxEntry)
      → any (λ s. s.id == row.id) batch ≡ false
      → All (Holds rows) batch
      → All (Holds (map (mark now row fate) rows)) batch
  mark-Holds_all fate rows [] apart held = tt
  mark-Holds_all fate rows (s ∷ ss) apart held = (
    mark-Holds fate rows s (ground arith) held.0,
    mark-Holds_all fate rows ss (ground arith) held.1,
  )

-- A change of a table by transitions that keeps the key.
pub record Refines (max : ℕ) (rows rows' : List OutboxEntry) : Type 0 where
  pub tracks : Tracks max rows rows'
  pub keyed : IsKeyed rows → IsKeyed rows'

Refines-trans :
    (max : ℕ) (a b c : List OutboxEntry) → Refines max a b → Refines max b c → Refines max a c
Refines-trans max a b c h k = record {
  tracks = Tracks-trans max a b c h.tracks k.tracks;
  keyed = λ keyed. k.keyed (h.keyed keyed);
}

Refines-refl : (max : ℕ) (rows : List OutboxEntry) → Refines max rows rows
Refines-refl max rows = record { tracks = Tracks-refl max rows; keyed = λ keyed. keyed }

module _ (F : Float) (H : Host) (C : TicketingContext (Float.Number F)) where
  pub process_row-Refines :
      (row : OutboxEntry) (d : Desk) (batch : List OutboxEntry)
      → Holds d.outbox.rows row
      → any (λ s. s.id == row.id) batch ≡ false
      → All (Holds d.outbox.rows) batch
      → Refines (limit F H C) d.outbox.rows (process_row F H C row d).1.outbox.rows
        × All (Holds (process_row F H C row d).1.outbox.rows) batch
  unfolding Settles
  process_row-Refines row d batch held apart others =
      let (fate, rows, agrees) = process_row-Settles F H C row d in
      let now = TicketingContext.clock C in
      let rows' = map (mark now row fate) d.outbox.rows in
      let step : Refines (limit F H C) d.outbox.rows rows' = record {
        tracks =
            Tracks-map (limit F H C) (mark now row fate) d.outbox.rows (mark-id now row fate)
              (mark-Steps now row fate d.outbox.rows held);
        keyed = map-IsKeyed (mark now row fate) (mark-id now row fate) d.outbox.rows;
      } in
      (
        subst (Refines (limit F H C) d.outbox.rows) (sym rows) step,
        subst (λ rs. All (Holds rs) batch) (sym rows)
            (mark-Holds_all now row fate d.outbox.rows batch apart others),
      )

  process_rows-Refines :
      (batch : List OutboxEntry) (d : Desk)
      → IsKeyed batch
      → All (Holds d.outbox.rows) batch
      → Refines (limit F H C) d.outbox.rows (process_rows F H C batch d).1.outbox.rows
  unfolding process_rows IsKeyed
  process_rows-Refines [] d keyed held = Refines-refl (limit F H C) d.outbox.rows
  process_rows-Refines (row ∷ batch) d keyed held =
      let (step, others) = process_row-Refines row d batch held.0 keyed.0 held.1 in
      let d' = (process_row F H C row d).1 in
      elim (Result-cases (process_row F H C row d).0) [
        | inr (e, thrown) ↦
            subst (λ r. Refines (limit F H C) d.outbox.rows r.1.outbox.rows)
              (sym (then-err (process_row F H C row) (process_rows F H C batch) d e thrown)) step
        | inl (u, done) ↦
            subst (λ r. Refines (limit F H C) d.outbox.rows r.1.outbox.rows)
              (sym (then-ok (process_row F H C row) (process_rows F H C batch) d u done))
              (Refines-trans (limit F H C) d.outbox.rows d'.outbox.rows
                (process_rows F H C batch d').1.outbox.rows step
                (process_rows-Refines batch d' keyed.1 others))
      ]

  -- A call of the worker changes the rows of the outbox only by transitions of the state machine,
  -- whatever the adapter, the graph, the role map and the two databases do: each row that was there
  -- is there and some transitions further, no row is added, and the key stays one, if it was one.
  pub process_outbox_once-Refines :
      (d : Desk)
      → IsKeyed d.outbox.rows
      → Refines (limit F H C) d.outbox.rows (process_outbox_once F H C d).1.outbox.rows
  unfolding process_outbox_once claim_batch Returned
  process_outbox_once-Refines d keyed =
      let claimed = claim_due C d.outbox in
      let c =
        claim_batch-IsClaim (limit F H C) (TicketingContext.outage C Statement.selecting "")
          (TicketingContext.outage C Statement.claiming)
          (TicketingConfig.outbox_batch_size (TicketingContext.config C)) (TicketingContext.clock C)
          (TicketingContext.reference_date C) d.outbox keyed in
      let first : Refines (limit F H C) d.outbox.rows claimed.1.rows = record {
        tracks = c.tracks;
        keyed = λ k. c.keyed;
      } in
      elim (Result-cases claimed.0) [
        | inr (e, broken) ↦ rw (broken, process_outbox_once) first
        | inl (batch, got) ↦
            let d' : Desk = record d { outbox = claimed.1; result = no_counts } in
            rw (got, process_outbox_once)
              (Refines-trans (limit F H C) d.outbox.rows claimed.1.rows
                (process_rows F H C batch d').1.outbox.rows first
                (process_rows-Refines batch d' (subst (Returned IsKeyed) got c.distinct)
                  (subst (Returned (All (Holds claimed.1.rows))) got c.holds)))
      ]
