-- ===== src/Ticketing/Once/Carries.antt =====
-- The call of the worker, from what its steps do to the tickets and their mappings.
use sentinel_act.Prelude.{
  String, true, false, none, some, List, [], ◌∷◌, ◌≡◌, refl, sym, subst, ◌∙◌, arith, Option-cases,
  Result-cases, inl, inr, Result, ok,
}
use sentinel_act.Prelude.Effects.{then-err, then-ok}
use sentinel_act.Float.{Float}
use sentinel_act.Schema.{Obligation, ProcessTask}
use sentinel_act.Ledger.{Host}
use sentinel_act.Ticketing.{OutboxEntry, TicketingConfig, CreateTicketRequest, TicketLineage}
use sentinel_act.Ticketing.Outbox.{find_mapping}
use sentinel_act.Ticketing.Mapping.{
  build_create_ticket_request, resolve_assignee, compute_ticket_due_date,
}
use sentinel_act.Ticketing.Worker.{
  TicketingContext, Desk, Statement, LineageRow, handle_succeeded, handle_permanent,
  handle_retryable, submit, resolve_row, try_row, process_row, process_rows, process_outbox_once,
  add_processed, event_of, claim_due, no_counts,
}
use sentinel_act.Ticketing.Once.Silent.{
  Quiet, Quiet-refl, counted-Quiet, claim_batch-mappings, handle_succeeded-Quiet,
  handle_permanent-Quiet, handle_retryable-Quiet,
}

-- The lookup gives the task that it was asked for.
unfoldable pub IsLookup :
    {N : Type 0} → ((obligation_id task_id : String) → Result (List (LineageRow N))) → Type 0
IsLookup {N} run_cypher =
    (o t : String) (rows : List (LineageRow N)) (l : LineageRow N) (more : List (LineageRow N))
    (task : ProcessTask N)
    → run_cypher o t ≡ ok rows
    → rows ≡ l ∷ more
    → l.task ≡ some task
    → task.task_id ≡ t

module _ (F : Float) (H : Host) (C : TicketingContext (Float.Number F)) where
  open F use {Number}

  request_key :
      (o : Obligation Number) (t : ProcessTask Number) (l : TicketLineage) (row : OutboxEntry)
      (request : CreateTicketRequest)
      → build_create_ticket_request F
          (TicketingContext.dates C)
          (TicketingContext.resolve C)
          (TicketingContext.config C)
          o
          t
          l
          (event_of (TicketingContext.iso C row.created_at) row)
        ≡ ok request
      → request.dedupe_key ≡ t.task_id
  unfolding build_create_ticket_request
  request_key o t l row request built =
      elim (Result-cases
        (resolve_assignee (TicketingContext.resolve C) (TicketingContext.config C) t.owner_role)) [
          | inr (e, broken) ↦ ground arith
          | inl (assignee, resolved) ↦
              elim (Result-cases (compute_ticket_due_date F (TicketingContext.dates C) t)) [
                | inr (e, broken) ↦ ground arith
                | inl (due, dated) ↦ ground arith
              ]
        ]

-- What a call of the worker carries from its first store to its last: a relation that the calls
-- without tickets have, that is transitive, and that submitting a task with no mapping has.
module _ (F : Float) (H : Host) (C : TicketingContext (Float.Number F)) (R : Desk → Desk → Type 0)
    (quiet : (d d' : Desk) → Quiet d d' → R d d') (trans : (d e f : Desk) → R d e → R e f → R d f)
    (finds : IsLookup (TicketingContext.run_cypher C))
    (submits : (row : OutboxEntry) (request : CreateTicketRequest) (d : Desk)
      → find_mapping row.task_id d.outbox ≡ none
      → request.dedupe_key ≡ row.task_id
      → R d (submit F H C row request d).1) where
  open F use {Number}

  resolve_row-carries :
      (row : OutboxEntry) (found : List (LineageRow Number)) (d : Desk)
      → TicketingContext.run_cypher C row.obligation_id row.task_id ≡ ok found
      → find_mapping row.task_id d.outbox ≡ none
      → R d (resolve_row F H C row found d).1
  unfolding resolve_row IsLookup
  resolve_row-carries row [] d read unmapped =
      quiet d (resolve_row F H C row [] d).1 (handle_permanent-Quiet F H C false row _ d)
  resolve_row-carries row (l ∷ more) d read unmapped =
      let silent = λ (error : String).
        quiet d (handle_permanent F H C false row error d).1
          (handle_permanent-Quiet F H C false row error d) in
      elim (Option-cases l.obligation) [
        | inl missing ↦ rw (missing, resolve_row) (silent _)
        | inr (o, there) ↦ elim (Option-cases l.task) [
          | inl missing ↦ rw (there, resolve_row) (rw (missing, resolve_row) (silent _))
          | inr (t, task_there) ↦
              elim (Result-cases (
                build_create_ticket_request F (TicketingContext.dates C)
                  (TicketingContext.resolve C) (TicketingContext.config C) o t l.lineage
                  (event_of (TicketingContext.iso C row.created_at) row))) [
                    | inr (e, broken) ↦
                        rw (there, resolve_row)
                          (rw (task_there, resolve_row) (rw broken (quiet d d (Quiet-refl d))))
                    | inl (request, built) ↦
                        rw (there, resolve_row)
                          (rw (task_there, resolve_row)
                            (rw built (
                              submits row request d unmapped (
                                request_key F H C o t l.lineage row request built
                                ∙ finds row.obligation_id row.task_id (l ∷ more) l more t read refl
                                    task_there))))
                  ]
        ]
      ]

  try_row-carries : (row : OutboxEntry) (d : Desk) → R d (try_row F H C row d).1
  unfolding try_row
  try_row-carries row d = elim (Option-cases (TicketingContext.outage C Statement.finding row.id)) [
    | inr (e, down) ↦ rw (down, try_row) (quiet d d (Quiet-refl d))
    | inl up ↦ elim (Option-cases (find_mapping row.task_id d.outbox)) [
      | inr (m, mapped) ↦
          rw (up, try_row)
            (rw (mapped, try_row)
              (quiet d _ (
                counted-Quiet d (handle_succeeded F H C row d)
                  (handle_succeeded-Quiet F H C row d))))
      | inl unmapped ↦
          elim (Result-cases (TicketingContext.run_cypher C row.obligation_id row.task_id)) [
            | inr (e, broken) ↦
                rw (up, try_row)
                  (rw (unmapped, try_row) (rw (broken, try_row) (quiet d d (Quiet-refl d))))
            | inl (rows, read) ↦
                rw (up, try_row)
                  (rw (unmapped, try_row)
                    (rw (read, try_row) (resolve_row-carries row rows d read unmapped)))
          ]
    ]
  ]

  process_row-carries : (row : OutboxEntry) (d : Desk) → R d (process_row F H C row d).1
  unfolding process_row Quiet
  process_row-carries row d =
      let d0 : Desk = record d { result = add_processed d.result } in
      let d' = (try_row F H C row d0).1 in
      let tried = trans d d0 d' (quiet d d0 (refl, refl)) (try_row-carries row d0) in
      elim (Result-cases (try_row F H C row d0).0) [
        | inl (u, done) ↦ rw (done, process_row) tried
        | inr (e, thrown) ↦
            let error = TicketingContext.message C e in
            rw (thrown, process_row)
              (trans d d' (handle_retryable F H C true row error d').1 tried
                (quiet d' _ (handle_retryable-Quiet F H C true row error d')))
      ]

  process_rows-carries : (batch : List OutboxEntry) (d : Desk) → R d (process_rows F H C batch d).1
  unfolding process_rows
  process_rows-carries [] d = quiet d d (Quiet-refl d)
  process_rows-carries (row ∷ batch) d =
      let one = process_row-carries row d in
      elim (Result-cases (process_row F H C row d).0) [
        | inr (e, thrown) ↦
            subst (λ r. R d r.1)
              (sym (then-err (process_row F H C row) (process_rows F H C batch) d e thrown)) one
        | inl (u, done) ↦
            subst (λ r. R d r.1)
              (sym (then-ok (process_row F H C row) (process_rows F H C batch) d u done))
              (trans d (process_row F H C row d).1 _ one
                (process_rows-carries batch (process_row F H C row d).1))
      ]

  -- A call of the worker is in the relation.
  pub process_outbox_once-carries : (d : Desk) → R d (process_outbox_once F H C d).1
  unfolding process_outbox_once Quiet
  process_outbox_once-carries d =
      let d' : Desk = record d { outbox = (claim_due C d.outbox).1; result = no_counts } in
      let same =
        claim_batch-mappings (TicketingContext.outage C Statement.selecting "")
          (TicketingContext.outage C Statement.claiming)
          (TicketingConfig.outbox_batch_size (TicketingContext.config C)) (TicketingContext.clock C)
          (TicketingContext.reference_date C) d.outbox in
      let before = quiet d d' (same, refl) in
      elim (Result-cases (claim_due C d.outbox).0) [
        | inr (e, broken) ↦ rw (broken, process_outbox_once) before
        | inl (batch, got) ↦
            rw (got, process_outbox_once) (trans d d' _ before (process_rows-carries batch d'))
      ]
