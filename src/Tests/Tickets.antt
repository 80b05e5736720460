-- ===== src/Tests/Tickets.antt =====
-- One committed task on its way to the ticketing system, with an adapter that is down and with one
-- that answers.
use sentinel_act.Prelude.{
  map, String, ℕ, ◌≤◌, true, false, none, some, List, [], ◌∷◌, ◌≡◌, refl, sym, subst, ap, ◌∙◌,
  arith, ok, err, adapter_call_error, length, All, is_blank,
}
use sentinel_act.Router.{Tier}
use sentinel_act.Ticketing.{OutboxEntry, OutboxStatus, TicketingConfig, FinalStatus}
use sentinel_act.Ticketing.Outbox.{
  mark_permanent_failure, claim_batch, candidates, by_age, claim_each, claim_row, find_mapping,
  mark_retryable, update, insert_if_not_exists, has_in_flight_entry_for_task,
}
use sentinel_act.Ticketing.Intake.{
  Pass, ReconcileCandidate, is_covered, check_covered, backfill, backfill_one,
  reconcile_missed_commits, handle_obligation_committed_event, validate_event,
}
use sentinel_act.Ticketing.Sweep.{reconcile_missed_commits-covers}
use sentinel_act.Ticketing.Mapping.{
  Dates, build_create_ticket_request, compute_backoff_delay_ms, compute_ticket_priority,
}
use sentinel_act.Ticketing.Worker.{
  TicketingContext, Desk, LineageRow, process_outbox_once, no_counts, process_rows, process_row,
  try_row, resolve_row, submit, create_ticket, handle_call_error, is_permanent, handle_retryable,
  handle_permanent, append_ledger_safely, execute,
}
use sentinel_act.Ticketing.Rows.{IsKeyed, lookup}
use sentinel_act.Ticketing.Machine.{IsBounded, allowed}
use sentinel_act.Ticketing.Refines.{Refines, process_outbox_once-Refines}
use sentinel_act.Ticketing.Sound.{IsSound, Op, run, run-IsSound, configured}
use sentinel_act.Ticketing.Once.Noted.{IsServedOnce, Apart, has_mapping}
use sentinel_act.Ticketing.Once.Carries.{IsLookup}
use sentinel_act.Ticketing.Once.Mapped.{of_task, process_outbox_once-of_task}
use sentinel_act.Ticketing.Once.{IsAllOrNothing, process_outbox_once-IsServedOnce}
use sentinel_act.Ticketing.Drains.Ends.{is_done}
use sentinel_act.Ticketing.Drains.Rounds.{Suits}
use sentinel_act.Ticketing.Drains.Liveness.{work_all, SuitAll, work_all-ends}
use sentinel_act.Schema.{tier_b}
use sentinel_act.Tests.{hundredths, platform, obligation, task}

abbrev settings : TicketingConfig
settings = record {
  default_assignee_ref = "queue:unassigned";
  max_attempts = 1;
  base_backoff_ms = 60;
  max_backoff_ms = 3600;
  outbox_batch_size = 20;
}

abbrev row : OutboxEntry
row = record {
  id = "row-1";
  event_id = "event-1";
  obligation_id = "obligation-1";
  task_id = "task-1";
  tier = Tier.review tier_b;
  status = OutboxStatus.pending;
  attempts = 0;
  next_attempt_at = 10;
  last_error = none;
  created_at = 10;
  updated_at = 10;
}

abbrev desk : Desk
desk = record {
  outbox = record { rows = row ∷ []; mappings = [] };
  ledger = [];
  tickets = [];
  result = no_counts;
}

abbrev dates : Dates ℕ
dates = record { get_time = λ s. 0; to_iso_string = λ n. ok "2026-02-08T00:00:00Z" }

-- The graph knows the obligation of the test data, under every task that it is asked for.
abbrev found : String → List (LineageRow ℕ)
found t =
    record {
      obligation = some obligation;
      task = some (record task { task_id = t });
      lineage = record {
        clause_para_ref = some "4.2";
        circular_title = none;
        circular_date_effective = none;
        circular_id = none;
      };
    }
    ∷ []

abbrev broken : TicketingContext ℕ
broken = record {
  config = settings;
  adapter_name = "generic-webhook";
  reference_date = 100;
  clock = 100;
  timestamp = "2026-02-02T00:00:00Z";
  run_cypher = λ o t. ok (found t);
  resolve = λ role. ok none;
  create_ticket = λ earlier request. (err (adapter_call_error false), false);
  dates = dates;
  outage = λ s id. none;
  ledger_outage = λ id. none;
  message = λ e. "the webhook is down";
  show = λ n. "1";
  iso = λ n. "2026-02-02T00:00:00Z";
}

abbrev later : TicketingContext ℕ
later = record broken { reference_date = 100000 }

abbrev working : TicketingContext ℕ
working = record broken {
  create_ticket = λ earlier request.
      (ok (record { external_ticket_id = "T-1"; external_ticket_url = none }), true);
}

process_outbox_once-Refines_example :
    Refines 1 (row ∷ []) (process_outbox_once hundredths platform broken desk).1.outbox.rows
unfolding IsKeyed
process_outbox_once-Refines_example =
    process_outbox_once-Refines hundredths platform broken desk (refl, tt)

looks_up : IsLookup {N = ℕ} (λ o t. ok (found t))
unfolding IsLookup
looks_up o t rows l more given read split named = cc

whole : IsAllOrNothing (TicketingContext.create_ticket working)
unfolding IsAllOrNothing
whole tickets request e thrown = cc

process_outbox_once-IsServedOnce_example :
    IsServedOnce
      (process_outbox_once hundredths platform working desk).1.outbox.mappings
      (process_outbox_once hundredths platform working desk).1.tickets
unfolding Apart
process_outbox_once-IsServedOnce_example =
    process_outbox_once-IsServedOnce hundredths platform working desk (λ id. refl) whole looks_up
      (record { noted = tt; apart = tt })

is_row : (id : String) (r : OutboxEntry) → lookup id (row ∷ []) ≡ some r → row ≡ r
unfolding lookup
is_row id r e = ground arith

row-IsSound : IsSound 1 (row ∷ [])
unfolding IsSound IsKeyed IsBounded allowed
row-IsSound = ((refl, tt), λ id r e. subst (IsBounded 1) (is_row id r e) (omega arith))

run-IsSound_example :
    IsSound 1
      (run hundredths platform settings
        (Op.worked broken ∷ Op.worked working ∷ Op.reset broken "row-1" ∷ [])
        desk).outbox.rows
run-IsSound_example =
    run-IsSound hundredths platform settings
      (Op.worked broken ∷ Op.worked working ∷ Op.reset broken "row-1" ∷ []) desk row-IsSound

-- The row after a first call that the adapter failed.
abbrev tried : OutboxEntry
tried = record row {
  status = OutboxStatus.failed_retryable;
  attempts = 1;
  next_attempt_at = 160;
  last_error = some "the webhook is down";
  updated_at = 100;
}

abbrev second_desk : Desk
second_desk = (process_outbox_once hundredths platform (configured settings broken) desk).1

rows_after : second_desk.outbox.rows ≡ tried ∷ []
unfolding process_outbox_once claim_batch candidates by_age claim_each claim_row process_rows
    process_row try_row find_mapping resolve_row build_create_ticket_request submit create_ticket
    handle_call_error is_permanent handle_retryable execute mark_retryable update
    compute_backoff_delay_ms compute_ticket_priority
rows_after = refl

-- An adapter whose calls time out after the external system has opened the ticket: a retry opens
-- another one.
abbrev silent : TicketingContext ℕ
silent = record broken { create_ticket = λ earlier request. (err (adapter_call_error false), true) }

abbrev silent_later : TicketingContext ℕ
silent_later = record silent { reference_date = 100000 }

opened_twice :
    map
      (λ q. q.dedupe_key)
      (process_outbox_once hundredths platform silent_later
        (process_outbox_once hundredths platform silent desk).1).1.tickets
    ≡ "task-1" ∷ "task-1" ∷ []
unfolding process_outbox_once claim_batch candidates by_age claim_each claim_row process_rows
    process_row try_row find_mapping resolve_row build_create_ticket_request submit create_ticket
    handle_call_error is_permanent handle_retryable handle_permanent execute mark_retryable
    mark_permanent_failure update compute_backoff_delay_ms compute_ticket_priority
    append_ledger_safely
opened_twice = refl

-- The task of the row has its ticket already.
abbrev served_desk : Desk
served_desk = record (process_outbox_once hundredths platform working desk).1 {
  outbox = record {
    rows = row ∷ [];
    mappings =
        record {
          task_id = "task-1";
          adapter_name = "generic-webhook";
          external_ticket_id = "T-1";
          external_ticket_url = none;
          created_at = 50;
        }
        ∷ [];
  };
}

process_outbox_once-of_task_example :
    (has_mapping
        (process_outbox_once hundredths platform silent served_desk).1.outbox.mappings
        "task-1"
      ≡ true)
    × (of_task "task-1" (process_outbox_once hundredths platform silent served_desk).1.tickets
        ≡ of_task "task-1" served_desk.tickets)
process_outbox_once-of_task_example =
    process_outbox_once-of_task hundredths platform silent "task-1" served_desk looks_up refl

is_tried : (id : String) (r : OutboxEntry) → lookup id (tried ∷ []) ≡ some r → tried ≡ r
unfolding lookup
is_tried id r e = ground arith

first-Suits : Suits (configured settings broken) desk "row-1"
first-Suits = record {
  answers = λ s j. refl;
  room = omega arith;
  due = λ r e free. subst (λ s. s.next_attempt_at ≤ 100) (is_row "row-1" r e) (omega arith);
}

second-Suits : Suits (configured settings later) second_desk "row-1"
second-Suits = record {
  answers = λ s j. refl;
  room = subst (λ rows. length rows ≤ 20) (sym rows_after) (omega arith);
  due = λ r e free.
      subst (λ s. s.next_attempt_at ≤ 100000)
        (is_tried "row-1" r (ap (lookup "row-1") (sym rows_after) ∙ e)) (omega arith);
}

work_all-ends_example :
    (r' : OutboxEntry) × (lookup "row-1"
        (work_all hundredths platform settings (broken ∷ later ∷ []) desk).outbox.rows
      ≡ some r')
    × (is_done r'.status ≡ true)
unfolding SuitAll lookup
work_all-ends_example =
    work_all-ends hundredths platform settings (broken ∷ later ∷ []) desk "row-1" row row-IsSound
      (first-Suits, (second-Suits, tt)) refl refl (omega arith)

-- A sweep over one committed task that the trigger missed.
abbrev pass : ℕ → Pass
pass k = record {
  id = "row-2";
  event_id = "event-2";
  find_outage = none;
  flight_outage = none;
  insert_outage = none;
}

abbrev missed : ReconcileCandidate
missed = record {
  obligation_id = "obligation-2";
  obligation_status = FinalStatus.committed;
  obligation_recorded_at = none;
  task_id = "task-2";
  review_count = 1;
}

reconcile_missed_commits-covers_example :
    All
      (λ c.
        is_covered
          (reconcile_missed_commits pass 100 "2026-02-02" (some 5) (ok (missed ∷ [])) desk.outbox).1
          c.task_id
        ≡ true)
      (missed ∷ [])
unfolding reconcile_missed_commits backfill backfill_one check_covered find_mapping
    has_in_flight_entry_for_task handle_obligation_committed_event validate_event is_blank
    insert_if_not_exists
reconcile_missed_commits-covers_example =
    reconcile_missed_commits-covers pass 100 "2026-02-02" 5 1 (missed ∷ []) desk.outbox
      (record {
        new = λ k listed. refl;
        different = λ j k before listed. let bad : ⊥ = omega arith in absurd bad;
      })
      refl (omega arith)
