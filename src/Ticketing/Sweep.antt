-- ===== src/Ticketing/Sweep.antt =====
-- What the intake and the sweep leave in the outbox.
use sentinel_act.Prelude.{
  String, ℕ, zero, suc, ◌<◌, Bool, true, false, ◌&&◌, Option, some, List, [], ◌∷◌, ◌++◌, ◌==◌, ◌≡◌,
  ◌≢◌, ◌⊎◌, refl, sym, subst, ap, ◌∙◌, any, any-append, any-append_left, All, length, arith, eq_iff,
  ==-false, Bool-cases, Option-cases, Result-cases, inl, inr, Result, ok, err, Error, if◌then◌else◌,
  leb, ticketing_unavailable, find?, append-nil,
}
use sentinel_act.Ticketing.{OutboxEntry, ObligationCommittedEvent}
use sentinel_act.Ticketing.Outbox.{
  Outbox, new_row, insert_if_not_exists, find_mapping, has_in_flight_entry_for_task, is_in_flight,
}
use sentinel_act.Ticketing.Intake.{
  handle_obligation_committed_event, validate_event, entry_of, event_for, ReconcileCandidate, Pass,
  is_covered, check_covered, backfill_one, backfill, reconcile_missed_commits,
}
mod Intake
unfoldable pub use Intake.*

-- What one candidate of the sweep does.
record Sweeps (id : String) (c : ReconcileCandidate) (o : Outbox) (done : Result Bool × Outbox)
    : Type 0 where
  keeps : (t : String) → is_covered o t ≡ true → is_covered done.1 t ≡ true
  covers : (b : Bool) → IsNewEvent id o → done.0 ≡ ok b → is_covered done.1 c.task_id ≡ true
  fresh : (j : String) → IsNewEvent j o → id ≢ j → IsNewEvent j done.1

taken-Sweeps :
    (id date : String) (c : ReconcileCandidate) (o : Outbox) (done : Result Bool × Outbox)
    → Takes (event_for id date c) o done
    → Sweeps id c o done
unfolding Takes
taken-Sweeps id date c o done (mappings, inl (rows, answered, no_row)) =
    let same : done.1.rows ≡ o.rows ++ [] = rows ∙ sym (append-nil o.rows) in
    record {
      keeps = λ t h. grown_covers o done.1 t [] mappings same h;
      covers = λ b new e. elim (Bool-cases b) [
        | inl added ↦ absurd (no_row (e ∙ ap ok added))
        | inr not_added ↦ absurd (answered new (e ∙ ap ok not_added))
      ];
      fresh = λ j new other. ap (any (λ r. r.event_id == j)) rows ∙ new;
    }
taken-Sweeps id date c o done (mappings, inr (r, rows, own, named, running, added)) = record {
  keeps = λ t h. grown_covers o done.1 t (r ∷ []) mappings rows h;
  covers = λ b new e.
      in_flight_covers done.1 c.task_id (row_in_flight o done.1 c.task_id r rows own running);
  fresh = λ j new other.
      ap (any (λ s. s.event_id == j)) rows
      ∙ (any-append (λ s. s.event_id == j) o.rows (r ∷ [])
          ∙ (let apart = ==-false id j other in ground (arith, eq_iff r.event_id j, eq_iff id j)));
}

untouched-Sweeps :
    (id : String) (c : ReconcileCandidate) (o : Outbox) (r : Result Bool)
    → ((b : Bool) → r ≡ ok b → is_covered o c.task_id ≡ true)
    → Sweeps id c o (r, o)
untouched-Sweeps id c o r h = record {
  keeps = λ t e. e;
  covers = λ b new e. h b e;
  fresh = λ j new other. new;
}

check_covered-true :
    (p : Pass) (o : Outbox) (t : String) → check_covered p o t ≡ ok true → is_covered o t ≡ true
unfolding check_covered is_covered
check_covered-true p o t h = ground arith

backfill_one-Sweeps :
    (p : Pass) (now : ℕ) (date : String) (c : ReconcileCandidate) (o : Outbox)
    → Sweeps p.event_id c o (backfill_one p now date c o)
unfolding backfill_one
backfill_one-Sweeps p now date c o = elim (Result-cases (check_covered p o c.task_id)) [
  | inr (e, down) ↦
      rw (down, backfill_one)
        (untouched-Sweeps p.event_id c o (err e) (λ b h. let bad : err e ≡ ok b = h in cc))
  | inl (b, checked) ↦ elim (Bool-cases b) [
    | inl known ↦
        let covered = check_covered-true p o c.task_id (checked ∙ ap ok known) in
        rw (checked ∙ ap ok known, backfill_one)
          (untouched-Sweeps p.event_id c o (ok false) (λ d h. covered))
    | inr new ↦
        rw (checked ∙ ap ok new, backfill_one)
          (taken-Sweeps p.event_id date c o _ (
            handle_obligation_committed_event-Takes p.id now p.insert_outage
              (event_for p.event_id date c) o))
  ]
]

abbrev next : (ℕ → Pass) → ℕ → Pass
next passes k = passes (suc k)

-- How many rows are added after an answer.
abbrev count : ℕ → Bool → ℕ
count n b = if b then suc n else n

backfill-step :
    (passes : ℕ → Pass) (now : ℕ) (date : String) (limit n : ℕ) (c : ReconcileCandidate)
    (cs : List ReconcileCandidate) (o : Outbox)
    → ((leb limit n ≡ true) × (backfill passes now date limit n (c ∷ cs) o ≡ (ok n, o)))
      ⊎ ((e : Error) × (backfill passes now date limit n (c ∷ cs) o
            ≡ (err e, (backfill_one (passes zero) now date c o).1)))
      ⊎ ((b : Bool) × ((backfill_one (passes zero) now date c o).0 ≡ ok b)
          × (backfill passes now date limit n (c ∷ cs) o
              ≡ backfill
                  (next passes)
                  now
                  date
                  limit
                  (count n b)
                  cs
                  (backfill_one (passes zero) now date c o).1))
unfolding backfill
backfill-step passes now date limit n c cs o = elim (Bool-cases (leb limit n)) [
  | inl full ↦ inl (full, rw full refl)
  | inr room ↦ elim (Result-cases (backfill_one (passes zero) now date c o).0) [
    | inr (e, failed) ↦ inr (inl (e, rw room (rw failed refl)))
    | inl (b, done) ↦ elim (Bool-cases b) [
      | inl added ↦ inr (inr (true, done ∙ ap ok added, rw room (rw (done ∙ ap ok added) refl)))
      | inr kept ↦ inr (inr (false, done ∙ ap ok kept, rw room (rw (done ∙ ap ok kept) refl)))
    ]
  ]
]

backfill-keeps :
    (passes : ℕ → Pass) (now : ℕ) (date : String) (limit n : ℕ) (cs : List ReconcileCandidate)
    (o : Outbox) (t : String)
    → is_covered o t ≡ true
    → is_covered (backfill passes now date limit n cs o).1 t ≡ true
unfolding backfill
backfill-keeps passes now date limit n [] o t h = h
backfill-keeps passes now date limit n (c ∷ cs) o t h =
    let one = backfill_one-Sweeps (passes zero) now date c o in
    let o' = (backfill_one (passes zero) now date c o).1 in
    elim (backfill-step passes now date limit n c cs o) [
      | inl (full, e) ↦ ap (λ d. is_covered d.1 t) e ∙ h
      | inr (inl (x, e)) ↦ ap (λ d. is_covered d.1 t) e ∙ one.keeps t h
      | inr (inr (b, done, e)) ↦
          ap (λ d. is_covered d.1 t) e
          ∙ backfill-keeps (next passes) now date limit (count n b) cs o' t (one.keeps t h)
    ]

-- The identifiers of so many passes are fresh and different.
pub record AreFresh (n : ℕ) (passes : ℕ → Pass) (o : Outbox) : Type 0 where
  pub new : (k : ℕ) → k < n → IsNewEvent (passes k).event_id o
  pub different : (j k : ℕ) → j < k → k < n → (passes j).event_id ≢ (passes k).event_id

backfill-covers :
    (passes : ℕ → Pass) (now : ℕ) (date : String) (limit n m : ℕ) (cs : List ReconcileCandidate)
    (o : Outbox)
    → AreFresh (length cs) passes o
    → (backfill passes now date limit n cs o).0 ≡ ok m
    → m < limit
    → All (λ c. is_covered (backfill passes now date limit n cs o).1 c.task_id ≡ true) cs
unfolding backfill
backfill-covers passes now date limit n m [] o fresh answered below = tt
backfill-covers passes now date limit n m (c ∷ cs) o fresh answered below =
    let one = backfill_one-Sweeps (passes zero) now date c o in
    let o' = (backfill_one (passes zero) now date c o).1 in
    elim (backfill-step passes now date limit n c cs o) [
      | inl (full, e) ↦
          let same : ok n ≡ ok m = sym (ap (λ d. d.0) e) ∙ answered in
          let eq : n ≡ m = cc in let bad : ⊥ = ground arith in absurd bad
      | inr (inl (x, e)) ↦ let bad : err x ≡ ok m = sym (ap (λ d. d.0) e) ∙ answered in cc
      | inr (inr (b, done, e)) ↦
          let rest = backfill (next passes) now date limit (count n b) cs o' in
          let fresh' : AreFresh (length cs) (next passes) o' = record {
            new = λ k listed.
                one.fresh (passes (suc k)).event_id (fresh.new (suc k) (omega arith))
                  (fresh.different zero (suc k) (omega arith) (omega arith));
            different =
                λ j k before listed. fresh.different (suc j) (suc k) (omega arith) (omega arith);
          } in
          subst (λ d. All (λ a. is_covered d.1 a.task_id ≡ true) (c ∷ cs)) (sym e)
            (
              backfill-keeps (next passes) now date limit (count n b) cs o' c.task_id
                  (one.covers b (fresh.new zero (omega arith)) done),
              backfill-covers (next passes) now date limit (count n b) m cs o' fresh'
                  (ap (λ d. d.0) (sym e) ∙ answered) below,
            )
    ]

-- A sweep that answers with fewer rows than its limit leaves every committed task that the graph
-- named with a ticket or with a row that is not through, whether or not its event was lost, if the
-- identifiers that it draws are fresh.
pub reconcile_missed_commits-covers :
    (passes : ℕ → Pass) (now : ℕ) (date : String) (limit m : ℕ) (rows : List ReconcileCandidate)
    (o : Outbox)
    → AreFresh (length rows) passes o
    → (reconcile_missed_commits passes now date (some limit) (ok rows) o).0 ≡ ok m
    → m < limit
    → All
        (λ c.
          is_covered (reconcile_missed_commits passes now date (some limit) (ok rows) o).1 c.task_id
          ≡ true)
        rows
unfolding reconcile_missed_commits
reconcile_missed_commits-covers passes now date limit m rows o =
    backfill-covers passes now date limit zero m rows o
