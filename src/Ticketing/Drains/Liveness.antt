-- ===== src/Ticketing/Drains/Liveness.antt =====
-- Enough calls of the worker bring a row through.
use sentinel_act.Prelude.{
  String, ℕ, ◌+◌, ◌≤◌, ◌<◌, true, false, Option, none, some, List, [], ◌∷◌, ◌≡◌, refl, sym, subst,
  ap, ◌∙◌, length, arith, inl, inr, Bool-cases,
}
use sentinel_act.Float.{Float}
use sentinel_act.Ledger.{Host}
use sentinel_act.Ticketing.{OutboxEntry, OutboxStatus, TicketingConfig}
use sentinel_act.Ticketing.Outbox.{is_open}
use sentinel_act.Ticketing.Rows.{lookup}
use sentinel_act.Ticketing.Machine.{IsBounded, allowed, Tracks, Related, Steps, Step}
use sentinel_act.Ticketing.Refines.{process_outbox_once-Refines}
use sentinel_act.Ticketing.Sound.{IsSound, Op, apply, apply-IsSound, configured}
use sentinel_act.Ticketing.Drains.Ends.{Advances, is_done}
use sentinel_act.Ticketing.Drains.Rounds.{Suits, process_outbox_once-Advances}
use sentinel_act.Ticketing.Worker.{TicketingContext, Desk, process_outbox_once}

done_not : (s t : OutboxStatus) → is_done s ≡ true → s ≡ t → is_done t ≡ true
done_not s t h e = ap is_done (sym e) ∙ h

done_closed : (s : OutboxStatus) → is_done s ≡ true → is_open s ≡ false
done_closed OutboxStatus.succeeded h = refl
done_closed OutboxStatus.failed_permanent h = refl
done_closed OutboxStatus.pending h = cc
done_closed OutboxStatus.processing h = cc
done_closed OutboxStatus.failed_retryable h = cc

Step-done : (max : ℕ) (r r' : OutboxEntry) → Step max r r' → is_done r.status ≡ false
Step-done max r r' (Step.claims o s n) = elim (Bool-cases (is_done r.status)) [
  | inl through ↦ let shut = done_closed r.status through in ground arith
  | inr waiting ↦ waiting
]
Step-done max r r' (Step.delivers p s n) = ap is_done p
Step-done max r r' (Step.retries p s n b) = ap is_done p
Step-done max r r' (Step.gives_up p s n) = ap is_done p

Steps-done :
    (max : ℕ) (r r' : OutboxEntry)
    → Steps max r r'
    → is_done r.status ≡ true
    → is_done r'.status ≡ true
Steps-done max r r' (Steps.rests s n) h = ap is_done s ∙ h
Steps-done max r r' (Steps.moves {m = m} one more) h =
    let moving = Step-done max r m one in ground arith

Related-done :
    (max : ℕ) (r : OutboxEntry) (after : Option OutboxEntry)
    → Related max (some r) after
    → is_done r.status ≡ true
    → (r' : OutboxEntry) × (after ≡ some r') × (is_done r'.status ≡ true)
unfolding Related
Related-done max r none related h = elim related [ ]
Related-done max r (some r') related h = (r', refl, Steps-done max r r' related h)

open_bound :
    (max : ℕ) (r : OutboxEntry) → is_open r.status ≡ true → IsBounded max r → r.attempts ≤ max
unfolding IsBounded allowed
open_bound max r free h = ground arith

module _ (F : Float) (H : Host) (config : TicketingConfig) where
  open F use {Number}

  -- The desk after calls of the worker, the first of the list first.
  unfoldable pub work_all : List (TicketingContext Number) → Desk → Desk
  work_all [] d = d
  work_all (C ∷ Cs) d = work_all Cs (process_outbox_once F H (configured config C) d).1

  -- Each call finds what it needs for the row.
  unfoldable pub SuitAll : List (TicketingContext Number) → (d : Desk) (id : String) → Type 0
  SuitAll [] d id = Unit
  SuitAll (C ∷ Cs) d id =
      Suits (configured config C) d id
      × SuitAll Cs (process_outbox_once F H (configured config C) d).1 id

  work_all-done :
      (Cs : List (TicketingContext Number)) (d : Desk) (id : String) (r : OutboxEntry)
      → IsSound config.max_attempts d.outbox.rows
      → lookup id d.outbox.rows ≡ some r
      → is_done r.status ≡ true
      → (r' : OutboxEntry) × (lookup id (work_all Cs d).outbox.rows ≡ some r')
        × (is_done r'.status ≡ true)
  unfolding work_all Tracks IsSound apply
  work_all-done [] d id r sound there through = (r, there, through)
  work_all-done (C ∷ Cs) d id r sound there through =
      let refined = process_outbox_once-Refines F H (configured config C) d sound.0 in
      let d' = (process_outbox_once F H (configured config C) d).1 in
      let (r', now_there, still) =
        Related-done config.max_attempts r (lookup id d'.outbox.rows)
          (subst (λ o. Related config.max_attempts o (lookup id d'.outbox.rows)) there
            (refined.tracks id))
          through in
      work_all-done Cs d' id r' (apply-IsSound F H config (Op.worked C) d sound) now_there still

  work_all-counts :
      (Cs : List (TicketingContext Number)) (d : Desk) (id : String) (r : OutboxEntry)
      → IsSound config.max_attempts d.outbox.rows
      → SuitAll Cs d id
      → lookup id d.outbox.rows ≡ some r
      → is_open r.status ≡ true
      → config.max_attempts < length Cs + r.attempts
      → (r' : OutboxEntry) × (lookup id (work_all Cs d).outbox.rows ≡ some r')
        × (is_done r'.status ≡ true)
  unfolding work_all SuitAll IsSound apply Advances
  work_all-counts [] d id r sound suits there free many =
      let bound = open_bound config.max_attempts r free (sound.1 id r there) in
      let bad : ⊥ = omega arith in absurd bad
  work_all-counts (C ∷ Cs) d id r sound suits there free many =
      let (r', now_there, advanced) =
        process_outbox_once-Advances F H (configured config C) d id r suits.0 sound.0 there free in
      let d' = (process_outbox_once F H (configured config C) d).1 in
      let sound' = apply-IsSound F H config (Op.worked C) d sound in
      elim advanced [
        | inl through ↦ work_all-done Cs d' id r' sound' now_there through
        | inr (still, more) ↦
            work_all-counts Cs d' id r' sound' suits.1 now_there still (omega arith)
      ]

  -- More calls of the worker than attempts are allowed bring every row that is open to its end, a
  -- ticket or a permanent failure, whatever the adapter, the graph and the role map answer, as long
  -- as the outbox's database answers, the batches have room for the table, and each call comes when
  -- the row's next attempt is due.
  pub work_all-ends :
      (Cs : List (TicketingContext Number)) (d : Desk) (id : String) (r : OutboxEntry)
      → IsSound config.max_attempts d.outbox.rows
      → SuitAll Cs d id
      → lookup id d.outbox.rows ≡ some r
      → is_open r.status ≡ true
      → config.max_attempts < length Cs
      → (r' : OutboxEntry) × (lookup id (work_all Cs d).outbox.rows ≡ some r')
        × (is_done r'.status ≡ true)
  work_all-ends Cs d id r sound suits there free many =
      work_all-counts Cs d id r sound suits there free (omega arith)
