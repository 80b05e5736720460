-- ===== src/Ticketing/Machine.antt =====
-- What may become of a row of the outbox, as a state machine on its status and its number of
-- attempts, independently of the code: the abstract side of the worker.
use sentinel_act.Prelude.{
  String, ℕ, suc, ◌≤◌, true, Option, none, some, List, map, ◌≡◌, refl, sym, subst, ap, ◌∙◌, arith,
  Option-cases, inl, inr,
}
use sentinel_act.Ticketing.{OutboxStatus, OutboxEntry}
use sentinel_act.Ticketing.Outbox.{is_open}
use sentinel_act.Ticketing.Rows.{lookup, on, lookup-map}

-- One transition of a row; `max` is the number of attempts after which no other one follows.
pub data Step (max : ℕ) (r r' : OutboxEntry) : Type 0 where
  claims :
      is_open r.status ≡ true
      → r'.status ≡ OutboxStatus.processing
      → r'.attempts ≡ r.attempts
      → Step max r r'
  delivers :
      r.status ≡ OutboxStatus.processing
      → r'.status ≡ OutboxStatus.succeeded
      → r'.attempts ≡ r.attempts
      → Step max r r'
  retries :
      r.status ≡ OutboxStatus.processing
      → r'.status ≡ OutboxStatus.failed_retryable
      → r'.attempts ≡ suc r.attempts
      → suc r.attempts ≤ max
      → Step max r r'
  gives_up :
      r.status ≡ OutboxStatus.processing
      → r'.status ≡ OutboxStatus.failed_permanent
      → r'.attempts ≡ suc r.attempts
      → Step max r r'

-- Any number of transitions.
pub data Steps (max : ℕ) : OutboxEntry → OutboxEntry → Type 0 where
  rests : {r r' : OutboxEntry} → r'.status ≡ r.status → r'.attempts ≡ r.attempts → Steps max r r'
  moves : {r m r' : OutboxEntry} → Step max r m → Steps max m r' → Steps max r r'

-- How many attempts a row may have on its counter.
unfoldable pub allowed : (max : ℕ) → OutboxStatus → ℕ
allowed max OutboxStatus.failed_permanent = suc max
allowed max _ = max

unfoldable pub IsBounded : (max : ℕ) → OutboxEntry → Type 0
IsBounded max r = r.attempts ≤ allowed max r.status

step_to :
    (max : ℕ) (r' : OutboxEntry) (s : OutboxStatus)
    → r'.status ≡ s
    → r'.attempts ≤ allowed max s
    → IsBounded max r'
unfolding IsBounded
step_to max r' s e h = subst (λ t. r'.attempts ≤ allowed max t) (sym e) h

open_allowed : (max : ℕ) (s : OutboxStatus) → is_open s ≡ true → allowed max s ≡ max
unfolding allowed
open_allowed max OutboxStatus.pending h = refl
open_allowed max OutboxStatus.failed_retryable h = refl
open_allowed max OutboxStatus.processing h = cc
open_allowed max OutboxStatus.succeeded h = cc
open_allowed max OutboxStatus.failed_permanent h = cc

processing_bound :
    (max : ℕ) (r : OutboxEntry)
    → r.status ≡ OutboxStatus.processing
    → IsBounded max r
    → r.attempts ≤ max
unfolding IsBounded allowed
processing_bound max r e h = subst (λ t. r.attempts ≤ allowed max t) e h

pub Step-IsBounded :
    (max : ℕ) (r r' : OutboxEntry) → Step max r r' → IsBounded max r → IsBounded max r'
unfolding allowed IsBounded
Step-IsBounded max r r' (Step.claims o s n) h =
    step_to max r' OutboxStatus.processing s (omega (arith, open_allowed max r.status o))
Step-IsBounded max r r' (Step.delivers p s n) h =
    step_to max r' OutboxStatus.succeeded s (omega (arith, processing_bound max r p h))
Step-IsBounded max r r' (Step.retries p s n b) h =
    step_to max r' OutboxStatus.failed_retryable s (omega arith)
Step-IsBounded max r r' (Step.gives_up p s n) h =
    step_to max r' OutboxStatus.failed_permanent s (omega (arith, processing_bound max r p h))

rests-IsBounded :
    (max : ℕ) (r r' : OutboxEntry)
    → r'.status ≡ r.status
    → r'.attempts ≡ r.attempts
    → IsBounded max r
    → IsBounded max r'
unfolding IsBounded
rests-IsBounded max r r' s n h = subst (λ t. r'.attempts ≤ allowed max t) (sym s) (omega arith)

pub Steps-IsBounded :
    (max : ℕ) (r r' : OutboxEntry) → Steps max r r' → IsBounded max r → IsBounded max r'
Steps-IsBounded max r r' (Steps.rests s n) h = rests-IsBounded max r r' s n h
Steps-IsBounded max r r' (Steps.moves {m = m} one more) h =
    Steps-IsBounded max m r' more (Step-IsBounded max r m one h)

pub Steps-refl : {max : ℕ} (r : OutboxEntry) → Steps max r r
Steps-refl r = Steps.rests refl refl

rests_Step :
    {max : ℕ} (r m r' : OutboxEntry)
    → m.status ≡ r.status
    → m.attempts ≡ r.attempts
    → Step max m r'
    → Step max r r'
rests_Step r m r' s n (Step.claims o t k) = Step.claims (ap is_open (sym s) ∙ o) t (k ∙ n)
rests_Step r m r' s n (Step.delivers p t k) = Step.delivers (sym s ∙ p) t (k ∙ n)
rests_Step {max} r m r' s n (Step.retries p t k b) =
    Step.retries (sym s ∙ p) t (k ∙ ap (λ i. suc i) n) (subst (λ i. suc i ≤ max) n b)
rests_Step r m r' s n (Step.gives_up p t k) = Step.gives_up (sym s ∙ p) t (k ∙ ap (λ i. suc i) n)

pub Steps-trans : {max : ℕ} (r m r' : OutboxEntry) → Steps max r m → Steps max m r' → Steps max r r'
Steps-trans r m r' (Steps.moves {m = k} one more) after =
    Steps.moves one (Steps-trans k m r' more after)
Steps-trans r m r' (Steps.rests s n) (Steps.rests t k) = Steps.rests (t ∙ s) (k ∙ n)
Steps-trans r m r' (Steps.rests s n) (Steps.moves {m = k} one more) =
    Steps.moves (rests_Step r m k s n one) more

unfoldable pub Related : (max : ℕ) → Option OutboxEntry → Option OutboxEntry → Type 0
Related max none none = Unit
Related max (some r) (some r') = Steps max r r'
Related max _ _ = ⊥

-- Every row of one table is there in the other one, some transitions further, and no other row.
unfoldable pub Tracks : (max : ℕ) → (rows rows' : List OutboxEntry) → Type 0
unfolding Related
Tracks max rows rows' = (id : String) → Related max (lookup id rows) (lookup id rows')

Related-refl : (max : ℕ) (o : Option OutboxEntry) → Related max o o
unfolding Related
Related-refl max none = tt
Related-refl max (some r) = Steps-refl r

Related-trans :
    (max : ℕ) (o p q : Option OutboxEntry) → Related max o p → Related max p q → Related max o q
unfolding Related
Related-trans max none none none h k = tt
Related-trans max (some r) (some m) (some r') h k = Steps-trans r m r' h k
Related-trans max none (some m) q h k = elim h [ ]
Related-trans max (some r) none q h k = elim h [ ]
Related-trans max none none (some r') h k = elim k [ ]
Related-trans max (some r) (some m) none h k = elim k [ ]

pub Tracks-refl : (max : ℕ) (rows : List OutboxEntry) → Tracks max rows rows
unfolding Tracks
Tracks-refl max rows id = Related-refl max (lookup id rows)

pub Tracks-trans :
    (max : ℕ) (a b c : List OutboxEntry) → Tracks max a b → Tracks max b c → Tracks max a c
unfolding Tracks
Tracks-trans max a b c h k id =
    Related-trans max (lookup id a) (lookup id b) (lookup id c) (h id) (k id)

-- A change of every row by itself, each by a transition.
pub Tracks-map :
    (max : ℕ) (f : OutboxEntry → OutboxEntry) (rows : List OutboxEntry)
    → ((r : OutboxEntry) → (f r).id ≡ r.id)
    → ((id : String) (r : OutboxEntry) → lookup id rows ≡ some r → Steps max r (f r))
    → Tracks max rows (map f rows)
unfolding Tracks Related on
Tracks-map max f rows keeps h id =
    rw (lookup-map f keeps rows id) (elim (Option-cases (lookup id rows)) [
      | inl absent ↦ rw absent tt
      | inr (r, there) ↦ rw there (h id r there)
    ])
