-- ===== src/Prelude/Results.antt =====
-- Errors of the program as values: one constructor for each class of error that the code throws
-- and tells apart, `cause` chains included.
use Prim.Native.Nat.{ℕ}
use Prim.Native.String.{String}
use mathlib.Core.Path.{◌≡◌, refl}
use mathlib.Core.Bool.{Bool, true, false}
use mathlib.Core.Logic.{◌⊎◌, inl, inr}
use mathlib.Core.Option.{Option, none, some}

pub data Error : Type 0 where
  -- packages/graph-db/src/errors.ts
  conflict_error validation_error : Error
  commit_error : Error → Error
  -- a uniqueness constraint of the database refused a node
  constraint_error : Error
  -- an edge whose endpoints the database does not hold
  endpoints_not_found : Error
  -- apps/orchestrator/src/mastra/agents/monitoring-and-audit.errors.ts
  invalid_field : String → Error
  same_reviewer_not_allowed review_already_complete monitoring_audit_invariant : Error
  -- apps/orchestrator/src/mastra/workflows/orchestrator.errors.ts
  resume_validation reviewer_independence not_assigned service_auth : Error
  -- packages/audit-ledger/src/errors.ts
  ledger_append_error : Error → Error
  -- packages/ticketing-adapter/src/errors.ts
  ticketing_unavailable : Error
  ticketing_validation : String → Error
  adapter_call_error : (is_permanent : Bool) → Error
  -- an error that a port of the outside raised
  outside : ℕ → Error

-- What a call that may throw gives: its value, or the error that it throws.
pub data Result {ℓ} (A : Type ℓ) : Type ℓ where
  err : Error → Result A
  ok : A → Result A

pub Result-cases {ℓ} :
    {A : Type ℓ} (r : Result A) → ((a : A) × (r ≡ ok a)) ⊎ ((e : Error) × (r ≡ err e))
Result-cases (err thrown) = inr (thrown, refl)
Result-cases (ok value) = inl (value, refl)

-- `if (!b) throw thrown`
abbrev pub guard : (b : Bool) (thrown : Error) → Result (Unit {0})
guard b thrown = elim b [ false ↦ err thrown | true ↦ ok tt ]

-- `if (o === null) throw thrown`
abbrev pub or_throw {ℓ} : {A : Type ℓ} → Option A → Error → Result A
or_throw (some value) thrown = ok value
or_throw none thrown = err thrown

-- One call after another: a throw ends both.
infixl 5 ◌>>=◌ ◌>>◌
abbrev pub ◌>>=◌ {ℓ κ} :
    {First : Type ℓ} {Then : Type κ} → Result First → (First → Result Then) → Result Then
err thrown >>= continue = err thrown
ok value >>= continue = continue value

abbrev pub ◌>>◌ {ℓ κ} : {First : Type ℓ} {Then : Type κ} → Result First → Result Then → Result Then
earlier >> later = earlier >>= λ _. later

pub guard-ok : (b : Bool) (thrown : Error) → guard b thrown ≡ ok tt → b ≡ true
guard-ok true thrown h = refl
guard-ok false thrown h = cc

pub second-ok {ℓ} :
    {First Then : Type ℓ} (earlier : Result First) (later : Result Then) (b : Then)
    → (earlier >> later) ≡ ok b
    → later ≡ ok b
second-ok (err thrown) later b h = cc
second-ok (ok value) later b h = h
