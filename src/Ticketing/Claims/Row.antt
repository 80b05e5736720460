-- ===== src/Ticketing/Claims/Row.antt =====
-- The claim of one row, and how the claims of a batch go on after it.
use sentinel_act.Prelude.{
  String, ℕ, true, false, Option, none, some, List, [], ◌∷◌, ◌≡◌, refl, sym, ap, ◌∙◌, any, All,
  arith, ◌==◌, eq_iff, eq_refl, Bool-cases, Option-cases, inl, inr, ok, err, Error, ◌>>=◌, subst,
}
use sentinel_act.Ticketing.{OutboxStatus, OutboxEntry}
use sentinel_act.Ticketing.Outbox.{
  Outbox, is_open, is_claimable, taken, claim_row, claim_each, set_processing,
}
use sentinel_act.Ticketing.Rows.{
  lookup, on, IsKeyed, lookup-map, lookup-id, map-IsKeyed, claimable-lookup,
}
use sentinel_act.Ticketing.Machine.{Step, Steps, Steps-refl, Tracks, Tracks-map}

taken-id : (now : ℕ) (id : String) (r : OutboxEntry) → (taken now id r).id ≡ r.id
taken-id now id r = elim (Bool-cases (is_claimable id r)) [
  | inl h ↦ simp h refl
  | inr h ↦ simp h refl
]

taken-Steps : (max now : ℕ) (id : String) (r : OutboxEntry) → Steps max r (taken now id r)
taken-Steps max now id r = elim (Bool-cases (is_claimable id r)) [
  | inl h ↦ simp h (
      Steps.moves {m = record (set_processing r) { updated_at = now }}
        (Step.claims (ground arith) refl refl) (Steps.rests refl refl))
  | inr h ↦ simp h (Steps-refl r)
]

taken_closed :
    (now : ℕ) (id : String) (r : OutboxEntry) → is_open r.status ≡ false → taken now id r ≡ r
taken_closed now id r h = ground arith

pub claim_row-Tracks :
    (max now : ℕ) (id : String) (o : Outbox) → Tracks max o.rows (claim_row now id o).1.rows
unfolding claim_row
claim_row-Tracks max now id o =
    Tracks-map max (taken now id) o.rows (taken-id now id) (λ j r e. taken-Steps max now id r)

pub claim_row-IsKeyed :
    (now : ℕ) (id : String) (o : Outbox) → IsKeyed o.rows → IsKeyed (claim_row now id o).1.rows
unfolding claim_row
claim_row-IsKeyed now id o = map-IsKeyed (taken now id) (taken-id now id) o.rows

pub claim_row-lookup :
    (now : ℕ) (id j : String) (o : Outbox)
    → lookup j (claim_row now id o).1.rows ≡ on (taken now id) (lookup j o.rows)
unfolding claim_row
claim_row-lookup now id j o = lookup-map (taken now id) (taken-id now id) o.rows j

pub claim_row-still :
    (now : ℕ) (id j : String) (o : Outbox) (r : OutboxEntry)
    → lookup j o.rows ≡ some r
    → is_open r.status ≡ false
    → lookup j (claim_row now id o).1.rows ≡ some r
unfolding on
claim_row-still now id j o r e h =
    claim_row-lookup now id j o ∙ ap (on (taken now id)) e ∙ ap some (taken_closed now id r h)

-- A row that the batch holds: the table has it as it was returned, and it is being processed.
unfoldable pub Holds : List OutboxEntry → OutboxEntry → Type 0
Holds rows r = (lookup r.id rows ≡ some r) × (r.status ≡ OutboxStatus.processing)

-- A row that could be claimed.
unfoldable pub WasOpen : List OutboxEntry → OutboxEntry → Type 0
WasOpen rows r = (s : OutboxEntry) × (lookup r.id rows ≡ some s) × (is_open s.status ≡ true)

pub claim_row-some :
    (now : ℕ) (id : String) (o : Outbox) (r : OutboxEntry)
    → IsKeyed o.rows
    → (claim_row now id o).0 ≡ some r
    → (s : OutboxEntry) × (lookup id o.rows ≡ some s)
      × (is_open s.status ≡ true)
      × (r ≡ record (set_processing s) { updated_at = now })
unfolding claim_row
claim_row-some now id o r keyed e = elim (Option-cases (lookup id o.rows)) [
  | inl absent ↦ let found = claimable-lookup o.rows id keyed in ground arith
  | inr (s, there) ↦
      let found = claimable-lookup o.rows id keyed in
      let same = lookup-id o.rows id s there in ground (arith, eq_refl s.id, eq_iff s.id id)
]

pub claim_row-Holds :
    (now : ℕ) (id : String) (o : Outbox) (r : OutboxEntry)
    → IsKeyed o.rows
    → (claim_row now id o).0 ≡ some r
    → Holds (claim_row now id o).1.rows r × WasOpen o.rows r
unfolding Holds WasOpen on
claim_row-Holds now id o r keyed e =
    let (s, there, free, made) = claim_row-some now id o r keyed e in
    let same : s.id ≡ id = lookup-id o.rows id s there in
    let here : r.id ≡ id = ap (λ t. t.id) made ∙ same in
    let now_taken : taken now id s ≡ r = ground (arith, eq_refl id) in
    (
      (
        ap (λ j. lookup j (claim_row now id o).1.rows) here
            ∙ (claim_row-lookup now id id o ∙ (ap (on (taken now id)) there ∙ ap some now_taken)),
        ap (λ t. t.status) made,
      ),
      (s, ap (λ j. lookup j o.rows) here ∙ there, free),
    )

-- A row that was open after another claim of no effect on it was so before.
pub WasOpen-before :
    (now : ℕ) (id : String) (o : Outbox) (r : OutboxEntry)
    → WasOpen (claim_row now id o).1.rows r
    → WasOpen o.rows r
unfolding WasOpen on
WasOpen-before now id o r (s, there, free) = elim (Option-cases (lookup r.id o.rows)) [
  | inl absent ↦
      let bad = sym there ∙ (claim_row-lookup now id r.id o ∙ ap (on (taken now id)) absent) in cc
  | inr (t, found) ↦ elim (Bool-cases (is_open t.status)) [
    | inl free_before ↦ (t, found, free_before)
    | inr shut ↦
        let same = sym there ∙ claim_row-still now id r.id o t found shut in
        let eq : s ≡ t = cc in (t, found, subst (λ u. is_open u.status ≡ true) eq free)
  ]
]

-- A row that is being processed is none of the rows that were open.
pub held_apart :
    (rows : List OutboxEntry) (r : OutboxEntry)
    → Holds rows r
    → (batch : List OutboxEntry) → All (WasOpen rows) batch
    → any (λ s. s.id == r.id) batch ≡ false
unfolding Holds WasOpen
held_apart rows r held [] h = refl
held_apart rows r held (s ∷ ss) ((t, there, free), h) = elim (Bool-cases (s.id == r.id)) [
  | inl same ↦
      let both = sym there ∙ (ap (λ j. lookup j rows) ((eq_iff s.id r.id).0 same) ∙ held.0) in
      let eq : t ≡ r = cc in
      let shut = ap is_open held.1 in let shut_too = ap (λ u. is_open u.status) eq in ground arith
  | inr other ↦ rw other (held_apart rows r held ss h)
]

pub claim_each-stop :
    (outage : String → Option Error) (now : ℕ) (id : String) (ids : List String) (o : Outbox)
    (e : Error)
    → outage id ≡ some e
    → claim_each outage now (id ∷ ids) o ≡ (err e, o)
unfolding claim_each
claim_each-stop outage now id ids o e h = rw (h, claim_each) refl

pub claim_each-skip :
    (outage : String → Option Error) (now : ℕ) (id : String) (ids : List String) (o : Outbox)
    → outage id ≡ none
    → (claim_row now id o).0 ≡ none
    → claim_each outage now (id ∷ ids) o ≡ claim_each outage now ids (claim_row now id o).1
unfolding claim_each
claim_each-skip outage now id ids o h k = rw (h, claim_each) (rw k refl)

pub claim_each-take :
    (outage : String → Option Error) (now : ℕ) (id : String) (ids : List String) (o : Outbox)
    (r : OutboxEntry)
    → outage id ≡ none
    → (claim_row now id o).0 ≡ some r
    → claim_each outage now (id ∷ ids) o ≡ (
      (claim_each outage now ids (claim_row now id o).1).0 >>= λ rs. ok (r ∷ rs),
      (claim_each outage now ids (claim_row now id o).1).1,
    )
unfolding claim_each
claim_each-take outage now id ids o r h k = rw (h, claim_each) (rw k refl)

pub claim_row-mappings :
    (now : ℕ) (id : String) (o : Outbox) → (claim_row now id o).1.mappings ≡ o.mappings
unfolding claim_row
claim_row-mappings now id o = refl
