-- ===== src/Ticketing/Rows.antt =====
-- The row of an identifier, before and after the statements of the outbox.
use sentinel_act.Prelude.{
  String, false, Option, none, some, List, [], ◌∷◌, ◌==◌, ◌≡◌, refl, sym, ap, ◌∙◌, find?, map, any,
  arith, eq_iff, if◌then◌else◌, Bool-cases, inl, inr,
}
use sentinel_act.Ticketing.{OutboxEntry}
use sentinel_act.Ticketing.Outbox.{is_open, is_claimable}

unfoldable pub lookup : (id : String) → List OutboxEntry → Option OutboxEntry
lookup id rows = find? (λ r. r.id == id) rows

-- `r?.f`
unfoldable pub on : (OutboxEntry → OutboxEntry) → Option OutboxEntry → Option OutboxEntry
on f none = none
on f (some r) = some (f r)

-- No two rows have one identifier, which the primary key sees to.
unfoldable pub IsKeyed : List OutboxEntry → Type 0
IsKeyed [] = Unit
IsKeyed (r ∷ rs) = (any (λ s. s.id == r.id) rs ≡ false) × IsKeyed rs

pub lookup-map :
    (f : OutboxEntry → OutboxEntry)
    → ((r : OutboxEntry) → (f r).id ≡ r.id)
    → (rows : List OutboxEntry) (id : String) → lookup id (map f rows) ≡ on f (lookup id rows)
unfolding lookup on
lookup-map f keeps [] id = refl
lookup-map f keeps (r ∷ rs) id = elim (Bool-cases (r.id == id)) [
  | inl same ↦ simp (keeps r, same) refl
  | inr other ↦ simp (keeps r, other) (lookup-map f keeps rs id)
]

pub lookup-id :
    (rows : List OutboxEntry) (id : String) (r : OutboxEntry) → lookup id rows ≡ some r → r.id ≡ id
unfolding lookup
lookup-id [] id r e = cc
lookup-id (s ∷ rs) id r e = ground (arith, eq_iff s.id id, lookup-id rs id r)

any-map_id :
    (f : OutboxEntry → OutboxEntry)
    → ((r : OutboxEntry) → (f r).id ≡ r.id)
    → (rows : List OutboxEntry) (id : String)
    → any (λ r. r.id == id) (map f rows) ≡ any (λ r. r.id == id) rows
any-map_id f keeps [] id = refl
any-map_id f keeps (r ∷ rs) id = rw (keeps r, any-map_id f keeps rs id) refl

pub map-IsKeyed :
    (f : OutboxEntry → OutboxEntry)
    → ((r : OutboxEntry) → (f r).id ≡ r.id)
    → (rows : List OutboxEntry) → IsKeyed rows
    → IsKeyed (map f rows)
unfolding IsKeyed
map-IsKeyed f keeps [] h = tt
map-IsKeyed f keeps (r ∷ rs) h =
    (rw (keeps r) (any-map_id f keeps rs r.id ∙ h.0), map-IsKeyed f keeps rs h.1)

claimable-absent :
    (rows : List OutboxEntry) (id : String)
    → any (λ r. r.id == id) rows ≡ false
    → find? (is_claimable id) rows ≡ none
claimable-absent [] id h = refl
claimable-absent (r ∷ rs) id h = ground (arith, claimable-absent rs id)

-- With a primary key, the row that a claim takes is the row of the identifier.
pub claimable-lookup :
    (rows : List OutboxEntry) (id : String)
    → IsKeyed rows
    → find? (is_claimable id) rows
      ≡ elim (lookup id rows) [ none ↦ none | some r ↦ if is_open r.status then some r else none ]
unfolding IsKeyed lookup
claimable-lookup [] id h = refl
claimable-lookup (r ∷ rs) id h = elim (Bool-cases (r.id == id)) [
  | inl same ↦
      let absent =
        claimable-absent rs id
          (ap (λ i. any (λ s. s.id == i) rs) (sym ((eq_iff r.id id).0 same)) ∙ h.0) in
      rw (same, absent) refl
  | inr other ↦ rw other (claimable-lookup rs id h.1)
]
