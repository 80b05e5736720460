-- ===== src/Ticketing/Drains/Takes.antt =====
-- Every row that is due is in the batch, if the batch has room for all rows.
use sentinel_act.Prelude.{
  String, ℕ, ◌≤◌, Bool, true, false, ◌&&◌, ◌||◌, Option, none, some, List, [], ◌∷◌, ◌≡◌, refl, sym,
  ap, ◌∙◌, map, filter, take, any, length, arith, ◌==◌, eq_iff, eq_refl, eqb, Bool-cases,
  Option-cases, inl, inr, ok, Error, take-all, length-filter, suc,
}
use sentinel_act.Ticketing.{OutboxEntry}
use sentinel_act.Ticketing.Outbox.{
  Outbox, is_open, is_due, taken, claim_row, claim_each, by_age, insert_by_age, candidates,
}
use sentinel_act.Ticketing.Rows.{lookup, on, IsKeyed, claimable-lookup, lookup-id}
use sentinel_act.Ticketing.Claims.{
  claim_row-lookup, claim_row-IsKeyed, claim_each-skip, claim_each-take,
}

module _ (p : OutboxEntry → Bool) where
  any-insert_by_age :
      (x : OutboxEntry) (ys : List OutboxEntry) → any p (insert_by_age x ys) ≡ (p x || any p ys)
  any-insert_by_age x [] = refl
  any-insert_by_age x (y ∷ ys) = ground (arith, any-insert_by_age x ys)

  any-by_age : (xs : List OutboxEntry) → any p (by_age xs) ≡ any p xs
  unfolding by_age
  any-by_age [] = refl
  any-by_age (x ∷ xs) = any-insert_by_age x (by_age xs) ∙ rw (any-by_age xs) refl

length-insert_by_age :
    (x : OutboxEntry) (ys : List OutboxEntry) → length (insert_by_age x ys) ≡ suc (length ys)
length-insert_by_age x [] = refl
length-insert_by_age x (y ∷ ys) = ground (arith, length-insert_by_age x ys)

length-by_age : (xs : List OutboxEntry) → length (by_age xs) ≡ length xs
unfolding by_age
length-by_age [] = refl
length-by_age (x ∷ xs) = length-insert_by_age x (by_age xs) ∙ ap (λ n. suc n) (length-by_age xs)

any-filter_due :
    (now : ℕ) (id : String) (rows : List OutboxEntry) (r : OutboxEntry)
    → lookup id rows ≡ some r
    → is_due now r ≡ true
    → any (λ s. s.id == id) (filter (is_due now) rows) ≡ true
unfolding lookup
any-filter_due now id [] r e due = cc
any-filter_due now id (s ∷ rs) r e due = ground (arith, any-filter_due now id rs r)

any-map_ids :
    (id : String) (rows : List OutboxEntry)
    → any (λ j. j == id) (map (λ r. r.id) rows) ≡ any (λ r. r.id == id) rows
any-map_ids id [] = refl
any-map_ids id (r ∷ rs) = rw (any-map_ids id rs) refl

pub candidates-any :
    (limit now : ℕ) (id : String) (o : Outbox) (r : OutboxEntry)
    → lookup id o.rows ≡ some r
    → is_due now r ≡ true
    → length o.rows ≤ limit
    → any (λ j. j == id) (candidates limit now o) ≡ true
unfolding candidates
candidates-any limit now id o r there due room =
    let due_rows = filter (is_due now) o.rows in
    let fits : length (by_age due_rows) ≤ limit =
      omega (arith, length-by_age due_rows, length-filter (is_due now) o.rows) in
    any-map_ids id (take limit (by_age due_rows))
    ∙ (ap (λ rs. any (λ s. s.id == id) rs) (take-all limit (by_age due_rows) fits)
        ∙ (any-by_age (λ s. s.id == id) due_rows ∙ any-filter_due now id o.rows r there due))

-- A row of the batch that stands for a row of the table.
abbrev pub stands_for : (id : String) → OutboxEntry → OutboxEntry → Bool
stands_for id r s = s.id == id && eqb s.attempts r.attempts

claim_row-other :
    (now : ℕ) (id j : String) (o : Outbox) (r : OutboxEntry)
    → (id == j) ≡ false
    → lookup j o.rows ≡ some r
    → lookup j (claim_row now id o).1.rows ≡ some r
unfolding on
claim_row-other now id j o r other there =
    let own = lookup-id o.rows j r there in
    let apart : taken now id r ≡ r = ground (arith, eq_iff r.id id, eq_iff id j) in
    claim_row-lookup now id j o ∙ (ap (on (taken now id)) there ∙ ap some apart)

claim_row-takes :
    (now : ℕ) (id : String) (o : Outbox) (r : OutboxEntry)
    → IsKeyed o.rows
    → lookup id o.rows ≡ some r
    → is_open r.status ≡ true
    → (s : OutboxEntry) × ((claim_row now id o).0 ≡ some s) × (stands_for id r s ≡ true)
unfolding claim_row
claim_row-takes now id o r keyed there free =
    let found = claimable-lookup o.rows id keyed in
    let own = lookup-id o.rows id r there in
    (taken now id r, ground arith, ground (arith, eq_iff r.id id, eq_refl id))

-- With a database that answers, a claim answers, and it goes on behind each row.
claim_each-answers :
    (outage : String → Option Error) (now : ℕ) (ids : List String) (o : Outbox)
    → ((j : String) → outage j ≡ none)
    → (batch : List OutboxEntry) × ((claim_each outage now ids o).0 ≡ ok batch)
unfolding claim_each
claim_each-answers outage now [] o up = ([], refl)
claim_each-answers outage now (j ∷ js) o up =
    let (rest, e) = claim_each-answers outage now js (claim_row now j o).1 up in
    elim (Option-cases (claim_row now j o).0) [
      | inl lost ↦ (rest, ap (λ d. d.0) (claim_each-skip outage now j js o (up j) lost) ∙ e)
      | inr (s, got) ↦
          (s ∷ rest, ap (λ d. d.0) (claim_each-take outage now j js o s (up j) got) ∙ rw e refl)
    ]

pub claim_each-takes :
    (outage : String → Option Error) (now : ℕ) (ids : List String) (id : String) (o : Outbox)
    (r : OutboxEntry)
    → ((j : String) → outage j ≡ none)
    → IsKeyed o.rows
    → any (λ j. j == id) ids ≡ true
    → lookup id o.rows ≡ some r
    → is_open r.status ≡ true
    → (batch : List OutboxEntry) × ((claim_each outage now ids o).0 ≡ ok batch)
      × (any (stands_for id r) batch ≡ true)
claim_each-takes outage now [] id o r up keyed listed there free = cc
claim_each-takes outage now (j ∷ js) id o r up keyed listed there free =
    elim (Bool-cases (j == id)) [
      | inl own ↦
          let same : id ≡ j = sym ((eq_iff j id).0 own) in
          let (s, got, stands) = claim_row-takes now id o r keyed there free in
          let got_j : (claim_row now j o).0 ≡ some s =
            ap (λ i. (claim_row now i o).0) (sym same) ∙ got in
          let (rest, e) = claim_each-answers outage now js (claim_row now j o).1 up in
          (
            s ∷ rest,
            ap (λ d. d.0) (claim_each-take outage now j js o s (up j) got_j) ∙ rw e refl,
            ground arith,
          )
      | inr other ↦
          let (rest, e, stands) =
            claim_each-takes outage now js id (claim_row now j o).1 r up
              (claim_row-IsKeyed now j o keyed) (ground arith)
              (claim_row-other now j id o r other there) free in
          elim (Option-cases (claim_row now j o).0) [
            | inl lost ↦
                (rest, ap (λ d. d.0) (claim_each-skip outage now j js o (up j) lost) ∙ e, stands)
            | inr (s, got) ↦ (
              s ∷ rest,
              ap (λ d. d.0) (claim_each-take outage now j js o s (up j) got) ∙ rw e refl,
              ground arith,
            )
          ]
    ]
