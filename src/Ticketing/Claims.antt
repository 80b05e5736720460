-- ===== src/Ticketing/Claims.antt =====
-- The claim of a batch: which rows it takes, and in which state.
use sentinel_act.Prelude.{
  String, ℕ, true, false, Option, none, some, List, [], ◌∷◌, ◌≡◌, refl, sym, ap, ◌∙◌, any, All,
  All-map, arith, ◌==◌, eq_iff, eq_refl, Bool-cases, Option-cases, inl, inr, Result, ok, err, Error,
  ◌>>=◌, subst,
}
use sentinel_act.Ticketing.{OutboxStatus, OutboxEntry}
use sentinel_act.Ticketing.Outbox.{
  Outbox, is_open, is_claimable, taken, claim_row, claim_each, claim_batch, candidates,
  set_processing,
}
use sentinel_act.Ticketing.Rows.{
  lookup, on, IsKeyed, lookup-map, lookup-id, map-IsKeyed, claimable-lookup,
}
use sentinel_act.Ticketing.Machine.{
  Step, Steps, Steps-refl, Tracks, Tracks-refl, Tracks-trans, Tracks-map,
}
mod Row
unfoldable pub use Row.*

unfoldable pub Returned : (List OutboxEntry → Type 0) → Result (List OutboxEntry) → Type 0
Returned P (err e) = Unit
Returned P (ok rows) = P rows

-- What is known of a claim, from the table before, the result, and the table after.
pub record IsClaim (max : ℕ) (o : Outbox) (done : Result (List OutboxEntry) × Outbox) : Type 0 where
  pub tracks : Tracks max o.rows done.1.rows
  pub keyed : IsKeyed done.1.rows
  pub mappings : done.1.mappings ≡ o.mappings
  pub still :
      (j : String) (r : OutboxEntry)
      → lookup j o.rows ≡ some r
      → is_open r.status ≡ false
      → lookup j done.1.rows ≡ some r
  pub holds : Returned (All (Holds done.1.rows)) done.0
  pub were_open : Returned (All (WasOpen o.rows)) done.0
  pub distinct : Returned IsKeyed done.0

-- Nothing was claimed.
idle :
    (max : ℕ) (o : Outbox) (r : Result (List OutboxEntry))
    → IsKeyed o.rows
    → Returned (All (Holds o.rows)) r
    → Returned (All (WasOpen o.rows)) r
    → Returned IsKeyed r
    → IsClaim max o (r, o)
idle max o r keyed a b c = record {
  tracks = Tracks-refl max o.rows;
  keyed = keyed;
  mappings = refl;
  still = λ j r e k. e;
  holds = a;
  were_open = b;
  distinct = c;
}

Returned-map :
    (P Q : List OutboxEntry → Type 0)
    → ((rows : List OutboxEntry) → P rows → Q rows)
    → (r : Result (List OutboxEntry)) → Returned P r
    → Returned Q r
unfolding Returned
Returned-map P Q f (err e) h = tt
Returned-map P Q f (ok rows) h = f rows h

-- A claim after the claim of one row.
after_row :
    (max now : ℕ) (id : String) (o : Outbox) (done : Result (List OutboxEntry) × Outbox)
    → IsClaim max (claim_row now id o).1 done
    → IsClaim max o done
after_row max now id o done c = record {
  tracks =
      Tracks-trans max o.rows (claim_row now id o).1.rows done.1.rows
        (claim_row-Tracks max now id o) c.tracks;
  keyed = c.keyed;
  mappings = c.mappings ∙ claim_row-mappings now id o;
  still = λ j r e k. c.still j r (claim_row-still now id j o r e k) k;
  holds = c.holds;
  were_open =
      Returned-map (All (WasOpen (claim_row now id o).1.rows)) (All (WasOpen o.rows))
        (λ rows h.
          All-map (WasOpen (claim_row now id o).1.rows) (WasOpen o.rows)
            (λ r. WasOpen-before now id o r) rows h)
        done.0 c.were_open;
  distinct = c.distinct;
}

abbrev cons : OutboxEntry → Result (List OutboxEntry) → Result (List OutboxEntry)
cons r rest = rest >>= λ rs. ok (r ∷ rs)

-- The claimed row in front of the others.
with_row :
    (max now : ℕ) (id : String) (o : Outbox) (r : OutboxEntry) (rest : Result (List OutboxEntry))
    (o' : Outbox)
    → IsKeyed o.rows
    → (claim_row now id o).0 ≡ some r
    → IsClaim max (claim_row now id o).1 (rest, o')
    → IsClaim max o (cons r rest, o')
unfolding Returned Holds IsKeyed
with_row max now id o r (err e) o' keyed got c = after_row max now id o (err e, o') c
with_row max now id o r (ok rs) o' keyed got c =
    let whole = after_row max now id o (ok rs, o') c in
    let (held, open_before) = claim_row-Holds now id o r keyed got in
    record {
      tracks = whole.tracks;
      keyed = whole.keyed;
      mappings = whole.mappings;
      still = whole.still;
      holds = ((c.still r.id r held.0 (ap is_open held.1), held.1), c.holds);
      were_open = (open_before, whole.were_open);
      distinct = (held_apart (claim_row now id o).1.rows r held rs c.were_open, c.distinct);
    }

pub claim_each-IsClaim :
    (max : ℕ) (outage : String → Option Error) (now : ℕ) (ids : List String) (o : Outbox)
    → IsKeyed o.rows
    → IsClaim max o (claim_each outage now ids o)
unfolding claim_each Returned IsKeyed
claim_each-IsClaim max outage now [] o keyed = idle max o (ok []) keyed tt tt tt
claim_each-IsClaim max outage now (id ∷ ids) o keyed =
    let rest =
      claim_each-IsClaim max outage now ids (claim_row now id o).1
        (claim_row-IsKeyed now id o keyed) in
    elim (Option-cases (outage id)) [
      | inr (e, down) ↦
          subst (IsClaim max o) (sym (claim_each-stop outage now id ids o e down))
            (idle max o (err e) keyed tt tt tt)
      | inl up ↦ elim (Option-cases (claim_row now id o).0) [
        | inl lost ↦
            subst (IsClaim max o) (sym (claim_each-skip outage now id ids o up lost))
              (after_row max now id o (claim_each outage now ids (claim_row now id o).1) rest)
        | inr (r, got) ↦
            subst (IsClaim max o) (sym (claim_each-take outage now id ids o r up got)) (
              with_row max now id o r (claim_each outage now ids (claim_row now id o).1).0
                (claim_each outage now ids (claim_row now id o).1).1 keyed got rest)
      ]
    ]

pub claim_batch-IsClaim :
    (max : ℕ) (selecting : Option Error) (claiming : String → Option Error) (limit clock now : ℕ)
    (o : Outbox)
    → IsKeyed o.rows
    → IsClaim max o (claim_batch selecting claiming limit clock now o)
unfolding claim_batch Returned
claim_batch-IsClaim max (some e) claiming limit clock now o keyed =
    idle max o (err e) keyed tt tt tt
claim_batch-IsClaim max none claiming limit clock now o keyed =
    claim_each-IsClaim max claiming clock (candidates limit now o) o keyed
