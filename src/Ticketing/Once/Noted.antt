-- ===== src/Ticketing/Once/Noted.antt =====
-- Tickets that are noted under their tasks, no two under one.
use sentinel_act.Prelude.{
  String, ℕ, Bool, true, false, none, List, [], ◌∷◌, ◌++◌, ◌≡◌, refl, sym, ap, ◌∙◌, any, find?, All,
  All-map, All-append, arith, ◌==◌, eq_iff, Bool-cases, inl, inr, any-append, any-append_left,
}
use sentinel_act.Ticketing.{CreateTicketRequest, TicketMapping}
use sentinel_act.Ticketing.Outbox.{Outbox, find_mapping, insert_mapping}

abbrev pub has_mapping : List TicketMapping → (task_id : String) → Bool
has_mapping ms t = any (λ m. m.task_id == t) ms

-- No two tickets were opened under one key.
unfoldable pub Apart : List CreateTicketRequest → Type 0
Apart [] = Unit
Apart (q ∷ qs) = (any (λ p. p.dedupe_key == q.dedupe_key) qs ≡ false) × Apart qs

-- Every ticket of the external system is noted under its task, and no task has two.
pub record IsServedOnce (mappings : List TicketMapping) (tickets : List CreateTicketRequest)
    : Type 0 where
  pub noted : All (λ q. has_mapping mappings q.dedupe_key ≡ true) tickets
  pub apart : Apart tickets

Apart-snoc :
    (qs : List CreateTicketRequest) (q : CreateTicketRequest)
    → any (λ p. p.dedupe_key == q.dedupe_key) qs ≡ false
    → Apart qs
    → Apart (qs ++ q ∷ [])
unfolding Apart
Apart-snoc [] q new h = (refl, tt)
Apart-snoc (p ∷ qs) q new h =
    let split = any-append (λ s. s.dedupe_key == p.dedupe_key) qs (q ∷ []) in
    (
      ground (arith, eq_iff p.dedupe_key q.dedupe_key, eq_iff q.dedupe_key p.dedupe_key),
      Apart-snoc qs q (ground arith) h.1,
    )

noted_apart :
    (ms : List TicketMapping) (key : String) (qs : List CreateTicketRequest)
    → has_mapping ms key ≡ false
    → All (λ q. has_mapping ms q.dedupe_key ≡ true) qs
    → any (λ p. p.dedupe_key == key) qs ≡ false
noted_apart ms key [] new h = refl
noted_apart ms key (q ∷ qs) new h = elim (Bool-cases (q.dedupe_key == key)) [
  | inl same ↦
      let known = ap (has_mapping ms) (sym ((eq_iff q.dedupe_key key).0 same)) in ground arith
  | inr other ↦ rw other (noted_apart ms key qs new h.1)
]

-- One more note.
pub more-IsServedOnce :
    (ms : List TicketMapping) (qs : List CreateTicketRequest) (m : TicketMapping)
    → IsServedOnce ms qs
    → IsServedOnce (ms ++ m ∷ []) qs
more-IsServedOnce ms qs m h = record {
  noted =
      All-map (λ p. has_mapping ms p.dedupe_key ≡ true)
        (λ p. has_mapping (ms ++ m ∷ []) p.dedupe_key ≡ true)
        (λ p e. any-append_left (λ n. n.task_id == p.dedupe_key) ms (m ∷ []) e) qs h.noted;
  apart = h.apart;
}

-- A ticket for a task that had none, noted.
pub opened-IsServedOnce :
    (ms : List TicketMapping) (qs : List CreateTicketRequest) (m : TicketMapping)
    (q : CreateTicketRequest)
    → has_mapping ms m.task_id ≡ false
    → q.dedupe_key ≡ m.task_id
    → IsServedOnce ms qs
    → IsServedOnce (ms ++ m ∷ []) (qs ++ q ∷ [])
opened-IsServedOnce ms qs m q new key h = record {
  noted =
      All-append (λ p. has_mapping (ms ++ m ∷ []) p.dedupe_key ≡ true) qs (q ∷ [])
        (more-IsServedOnce ms qs m h).noted
        (
          any-append (λ n. n.task_id == q.dedupe_key) ms (m ∷ [])
              ∙ ground (arith, eq_iff m.task_id q.dedupe_key),
          tt,
        );
  apart =
      Apart-snoc qs q
        (ap (λ k. any (λ p. p.dedupe_key == k) qs) key ∙ noted_apart ms m.task_id qs new h.noted)
        h.apart;
}

pub find_mapping-none :
    (t : String) (o : Outbox) → find_mapping t o ≡ none → has_mapping o.mappings t ≡ false
unfolding find_mapping
find_mapping-none t o h = absent o.mappings h
  where
    absent :
        (ms : List TicketMapping) → find? (λ m. m.task_id == t) ms ≡ none → has_mapping ms t ≡ false
    absent [] e = refl
    absent (m ∷ ms) e = ground (arith, absent ms)

pub insert_mapping-new :
    (now : ℕ) (m : TicketMapping) (o : Outbox)
    → has_mapping o.mappings m.task_id ≡ false
    → (insert_mapping now m o).1.mappings ≡ o.mappings ++ record m { created_at = now } ∷ []
unfolding insert_mapping
insert_mapping-new now m o h = rw (h, insert_mapping) refl
