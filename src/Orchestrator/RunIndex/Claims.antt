-- ===== src/Orchestrator/RunIndex/Claims.antt =====
-- The review slots of the run index, under any sequence of its operations.
use sentinel_act.Prelude.{
  String, not, none, some, List, [], ◌∷◌, ◌==◌, ◌≡◌, ◌≢◌, refl, sym, subst, ap, ◌∙◌, find?, arith,
  eq_iff, eq_refl, Bool-cases, inl, inr, Option-cases,
}
use sentinel_act.Prelude.Map
use sentinel_act.Orchestrator.RunIndex.{
  RunIndex, Slots, SuspendedRun, new_index, record_run, clear, assign, current_slots, claim,
  get_claim_slots, mark_due_soon_reminder_sent,
}

-- An operation of the index that changes it.
pub data Op : Type 0 where
  recorded : (obligation_id : String) → SuspendedRun → Op
  cleared : (obligation_id : String) → Op
  reminded claimed : (obligation_id reviewer_id : String) → Op

unfoldable pub apply : RunIndex → Op → RunIndex
apply i (Op.recorded o entry) = record_run i o entry
apply i (Op.cleared o) = clear i o
apply i (Op.reminded o r) = mark_due_soon_reminder_sent i o r
apply i (Op.claimed o r) = (claim i o r).0

-- The index after the operations of a list, the first of the list first.
unfoldable pub run : RunIndex → List Op → RunIndex
unfolding apply
run i [] = i
run i (op ∷ ops) = run (apply i op) ops

-- The maker is set before the checker, and they are two persons.
unfoldable pub IsFair : Slots → Type 0
IsFair s = elim s.maker [ none ↦ s.checker ≡ none | some m ↦ s.checker ≢ some m ]

unfoldable pub IsIndependent : RunIndex → Type 0
IsIndependent i = (o : String) (s : Slots) → Map.get i.claims o ≡ some s → IsFair s

assign-IsFair : (s : Slots) (r : String) → IsFair s → IsFair (assign s r).0
unfolding assign IsFair
assign-IsFair s r h = elim (Option-cases s.maker) [
  | inl e ↦ ground arith
  | inr (m, e) ↦ ground (arith, eq_iff m r)
]

current_slots-none :
    (i : RunIndex) (o : String)
    → Map.get i.claims o ≡ none
    → current_slots i o ≡ record { maker = none; checker = none }
unfolding current_slots
current_slots-none i o e = rw (e, current_slots) refl

current_slots-some :
    (i : RunIndex) (o : String) (s : Slots) → Map.get i.claims o ≡ some s → current_slots i o ≡ s
unfolding current_slots
current_slots-some i o s e = rw (e, current_slots) refl

current_slots-IsFair : (i : RunIndex) (o : String) → IsIndependent i → IsFair (current_slots i o)
unfolding IsFair IsIndependent
current_slots-IsFair i o h = elim (Option-cases (Map.get i.claims o)) [
  | inl e ↦ subst IsFair (sym (current_slots-none i o e)) refl
  | inr (s, e) ↦ subst IsFair (sym (current_slots-some i o s e)) (h o s e)
]

claim-slots :
    (i : RunIndex) (o r : String) (s : Slots)
    → current_slots i o ≡ s
    → Map.get (claim i o r).0.claims o ≡ some (assign s r).0
unfolding claim
claim-slots i o r s e =
    rw (Map.get-set i.claims o o (assign (current_slots i o) r).0, eq_refl o, e) refl

apply-IsIndependent : (i : RunIndex) (op : Op) → IsIndependent i → IsIndependent (apply i op)
unfolding apply IsIndependent record_run clear mark_due_soon_reminder_sent claim
apply-IsIndependent i (Op.recorded o entry) h = h
apply-IsIndependent i (Op.cleared o) h = λ j s e. ground (arith, Map.get-delete i.claims o j, h j s)
apply-IsIndependent i (Op.reminded o r) h = ground arith
apply-IsIndependent i (Op.claimed o r) h = λ j s e.
    let p = assign-IsFair (current_slots i o) r (current_slots-IsFair i o h) in
    ground (arith, Map.get-set i.claims o j (assign (current_slots i o) r).0, h j s)

pub run-IsIndependent : (i : RunIndex) (ops : List Op) → IsIndependent i → IsIndependent (run i ops)
unfolding run
run-IsIndependent i [] h = h
run-IsIndependent i (op ∷ ops) h = run-IsIndependent (apply i op) ops (apply-IsIndependent i op h)

pub new_index-IsIndependent : IsIndependent new_index
unfolding new_index IsIndependent Map.get
new_index-IsIndependent o s e = cc

-- Whatever operations the index has gone through, an obligation whose two slots are taken has two
-- different persons as its maker and its checker.
pub run-distinct :
    (ops : List Op) (o m c : String)
    → get_claim_slots (run new_index ops) o ≡ some (record { maker = some m; checker = some c })
    → m ≢ c
unfolding get_claim_slots IsIndependent IsFair
run-distinct ops o m c e = λ same.
    run-IsIndependent new_index ops new_index-IsIndependent o
      (record { maker = some m; checker = some c }) e (rw same refl)

-- The index after the reviewers of a list have claimed an obligation, one after the other.
pub claim_all : RunIndex → (obligation_id : String) → List String → RunIndex
claim_all i o [] = i
claim_all i o (r ∷ rs) = claim_all (claim i o r).0 o rs

claim_all-full :
    (i : RunIndex) (o m c : String) (rs : List String)
    → Map.get i.claims o ≡ some (record { maker = some m; checker = some c })
    → Map.get (claim_all i o rs).claims o ≡ some (record { maker = some m; checker = some c })
unfolding claim_all assign
claim_all-full i o m c [] e = e
claim_all-full i o m c (r ∷ rs) e =
    let full : Slots = record { maker = some m; checker = some c } in
    claim_all-full (claim i o r).0 o m c rs (claim-slots i o r full (current_slots-some i o full e))

claim_all-made :
    (i : RunIndex) (o m : String) (rs : List String)
    → Map.get i.claims o ≡ some (record { maker = some m; checker = none })
    → Map.get (claim_all i o rs).claims o
      ≡ some (record { maker = some m; checker = find? (λ r. not (m == r)) rs })
unfolding claim_all assign
claim_all-made i o m [] e = e
claim_all-made i o m (r ∷ rs) e =
    let made : Slots = record { maker = some m; checker = none } in
    let step = claim-slots i o r made (current_slots-some i o made e) in
    elim (Bool-cases (m == r)) [
      | inl same ↦
          rw same (claim_all-made (claim i o r).0 o m rs (step ∙ ap some (rw (same, assign) refl)))
      | inr other ↦
          rw other
            (claim_all-full (claim i o r).0 o m r rs (step ∙ ap some (rw (other, assign) refl)))
    ]

-- The first who claims an unclaimed obligation is its maker, and the first after them who is not
-- the maker is its checker, whoever else claims it and however often.
pub claim_all-slots :
    (i : RunIndex) (o m : String) (rs : List String)
    → get_claim_slots i o ≡ none
    → get_claim_slots (claim_all i o (m ∷ rs)) o
      ≡ some (record { maker = some m; checker = find? (λ r. not (m == r)) rs })
unfolding get_claim_slots claim_all assign
claim_all-slots i o m rs e =
    claim_all-made (claim i o m).0 o m rs
      (claim-slots i o m (record { maker = none; checker = none }) (current_slots-none i o e))
