-- ===== src/Orchestrator/Gates.antt =====
-- What a reviewer is shown of a review gate, from the graph's reviews
-- (`getReviewsVisibleTo` and `deriveReviewGateView`).
use sentinel_act.Prelude.{
  String, ◌≤◌, true, some, List, [], ◌∷◌, map, any, ◌==◌, length, ◌≡◌, arith, if◌then◌else◌,
  Bool-cases, inl, inr,
}
use sentinel_act.Schema.{HumanReview, Recorded}
use sentinel_act.Router.{Tier}
use sentinel_act.Graph.Store.{Graph}
use sentinel_act.Ledger.{Host}
use sentinel_act.Monitoring.{existing_reviews, get_reviews_visible_to}
use sentinel_act.Orchestrator.RunIndex.{ReviewGateView, derive_review_gate_view, is_tier_b}

abbrev pub gate_inputs : List (Recorded HumanReview) → List HumanReview
gate_inputs rs = map (λ r. r.input) rs

-- The reviews of a gate as they are stored.
unfoldable pub gate_view :
    {N : Type 0}
    → Host
    → Graph N
    → (obligation_id : String) → Tier
    → (reviewer_id : String) → ReviewGateView
unfolding get_reviews_visible_to derive_review_gate_view
gate_view H g o tier reviewer =
    derive_review_gate_view o tier (gate_inputs (get_reviews_visible_to H g o reviewer))

any-input :
    (reviewer : String) (rs : List (Recorded HumanReview))
    → any (λ r. r.input.reviewer_id == reviewer) rs
      ≡ any (λ r. r.reviewer_id == reviewer) (gate_inputs rs)
any-input reviewer [] = ground arith
any-input reviewer (r ∷ rs) = rw (any-input reviewer rs) (ground arith)

-- A gate reveals reviews only to a reviewer who is among their authors, it reveals all of the
-- obligation's reviews then, and they are at least two unless the tier is "B".
pub gate_view-reveal :
    {N : Type 0} (H : Host) (g : Graph N) (o : String) (tier : Tier) (reviewer : String)
    (shown : List HumanReview)
    → (gate_view H g o tier reviewer).reveal ≡ some shown
    → (any (λ r. r.reviewer_id == reviewer) shown ≡ true)
      × (shown ≡ gate_inputs (existing_reviews H g o))
      × ((if is_tier_b tier then 1 else 2) ≤ length shown)
unfolding gate_view get_reviews_visible_to derive_review_gate_view
gate_view-reveal H g o tier reviewer shown h =
    let rs = existing_reviews H g o in
    elim (Bool-cases (any (λ r. r.input.reviewer_id == reviewer) rs)) [
      | inl own ↦ ground (arith, any-input reviewer rs)
      | inr other ↦ ground arith
    ]
