-- ===== src/Monitoring/Replay.antt =====
-- What a caller of `recordHumanReview` can rely on: a failed call, a repeated call, the ledger's
-- chain.
use sentinel_act.Prelude.{
  String, ℕ, ◌<◌, Bool, true, false, none, some, List, [], ◌∷◌, ◌++◌, ◌≡◌, refl, ap, sym, ◌∙◌,
  subst, arith, ok, err, Error, filter, find?, length, take-all, length-append, find?-append_none,
  eq_refl, ==-false, ◌==◌, is_blank,
}
use sentinel_act.Float.{Float}
use sentinel_act.Schema.{ReviewDecision, HumanReview, Recorded}
use sentinel_act.Ledger.{Host, Ledger, LedgerEntry, next_entry, selects, query, get_member}
use sentinel_act.Ledger.Chain.{IsChain, next_entry-IsChain}
use sentinel_act.Monitoring.{
  HumanReviewSubmittedEvent, Stores, Surroundings, ReviewOutcome, validate_event,
}
use sentinel_act.Monitoring.Review.{
  RecordHumanReviewResult, record_human_review, prior_match, entry_result, submissions_query,
  is_event, review_input, review_payload,
}
use sentinel_act.Monitoring.Effects.{Ending, Course, record_human_review-Course}

filter-snoc :
    {A : Type 0} (p : A → Bool) (xs : List A) (x : A)
    → p x ≡ true
    → filter p (xs ++ x ∷ []) ≡ filter p xs ++ x ∷ []
filter-snoc p [] x h = rw h refl
filter-snoc p (y ∷ ys) x h = ground (arith, filter-snoc p ys x h)

validate_event-obligation :
    (ev : HumanReviewSubmittedEvent) (d : ReviewDecision)
    → validate_event ev ≡ ok d
    → (ev.obligation_id == "") ≡ false
unfolding validate_event is_blank
validate_event-obligation ev d h =
    ==-false ev.obligation_id ""
      (λ e. let blank : is_blank ev.obligation_id ≡ true = rw e refl in ground (arith, blank))

module _ (H : Host) where
  -- The number of the entries that the search for an earlier submission may meet.
  unfoldable pub submissions : Ledger → HumanReviewSubmittedEvent → ℕ
  submissions ledger ev = length (filter (selects H (submissions_query ev.obligation_id)) ledger)

  entry-selects :
      (ledger : Ledger) (t : String) (ev : HumanReviewSubmittedEvent) (review_id : String)
      (r : Recorded HumanReview) (o : ReviewOutcome) (all : List (Recorded HumanReview))
      → (ev.obligation_id == "") ≡ false
      → let e = next_entry H ledger t (review_input ev review_id (review_payload ev r o all)) in
        (selects H (submissions_query ev.obligation_id) e ≡ true) × (is_event ev.event_id e ≡ true)
  unfolding selects next_entry review_payload get_member
  entry-selects ledger t ev review_id r o all h =
      (rw h (rw (eq_refl ev.obligation_id) refl), eq_refl ev.event_id)

  prior_match-snoc :
      (ledger : Ledger) (ev : HumanReviewSubmittedEvent) (e : LedgerEntry)
      → submissions ledger ev < 1000
      → selects H (submissions_query ev.obligation_id) e ≡ true
      → is_event ev.event_id e ≡ true
      → prior_match H ledger ev ≡ none
      → prior_match H (ledger ++ e ∷ []) ev ≡ some e
  unfolding prior_match query submissions
  prior_match-snoc ledger ev e few sel here new =
      let hits = filter (selects H (submissions_query ev.obligation_id)) ledger in
      let whole = take-all 1000 (hits ++ e ∷ []) (omega (arith, length-append hits (e ∷ []))) in
      rw (filter-snoc (selects H (submissions_query ev.obligation_id)) ledger e sel, whole)
        (find?-append_none (is_event ev.event_id) hits (e ∷ []) (
            subst (λ es. find? (is_event ev.event_id) es ≡ none) (take-all 1000 hits (omega arith))
              new)
          ∙ rw here refl)

module _ (F : Float) (H : Host) where
  -- After a call that fails the ledger is as it was, and so is the graph, unless the review was
  -- committed and the first attempt to append its entry failed.
  pub record_human_review-err :
      (is_date_time : String → Bool) (ev : HumanReviewSubmittedEvent) (at : Surroundings)
      (s : Stores F.Number) (e : Error)
      → (record_human_review F H is_date_time ev at s).0 ≡ err e
      → ((record_human_review F H is_date_time ev at s).1.ledger ≡ s.ledger)
        × (at.append_outage 1 ≡ none → (record_human_review F H is_date_time ev at s).1 ≡ s)
  record_human_review-err is_date_time ev at s e h =
      elim (record_human_review-Course F H is_date_time ev at s) [
        | Course.refused x same ↦ (ap (λ p. p.1.ledger) same, λ up. ap (λ p. p.1) same)
        | Course.replayed d entry good there same ↦ let absurd = sym h ∙ ap (λ p. p.0) same in cc
        | Course.reviewed d good new ending ↦ elim ending [
          | Ending.refused x same ↦ (ap (λ p. p.1.ledger) same, λ up. ap (λ p. p.1) same)
          | Ending.lagging x g same down ↦ (ap (λ p. p.1.ledger) same, λ up. elim (down up) [ ])
          | Ending.recorded g r o all id entry same made ↦
              let absurd = sym h ∙ ap (λ p. p.0) same in cc
        ]
      ]

  -- If the chain of the ledger is in order, every call leaves it in order, however the call ends.
  pub record_human_review-IsChain :
      (is_date_time : String → Bool) (ev : HumanReviewSubmittedEvent) (at : Surroundings)
      (s : Stores F.Number)
      → IsChain H s.ledger
      → IsChain H (record_human_review F H is_date_time ev at s).1.ledger
  record_human_review-IsChain is_date_time ev at s h =
      let after = (record_human_review F H is_date_time ev at s).1.ledger in
      let keep : (after ≡ s.ledger → IsChain H after) = λ same. subst (IsChain H) (sym same) h in
      elim (record_human_review-Course F H is_date_time ev at s) [
        | Course.refused x same ↦ keep (ap (λ p. p.1.ledger) same)
        | Course.replayed d entry good there same ↦ keep (ap (λ p. p.1.ledger) same)
        | Course.reviewed d good new ending ↦ elim ending [
          | Ending.refused x same ↦ keep (ap (λ p. p.1.ledger) same)
          | Ending.lagging x g same down ↦ keep (ap (λ p. p.1.ledger) same)
          | Ending.recorded g r o all id entry same made ↦
              subst (IsChain H)
                (ap (λ e. s.ledger ++ e ∷ []) (sym made) ∙ sym (ap (λ p. p.1.ledger) same))
                (next_entry-IsChain H s.ledger at.now
                  (review_input ev id (review_payload ev r o all)) h)
        ]
      ]

  replays :
      (is_date_time : String → Bool) (ev : HumanReviewSubmittedEvent) (at : Surroundings)
      (s : Stores F.Number) (d : ReviewDecision) (e : LedgerEntry)
      → validate_event ev ≡ ok d
      → at.query_outage ≡ none
      → prior_match H s.ledger ev ≡ some e
      → record_human_review F H is_date_time ev at s ≡ (ok (entry_result e), s)
  unfolding record_human_review
  replays is_date_time ev at s d e good up there =
      rw (good, record_human_review) (rw up (rw there refl))

  -- A call that succeeded, made again with the same event whenever the ledger can be read, gives
  -- the same result and changes neither store, as long as the ledger had fewer than 1,000
  -- submissions about the obligation.
  pub record_human_review_replay :
      (is_date_time : String → Bool) (ev : HumanReviewSubmittedEvent) (at later : Surroundings)
      (s s' : Stores F.Number) (r : RecordHumanReviewResult)
      → submissions H s.ledger ev < 1000
      → record_human_review F H is_date_time ev at s ≡ (ok r, s')
      → later.query_outage ≡ none
      → record_human_review F H is_date_time ev later s' ≡ (ok r, s')
  record_human_review_replay is_date_time ev at later s s' r few h up =
      elim (record_human_review-Course F H is_date_time ev at s) [
        | Course.refused x same ↦ let absurd = sym h ∙ same in cc
        | Course.replayed d entry good there same ↦
            let out = sym same ∙ h in
            subst (λ p. record_human_review F H is_date_time ev later p.1 ≡ p) out
              (replays is_date_time ev later s d entry good up there)
        | Course.reviewed d good new ending ↦ elim ending [
          | Ending.refused x same ↦ let absurd = sym h ∙ same in cc
          | Ending.lagging x g same down ↦ let absurd = sym h ∙ same in cc
          | Ending.recorded g rec o all id entry same made ↦
              let marks =
                entry-selects H s.ledger at.now ev id rec o all
                  (validate_event-obligation ev d good) in
              let found =
                prior_match-snoc H s.ledger ev entry few
                  (subst (λ e. selects H (submissions_query ev.obligation_id) e ≡ true) (sym made)
                    marks.0)
                  (subst (λ e. is_event ev.event_id e ≡ true) (sym made) marks.1) new in
              subst (λ p. record_human_review F H is_date_time ev later p.1 ≡ p) (sym same ∙ h)
                (replays is_date_time ev later
                  (record { graph = g; ledger = s.ledger ++ entry ∷ [] }) d entry good up found)
        ]
      ]
