-- ===== src/Ledger/Audit.antt =====
-- What a run of `verifyChainIntegrity` tells of the ledger, and what it leaves behind.
use sentinel_act.Prelude.{
  String, ℕ, suc, ◌+◌, ◌≤◌, true, false, Option, none, some, [], ◌∷◌, ◌++◌, ◌≡◌, ◌↔◌, refl, ap, sym,
  ◌∙◌, subst, length, arith, ok, Error, Option-cases, inl, inr, Bool-cases,
}
use sentinel_act.Ledger.{Host, Ledger, LedgerEntry, genesis_hash, append, next_entry}
use sentinel_act.Ledger.Verify.{
  Walk, LedgerStore, ChainVerificationResult, IntegrityReason, walk_page, start_walk, walk_result,
  is_none, check_entry_integrity, verify_chain_integrity, record_verification, first_number,
  run_input,
}
use sentinel_act.Ledger.Pages.{
  IsNumbered, range, advance, walk-good, walk-bad, verify_pages-walk_page,
}
use sentinel_act.Ledger.Chain.{IsChain, IsChainFrom, chain_end, next_entry-IsChain}

ok-injective : {r q : ChainVerificationResult} → ok r ≡ ok q → r ≡ q
ok-injective h = cc

-- The store with a failed run noted aside.
abbrev noted : LedgerStore → ChainVerificationResult → LedgerStore
noted s r = record { ledger = s.ledger; verification_runs = r ∷ s.verification_runs }

module _ (H : Host) where
  -- On a table whose rows are numbered from 1 without a gap, whatever else was done to them, a
  -- verification from a number of at least 1 on gives the result of one walk over the rows of its
  -- range, and leaves what that result makes it leave.
  pub verify_chain_integrity-walk_page :
      (outage : Option Error) (s : LedgerStore) (t : String) (from to : Option ℕ)
      → IsNumbered 1 s.ledger
      → 1 ≤ first_number from
      → verify_chain_integrity H outage s t from to
        ≡ record_verification H outage s t (
            walk_result (first_number from) (
              walk_page H
                (range to (first_number from) s.ledger)
                (start_walk s.ledger (first_number from))))
  unfolding verify_chain_integrity start_walk
  verify_chain_integrity-walk_page outage s t from to n l =
      let start = first_number from in
      ap (λ w. record_verification H outage s t (walk_result start w))
        (verify_pages-walk_page H (suc (length s.ledger)) to start s.ledger
          (start_walk s.ledger start) n l (omega arith) refl)

  -- The whole table as the range of a walk that starts at the genesis hash.
  unfoldable full_walk : Ledger → Walk
  full_walk ledger = walk_page H ledger (start_walk ledger 1)

  chain-IsNumbered :
      (prev : String) (n : ℕ) (es : Ledger) → IsChainFrom H prev n es → IsNumbered n es
  unfolding IsChainFrom IsNumbered
  chain-IsNumbered prev n [] h = tt
  chain-IsNumbered prev n (e ∷ es) h = (h.0, chain-IsNumbered e.entry_hash (suc n) es h.2)

  chain-walk :
      (n : ℕ) (es : Ledger) (w : Walk)
      → IsChainFrom H w.expected_prev_hash n es
      → is_none w.first_broken ≡ true
      → (is_none (walk_page H es w).first_broken ≡ true)
        × ((walk_page H es w).entries_checked ≡ w.entries_checked + length es)
  unfolding IsChainFrom walk_page advance
  chain-walk n [] w h k = (k, omega arith)
  chain-walk n (e ∷ es) w h k =
      let rest = chain-walk (suc n) es (advance H e w) h.2 refl in
      let good = walk-good H e es w h.1 in
      (
        subst (λ v. is_none v.first_broken ≡ true) (sym good) rest.0,
        ap (λ v. v.entries_checked) good ∙ rest.1 ∙ omega arith,
      )

  walk-chain :
      (n : ℕ) (es : Ledger) (w : Walk)
      → IsNumbered n es
      → is_none (walk_page H es w).first_broken ≡ true
      → IsChainFrom H w.expected_prev_hash n es
  unfolding IsChainFrom IsNumbered walk_page advance
  walk-chain n [] w h k = tt
  walk-chain n (e ∷ es) w h k =
      elim (Option-cases (check_entry_integrity H e w.expected_prev_hash)) [
        | inl good ↦ (
          h.0,
          good,
          walk-chain (suc n) es (advance H e w) h.1
              (subst (λ v. is_none v.first_broken ≡ true) (walk-good H e es w good) k),
        )
        | inr (r, bad) ↦ let absurd = sym k ∙ (walk-bad H e es es w bad).1 in cc
      ]

  -- A row at which a chain breaks: what stands before it is in order, and it is not.
  pub record Break (prev : String) (n : ℕ) (ledger : Ledger) (number : ℕ) : Type 0 where
    pub good : Ledger
    pub broken : LedgerEntry
    pub rest : Ledger
    pub splits : ledger ≡ good ++ broken ∷ rest
    pub is_good : IsChainFrom H prev n good
    pub is_number : broken.sequence_number ≡ number
    pub reason : IntegrityReason
    pub is_broken : check_entry_integrity H broken (chain_end H prev good) ≡ some reason

  walk-Break :
      (n number : ℕ) (es : Ledger) (w : Walk)
      → IsNumbered n es
      → is_none w.first_broken ≡ true
      → (walk_page H es w).first_broken ≡ some number
      → Break w.expected_prev_hash n es number
  unfolding IsChainFrom IsNumbered walk_page advance chain_end
  walk-Break n number [] w h k b = ground arith
  walk-Break n number (e ∷ es) w h k b =
      elim (Option-cases (check_entry_integrity H e w.expected_prev_hash)) [
        | inl good ↦
            let rest =
              walk-Break (suc n) number es (advance H e w) h.1 refl
                (ap (λ v. v.first_broken) (sym (walk-good H e es w good)) ∙ b) in
            record {
              good = e ∷ rest.good;
              broken = rest.broken;
              rest = rest.rest;
              splits = ap (λ fs. e ∷ fs) rest.splits;
              is_good = (h.0, good, rest.is_good);
              is_number = rest.is_number;
              reason = rest.reason;
              is_broken = rest.is_broken;
            }
        | inr (r, bad) ↦ record {
          good = [];
          broken = e;
          rest = es;
          splits = refl;
          is_good = tt;
          is_number = ground (arith, (walk-bad H e es es w bad).2);
          reason = r;
          is_broken = bad;
        }
      ]

  full-walk_page :
      (s : LedgerStore) (t : String)
      → IsNumbered 1 s.ledger
      → verify_chain_integrity H none s t none none
        ≡ record_verification H none s t (walk_result 1 (full_walk s.ledger))
  unfolding full_walk range
  full-walk_page s t n = verify_chain_integrity-walk_page none s t none none n (omega arith)

  record_verification-intact :
      (s : LedgerStore) (t : String) (r : ChainVerificationResult)
      → r.intact ≡ true
      → record_verification H none s t r ≡ (
        ok r,
        record {
          ledger = s.ledger ++ next_entry H s.ledger t (run_input H r) ∷ [];
          verification_runs = s.verification_runs;
        },
      )
  unfolding append record_verification
  record_verification-intact s t r h = rw (h, record_verification) refl

  record_verification-broken :
      (s : LedgerStore) (t : String) (r : ChainVerificationResult)
      → r.intact ≡ false
      → record_verification H none s t r
        ≡ (ok r, record { ledger = s.ledger; verification_runs = r ∷ s.verification_runs })
  unfolding record_verification
  record_verification-broken s t r h = rw (h, record_verification) refl

  record_verification-ok :
      (s : LedgerStore) (t : String) (r : ChainVerificationResult)
      → (record_verification H none s t r).0 ≡ ok r
  record_verification-ok s t r = elim (Bool-cases r.intact) [
    | inl h ↦ ap (λ p. p.0) (record_verification-intact s t r h)
    | inr h ↦ ap (λ p. p.0) (record_verification-broken s t r h)
  ]

  -- While the database does not fail, a verification of the whole ledger, on a table numbered from 1
  -- without a gap, answers, and it calls the ledger intact exactly when every row carries the hashes
  -- of its own content and refers to the row before it.
  pub verify_chain_integrity-IsChain_iff :
      (s : LedgerStore) (t : String)
      → IsNumbered 1 s.ledger
      → (r : ChainVerificationResult) × ((verify_chain_integrity H none s t none none).0 ≡ ok r)
        × ((r.intact ≡ true) ↔ IsChain H s.ledger)
  unfolding IsChain record_verification walk_result full_walk start_walk append
  verify_chain_integrity-IsChain_iff s t n = (
    walk_result 1 (full_walk s.ledger),
    ap (λ p. p.0) (full-walk_page s t n)
        ∙ record_verification-ok s t (walk_result 1 (full_walk s.ledger)),
    (
      walk-chain 1 s.ledger (start_walk s.ledger 1) n,
      λ h. (chain-walk 1 s.ledger (start_walk s.ledger 1) h refl).0,
    ),
  )

  -- While the database does not fail, verifying the whole of a chain in order finds it intact, all its rows checked, and appends the
  -- record of the run to it, which leaves it in order.
  pub verify_chain_integrity-intact :
      (s : LedgerStore) (t : String)
      → IsChain H s.ledger
      → (r : ChainVerificationResult) × (e : LedgerEntry) × (verify_chain_integrity H none s t none
            none
          ≡ (ok r, record { ledger = s.ledger ++ e ∷ []; verification_runs = s.verification_runs }))
        × (r.intact ≡ true)
        × (r.entries_checked ≡ length s.ledger)
        × IsChain H (s.ledger ++ e ∷ [])
  unfolding IsChain record_verification walk_result full_walk start_walk append
  verify_chain_integrity-intact s t h =
      let r = walk_result 1 (full_walk s.ledger) in
      let walked = chain-walk 1 s.ledger (start_walk s.ledger 1) h refl in
      (
        r,
        next_entry H s.ledger t (run_input H r),
        full-walk_page s t (chain-IsNumbered genesis_hash 1 s.ledger h)
            ∙ record_verification-intact s t r walked.0,
        walked.0,
        walked.1 ∙ omega arith,
        next_entry-IsChain H s.ledger t (run_input H r) h,
      )

  -- While the database does not fail, when a verification of the whole ledger, on a table numbered
  -- from 1 without a gap, reports a broken row, the rows before it are in order, that row fails its
  -- check, and the run leaves the ledger as it is and notes its result aside.
  pub verify_chain_integrity-broken :
      (s : LedgerStore) (t : String) (r : ChainVerificationResult) (number : ℕ)
      → IsNumbered 1 s.ledger
      → (verify_chain_integrity H none s t none none).0 ≡ ok r
      → r.first_broken_sequence_number ≡ some number
      → Break genesis_hash 1 s.ledger number
        × ((verify_chain_integrity H none s t none none).1
            ≡ record { ledger = s.ledger; verification_runs = r ∷ s.verification_runs })
  unfolding record_verification walk_result full_walk start_walk append
  verify_chain_integrity-broken s t r number n e b =
      let full = full-walk_page s t n in
      let walked = walk_result 1 (full_walk s.ledger) in
      let same =
        ok-injective (sym (record_verification-ok s t walked) ∙ sym (ap (λ p. p.0) full) ∙ e) in
      (
        walk-Break 1 number s.ledger (start_walk s.ledger 1) n refl
            (ap (λ q. q.first_broken_sequence_number) same ∙ b),
        ap (λ p. p.1) full
            ∙ ap (λ p. p.1)
                (record_verification-broken s t walked
                  (ap (λ q. is_none q.first_broken_sequence_number) same ∙ ap is_none b))
            ∙ ap (λ q. noted s q) same,
      )
