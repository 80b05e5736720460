-- ===== src/Ledger/Chain.antt =====
-- A chain in order, as the ledger builds it and as the walk recognises it.
use sentinel_act.Prelude.{
  String, ℕ, suc, ◌+◌, none, [], ◌∷◌, ◌++◌, ◌≡◌, refl, ◌∙◌, subst, get_last?, length, arith,
  eq_refl, ok,
}
use sentinel_act.Ledger.{
  Host, Ledger, LedgerEntry, LedgerAppendInput, genesis_hash, next_entry, next_number, prev_hash,
  append, compute_payload_hash, compute_entry_hash,
}
use sentinel_act.Ledger.Verify.{check_entry_integrity}

module _ (H : Host) where
  -- From a hash and a number on: every row is numbered without a gap, carries the hashes that its
  -- own content gives, and refers to the row before it.
  unfoldable pub IsChainFrom : (prev : String) (number : ℕ) → Ledger → Type 0
  IsChainFrom prev n [] = Unit
  IsChainFrom prev n (e ∷ es) =
      (e.sequence_number ≡ n)
      × (check_entry_integrity H e prev ≡ none)
      × IsChainFrom e.entry_hash (suc n) es

  unfoldable pub IsChain : Ledger → Type 0
  unfolding IsChainFrom
  IsChain ledger = IsChainFrom genesis_hash 1 ledger

  unfoldable pub chain_end : (prev : String) → Ledger → String
  chain_end prev [] = prev
  chain_end prev (e ∷ es) = chain_end e.entry_hash es

  chain-snoc :
      (prev : String) (n : ℕ) (es : Ledger) (e : LedgerEntry)
      → IsChainFrom prev n es
      → e.sequence_number ≡ length es + n
      → check_entry_integrity H e (chain_end prev es) ≡ none
      → IsChainFrom prev n (es ++ e ∷ [])
  unfolding IsChainFrom chain_end
  chain-snoc prev n [] e h hn hc = (hn ∙ omega arith, hc, tt)
  chain-snoc prev n (x ∷ es) e h hn hc =
      (h.0, h.1, chain-snoc x.entry_hash (suc n) es e h.2 (hn ∙ omega arith) hc)

  last-of :
      (prev : String) (n : ℕ) (x : LedgerEntry) (es : Ledger)
      → IsChainFrom prev n (x ∷ es)
      → (next_number (get_last? (x ∷ es)) ≡ length (x ∷ es) + n)
        × (prev_hash (get_last? (x ∷ es)) ≡ chain_end prev (x ∷ es))
  unfolding IsChainFrom chain_end
  last-of prev n x [] h = (omega (arith, h.0), refl)
  last-of prev n x (y ∷ es) h =
      let rest = last-of x.entry_hash (suc n) y es h.2 in (omega (arith, rest.0), rest.1)

  pub last-IsChain :
      (ledger : Ledger)
      → IsChain ledger
      → (next_number (get_last? ledger) ≡ length ledger + 1)
        × (prev_hash (get_last? ledger) ≡ chain_end genesis_hash ledger)
  unfolding IsChain chain_end
  last-IsChain [] h = (omega arith, refl)
  last-IsChain (x ∷ es) h = last-of genesis_hash 1 x es h

  -- An entry that is appended passes the check against the row that was the last.
  next_entry-check :
      (ledger : Ledger) (timestamp : String) (input : LedgerAppendInput)
      → check_entry_integrity H (next_entry H ledger timestamp input) (prev_hash (get_last? ledger))
        ≡ none
  unfolding check_entry_integrity next_entry
  next_entry-check ledger t input = rw (eq_refl (compute_payload_hash H input.payload)) (
      rw
        (eq_refl (
          compute_entry_hash H (next_number (get_last? ledger)) t input.event_type
            (compute_payload_hash H input.payload) (prev_hash (get_last? ledger))))
        (rw (eq_refl (prev_hash (get_last? ledger))) refl))

  pub next_entry-IsChain :
      (ledger : Ledger) (timestamp : String) (input : LedgerAppendInput)
      → IsChain ledger
      → IsChain (ledger ++ next_entry H ledger timestamp input ∷ [])
  unfolding IsChain next_entry
  next_entry-IsChain ledger t input h =
      let last = last-IsChain ledger h in
      let e = next_entry H ledger t input in
      chain-snoc genesis_hash 1 ledger e h last.0
        (subst (λ p. check_entry_integrity H e p ≡ none) last.1 (next_entry-check ledger t input))

  -- While the database does not fail, appending to a chain in order leaves it in order, and the new row, which is returned, is its
  -- last one, numbered by one more than there were rows.
  pub append-IsChain :
      (ledger : Ledger) (timestamp : String) (input : LedgerAppendInput)
      → IsChain ledger
      → (e : LedgerEntry) × (append H none ledger timestamp input ≡ (ok e, ledger ++ e ∷ []))
        × (e.sequence_number ≡ suc (length ledger))
        × IsChain (ledger ++ e ∷ [])
  unfolding IsChain append next_entry
  append-IsChain ledger t input h = (
    next_entry H ledger t input,
    refl,
    (last-IsChain ledger h).0 ∙ omega arith,
    next_entry-IsChain ledger t input h,
  )
