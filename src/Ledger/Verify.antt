-- ===== src/Ledger/Verify.antt =====
-- `checkEntryIntegrity` and `verifyChainIntegrity`
-- (packages/audit-ledger/src/postgres-audit-ledger.ts): the walk over the chain in pages of 1,000
-- rows. Each page is one query; the fuel bounds the number of pages.
use sentinel_act.Prelude.{
  String, ℕ, zero, suc, ◌+◌, ◌-◌, min, Bool, true, false, ◌&&◌, not, Option, none, some, List, [],
  ◌∷◌, ◌==◌, find?, filter, length, is_empty, leb, ltb, eqb, if◌then◌else◌, Result, ok, err, Error,
}
use sentinel_act.Ledger.{
  Host, Ledger, LedgerEntry, LedgerAppendInput, Json, Members, LedgerEventType, ActorType,
  genesis_hash, compute_payload_hash, compute_entry_hash, append,
}

pub data IntegrityReason : Type 0 where
  payload_hash_mismatch entry_hash_mismatch prev_entry_hash_mismatch : IntegrityReason

-- The state of the walk: `expectedPrevHash`, `entriesChecked`, `lastChecked` (none while it is
-- `fromSequence - 1`) and `firstBroken`, which is set exactly when `intact` is false.
pub record Walk : Type 0 where
  pub expected_prev_hash : String
  pub entries_checked : ℕ
  pub last_checked : Option ℕ
  pub first_broken : Option ℕ

pub record ChainVerificationResult : Type 0 where
  pub verified_range_start : ℕ
  pub verified_range_end : Option ℕ
  pub entries_checked : ℕ
  pub intact : Bool
  pub first_broken_sequence_number : Option ℕ

-- The ledger with the side table `ledger_verification_runs`.
pub record LedgerStore : Type 0 where
  pub ledger : Ledger
  pub verification_runs : List ChainVerificationResult

abbrev pub verify_page_size : ℕ
verify_page_size = 1000

abbrev pub is_none {ℓ} : {A : Type ℓ} → Option A → Bool
is_none none = true
is_none (some a) = false

unfoldable pub rows_between : (low high : ℕ) → Ledger → List LedgerEntry
rows_between low high rows =
    filter (λ e. leb low e.sequence_number && leb e.sequence_number high) rows

abbrev pub upper_bound : Option ℕ → (cursor : ℕ) → ℕ
upper_bound none cursor = (cursor + verify_page_size) - 1
upper_bound (some to) cursor = min ((cursor + verify_page_size) - 1) to

abbrev pub is_past : Option ℕ → (cursor : ℕ) → Bool
is_past none cursor = false
is_past (some to) cursor = ltb to cursor

abbrev from_hash : Option LedgerEntry → String
from_hash none = genesis_hash
from_hash (some e) = e.entry_hash

-- The hash that the first row of the range has to refer to.
unfoldable pub start_hash : Ledger → (from_sequence : ℕ) → String
start_hash ledger from =
    if leb from 1
    then genesis_hash
    else from_hash (find? (λ e. eqb e.sequence_number (from - 1)) ledger)

unfoldable pub start_walk : Ledger → (from_sequence : ℕ) → Walk
unfolding start_hash
start_walk ledger from = record {
  expected_prev_hash = start_hash ledger from;
  entries_checked = 0;
  last_checked = none;
  first_broken = none;
}

unfoldable pub walk_result : (from_sequence : ℕ) → Walk → ChainVerificationResult
walk_result from w = record {
  verified_range_start = from;
  verified_range_end = w.last_checked;
  entries_checked = w.entries_checked;
  intact = is_none w.first_broken;
  first_broken_sequence_number = w.first_broken;
}

abbrev pub first_number : Option ℕ → ℕ
first_number none = 1
first_number (some n) = n

-- A broken chain's result in the side table, unless the database fails, which is not thrown.
abbrev pub note_failure :
    (outage : Option Error)
    → ChainVerificationResult
    → List ChainVerificationResult
    → List ChainVerificationResult
note_failure none r runs = r ∷ runs
note_failure (some e) r runs = runs

module _ (H : Host) where
  -- The reason for which an entry fails, none if it is in order.
  unfoldable pub check_entry_integrity :
      LedgerEntry → (expected_prev_hash : String) → Option IntegrityReason
  check_entry_integrity e expected =
      if not (compute_payload_hash H e.payload == e.payload_hash)
      then some IntegrityReason.payload_hash_mismatch
      else (if not (
            compute_entry_hash H e.sequence_number e.timestamp e.event_type e.payload_hash
              e.prev_entry_hash
            == e.entry_hash)
          then some IntegrityReason.entry_hash_mismatch
          else (if not (e.prev_entry_hash == expected)
              then some IntegrityReason.prev_entry_hash_mismatch
              else none))

  -- The loop over the rows of one page, left at the first row that fails.
  unfoldable pub walk_page : List LedgerEntry → Walk → Walk
  walk_page [] w = w
  walk_page (e ∷ es) w = elim (check_entry_integrity e w.expected_prev_hash) [
    | some reason ↦ record {
      expected_prev_hash = w.expected_prev_hash;
      entries_checked = w.entries_checked + 1;
      last_checked = some e.sequence_number;
      first_broken = some e.sequence_number;
    }
    | none ↦ walk_page es (record {
      expected_prev_hash = e.entry_hash;
      entries_checked = w.entries_checked + 1;
      last_checked = some e.sequence_number;
      first_broken = none;
    })
  ]

  unfoldable pub verify_pages :
      (fuel : ℕ) → Ledger → (to_sequence : Option ℕ) → (cursor : ℕ) → Walk → Walk
  unfolding walk_page rows_between
  verify_pages zero ledger to cursor w = w
  verify_pages (suc fuel) ledger to cursor w =
      let upper = upper_bound to cursor in
      let page = rows_between cursor upper ledger in
      let walked = walk_page page w in
      let next = verify_pages fuel ledger to (upper + 1) walked in
      if is_past to cursor
      then w
      else (if is_empty page
          then w
          else (if not (is_none walked.first_broken)
              then walked
              else (if ltb (length page) ((upper + 1) - cursor) then walked else next)))

  -- The number `fromSequence - 1` if nothing was checked.
  abbrev end_text : (from_sequence : ℕ) → Option ℕ → String
  end_text zero none = "-1"
  end_text (suc n) none = Host.show H n
  end_text from (some n) = Host.show H n

  abbrev pub run_input : ChainVerificationResult → LedgerAppendInput
  run_input r = record {
    event_type = LedgerEventType.chain_verification_run;
    actor = record { type = ActorType.system; id = "chain-verification-cron" };
    entity_ref = record { entity_type = none; entity_id = none };
    payload = Json.object (
        Members.member "verifiedRangeStart" (Json.number (Host.show H r.verified_range_start)) (
          Members.member "verifiedRangeEnd"
            (Json.number (end_text r.verified_range_start r.verified_range_end))
            (Members.member "entriesChecked" (Json.number (Host.show H r.entries_checked))
              Members.end)));
  }

  abbrev then_return : ChainVerificationResult → Result LedgerEntry → Result ChainVerificationResult
  then_return r (ok e) = ok r
  then_return r (err e) = err e

  -- What follows the walk: an intact chain is recorded in the chain itself, a broken one only in
  -- the side table.
  unfoldable pub record_verification :
      (outage : Option Error)
      → LedgerStore
      → (timestamp : String) → ChainVerificationResult
      → Result ChainVerificationResult × LedgerStore
  unfolding append
  record_verification outage s timestamp r =
      let appended = append H outage s.ledger timestamp (run_input r) in
      if r.intact
      then (
        then_return r appended.0,
        record { ledger = appended.1; verification_runs = s.verification_runs },
      )
      else (
        ok r,
        record { ledger = s.ledger; verification_runs = note_failure outage r s.verification_runs },
      )

  unfoldable pub verify_chain_integrity :
      (outage : Option Error)
      → LedgerStore
      → (timestamp : String) → (from_sequence : Option ℕ) (to_sequence : Option ℕ)
      → Result ChainVerificationResult × LedgerStore
  unfolding verify_pages start_walk walk_result record_verification
  verify_chain_integrity outage s timestamp from to =
      let start = first_number from in
      let fuel = suc (length s.ledger) in
      let walked = verify_pages fuel s.ledger to start (start_walk s.ledger start) in
      record_verification outage s timestamp (walk_result start walked)
