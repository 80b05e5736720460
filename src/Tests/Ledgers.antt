-- ===== src/Tests/Ledgers.antt =====
-- Chains of the ledger, in order and broken.
use sentinel_act.Prelude.{
  suc, none, some, [], ◌∷◌, ◌++◌, ◌≡◌, ◌↔◌, refl, ok, length, template, arith, true, false,
}
use sentinel_act.Ledger.{
  Ledger, LedgerEntry, LedgerAppendInput, LedgerEventType, ActorType, Json, Members, append,
  genesis_hash, sort_value, canonicalize, compute_payload_hash, compute_entry_hash,
}
use sentinel_act.Ledger.Chain.{IsChain, IsChainFrom, append-IsChain}
use sentinel_act.Ledger.Verify.{
  LedgerStore, ChainVerificationResult, verify_chain_integrity, check_entry_integrity,
  record_verification, walk_result, walk_page, start_walk, start_hash, verify_pages, rows_between,
}
use sentinel_act.Ledger.Pages.{IsNumbered, range}
use sentinel_act.Ledger.Audit.{
  Break, verify_chain_integrity-walk_page, verify_chain_integrity-IsChain_iff,
  verify_chain_integrity-intact, verify_chain_integrity-broken,
}
use sentinel_act.Tests.{platform}

abbrev input : LedgerAppendInput
input = record {
  event_type = LedgerEventType.graph_commit;
  actor = record { type = ActorType.system; id = "orchestrator" };
  entity_ref = record { entity_type = none; entity_id = none };
  payload = Json.object (Members.member "b" Json.null (Members.member "a" Json.null Members.end));
}

abbrev genuine : LedgerEntry
genuine = record {
  sequence_number = 1;
  timestamp = "t1";
  event_type = LedgerEventType.graph_commit;
  actor = record { type = ActorType.system; id = "orchestrator" };
  entity_ref = record { entity_type = none; entity_id = none };
  related_obligation_id = none;
  payload = Json.null;
  payload_hash = "{}";
  prev_entry_hash = genesis_hash;
  entry_hash =
      "1|t1|GRAPH_COMMIT|{}|0000000000000000000000000000000000000000000000000000000000000000";
}

abbrev chained : Ledger
chained = genuine ∷ []

chained-IsChain : IsChain platform chained
unfolding IsChain IsChainFrom check_entry_integrity sort_value canonicalize compute_payload_hash
    compute_entry_hash template
chained-IsChain = (refl, refl, tt)

append-IsChain_example :
    (e : LedgerEntry) × (append platform none chained "t2" input ≡ (ok e, chained ++ e ∷ []))
    × (e.sequence_number ≡ suc (length chained))
    × IsChain platform (chained ++ e ∷ [])
append-IsChain_example = append-IsChain platform chained "t2" input chained-IsChain

abbrev store : LedgerStore
store = record { ledger = chained; verification_runs = [] }

chained-IsNumbered : IsNumbered 1 store.ledger
unfolding IsNumbered
chained-IsNumbered = (refl, tt)

verify_chain_integrity-walk_page_example :
    verify_chain_integrity platform none store "t2" none (some 1)
    ≡ record_verification platform none store "t2"
        (walk_result 1 (walk_page platform (range (some 1) 1 chained) (start_walk chained 1)))
verify_chain_integrity-walk_page_example =
    verify_chain_integrity-walk_page platform none store "t2" none (some 1) chained-IsNumbered
      (omega arith)

verify_chain_integrity-IsChain_iff_example :
    (r : ChainVerificationResult) × ((verify_chain_integrity platform none store "t2" none none).0
      ≡ ok r)
    × ((r.intact ≡ true) ↔ IsChain platform chained)
verify_chain_integrity-IsChain_iff_example =
    verify_chain_integrity-IsChain_iff platform store "t2" chained-IsNumbered

verify_chain_integrity-intact_example :
    (r : ChainVerificationResult) × (e : LedgerEntry) × (verify_chain_integrity platform none store
        "t2" none none
      ≡ (ok r, record { ledger = chained ++ e ∷ []; verification_runs = [] }))
    × (r.intact ≡ true)
    × (r.entries_checked ≡ length chained)
    × IsChain platform (chained ++ e ∷ [])
verify_chain_integrity-intact_example =
    verify_chain_integrity-intact platform store "t2" chained-IsChain

-- The payload of the first entry was changed after it was written.
abbrev tampered : LedgerStore
tampered = record {
  ledger = record genuine { payload_hash = "other" } ∷ [];
  verification_runs = [];
}

abbrev failed_run : ChainVerificationResult
failed_run = record {
  verified_range_start = 1;
  verified_range_end = some 1;
  entries_checked = 1;
  intact = false;
  first_broken_sequence_number = some 1;
}

tampered-IsNumbered : IsNumbered 1 tampered.ledger
unfolding IsNumbered
tampered-IsNumbered = (refl, tt)

tampered_is_found : (verify_chain_integrity platform none tampered "t2" none none).0 ≡ ok failed_run
unfolding verify_chain_integrity verify_pages rows_between walk_page check_entry_integrity
    start_walk start_hash walk_result record_verification sort_value canonicalize
    compute_payload_hash compute_entry_hash template
tampered_is_found = refl

verify_chain_integrity-broken_example :
    Break platform genesis_hash 1 tampered.ledger 1
    × ((verify_chain_integrity platform none tampered "t2" none none).1
        ≡ record { ledger = tampered.ledger; verification_runs = failed_run ∷ [] })
verify_chain_integrity-broken_example =
    verify_chain_integrity-broken platform tampered "t2" failed_run 1 tampered-IsNumbered
      tampered_is_found refl
