-- ===== src/Tests/Reviews.antt =====
-- Reviews of one obligation, by concrete reviewers.
use sentinel_act.Prelude.{String, false, none, some, [], ◌∷◌, ◌≡◌, ◌≢◌, refl, not, find?, ◌==◌, ap}
use sentinel_act.Prelude.Map
use sentinel_act.Orchestrator.RunIndex.{
  RunIndex, new_index, claim, clear, find, get_claim_slots, has_sent_due_soon_reminder, assign,
  current_slots,
}
use sentinel_act.Orchestrator.RunIndex.Claims.{
  Op, apply, run, claim_all, run-distinct, claim_all-slots,
}
use sentinel_act.Orchestrator.RunIndex.Clears.{clear-fresh, clear-other}

abbrev asha : String
asha = "asha"

abbrev bo : String
bo = "bo"

abbrev first_id : String
first_id = "obligation-1"

abbrev second_id : String
second_id = "obligation-2"

run-distinct_example : asha ≢ bo
unfolding new_index apply run claim assign current_slots get_claim_slots Map.get Map.set
run-distinct_example =
    run-distinct (Op.claimed "obligation-1" "asha" ∷ Op.claimed "obligation-1" "bo" ∷ [])
      "obligation-1" "asha" "bo" refl

claim_all-slots_example :
    get_claim_slots
      (claim_all new_index "obligation-1" ("asha" ∷ "asha" ∷ "bo" ∷ "cy" ∷ []))
      "obligation-1"
    ≡ some (record {
      maker = some "asha";
      checker = find? (λ r. not ("asha" == r)) ("asha" ∷ "bo" ∷ "cy" ∷ []);
    })
unfolding new_index get_claim_slots Map.get
claim_all-slots_example =
    claim_all-slots new_index "obligation-1" "asha" ("asha" ∷ "bo" ∷ "cy" ∷ []) refl

abbrev claimed : RunIndex
claimed = (claim new_index "obligation-1" "asha").0

clear-fresh_example :
    (find (clear claimed "obligation-1") "obligation-1" ≡ none)
    × (get_claim_slots (clear claimed "obligation-1") "obligation-1" ≡ none)
    × (has_sent_due_soon_reminder (clear claimed "obligation-1") "obligation-1" "asha" ≡ false)
clear-fresh_example = clear-fresh claimed "obligation-1" "asha"

different : first_id ≢ second_id
different e = let same = ap (λ s. s == "obligation-2") e in cc

clear-other_example :
    (find (clear claimed "obligation-1") "obligation-2" ≡ find claimed "obligation-2")
    × (get_claim_slots (clear claimed "obligation-1") "obligation-2"
        ≡ get_claim_slots claimed "obligation-2")
clear-other_example = clear-other claimed "obligation-1" "obligation-2" different
