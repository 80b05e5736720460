-- ===== src/Orchestrator/RunIndex/Clears.antt =====
-- What clearing an obligation leaves in the run index, once its review is over.
use sentinel_act.Prelude.{
  Bool, true, false, not, none, List, [], ◌∷◌, ◌==◌, ◌≡◌, ◌≢◌, refl, sym, any, filter, arith,
  eq_iff, eq_refl, ==-false, template, String,
}
use sentinel_act.Prelude.Map
use sentinel_act.Orchestrator.RunIndex.{
  RunIndex, find, clear, get_claim_slots, has_sent_due_soon_reminder, reminder_key,
}
use Prim.Native.String
use text.Mathlib.Text.{starts_with}
use text.Mathlib.TextLemmas
use text.Mathlib.TextPositions.{starts_with-append}

starts_with-template :
    (o r : String) → starts_with (template (o ∷ ":" ∷ r ∷ [])) (template (o ∷ ":" ∷ [])) ≡ true
unfolding template
starts_with-template o r =
    rw (TextLemmas.append-nil r, TextLemmas.append-nil ":", sym (TextLemmas.append_assoc o ":" r))
      (starts_with-append (String.◌++◌ o ":") r)

any-filter_out :
    (k : String) (p : String → Bool) (ks : List String)
    → p k ≡ true
    → any (λ x. x == k) (filter (λ x. not (p x)) ks) ≡ false
any-filter_out k p [] h = refl
any-filter_out k p (x ∷ ks) h = ground (arith, any-filter_out k p ks h, eq_iff x k)

-- After an obligation is cleared, no run waits for it, nobody holds a slot of its review and no
-- reminder about it counts as sent, so that a later review of it starts afresh.
pub clear-fresh :
    (i : RunIndex) (o r : String)
    → (find (clear i o) o ≡ none)
      × (get_claim_slots (clear i o) o ≡ none)
      × (has_sent_due_soon_reminder (clear i o) o r ≡ false)
unfolding clear find get_claim_slots has_sent_due_soon_reminder reminder_key
clear-fresh i o r = (
  rw (Map.get-delete i.runs o o, eq_refl o, find) refl,
  rw (Map.get-delete i.claims o o, eq_refl o) refl,
  any-filter_out (reminder_key o r) (λ k. starts_with k (template (o ∷ ":" ∷ [])))
      i.due_soon_reminders (starts_with-template o r),
)

-- Clearing one obligation leaves the run and the slots of every other one as they are.
pub clear-other :
    (i : RunIndex) (o p : String)
    → o ≢ p
    → (find (clear i o) p ≡ find i p) × (get_claim_slots (clear i o) p ≡ get_claim_slots i p)
unfolding clear find get_claim_slots
clear-other i o p h = (
  rw (Map.get-delete i.runs o p, ==-false o p h, find) refl,
  rw (Map.get-delete i.claims o p, ==-false o p h) refl,
)
