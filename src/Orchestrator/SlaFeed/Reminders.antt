-- ===== src/Orchestrator/SlaFeed/Reminders.antt =====
-- That no reminder of the feed is given twice, and who gets one.
use sentinel_act.Prelude.{
  String, ℕ, true, false, Option, none, some, List, subst, [], ◌∷◌, ◌++◌, ◌==◌, ◌≡◌, refl, sym, ap,
  ◌∙◌, ◌⊎◌, inl, inr, any, All, All-append, All-map, arith, eq_refl, Bool-cases, Result-cases,
  Result, Error, ok, err,
}
use sentinel_act.Prelude.Map
use sentinel_act.Orchestrator.RunIndex.{
  RunIndex, list_active, SuspendedRun, get_claim_slots, has_sent_due_soon_reminder,
  mark_due_soon_reminder_sent, reminder_key, is_tier_b,
}
use sentinel_act.Orchestrator.SlaFeed.{
  Calendar, SlaDueSoonFeedEntry, compute_sla_due_at, compute_feed_sla_state, remind, maker_of,
  checker_of, remind_slots, is_due_soon, feed_run, feed_runs, handle_sla_breach_feed_request,
}

-- A reminder that is noted in the first index is noted in the second one, with the same slots.
pub record Keeps (i i' : RunIndex) : Type 0 where
  pub notes :
      (o r : String)
      → has_sent_due_soon_reminder i o r ≡ true
      → has_sent_due_soon_reminder i' o r ≡ true
  pub claims : i'.claims ≡ i.claims

-- A reminder for somebody who holds a slot of the obligation, not noted before, and noted after.
pub record IsFirst (i i' : RunIndex) (e : SlaDueSoonFeedEntry) : Type 0 where
  pub before : has_sent_due_soon_reminder i e.obligation_id e.reviewer_id ≡ false
  pub after : has_sent_due_soon_reminder i' e.obligation_id e.reviewer_id ≡ true
  pub holds :
      (maker_of (get_claim_slots i e.obligation_id) ≡ some e.reviewer_id)
      ⊎ (checker_of (get_claim_slots i e.obligation_id) ≡ some e.reviewer_id)

Keeps-refl : (i : RunIndex) → Keeps i i
Keeps-refl i = record { notes = λ o r h. h; claims = refl }

Keeps-trans : (i j k : RunIndex) → Keeps i j → Keeps j k → Keeps i k
Keeps-trans i j k h g = record {
  notes = λ o r e. g.notes o r (h.notes o r e);
  claims = g.claims ∙ h.claims;
}

mark_due_soon_reminder_sent-Keeps :
    (i : RunIndex) (o r : String) → Keeps i (mark_due_soon_reminder_sent i o r)
unfolding mark_due_soon_reminder_sent has_sent_due_soon_reminder
mark_due_soon_reminder_sent-Keeps i o r =
    elim (Bool-cases (any (λ key. key == reminder_key o r) i.due_soon_reminders)) [
      | inl sent ↦ record { notes = λ p s h. ground arith; claims = rw sent refl }
      | inr fresh ↦ record { notes = λ p s h. ground arith; claims = rw fresh refl }
    ]

mark_due_soon_reminder_sent-sent :
    (i : RunIndex) (o r : String)
    → has_sent_due_soon_reminder (mark_due_soon_reminder_sent i o r) o r ≡ true
unfolding mark_due_soon_reminder_sent has_sent_due_soon_reminder
mark_due_soon_reminder_sent-sent i o r =
    elim (Bool-cases (any (λ key. key == reminder_key o r) i.due_soon_reminders)) [
      | inl sent ↦ rw sent sent
      | inr fresh ↦ rw (fresh, eq_refl (reminder_key o r)) refl
    ]

-- Reminders that were each given for the first time while the index went from one to the next.
record Stage (i : RunIndex) (es : List SlaDueSoonFeedEntry) (j : RunIndex) : Type 0 where
  pub keeps : Keeps i j
  pub first : All (IsFirst i j) es

Stage-none : (i : RunIndex) → Stage i [] i
Stage-none i = record { keeps = Keeps-refl i; first = tt }

IsFirst-later :
    (i j k : RunIndex) (e : SlaDueSoonFeedEntry) → Keeps j k → IsFirst i j e → IsFirst i k e
IsFirst-later i j k e h f = record {
  before = f.before;
  after = h.notes e.obligation_id e.reviewer_id f.after;
  holds = f.holds;
}

noted : {A : Type 0} → true ≡ false → A
noted h = cc

IsFirst-earlier :
    (i j k : RunIndex) (e : SlaDueSoonFeedEntry) → Keeps i j → IsFirst j k e → IsFirst i k e
unfolding get_claim_slots
IsFirst-earlier i j k e h f = record {
  before = elim (Bool-cases (has_sent_due_soon_reminder i e.obligation_id e.reviewer_id)) [
    | inl sent ↦ noted (sym (h.notes e.obligation_id e.reviewer_id sent) ∙ f.before)
    | inr fresh ↦ fresh
  ];
  after = f.after;
  holds =
      subst
        (λ c.
          (maker_of (Map.get c e.obligation_id) ≡ some e.reviewer_id)
          ⊎ (checker_of (Map.get c e.obligation_id) ≡ some e.reviewer_id))
        h.claims f.holds;
}

Stage-then :
    (i j k : RunIndex) (es fs : List SlaDueSoonFeedEntry)
    → Stage i es j
    → Stage j fs k
    → Stage i (es ++ fs) k
Stage-then i j k es fs h g = record {
  keeps = Keeps-trans i j k h.keeps g.keeps;
  first =
      All-append (IsFirst i k) es fs
        (All-map (IsFirst i j) (IsFirst i k) (λ e. IsFirst-later i j k e g.keeps) es h.first)
        (All-map (IsFirst j k) (IsFirst i k) (λ e. IsFirst-earlier i j k e h.keeps) fs g.first);
}

-- One slot of an obligation, when it is the maker's or the checker's.
remind-Stage :
    (i : RunIndex) (o due : String) (slot : Option String)
    → (maker_of (get_claim_slots i o) ≡ slot) ⊎ (checker_of (get_claim_slots i o) ≡ slot)
    → Stage i (remind o due slot i).0 (remind o due slot i).1
unfolding remind
remind-Stage i o due none h = Stage-none i
remind-Stage i o due (some r) h = elim (Bool-cases (r == "")) [
  | inl empty ↦ rw empty (Stage-none i)
  | inr named ↦ elim (Bool-cases (has_sent_due_soon_reminder i o r)) [
    | inl sent ↦ rw (named, sent) (Stage-none i)
    | inr fresh ↦
        rw (named, fresh)
          (record {
            keeps = mark_due_soon_reminder_sent-Keeps i o r;
            first = (
              record { before = fresh; after = mark_due_soon_reminder_sent-sent i o r; holds = h },
              tt,
            );
          })
  ]
]

remind_slots-Stage :
    (i : RunIndex) (o due : String)
    → Stage i
        (remind_slots o due (get_claim_slots i o) i).0
        (remind_slots o due (get_claim_slots i o) i).1
unfolding remind_slots get_claim_slots
remind_slots-Stage i o due =
    let first = remind-Stage i o due (maker_of (get_claim_slots i o)) (inl refl) in
    let j = (remind o due (maker_of (get_claim_slots i o)) i).1 in
    Stage-then i j _ _ _ first (
      remind-Stage j o due (checker_of (get_claim_slots i o))
        (inr (ap (λ c. checker_of (Map.get c o)) first.keeps.claims)))

-- When the reminders of a step come back, they are the first ones.
abbrev GivesFirst : RunIndex → Result (List SlaDueSoonFeedEntry) × RunIndex → Type 0
GivesFirst i r = (es : List SlaDueSoonFeedEntry) → r.0 ≡ ok es → Stage i es r.1

entries_of : Result (List SlaDueSoonFeedEntry) → List SlaDueSoonFeedEntry
entries_of (err _) = []
entries_of (ok es) = es

GivesFirst-ok :
    (i : RunIndex) (es : List SlaDueSoonFeedEntry) (j : RunIndex)
    → Stage i es j
    → GivesFirst i (ok es, j)
unfolding entries_of
GivesFirst-ok i es j h fs e = subst (λ gs. Stage i gs j) (ap entries_of e) h

GivesFirst-err : (i j : RunIndex) (e : Error) → GivesFirst i (err e, j)
GivesFirst-err i j e fs h = cc

feed_run-Stage :
    (K : Calendar) (now : ℕ) (o : String) (entry : SuspendedRun) (i : RunIndex)
    → GivesFirst i (feed_run K now (o, entry) i)
unfolding feed_run
feed_run-Stage K now o entry i = elim (Bool-cases (is_tier_b entry.tier)) [
  | inl nobody ↦ rw nobody (GivesFirst-ok i [] i (Stage-none i))
  | inr tier_c ↦ elim (Result-cases (compute_sla_due_at K entry.suspended_at entry.tier)) [
    | inr (e, no_date) ↦ rw (tier_c, no_date) (GivesFirst-err i i e)
    | inl (due, dated) ↦ elim (Bool-cases (is_due_soon (compute_feed_sla_state K due now))) [
      | inl soon ↦
          rw (tier_c, dated, soon)
            (GivesFirst-ok i (remind_slots o due (get_claim_slots i o) i).0
              (remind_slots o due (get_claim_slots i o) i).1 (remind_slots-Stage i o due))
      | inr other ↦ rw (tier_c, dated, other) (GivesFirst-ok i [] i (Stage-none i))
    ]
  ]
]

feed_runs-Stage :
    (K : Calendar) (now : ℕ) (entries : List (String × SuspendedRun)) (i : RunIndex)
    → GivesFirst i (feed_runs K now entries i)
unfolding feed_runs
feed_runs-Stage K now [] i = GivesFirst-ok i [] i (Stage-none i)
feed_runs-Stage K now ((o, entry) ∷ entries) i =
    elim (Result-cases (feed_run K now (o, entry) i).0) [
      | inr (e, thrown) ↦
          rw (thrown, feed_runs) (GivesFirst-err i (feed_run K now (o, entry) i).1 e)
      | inl (found, came) ↦
          elim (Result-cases (feed_runs K now entries (feed_run K now (o, entry) i).1).0) [
            | inr (e, thrown) ↦
                rw (came, thrown, feed_runs)
                  (GivesFirst-err i (feed_runs K now entries (feed_run K now (o, entry) i).1).1 e)
            | inl (more, went) ↦
                rw (came, went, feed_runs)
                  (GivesFirst-ok i (found ++ more)
                    (feed_runs K now entries (feed_run K now (o, entry) i).1).1
                    (Stage-then i (feed_run K now (o, entry) i).1
                      (feed_runs K now entries (feed_run K now (o, entry) i).1).1 found more
                      (feed_run-Stage K now o entry i found came)
                      (feed_runs-Stage K now entries (feed_run K now (o, entry) i).1 more went)))
          ]
    ]

-- When the feed comes back, each of its reminders is for somebody who holds a review slot of the
-- obligation, was not noted as sent before and is noted as sent afterwards.
pub handle_sla_breach_feed_request-IsFirst :
    (K : Calendar) (now : ℕ) (i : RunIndex) (es : List SlaDueSoonFeedEntry)
    → (handle_sla_breach_feed_request K now i).0 ≡ ok es
    → All (IsFirst i (handle_sla_breach_feed_request K now i).1) es
unfolding handle_sla_breach_feed_request
handle_sla_breach_feed_request-IsFirst K now i es h =
    (feed_runs-Stage K now (list_active i) i es h).first

-- When two feeds one after the other come back, they have no reminder in common, whatever time
-- went by.
pub handle_sla_breach_feed_request-once :
    (K : Calendar) (now later : ℕ) (i : RunIndex) (es fs : List SlaDueSoonFeedEntry)
    → (handle_sla_breach_feed_request K now i).0 ≡ ok es
    → (handle_sla_breach_feed_request K later (handle_sla_breach_feed_request K now i).1).0 ≡ ok fs
    → All
        (λ f.
          All (λ e. ¬ ((f.obligation_id ≡ e.obligation_id) × (f.reviewer_id ≡ e.reviewer_id))) es)
        fs
handle_sla_breach_feed_request-once K now later i es fs h g =
    let j = (handle_sla_breach_feed_request K now i).1 in
    let k = (handle_sla_breach_feed_request K later j).1 in
    All-map (IsFirst j k)
      (λ f. All (λ e. ¬ ((f.obligation_id ≡ e.obligation_id) × (f.reviewer_id ≡ e.reviewer_id))) es)
      (λ f second.
        All-map (IsFirst i j)
          (λ e. ¬ ((f.obligation_id ≡ e.obligation_id) × (f.reviewer_id ≡ e.reviewer_id)))
          (λ e first same. noted (
            sym first.after
            ∙ sym (ap (λ o. has_sent_due_soon_reminder j o e.reviewer_id) same.0)
            ∙ sym (ap (λ r. has_sent_due_soon_reminder j f.obligation_id r) same.1)
            ∙ second.before))
          es (handle_sla_breach_feed_request-IsFirst K now i es h))
      fs (handle_sla_breach_feed_request-IsFirst K later j fs g)
