-- ===== src/Ticketing/Mapping.antt =====
-- From an obligation and its task to the request for a ticket, and the delays between attempts
-- (packages/ticketing-adapter/src/mapping.ts).
use sentinel_act.Prelude.{
  String, ℕ, ◌-◌, ◌*◌, ◌^◌, min, max, true, Option, none, some, List, [], ◌∷◌, ◌++◌, ◌==◌, template,
  if◌then◌else◌, Result, ok, ◌>>=◌,
}
use sentinel_act.Float.{Float, ge}
use sentinel_act.Schema.{Obligation, ProcessTask, tier_a, tier_b, tier_c}
use sentinel_act.Router.{Tier}
use sentinel_act.Ticketing.{
  TicketPriority, TicketAssignee, CreateTicketRequest, ObligationCommittedEvent, TicketLineage,
  TicketingConfig,
}

-- `new Date(s).getTime()` and `new Date(ms).toISOString()`, which throws on an invalid date.
pub record Dates (N : Type 0) : Type 0 where
  pub get_time : String → N
  pub to_iso_string : N → Result String

module _ (F : Float) (D : Dates (Float.Number F)) where
  open F use {Number, add, mul, dec}

  pub compute_ticket_due_date : ProcessTask Number → Result String
  compute_ticket_due_date t = Dates.to_iso_string D (
      add (Dates.get_time D t.valid_from)
        (mul (mul (mul t.sla_hours (dec 60 0)) (dec 60 0)) (dec 1000 0)))

module _ (F : Float) where
  open F use {Number, dec}

  unfoldable pub compute_ticket_priority : Number → TicketPriority
  compute_ticket_priority risk_score =
      if ge F risk_score (dec 75 2)
      then TicketPriority.p1_urgent
      else (if ge F risk_score (dec 4 1) then TicketPriority.p2_high else TicketPriority.p3_normal)

unfoldable pub compute_backoff_delay_ms : (attempts : ℕ) → TicketingConfig → ℕ
compute_backoff_delay_ms attempts c =
    min (c.base_backoff_ms * 2 ^ (max attempts 1 - 1)) c.max_backoff_ms

-- `if (s) parts.push(…)`
abbrev part : (before : String) → Option String → List String
part before none = []
part before (some s) = if s == "" then [] else template (before ∷ s ∷ []) ∷ []

-- `parts.join(separator)`
unfoldable pub join : (separator : String) → List String → String
join separator [] = ""
join separator (s ∷ []) = s
join separator (s ∷ t ∷ ts) = template (s ∷ separator ∷ join separator (t ∷ ts) ∷ [])

abbrev lineage_body : List String → String
lineage_body [] = "lineage unavailable"
lineage_body (s ∷ ss) = join ", " (s ∷ ss)

pub compose_lineage_line : TicketLineage → String
unfolding join
compose_lineage_line l =
    let parts =
      part "" l.circular_title
      ++ (part "effective " l.circular_date_effective ++ part "para " l.clause_para_ref) in
    template ("**Source:** " ∷ lineage_body parts ∷ [])

abbrev penalty_line : Option String → List String
penalty_line none = []
penalty_line (some s) = template ("**Penalty:** " ∷ s ∷ []) ∷ []

pub compose_description : {N : Type 0} → Obligation N → TicketLineage → String
unfolding compose_lineage_line join
compose_description o l = join "\n\n" (
    template ("**Requirement:** " ∷ o.requirement_text ∷ [])
    ∷ template ("**Deadline rule:** " ∷ o.deadline_rule ∷ [])
    ∷ template ("**Evidence required:** " ∷ o.evidence_required ∷ [])
    ∷ (penalty_line o.penalty_ref ++ compose_lineage_line l ∷ []))

abbrev tier_name : Tier → String
tier_name (Tier.review tier_a) = "A"
tier_name (Tier.review tier_b) = "B"
tier_name (Tier.review tier_c) = "C"
tier_name Tier.escalate = "ESCALATE"

pub compose_labels : Tier → (category : String) → List String
compose_labels tier category =
    "sentinel-act"
    ∷ template ("tier:" ∷ tier_name tier ∷ [])
    ∷ template ("category:" ∷ category ∷ [])
    ∷ []

-- `resolve` is the port to the map of roles, which may fail.
pub resolve_assignee :
    (resolve : String → Result (Option TicketAssignee))
    → TicketingConfig
    → (owner_role : String) → Result TicketAssignee
resolve_assignee resolve c owner_role = resolve owner_role >>= λ resolved. elim resolved [
  | some a ↦ ok a
  | none ↦ ok (record {
    external_assignee_ref = c.default_assignee_ref;
    display_label = owner_role;
    is_fallback = true;
  })
]

module _ (F : Float) (D : Dates (Float.Number F)) where
  open F use {Number}

  unfoldable pub build_create_ticket_request :
      (resolve : String → Result (Option TicketAssignee))
      → TicketingConfig
      → Obligation Number
      → ProcessTask Number
      → TicketLineage
      → ObligationCommittedEvent
      → Result CreateTicketRequest
  unfolding resolve_assignee compute_ticket_due_date compose_description compose_labels
  build_create_ticket_request resolve c o t l ev =
      resolve_assignee resolve c t.owner_role >>= λ assignee.
      compute_ticket_due_date F D t >>= λ due. ok (record {
        dedupe_key = t.task_id;
        title = t.task_name;
        description = compose_description o l;
        assignee = assignee;
        due_date = due;
        priority = compute_ticket_priority F t.risk_score;
        labels = compose_labels ev.tier o.category;
        source_refs = record {
          obligation_id = o.obligation_id;
          task_id = t.task_id;
          circular_id = l.circular_id;
          clause_para_ref = l.clause_para_ref;
        };
      })
