-- ===== src/Graph/Store.antt =====
-- The database as the Cypher statements see it: the nodes of each label in the order of their
-- creation, the edges, and the log of commits. Each statement that the code runs is a function here.
-- `now` is the database's `datetime()`. Properties that no statement reads (`_concurrency_touch`)
-- are left out, and so is the conversion of a text to a date.
use sentinel_act.Prelude.{
  String, Bool, true, false, ◌&&◌, Option, none, some, List, [], ◌∷◌, ◌++◌, ◌==◌, any, filter, map,
  Result, ok, err, ◌>>=◌, constraint_error, if◌then◌else◌,
}
use sentinel_act.Prelude.Map.{Map}
use sentinel_act.Schema.{
  Recorded, Circular, Clause, Obligation, ObligationStatus, ProcessTask, EvidenceArtifact,
  IntermediaryCategory, HumanReview,
}
use sentinel_act.Plan.{NodeLabel, EdgeType, CommitResult}

pub record NodeRef : Type 0 where
  pub label : NodeLabel
  pub id : String

pub record Link : Type 0 where
  pub type : EdgeType
  pub from : NodeRef
  pub to : NodeRef

pub record Graph (N : Type 0) : Type 0 where
  pub circulars : List (Recorded Circular)
  pub clauses : List (Recorded Clause)
  pub obligations : List (Recorded (Obligation N))
  pub process_tasks : List (Recorded (ProcessTask N))
  pub evidence_artifacts : List (Recorded EvidenceArtifact)
  pub intermediary_categories : List IntermediaryCategory
  pub human_reviews : List (Recorded HumanReview)
  pub links : List Link
  pub commit_log : Map CommitResult

-- The node with a given key is there.
abbrev pub has_id : {A : Type 0} → (A → String) → String → List (Recorded A) → Bool
has_id key id xs = any (λ r. key r.input == id) xs

-- CREATE (n:Label) SET n = $props, n.recorded_at = datetime(), under the label's uniqueness
-- constraint.
abbrev pub create :
    {A : Type 0}
    → (A → String)
    → (now : String) → A
    → List (Recorded A)
    → Result (List (Recorded A))
create key now x xs =
    if has_id key (key x) xs
    then err constraint_error
    else ok (xs ++ record { input = x; recorded_at = now } ∷ [])

module _ {N : Type 0} (now : String) where
  -- MERGE (n:Circular {source_hash: …}) ON CREATE SET …
  unfoldable pub create_circular : Circular → Graph N → Result (Graph N)
  create_circular x g =
      if any (λ r. r.input.source_hash == x.source_hash) g.circulars
      then ok g
      else (create (λ c. c.circular_id) now x g.circulars >>= λ xs.
          ok (record g { circulars = xs }))

  unfoldable pub create_clause : Clause → Graph N → Result (Graph N)
  create_clause x g =
      create (λ c. c.clause_id) now x g.clauses >>= λ xs. ok (record g { clauses = xs })

  unfoldable pub create_obligation : Obligation N → Graph N → Result (Graph N)
  create_obligation x g =
      create (λ o. o.obligation_id) now x g.obligations >>= λ xs. ok (record g { obligations = xs })

  unfoldable pub create_process_task : ProcessTask N → Graph N → Result (Graph N)
  create_process_task x g =
      create (λ t. t.task_id) now x g.process_tasks >>= λ xs. ok (record g { process_tasks = xs })

  unfoldable pub create_evidence_artifact : EvidenceArtifact → Graph N → Result (Graph N)
  create_evidence_artifact x g = create (λ e. e.evidence_id) now x g.evidence_artifacts >>= λ xs.
      ok (record g { evidence_artifacts = xs })

  unfoldable pub create_human_review : HumanReview → Graph N → Result (Graph N)
  create_human_review x g =
      create (λ r. r.review_id) now x g.human_reviews >>= λ xs. ok (record g { human_reviews = xs })

-- MERGE (n:IntermediaryCategory {name: …}) ON CREATE SET n.category_id = …
unfoldable pub create_intermediary_category :
    {N : Type 0} → IntermediaryCategory → Graph N → Result (Graph N)
create_intermediary_category x g =
    if any (λ c. c.name == x.name) g.intermediary_categories
    then ok g
    else if any (λ c. c.category_id == x.category_id) g.intermediary_categories
    then err constraint_error
    else ok (record g { intermediary_categories = g.intermediary_categories ++ x ∷ [] })

abbrev pub is_null : Option String → Bool
is_null none = true
is_null (some s) = false

abbrev pub is_live_circular : String → Recorded Circular → Bool
is_live_circular id r = r.input.circular_id == id && is_null r.input.valid_to

abbrev pub close_circular : String → String → Recorded Circular → Recorded Circular
close_circular id date r =
    if is_live_circular id r
    then record r { input = record r.input { valid_to = some date } }
    else r

module _ {N : Type 0} where
  abbrev pub is_live_obligation : String → Recorded (Obligation N) → Bool
  is_live_obligation id r = r.input.obligation_id == id && is_null r.input.valid_to

  -- WHERE old.valid_to IS NULL SET old.valid_to = date($effectiveDate)
  abbrev pub close_obligation : String → String → Recorded (Obligation N) → Recorded (Obligation N)
  close_obligation id date r =
      if is_live_obligation id r
      then record r { input = record r.input { valid_to = some date } }
      else r

  -- SET o.status = $newStatus
  abbrev pub set_status :
      String → ObligationStatus → Recorded (Obligation N) → Recorded (Obligation N)
  set_status id new_status r =
      if r.input.obligation_id == id
      then record r { input = record r.input { status = new_status } }
      else r

  unfoldable pub has_obligation : String → Graph N → Bool
  has_obligation id g = has_id (λ o. o.obligation_id) id g.obligations

  -- MATCH (n:Label {key: $id})
  unfoldable pub has_node : NodeRef → Graph N → Bool
  unfolding has_obligation
  has_node n g = elim n.label [
    | NodeLabel.circular ↦ has_id (λ c. c.circular_id) n.id g.circulars
    | NodeLabel.clause ↦ has_id (λ c. c.clause_id) n.id g.clauses
    | NodeLabel.obligation ↦ has_obligation n.id g
    | NodeLabel.process_task ↦ has_id (λ t. t.task_id) n.id g.process_tasks
    | NodeLabel.evidence_artifact ↦ has_id (λ e. e.evidence_id) n.id g.evidence_artifacts
    | NodeLabel.intermediary_category ↦ any (λ c. c.category_id == n.id) g.intermediary_categories
    | NodeLabel.human_review ↦ has_id (λ r. r.review_id) n.id g.human_reviews
  ]

  -- MATCH (n) WHERE n.circular_id = $id OR n.obligation_id = $id: no label is asked for, so a
  -- clause is found by its circular, a task and a review by their obligation.
  unfoldable pub carriers : String → Graph N → List NodeRef
  carriers id g =
      map (λ r. record { label = NodeLabel.circular; id = r.input.circular_id })
        (filter (λ r. r.input.circular_id == id) g.circulars)
      ++ (map (λ r. record { label = NodeLabel.clause; id = r.input.clause_id })
            (filter (λ r. r.input.circular_id == id) g.clauses)
          ++ (map (λ r. record { label = NodeLabel.obligation; id = r.input.obligation_id })
                (filter (λ r. r.input.obligation_id == id) g.obligations)
              ++ (map (λ r. record { label = NodeLabel.process_task; id = r.input.task_id })
                    (filter (λ r. r.input.obligation_id == id) g.process_tasks)
                  ++ map (λ r. record { label = NodeLabel.human_review; id = r.input.review_id })
                      (filter (λ r. r.input.obligation_id == id) g.human_reviews))))
