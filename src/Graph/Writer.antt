-- ===== src/Graph/Writer.antt =====
-- The writer's one transaction (packages/graph-db/src/commit/graph-writer.ts). A transaction that
-- throws leaves no trace, so its steps return the new graph or the error.
pub mod Leads
pub mod Grows
pub mod Nodes
pub mod Edges
pub mod Linked
pub mod Replay
use sentinel_act.Prelude.{
  String, ℕ, suc, ◌+◌, Bool, true, false, ◌&&◌, none, some, List, [], ◌∷◌, ◌++◌, ◌==◌, any, map,
  length, Result, ok, err, ◌>>=◌, conflict_error, commit_error, endpoints_not_found, if◌then◌else◌,
  is_empty,
}
use sentinel_act.Prelude.Map
use sentinel_act.Float.{Float}
use sentinel_act.Schema.{GraphEdge}
use sentinel_act.Plan.{
  PlanNodes, CommitPlan, CommitResult, SupersessionKind, SupersessionInstruction,
  ObligationStatusTransition, FinalizeSupersessionInstruction, NodeLabel, EdgeType,
}
use sentinel_act.Graph.Store.{
  NodeRef, Link, Graph, create_circular, create_clause, create_obligation, create_process_task,
  create_evidence_artifact, create_intermediary_category, create_human_review, is_live_circular,
  close_circular, is_live_obligation, close_obligation, set_status, has_obligation, has_node,
  carriers,
}
use sentinel_act.Graph.Validate.{validate_commit_plan}

-- `for (const x of xs) await step(x)`
unfoldable pub each : {G A : Type 0} → (A → G → Result G) → List A → G → Result G
each step [] g = ok g
each step (x ∷ xs) g = step x g >>= each step xs

abbrev is_supersedes : EdgeType → Bool
is_supersedes EdgeType.supersedes = true
is_supersedes _ = false

abbrev is_obligation : NodeLabel → Bool
is_obligation NodeLabel.obligation = true
is_obligation _ = false

abbrev pub obligation_ref : String → NodeRef
obligation_ref id = record { label = NodeLabel.obligation; id = id }

abbrev pub supersedes_link : String → String → Link
supersedes_link new_id old_id = record {
  type = EdgeType.supersedes;
  from = obligation_ref new_id;
  to = obligation_ref old_id;
}

-- (new)-[:SUPERSEDES]->(old) is there, between obligations.
abbrev is_supersedes_link : String → String → Link → Bool
is_supersedes_link new_id old_id l =
    is_supersedes l.type
    && is_obligation l.from.label
    && is_obligation l.to.label
    && l.from.id == new_id
    && l.to.id == old_id

-- MERGE (newObl)-[:SUPERSEDES]->(old)
abbrev pub merge_supersedes : String → String → List Link → List Link
merge_supersedes new_id old_id ls =
    if any (is_supersedes_link new_id old_id) ls
    then ls
    else ls ++ supersedes_link new_id old_id ∷ []

-- CREATE (from)-[:SUPERSEDES]->(to) for each pair of rows that the two MATCHes give
abbrev supersedes_to : List NodeRef → NodeRef → List Link
supersedes_to [] to = []
supersedes_to (from ∷ froms) to =
    record { type = EdgeType.supersedes; from = from; to = to } ∷ supersedes_to froms to

abbrev pub supersedes_pairs : List NodeRef → List NodeRef → List Link
supersedes_pairs froms [] = []
supersedes_pairs froms (to ∷ tos) = supersedes_to froms to ++ supersedes_pairs froms tos

module _ {N : Type 0} where
  -- `closeValidTo`; both reasons for a refusal are a `ConflictError`
  pub close_valid_to : SupersessionInstruction → Graph N → Result (Graph N)
  close_valid_to i g = elim i.kind [
    | SupersessionKind.circular ↦
        if any (is_live_circular i.old_id) g.circulars
        then ok
            (record g { circulars = map (close_circular i.old_id i.effective_date) g.circulars })
        else err conflict_error
    | SupersessionKind.obligation ↦
        if any (is_live_obligation i.old_id) g.obligations
        then ok (record g {
          obligations = map (close_obligation i.old_id i.effective_date) g.obligations;
        })
        else err conflict_error
  ]

  unfoldable pub apply_status_transition : ObligationStatusTransition → Graph N → Result (Graph N)
  apply_status_transition t g =
      if has_obligation t.obligation_id g
      then ok
          (record g { obligations = map (set_status t.obligation_id t.new_status) g.obligations })
      else err conflict_error

  unfoldable pub finalize_supersession :
      FinalizeSupersessionInstruction → Graph N → Result (Graph N)
  finalize_supersession f g =
      if any (is_live_obligation f.old_obligation_id) g.obligations
        && has_obligation f.new_obligation_id g
      then ok (record g {
        obligations = map (close_obligation f.old_obligation_id f.effective_date) g.obligations;
        links = merge_supersedes f.new_obligation_id f.old_obligation_id g.links;
      })
      else err conflict_error

  unfoldable pub match_and_create_edge : EdgeType → NodeRef → NodeRef → Graph N → Result (Graph N)
  match_and_create_edge type from to g =
      if has_node from g && has_node to g
      then ok (record g { links = g.links ++ record { type = type; from = from; to = to } ∷ [] })
      else err endpoints_not_found

  pub create_supersedes_edge : String → String → Graph N → Result (Graph N)
  create_supersedes_edge from_id to_id g =
      if is_empty (supersedes_pairs (carriers from_id g) (carriers to_id g))
      then err endpoints_not_found
      else ok
          (record g { links = g.links ++ supersedes_pairs (carriers from_id g) (carriers to_id g) })

  unfoldable pub create_edge : GraphEdge → Graph N → Result (Graph N)
  create_edge (GraphEdge.supersedes from_id to_id) = create_supersedes_edge from_id to_id
  create_edge (GraphEdge.part_of clause_id circular_id) =
      match_and_create_edge EdgeType.part_of (record { label = NodeLabel.clause; id = clause_id })
        (record { label = NodeLabel.circular; id = circular_id })
  create_edge (GraphEdge.derived_from obligation_id clause_id) =
      match_and_create_edge EdgeType.derived_from (obligation_ref obligation_id)
        (record { label = NodeLabel.clause; id = clause_id })
  create_edge (GraphEdge.applies_to obligation_id category_id) =
      match_and_create_edge EdgeType.applies_to (obligation_ref obligation_id)
        (record { label = NodeLabel.intermediary_category; id = category_id })
  create_edge (GraphEdge.mapped_to obligation_id task_id) =
      match_and_create_edge EdgeType.mapped_to (obligation_ref obligation_id)
        (record { label = NodeLabel.process_task; id = task_id })
  create_edge (GraphEdge.evidenced_by task_id evidence_id) =
      match_and_create_edge EdgeType.evidenced_by
        (record { label = NodeLabel.process_task; id = task_id })
        (record { label = NodeLabel.evidence_artifact; id = evidence_id })
  create_edge (GraphEdge.reviewed_by obligation_id review_id) =
      match_and_create_edge EdgeType.reviewed_by (obligation_ref obligation_id)
        (record { label = NodeLabel.human_review; id = review_id })

-- The counter of a key, raised by one: `counts[key] = (counts[key] ?? 0) + 1`.
pub bump : {K : Type 0} → (K → K → Bool) → K → List (K × ℕ) → List (K × ℕ)
bump same k [] = (k, 1) ∷ []
bump same k ((j, n) ∷ counts) =
    if same k j then (j, suc n) ∷ counts else (j, n) ∷ bump same k counts

abbrev pub edge_type : GraphEdge → EdgeType
edge_type (GraphEdge.supersedes _ _) = EdgeType.supersedes
edge_type (GraphEdge.part_of _ _) = EdgeType.part_of
edge_type (GraphEdge.derived_from _ _) = EdgeType.derived_from
edge_type (GraphEdge.applies_to _ _) = EdgeType.applies_to
edge_type (GraphEdge.mapped_to _ _) = EdgeType.mapped_to
edge_type (GraphEdge.evidenced_by _ _) = EdgeType.evidenced_by
edge_type (GraphEdge.reviewed_by _ _) = EdgeType.reviewed_by

abbrev same_edge_type : EdgeType → EdgeType → Bool
same_edge_type EdgeType.supersedes EdgeType.supersedes = true
same_edge_type EdgeType.part_of EdgeType.part_of = true
same_edge_type EdgeType.derived_from EdgeType.derived_from = true
same_edge_type EdgeType.applies_to EdgeType.applies_to = true
same_edge_type EdgeType.mapped_to EdgeType.mapped_to = true
same_edge_type EdgeType.evidenced_by EdgeType.evidenced_by = true
same_edge_type EdgeType.reviewed_by EdgeType.reviewed_by = true
same_edge_type _ _ = false

pub count_edges : List GraphEdge → List (EdgeType × ℕ) → List (EdgeType × ℕ)
count_edges [] counts = counts
count_edges (e ∷ es) counts = count_edges es (bump same_edge_type (edge_type e) counts)

-- A label is a key of the counts if the plan has a node of it.
abbrev count_label : {A : Type 0} → NodeLabel → List A → List (NodeLabel × ℕ)
count_label label xs = if is_empty xs then [] else (label, length xs) ∷ []

pub count_nodes : {N : Type 0} → PlanNodes N → List (NodeLabel × ℕ)
count_nodes ns =
    count_label NodeLabel.circular ns.circulars
    ++ (count_label NodeLabel.clause ns.clauses
        ++ (count_label NodeLabel.obligation ns.obligations
            ++ (count_label NodeLabel.process_task ns.process_tasks
                ++ (count_label NodeLabel.evidence_artifact ns.evidence_artifacts
                    ++ (count_label NodeLabel.intermediary_category ns.intermediary_categories
                        ++ count_label NodeLabel.human_review ns.human_reviews)))))

module _ {N : Type 0} where
  -- the loops of `executePlan`, in their order
  unfoldable pub write_plan : (now : String) → CommitPlan N → Graph N → Result (Graph N)
  write_plan now p g =
      each (create_circular now) p.nodes.circulars g
      >>= each (create_clause now) p.nodes.clauses
      >>= each (create_obligation now) p.nodes.obligations
      >>= each (create_process_task now) p.nodes.process_tasks
      >>= each (create_evidence_artifact now) p.nodes.evidence_artifacts
      >>= each create_intermediary_category p.nodes.intermediary_categories
      >>= each (create_human_review now) p.nodes.human_reviews
      >>= each close_valid_to p.supersessions
      >>= each apply_status_transition p.obligation_status_transitions
      >>= each finalize_supersession p.finalize_supersessions
      >>= each create_edge p.edges

  unfoldable pub plan_result : (now : String) → CommitPlan N → CommitResult
  unfolding count_nodes count_edges bump
  plan_result now p = record {
    proposal_id = p.proposal_id;
    committed_at = now;
    node_counts = count_nodes p.nodes;
    edge_counts = count_edges p.edges [];
    supersessions_applied = length p.supersessions + length p.finalize_supersessions;
  }

  -- MERGE (c:CommitLog {proposal_id: …}) ON CREATE SET …
  abbrev log_commit : CommitResult → Graph N → Graph N
  log_commit r g = record g { commit_log = Map.set g.commit_log r.proposal_id r }

  -- `executePlan`: a proposal that was committed before is answered from the log
  unfoldable pub execute_plan :
      (now : String) → CommitPlan N → Graph N → Result (CommitResult × Graph N)
  execute_plan now p g = elim (Map.get g.commit_log p.proposal_id) [
    | some logged ↦ ok (logged, g)
    | none ↦ write_plan now p g >>= λ written.
        ok (plan_result now p, log_commit (plan_result now p) written)
  ]

-- `session.executeWrite`: on a throw the database is as it was, and the error is wrapped.
abbrev pub settle : {A G : Type 0} → Result (A × G) → G → Result A × G
settle (ok (a, g')) g = (ok a, g')
settle (err e) g = (err (commit_error e), g)

module _ (F : Float) where
  open F use {Number}

  unfoldable pub commit_proposal :
      (now : String) → CommitPlan Number → Graph Number → Result CommitResult × Graph Number
  commit_proposal now p g = elim (validate_commit_plan F p) [
    | err e ↦ (err e, g)
    | ok valid ↦ settle (execute_plan now valid g) g
  ]
