-- ===== src/Graph/Writer/Edges.antt =====
-- The edges that a plan creates join nodes that are there.
use sentinel_act.Prelude.{
  String, List, [], ◌∷◌, ◌≡◌, arith, eq_refl, map, All, All-append, true, filter, ◌&&◌, Bool-cases,
  inl, inr, Bool, All-filter, All-map, All-map_of, is_empty,
}
use sentinel_act.Schema.{Recorded, GraphEdge}
use sentinel_act.Plan.{NodeLabel, EdgeType}
use sentinel_act.Graph.Store.{Graph, NodeRef, has_id, has_node, has_obligation, carriers}
use sentinel_act.Graph.Writer.{
  create_edge, match_and_create_edge, create_supersedes_edge, supersedes_pairs, supersedes_to,
}
use sentinel_act.Graph.Writer.Leads.{Leads}
use sentinel_act.Graph.Writer.Nodes.{Ends, KeepsLinks, KeepsLinks-of_links}

-- Every element of a list is found by its key.
has_id_self :
    {A : Type 0} (key : A → String) (xs : List (Recorded A))
    → All (λ r. has_id key (key r.input) xs ≡ true) xs
has_id_self key [] = tt
has_id_self key (x ∷ xs) = (
  rw eq_refl,
  All-map (λ r. has_id key (key r.input) xs ≡ true) (λ r. has_id key (key r.input) (x ∷ xs) ≡ true)
      (λ r h. ground arith) xs (has_id_self key xs),
)

module _ {N : Type 0} where
  -- What `carriers` finds are nodes of the graph.
  rows-HasNode :
      {A : Type 0} (key : A → String) (label : NodeLabel) (p : Recorded A → Bool) (g : Graph N)
      (xs : List (Recorded A))
      → ((id : String)
          → has_id key id xs ≡ true
          → has_node (record { label = label; id = id }) g ≡ true)
      → All
          (λ n. has_node n g ≡ true)
          (map (λ r. record { label = label; id = key r.input }) (filter p xs))
  rows-HasNode key label p g xs h =
      All-map_of (λ n. has_node n g ≡ true) (λ r. record { label = label; id = key r.input })
        (filter p xs)
        (All-filter _ p xs (
          All-map (λ r. has_id key (key r.input) xs ≡ true)
            (λ r. has_node (record { label = label; id = key r.input }) g ≡ true)
            (λ r q. h (key r.input) q) xs (has_id_self key xs)))

  carriers-HasNode : (id : String) (g : Graph N) → All (λ n. has_node n g ≡ true) (carriers id g)
  unfolding carriers has_node has_obligation
  carriers-HasNode id g =
      All-append _ _ _
        (rows-HasNode (λ c. c.circular_id) NodeLabel.circular _ g g.circulars (λ k h. h))
        (All-append _ _ _
          (rows-HasNode (λ c. c.clause_id) NodeLabel.clause _ g g.clauses (λ k h. h))
          (All-append _ _ _
            (rows-HasNode (λ o. o.obligation_id) NodeLabel.obligation _ g g.obligations (λ k h. h))
            (All-append _ _ _
              (rows-HasNode (λ t. t.task_id) NodeLabel.process_task _ g g.process_tasks (λ k h. h))
              (rows-HasNode (λ r. r.review_id) NodeLabel.human_review _ g g.human_reviews
                (λ k h. h)))))

  supersedes_to-Ends :
      (g : Graph N) (froms : List NodeRef) (to : NodeRef)
      → All (λ n. has_node n g ≡ true) froms
      → has_node to g ≡ true
      → All (Ends g) (supersedes_to froms to)
  supersedes_to-Ends g [] to h k = tt
  supersedes_to-Ends g (from ∷ froms) to (f, h) k = ((f, k), supersedes_to-Ends g froms to h k)

  supersedes_pairs-Ends :
      (g : Graph N) (froms tos : List NodeRef)
      → All (λ n. has_node n g ≡ true) froms
      → All (λ n. has_node n g ≡ true) tos
      → All (Ends g) (supersedes_pairs froms tos)
  supersedes_pairs-Ends g froms [] h k = tt
  supersedes_pairs-Ends g froms (to ∷ tos) h (k, ks) =
      All-append (Ends g) (supersedes_to froms to) (supersedes_pairs froms tos)
        (supersedes_to-Ends g froms to h k) (supersedes_pairs-Ends g froms tos h ks)

  match-KeepsLinks :
      (type : EdgeType) (from to : NodeRef) (g : Graph N)
      → Leads KeepsLinks g (match_and_create_edge type from to g)
  unfolding match_and_create_edge
  match-KeepsLinks type from to g = elim (Bool-cases (has_node from g && has_node to g)) [
    | inl found ↦ rw found (
        KeepsLinks-of_links g (record { type = type; from = from; to = to } ∷ [])
          (((ground arith), (ground arith)), tt))
    | inr missing ↦ rw missing tt
  ]

  pub edge-KeepsLinks : (x : GraphEdge) (g : Graph N) → Leads KeepsLinks g (create_edge x g)
  unfolding create_edge create_supersedes_edge
  edge-KeepsLinks (GraphEdge.supersedes from_id to_id) g =
      elim (Bool-cases (is_empty (supersedes_pairs (carriers from_id g) (carriers to_id g)))) [
        | inl none_found ↦ rw none_found tt
        | inr found ↦ rw found (
            KeepsLinks-of_links g _
              (supersedes_pairs-Ends g _ _ (carriers-HasNode from_id g) (carriers-HasNode to_id g)))
      ]
  edge-KeepsLinks (GraphEdge.part_of _ _) g = match-KeepsLinks _ _ _ g
  edge-KeepsLinks (GraphEdge.derived_from _ _) g = match-KeepsLinks _ _ _ g
  edge-KeepsLinks (GraphEdge.applies_to _ _) g = match-KeepsLinks _ _ _ g
  edge-KeepsLinks (GraphEdge.mapped_to _ _) g = match-KeepsLinks _ _ _ g
  edge-KeepsLinks (GraphEdge.evidenced_by _ _) g = match-KeepsLinks _ _ _ g
  edge-KeepsLinks (GraphEdge.reviewed_by _ _) g = match-KeepsLinks _ _ _ g
