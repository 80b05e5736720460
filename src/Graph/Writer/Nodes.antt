-- ===== src/Graph/Writer/Nodes.antt =====
-- Nodes are never removed, and a step that adds nodes or edges keeps every edge between two nodes.
use sentinel_act.Prelude.{
  String, List, ◌++◌, ◌≡◌, refl, arith, ◌==◌, map, All, All-append, All-map, any-append_left,
  any-map, true, subst, sym, ap, ok, ◌>>=◌, Bool-cases, inl, inr,
}
use sentinel_act.Schema.{
  Recorded, Circular, Clause, Obligation, ProcessTask, HumanReview, EvidenceArtifact,
  IntermediaryCategory,
}
use sentinel_act.Graph.Store.{
  Graph, Link, NodeRef, has_id, create, has_node, has_obligation, close_circular,
}
use sentinel_act.Graph.Writer.Leads.{Leads}

module _ {N : Type 0} where
  abbrev pub Ends : Graph N → Link → Type 0
  Ends g l = (has_node l.from g ≡ true) × (has_node l.to g ≡ true)

  -- Both ends of every edge are nodes of the graph.
  abbrev pub IsLinked : Graph N → Type 0
  IsLinked g = All (Ends g) g.links

  -- The nodes of `g` are nodes of `h`.
  abbrev pub HasNodesOf : Graph N → Graph N → Type 0
  HasNodesOf g h = (n : NodeRef) → has_node n g ≡ true → has_node n h ≡ true

  abbrev pub KeepsLinks : Graph N → Graph N → Type 0
  KeepsLinks g h = HasNodesOf g h × (IsLinked g → IsLinked h)

  All-Ends : (g h : Graph N) → HasNodesOf g h → (ls : List Link) → All (Ends g) ls → All (Ends h) ls
  All-Ends g h m ls e = All-map (Ends g) (Ends h) (λ l q. (m l.from q.0, m l.to q.1)) ls e

  -- A step that adds nodes and leaves the edges alone.
  pub KeepsLinks-of_nodes : (g h : Graph N) → HasNodesOf g h → h.links ≡ g.links → KeepsLinks g h
  KeepsLinks-of_nodes g h m e = (m, λ q. subst (All (Ends h)) (sym e) (All-Ends g h m g.links q))

  -- A step that adds edges between nodes.
  pub KeepsLinks-of_links :
      (g : Graph N) (ls : List Link)
      → All (Ends g) ls
      → KeepsLinks g (record g { links = g.links ++ ls })
  unfolding has_node
  KeepsLinks-of_links g ls h = (λ n q. q, λ q. All-append (Ends g) g.links ls q h)

  -- More nodes of one label.
  pub grow_circulars :
      (g : Graph N) (ys : List (Recorded Circular))
      → KeepsLinks g (record g { circulars = g.circulars ++ ys })
  unfolding has_node has_obligation
  grow_circulars g ys =
      KeepsLinks-of_nodes g (record g { circulars = g.circulars ++ ys })
        (λ n h. ground (arith, any-append_left (λ r. r.input.circular_id == n.id) g.circulars ys))
        refl

  pub grow_clauses :
      (g : Graph N) (ys : List (Recorded Clause))
      → KeepsLinks g (record g { clauses = g.clauses ++ ys })
  unfolding has_node has_obligation
  grow_clauses g ys =
      KeepsLinks-of_nodes g (record g { clauses = g.clauses ++ ys })
        (λ n h. ground (arith, any-append_left (λ r. r.input.clause_id == n.id) g.clauses ys)) refl

  pub grow_obligations :
      (g : Graph N) (ys : List (Recorded (Obligation N)))
      → KeepsLinks g (record g { obligations = g.obligations ++ ys })
  unfolding has_node has_obligation
  grow_obligations g ys =
      KeepsLinks-of_nodes g (record g { obligations = g.obligations ++ ys })
        (λ n h.
          ground (arith, any-append_left (λ r. r.input.obligation_id == n.id) g.obligations ys))
        refl

  pub grow_process_tasks :
      (g : Graph N) (ys : List (Recorded (ProcessTask N)))
      → KeepsLinks g (record g { process_tasks = g.process_tasks ++ ys })
  unfolding has_node has_obligation
  grow_process_tasks g ys =
      KeepsLinks-of_nodes g (record g { process_tasks = g.process_tasks ++ ys })
        (λ n h. ground (arith, any-append_left (λ r. r.input.task_id == n.id) g.process_tasks ys))
        refl

  pub grow_evidence_artifacts :
      (g : Graph N) (ys : List (Recorded EvidenceArtifact))
      → KeepsLinks g (record g { evidence_artifacts = g.evidence_artifacts ++ ys })
  unfolding has_node has_obligation
  grow_evidence_artifacts g ys =
      KeepsLinks-of_nodes g (record g { evidence_artifacts = g.evidence_artifacts ++ ys })
        (λ n h.
          ground
            (arith, any-append_left (λ r. r.input.evidence_id == n.id) g.evidence_artifacts ys))
        refl

  pub grow_human_reviews :
      (g : Graph N) (ys : List (Recorded HumanReview))
      → KeepsLinks g (record g { human_reviews = g.human_reviews ++ ys })
  unfolding has_node has_obligation
  grow_human_reviews g ys =
      KeepsLinks-of_nodes g (record g { human_reviews = g.human_reviews ++ ys })
        (λ n h. ground (arith, any-append_left (λ r. r.input.review_id == n.id) g.human_reviews ys))
        refl

  pub grow_categories :
      (g : Graph N) (ys : List IntermediaryCategory)
      → KeepsLinks g (record g { intermediary_categories = g.intermediary_categories ++ ys })
  unfolding has_node
  grow_categories g ys =
      KeepsLinks-of_nodes g (record g { intermediary_categories = g.intermediary_categories ++ ys })
        (λ n h.
          ground (arith, any-append_left (λ c. c.category_id == n.id) g.intermediary_categories ys))
        refl

  pub KeepsLinks-trans : (g h k : Graph N) → KeepsLinks g h → KeepsLinks h k → KeepsLinks g k
  KeepsLinks-trans g h k (m, p) (n, q) = (λ x e. n x (m x e), λ l. q (p l))

  pub KeepsLinks-refl : (g : Graph N) → KeepsLinks g g
  KeepsLinks-refl g = (λ n q. q, λ q. q)

  -- A guarded CREATE of one label.
  pub create-KeepsLinks :
      {A : Type 0} (key : A → String) (now : String) (x : A) (xs : List (Recorded A)) (g : Graph N)
      (put : List (Recorded A) → Graph N)
      → ((ys : List (Recorded A)) → KeepsLinks g (put (xs ++ ys)))
      → Leads KeepsLinks g (create key now x xs >>= λ zs. ok (put zs))
  create-KeepsLinks key now x xs g put h = elim (Bool-cases (has_id key (key x) xs)) [
    | inl old ↦ rw old tt
    | inr new ↦ rw new (h _)
  ]

  -- Nodes of one label changed in place, their keys kept.
  pub map_circulars :
      (g : Graph N) (id date : String)
      → KeepsLinks g (record g { circulars = map (close_circular id date) g.circulars })
  unfolding has_node
  map_circulars g id date =
      KeepsLinks-of_nodes g (record g { circulars = map (close_circular id date) g.circulars })
        (λ n h. ground (
          arith,
          any-map (λ r. r.input.circular_id == n.id) (close_circular id date) (λ x. ground arith)
              g.circulars,
        ))
        refl

  pub map_obligations :
      (g : Graph N) (f : Recorded (Obligation N) → Recorded (Obligation N))
      → ((x : Recorded (Obligation N)) → (f x).input.obligation_id ≡ x.input.obligation_id)
      → HasNodesOf g (record g { obligations = map f g.obligations })
  unfolding has_node has_obligation
  map_obligations g f keep n h = ground (
    arith,
    any-map (λ r. r.input.obligation_id == n.id) f (λ x. ap (λ k. k == n.id) (keep x))
        g.obligations,
  )
