-- ===== src/Graph/Writer/Linked.antt =====
-- Every edge of the graph joins two nodes that are there.
use sentinel_act.Prelude.{
  String, [], ◌∷◌, ◌≡◌, refl, arith, ◌==◌, map, any, any-imp, subst, sym, true, ◌&&◌, Bool-cases,
  inl, inr,
}
use sentinel_act.Float.{Float}
use sentinel_act.Schema.{Recorded, Circular, IntermediaryCategory, Obligation}
use sentinel_act.Plan.{
  CommitPlan, ObligationStatusTransition, FinalizeSupersessionInstruction, SupersessionInstruction,
}
use sentinel_act.Graph.Store.{
  Graph, has_node, has_obligation, close_obligation, set_status, is_live_obligation,
  create_circular, create_clause, create_obligation, create_process_task, create_evidence_artifact,
  create_intermediary_category, create_human_review,
}
use sentinel_act.Graph.Writer.{
  close_valid_to, apply_status_transition, finalize_supersession, commit_proposal, merge_supersedes,
  is_supersedes_link, supersedes_link, obligation_ref,
}
use sentinel_act.Graph.Writer.Leads.{Leads, IsKept, commit_proposal-R}
use sentinel_act.Graph.Writer.Nodes.{
  IsLinked, KeepsLinks, KeepsLinks-of_links, KeepsLinks-of_nodes, KeepsLinks-refl, KeepsLinks-trans,
  HasNodesOf, create-KeepsLinks, grow_circulars, grow_clauses, grow_obligations, grow_process_tasks,
  grow_evidence_artifacts, grow_human_reviews, grow_categories, map_circulars, map_obligations,
}
use sentinel_act.Graph.Writer.Edges.{edge-KeepsLinks}

module _ {N : Type 0} where
  live-HasNode :
      (id : String) (g : Graph N)
      → any (is_live_obligation id) g.obligations ≡ true
      → has_obligation id g ≡ true
  unfolding has_obligation
  live-HasNode id g h =
      any-imp (is_live_obligation id) (λ r. r.input.obligation_id == id) (λ x q. ground arith)
        g.obligations h

  close_obligation-id :
      (id date : String) (x : Recorded (Obligation N))
      → (close_obligation id date x).input.obligation_id ≡ x.input.obligation_id
  close_obligation-id id date x = ground arith

  -- The graph after an old obligation is closed.
  abbrev closed : String → String → Graph N → Graph N
  closed id date g = record g { obligations = map (close_obligation id date) g.obligations }

  closed-KeepsLinks : (id date : String) (g : Graph N) → KeepsLinks g (closed id date g)
  closed-KeepsLinks id date g =
      KeepsLinks-of_nodes g (closed id date g)
        (map_obligations g (close_obligation id date) (close_obligation-id id date)) refl

  merged-KeepsLinks :
      (new_id old_id : String) (g : Graph N)
      → has_obligation new_id g ≡ true
      → has_obligation old_id g ≡ true
      → KeepsLinks g (record g { links = merge_supersedes new_id old_id g.links })
  merged-KeepsLinks new_id old_id g h k =
      elim (Bool-cases (any (is_supersedes_link new_id old_id) g.links)) [
        | inl there ↦
            subst (λ ls. KeepsLinks g (record g { links = ls })) (sym (rw there))
              (KeepsLinks-refl g)
        | inr absent ↦
            subst (λ ls. KeepsLinks g (record g { links = ls })) (sym (rw absent))
              (KeepsLinks-of_links g (supersedes_link new_id old_id ∷ [])
                (unfold has_node in ((h, k), tt)))
      ]

  finalize-KeepsLinks :
      (x : FinalizeSupersessionInstruction) (g : Graph N)
      → Leads KeepsLinks g (finalize_supersession x g)
  unfolding finalize_supersession
  finalize-KeepsLinks x g =
      elim (Bool-cases (
        any (is_live_obligation x.old_obligation_id) g.obligations
        && has_obligation x.new_obligation_id g)) [
          | inr refused ↦ rw refused tt
          | inl accepted ↦
              let g' = closed x.old_obligation_id x.effective_date g in
              let nodes = closed-KeepsLinks x.old_obligation_id x.effective_date g in
              let old_there : has_obligation x.old_obligation_id g ≡ true =
                live-HasNode x.old_obligation_id g (ground arith) in
              rw accepted (
                KeepsLinks-trans g g' _ nodes (
                  merged-KeepsLinks x.new_obligation_id x.old_obligation_id g'
                    (unfold has_node in nodes.0 (obligation_ref x.new_obligation_id) (ground arith))
                    (unfold has_node in nodes.0 (obligation_ref x.old_obligation_id) old_there)))
        ]

  close-KeepsLinks :
      (x : SupersessionInstruction) (g : Graph N) → Leads KeepsLinks g (close_valid_to x g)
  unfolding close_valid_to
  close-KeepsLinks x g = ground (
    arith,
    map_circulars g x.old_id x.effective_date,
    closed-KeepsLinks x.old_id x.effective_date g,
  )

  transition-KeepsLinks :
      (x : ObligationStatusTransition) (g : Graph N)
      → Leads KeepsLinks g (apply_status_transition x g)
  unfolding apply_status_transition
  transition-KeepsLinks x g = elim (Bool-cases (has_obligation x.obligation_id g)) [
    | inr absent ↦ rw absent tt
    | inl there ↦ rw there (
        KeepsLinks-of_nodes g
          (record g { obligations = map (set_status x.obligation_id x.new_status) g.obligations })
          (map_obligations g (set_status x.obligation_id x.new_status) (λ r. ground arith)) refl)
  ]

  circular-KeepsLinks :
      (now : String) (x : Circular) (g : Graph N) → Leads KeepsLinks g (create_circular now x g)
  unfolding create_circular
  circular-KeepsLinks now x g =
      elim (Bool-cases (any (λ r. r.input.source_hash == x.source_hash) g.circulars)) [
        | inl known ↦ rw known (KeepsLinks-refl g)
        | inr new ↦ rw new (
            create-KeepsLinks (λ c. c.circular_id) now x g.circulars g
              (λ xs. record g { circulars = xs }) (grow_circulars g))
      ]

  category-KeepsLinks :
      (x : IntermediaryCategory) (g : Graph N)
      → Leads KeepsLinks g (create_intermediary_category x g)
  unfolding create_intermediary_category
  category-KeepsLinks x g = ground (arith, KeepsLinks-refl g, grow_categories g (x ∷ []))

  KeepsLinks-kept : IsKept {N = N} KeepsLinks
  unfolding create_clause create_obligation create_process_task create_evidence_artifact
      create_human_review has_node has_obligation
  KeepsLinks-kept = record {
    reflexive = KeepsLinks-refl;
    transitive = KeepsLinks-trans;
    circular = circular-KeepsLinks;
    clause = λ now x g.
        create-KeepsLinks _ now x g.clauses g (λ xs. record g { clauses = xs }) (grow_clauses g);
    obligation = λ now x g.
        create-KeepsLinks _ now x g.obligations g (λ xs. record g { obligations = xs })
          (grow_obligations g);
    process_task = λ now x g.
        create-KeepsLinks _ now x g.process_tasks g (λ xs. record g { process_tasks = xs })
          (grow_process_tasks g);
    evidence = λ now x g.
        create-KeepsLinks _ now x g.evidence_artifacts g
          (λ xs. record g { evidence_artifacts = xs }) (grow_evidence_artifacts g);
    category = category-KeepsLinks;
    review = λ now x g.
        create-KeepsLinks _ now x g.human_reviews g (λ xs. record g { human_reviews = xs })
          (grow_human_reviews g);
    close = close-KeepsLinks;
    transition = transition-KeepsLinks;
    finalize = finalize-KeepsLinks;
    edge = edge-KeepsLinks;
    log = λ r g. (λ n h. h, λ q. q);
  }

-- If both ends of every edge are nodes of the graph, that is so after any commit, accepted or
-- refused, and every node is still there.
pub commit_proposal-IsLinked :
    (F : Float) (now : String) (p : CommitPlan F.Number) (g : Graph F.Number)
    → IsLinked g
    → IsLinked (commit_proposal F now p g).1 × HasNodesOf g (commit_proposal F now p g).1
commit_proposal-IsLinked F now p g h =
    let (nodes, links) = commit_proposal-R F KeepsLinks KeepsLinks-kept now p g in (links h, nodes)
