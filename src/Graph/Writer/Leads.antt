-- ===== src/Graph/Writer/Leads.antt =====
-- How a relation between the database before and after is carried from the steps of a plan to the
-- whole plan, and to `commit_proposal` on each of its branches.
use sentinel_act.Prelude.{
  String, Result, ok, err, ◌>>=◌, List, [], ◌∷◌, inl, inr, Option-cases, Result-cases,
}
use sentinel_act.Prelude.Map
use sentinel_act.Float.{Float}
use sentinel_act.Schema.{
  Circular, Clause, Obligation, ProcessTask, EvidenceArtifact, IntermediaryCategory, HumanReview,
  GraphEdge,
}
use sentinel_act.Plan.{
  CommitPlan, CommitResult, SupersessionInstruction, ObligationStatusTransition,
  FinalizeSupersessionInstruction,
}
use sentinel_act.Graph.Store.{
  Graph, create_circular, create_clause, create_obligation, create_process_task,
  create_evidence_artifact, create_intermediary_category, create_human_review,
}
use sentinel_act.Graph.Validate.{validate_commit_plan}
use sentinel_act.Graph.Writer.{
  each, close_valid_to, apply_status_transition, finalize_supersession, create_edge, write_plan,
  log_commit, execute_plan, settle, commit_proposal, plan_result,
}

-- If a step returns a graph, the relation holds of the graph before and that graph.
abbrev pub Leads : {G : Type 0} → (G → G → Type 0) → G → Result G → Type 0
Leads R g (ok g') = R g g'
Leads R g (err e) = Unit

-- A relation that every step of a plan respects.
pub record IsKept {N : Type 0} (R : Graph N → Graph N → Type 0) : Type 0 where
  pub reflexive : (g : Graph N) → R g g
  pub transitive : (g h k : Graph N) → R g h → R h k → R g k
  pub circular : (now : String) (x : Circular) (g : Graph N) → Leads R g (create_circular now x g)
  pub clause : (now : String) (x : Clause) (g : Graph N) → Leads R g (create_clause now x g)
  pub obligation :
      (now : String) (x : Obligation N) (g : Graph N) → Leads R g (create_obligation now x g)
  pub process_task :
      (now : String) (x : ProcessTask N) (g : Graph N) → Leads R g (create_process_task now x g)
  pub evidence :
      (now : String) (x : EvidenceArtifact) (g : Graph N)
      → Leads R g (create_evidence_artifact now x g)
  pub category :
      (x : IntermediaryCategory) (g : Graph N) → Leads R g (create_intermediary_category x g)
  pub review :
      (now : String) (x : HumanReview) (g : Graph N) → Leads R g (create_human_review now x g)
  pub close : (x : SupersessionInstruction) (g : Graph N) → Leads R g (close_valid_to x g)
  pub transition :
      (x : ObligationStatusTransition) (g : Graph N) → Leads R g (apply_status_transition x g)
  pub finalize :
      (x : FinalizeSupersessionInstruction) (g : Graph N) → Leads R g (finalize_supersession x g)
  pub edge : (x : GraphEdge) (g : Graph N) → Leads R g (create_edge x g)
  pub log : (r : CommitResult) (g : Graph N) → R g (log_commit r g)

module _ {N : Type 0} (R : Graph N → Graph N → Type 0) (kept : IsKept R) where
  bind-Leads :
      (g : Graph N) (m : Result (Graph N)) (f : Graph N → Result (Graph N))
      → Leads R g m
      → ((h : Graph N) → Leads R h (f h))
      → Leads R g (m >>= f)
  bind-Leads g (err e) f h k = tt
  bind-Leads g (ok g') f h k = after (f g') (k g')
    where
      after : (r : Result (Graph N)) → Leads R g' r → Leads R g r
      after (ok g'') q = kept.transitive g g' g'' h q
      after (err e) q = tt

  each-Leads :
      {A : Type 0} (step : A → Graph N → Result (Graph N))
      → ((x : A) (g : Graph N) → Leads R g (step x g))
      → (xs : List A) (g : Graph N) → Leads R g (each step xs g)
  unfolding each
  each-Leads step h [] g = kept.reflexive g
  each-Leads step h (x ∷ xs) g =
      bind-Leads g (step x g) (each step xs) (h x g) (each-Leads step h xs)

  pub write_plan-Leads :
      (now : String) (p : CommitPlan N) (g : Graph N) → Leads R g (write_plan now p g)
  unfolding write_plan
  write_plan-Leads now p g =
      bind-Leads g _ _
        (bind-Leads g _ _
          (bind-Leads g _ _
            (bind-Leads g _ _
              (bind-Leads g _ _
                (bind-Leads g _ _
                  (bind-Leads g _ _
                    (bind-Leads g _ _
                      (bind-Leads g _ _
                        (bind-Leads g _ _ (each-Leads _ (kept.circular now) _ g)
                          (each-Leads _ (kept.clause now) _))
                        (each-Leads _ (kept.obligation now) _))
                      (each-Leads _ (kept.process_task now) _))
                    (each-Leads _ (kept.evidence now) _))
                  (each-Leads _ kept.category _))
                (each-Leads _ (kept.review now) _))
              (each-Leads _ kept.close _))
            (each-Leads _ kept.transition _))
          (each-Leads _ kept.finalize _))
        (each-Leads _ kept.edge _)

  settle-R :
      (g : Graph N) (m : Result (Graph N)) (r : CommitResult)
      → Leads R g m
      → R g (settle (m >>= λ written. ok (r, log_commit r written)) g).1
  settle-R g (ok g') r h = kept.transitive g g' _ h (kept.log r g')
  settle-R g (err e) r h = kept.reflexive g

  pub execute_plan-R :
      (now : String) (p : CommitPlan N) (g : Graph N) → R g (settle (execute_plan now p g) g).1
  unfolding execute_plan
  execute_plan-R now p g = elim (Option-cases (Map.get g.commit_log p.proposal_id)) [
    | inl new ↦
        rw (new, settle, execute_plan)
          (settle-R g (write_plan now p g) (plan_result now p) (write_plan-Leads now p g))
    | inr (r, old) ↦ rw (old, settle, execute_plan) (kept.reflexive g)
  ]

module _ (F : Float) (R : Graph F.Number → Graph F.Number → Type 0) (kept : IsKept R) where
  pub commit_proposal-R :
      (now : String) (p : CommitPlan F.Number) (g : Graph F.Number)
      → R g (commit_proposal F now p g).1
  unfolding commit_proposal
  commit_proposal-R now p g = elim (Result-cases (validate_commit_plan F p)) [
    | inl (q, e) ↦ rw (e, commit_proposal) (execute_plan-R R kept now q g)
    | inr (x, e) ↦ rw (e, commit_proposal) (kept.reflexive g)
  ]
