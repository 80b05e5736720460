-- ===== src/Graph/Writer/Grows.antt =====
-- The graph is append-only: what a commit may do to the obligations that are there.
use sentinel_act.Prelude.{String, some, List, [], ◌∷◌, ◌++◌, ◌≡◌, refl, arith, map}
use sentinel_act.Float.{Float}
use sentinel_act.Schema.{Recorded, Obligation, ObligationStatus, GraphEdge}
use sentinel_act.Plan.{CommitPlan}
use sentinel_act.Graph.Store.{
  Graph, close_obligation, set_status, create_circular, create_clause, create_obligation,
  create_process_task, create_evidence_artifact, create_intermediary_category, create_human_review,
}
use sentinel_act.Graph.Writer.{
  close_valid_to, apply_status_transition, finalize_supersession, create_edge, commit_proposal,
  match_and_create_edge, create_supersedes_edge,
}
use sentinel_act.Graph.Writer.Leads.{Leads, IsKept, commit_proposal-R}

module _ {N : Type 0} where
  -- `y` is `x` with at most its status changed and its validity closed, if it was open.
  abbrev pub Kept : Recorded (Obligation N) → Recorded (Obligation N) → Type 0
  Kept x y =
      (y ≡ record x {
        input = record x.input { status = y.input.status; valid_to = y.input.valid_to };
      })
      × ((d : String) → x.input.valid_to ≡ some d → y.input.valid_to ≡ some d)

  -- The obligations keep their places, and new ones come after them.
  abbrev pub Grows : List (Recorded (Obligation N)) → List (Recorded (Obligation N)) → Type 0
  Grows [] ys = Unit
  Grows (x ∷ xs) [] = ⊥
  Grows (x ∷ xs) (y ∷ ys) = Kept x y × Grows xs ys

  pub Grows-refl : (xs : List (Recorded (Obligation N))) → Grows xs xs
  Grows-refl [] = tt
  Grows-refl (x ∷ xs) = ((refl, λ d e. e), Grows-refl xs)

  Grows-trans :
      (xs ys zs : List (Recorded (Obligation N))) → Grows xs ys → Grows ys zs → Grows xs zs
  Grows-trans [] ys zs h k = tt
  Grows-trans (x ∷ xs) [] zs h k = elim h [ ]
  Grows-trans (x ∷ xs) (y ∷ ys) [] h k = elim k [ ]
  Grows-trans (x ∷ xs) (y ∷ ys) (z ∷ zs) ((e, c), h) ((f, d), k) =
      ((ground arith, λ t v. d t (c t v)), Grows-trans xs ys zs h k)

  pub Grows-append : (xs ys : List (Recorded (Obligation N))) → Grows xs (xs ++ ys)
  Grows-append [] ys = tt
  Grows-append (x ∷ xs) ys = ((refl, λ d e. e), Grows-append xs ys)

  map-Grows :
      (f : Recorded (Obligation N) → Recorded (Obligation N))
      → ((x : Recorded (Obligation N)) → Kept x (f x))
      → (xs : List (Recorded (Obligation N))) → Grows xs (map f xs)
  map-Grows f h [] = tt
  map-Grows f h (x ∷ xs) = (h x, map-Grows f h xs)

  close_obligation-Kept :
      (id date : String) (x : Recorded (Obligation N)) → Kept x (close_obligation id date x)
  close_obligation-Kept id date x = ground arith

  set_status-Kept :
      (id : String) (s : ObligationStatus) (x : Recorded (Obligation N))
      → Kept x (set_status id s x)
  set_status-Kept id s x = ground arith

  abbrev GraphGrows : Graph N → Graph N → Type 0
  GraphGrows g h = Grows g.obligations h.obligations

  edge-GraphGrows : (x : GraphEdge) (g : Graph N) → Leads GraphGrows g (create_edge x g)
  unfolding create_edge create_supersedes_edge match_and_create_edge
  edge-GraphGrows (GraphEdge.supersedes a b) g = ground (arith, Grows-refl g.obligations)
  edge-GraphGrows x g = ground (arith, Grows-refl g.obligations)

  GraphGrows-kept : IsKept GraphGrows
  unfolding create_circular create_clause create_obligation create_process_task
      create_evidence_artifact create_intermediary_category create_human_review close_valid_to
      apply_status_transition finalize_supersession
  GraphGrows-kept = record {
    reflexive = λ g. Grows-refl g.obligations;
    transitive = λ g h k p q. Grows-trans g.obligations h.obligations k.obligations p q;
    circular = λ now x g. ground (arith, Grows-refl g.obligations);
    clause = λ now x g. ground (arith, Grows-refl g.obligations);
    obligation = λ now x g.
        ground (arith, Grows-append g.obligations (record { input = x; recorded_at = now } ∷ []));
    process_task = λ now x g. ground (arith, Grows-refl g.obligations);
    evidence = λ now x g. ground (arith, Grows-refl g.obligations);
    category = λ x g. ground (arith, Grows-refl g.obligations);
    review = λ now x g. ground (arith, Grows-refl g.obligations);
    close = λ x g. ground (
      arith,
      Grows-refl g.obligations,
      map-Grows (close_obligation x.old_id x.effective_date)
          (close_obligation-Kept x.old_id x.effective_date) g.obligations,
    );
    transition = λ x g. ground (
      arith,
      map-Grows (set_status x.obligation_id x.new_status)
          (set_status-Kept x.obligation_id x.new_status) g.obligations,
    );
    finalize = λ x g. ground (
      arith,
      map-Grows (close_obligation x.old_obligation_id x.effective_date)
          (close_obligation-Kept x.old_obligation_id x.effective_date) g.obligations,
    );
    edge = edge-GraphGrows;
    log = λ r g. Grows-refl g.obligations;
  }

-- Whatever a plan says and however its commit ends, no obligation is removed, moved or rewritten
-- but for its status and the end of its validity, an end that is set stays at its date, and new
-- obligations come after those that are there.
pub commit_proposal-Grows :
    (F : Float) (now : String) (p : CommitPlan F.Number) (g : Graph F.Number)
    → Grows g.obligations (commit_proposal F now p g).1.obligations
commit_proposal-Grows F now p g = commit_proposal-R F GraphGrows GraphGrows-kept now p g
