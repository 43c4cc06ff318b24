-- ===== src/Examples/GraphRuns.antt =====
-- Runs of the invalidation of a goal graph.
use across_orchestrator.Base.{◌≡◌, refl, ◌↔◌, true, not, ◌&&◌, [], ◌∷◌, nat_Eq, string_Eq, contains}
use across_orchestrator.GoalGraph.{
  Graph, add_sorted, sorted_set, named_only, directly_affected, advance, close, affected_criteria,
  compute_invalidation,
}
use across_orchestrator.GoalGraph.Closure.{Reached, affected-iff-Reached}
use across_orchestrator.GoalGraph.Evidence.{has_evidence, of_affected, evidence_divided}

-- The criterion `c` depends on `b`, which depends on `a`; `d` stands alone.
abbrev graph : Graph
graph =
    ("c", record { input_fingerprints = []; depends_on = "b" ∷ []; evidence_ids = "e3" ∷ [] })
    ∷ ("b", record { input_fingerprints = []; depends_on = "a" ∷ []; evidence_ids = "e2" ∷ [] })
    ∷ ("a", record { input_fingerprints = "f" ∷ []; depends_on = []; evidence_ids = "e1" ∷ [] })
    ∷ ("d", record { input_fingerprints = "g" ∷ []; depends_on = []; evidence_ids = "e4" ∷ [] })
    ∷ []

affected_in_order :
    (compute_invalidation graph ("f" ∷ [])).affected_criterion_ids ≡ "a" ∷ "b" ∷ "c" ∷ []
unfolding compute_invalidation affected_criteria close advance directly_affected sorted_set
    add_sorted named_only
affected_in_order = refl

affected-iff-Reached_example :
    let plan = compute_invalidation graph ("f" ∷ []) in
    (contains plan.affected_criterion_ids "c" ≡ true) ↔ Reached graph plan.changed_fingerprints "c"
affected-iff-Reached_example = affected-iff-Reached graph ("f" ∷ []) "c"

evidence_divided_example :
    let plan = compute_invalidation graph ("f" ∷ []) in
    (contains plan.stale_evidence_ids "e4" ≡ of_affected plan.affected_criterion_ids graph "e4")
    × (contains plan.preserved_evidence_ids "e4"
        ≡ (has_evidence graph "e4" && not (of_affected plan.affected_criterion_ids graph "e4")))
evidence_divided_example = evidence_divided graph ("f" ∷ []) "e4"
