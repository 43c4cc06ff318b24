-- ===== src/GoalGraph/Evidence.antt =====
-- How a plan divides the evidence of a graph.
use across_orchestrator.Base.{
  String, ◌≡◌, refl, sym, ◌∙◌, Bool, not, ◌&&◌, ◌||◌, List, [], ◌∷◌, ◌++◌, arith, eq_iff, nat_Eq,
  string_Eq, any, contains,
}
use across_orchestrator.GoalGraph.{
  Graph, sorted_set, named_only, affected_criteria, stale_evidence, all_evidence, difference,
  compute_invalidation,
}
use across_orchestrator.GoalGraph.Closure.{contains-sorted_set}

contains-append :
    (xs ys : List String) (e : String) → contains (xs ++ ys) e ≡ (contains xs e || contains ys e)
contains-append [] ys e = refl
contains-append (x ∷ xs) ys e = ground (arith, contains-append xs ys e)

-- The evidence `e` belongs to a criterion, or to one of the set.
abbrev pub has_evidence : Graph → String → Bool
has_evidence g e = any (λ (k, c). contains c.evidence_ids e) g

abbrev pub of_affected : List String → Graph → String → Bool
of_affected affected g e = any (λ (k, c). contains affected k && contains c.evidence_ids e) g

contains-all_evidence : (g : Graph) (e : String) → contains (all_evidence g) e ≡ has_evidence g e
unfolding all_evidence
contains-all_evidence [] e = refl
contains-all_evidence ((k, c) ∷ g) e =
    ground (arith, contains-append c.evidence_ids (all_evidence g) e, contains-all_evidence g e)

contains-stale_evidence :
    (affected : List String) (g : Graph) (e : String)
    → contains (stale_evidence affected g) e ≡ of_affected affected g e
unfolding stale_evidence
contains-stale_evidence affected [] e = refl
contains-stale_evidence affected ((k, c) ∷ g) e = ground (
  arith,
  contains-append c.evidence_ids (stale_evidence affected g) e,
  contains-stale_evidence affected g e,
)

contains-difference :
    (xs ys : List String) (e : String)
    → contains (difference xs ys) e ≡ (contains xs e && not (contains ys e))
unfolding difference
contains-difference [] ys e = refl
contains-difference (x ∷ xs) ys e = ground (arith, contains-difference xs ys e, eq_iff x e)

of_affected-cong :
    (a b : List String) (g : Graph) (e : String)
    → ((k : String) → contains a k ≡ contains b k)
    → of_affected a g e ≡ of_affected b g e
of_affected-cong a b [] e h = refl
of_affected-cong a b ((k, c) ∷ g) e h = ground (arith, h k, of_affected-cong a b g e h)

-- A plan names as stale exactly the evidence of the criteria that it names as affected, and as
-- preserved exactly the other evidence of the graph.
pub evidence_divided :
    (g : Graph) (changed : List String) (e : String)
    → let plan = compute_invalidation g changed in
      (contains plan.stale_evidence_ids e ≡ of_affected plan.affected_criterion_ids g e)
      × (contains plan.preserved_evidence_ids e
          ≡ (has_evidence g e && not (of_affected plan.affected_criterion_ids g e)))
unfolding compute_invalidation
evidence_divided g changed e =
    let affected = affected_criteria g (sorted_set (named_only changed)) in
    let same =
      of_affected-cong (sorted_set affected) affected g e (λ k. contains-sorted_set k affected) in
    let stale = contains-stale_evidence affected g e in
    (
      contains-sorted_set e _ ∙ stale ∙ sym same,
      contains-sorted_set e _
          ∙ contains-difference (all_evidence g) (stale_evidence affected g) e
          ∙ simp (contains-all_evidence g e, stale, same),
    )
