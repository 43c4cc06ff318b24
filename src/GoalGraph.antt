-- ===== src/GoalGraph.antt =====
-- goal_graph.py: `compute_invalidation`, the criteria and the evidence that a change of input
-- fingerprints makes stale. A graph is its mapping of criteria, in the order of its items; an
-- absent or empty field of a criterion is an empty list. A set is a list read by membership, and
-- `sorted` of a set lists its elements once, in order. That the criteria are no mapping (a
-- ValueError) is ruled out by their type.
pub mod Closure
pub mod Evidence
use across_orchestrator.Base.{
  ℕ, zero, suc, ◌+◌, ◌-◌, ◌*◌, ◌/◌, ◌≤◌, ◌<◌, max, min, String, ◌≡◌, refl, sym, ap, ◌∙◌, subst, ◌≢◌,
  ◌↔◌, ◌⊎◌, inl, inr, Bool, true, false, not, ◌&&◌, ◌||◌, Option, none, some, List, [], ◌∷◌, ◌++◌,
  map, arith, eq_iff, ltb, leb, text_ltb, if◌then◌else◌, Eq, ◌==◌, nat_Eq, string_Eq, holds,
  holds-some, is_some, get_or, Bool-cases, Option-cases, length, any, all, All, contains, subset,
}

pub record Criterion : Type 0 where
  pub input_fingerprints : List String
  pub depends_on : List String
  pub evidence_ids : List String

pub record InvalidationPlan : Type 0 where
  pub changed_fingerprints : List String
  pub affected_criterion_ids : List String
  pub stale_evidence_ids : List String
  pub preserved_evidence_ids : List String
  pub stale_evidence_by_criterion : List (String × List String)

abbrev pub Graph : Type 0
Graph = List (String × Criterion)

-- The two sets share an element.
abbrev pub intersects : List String → List String → Bool
intersects xs ys = any (contains ys) xs

-- One more element of a sorted list without repetitions.
unfoldable pub add_sorted : String → List String → List String
add_sorted x [] = x ∷ []
add_sorted x (y ∷ ys) =
    let rest = add_sorted x ys in
    if x == y then y ∷ ys else if text_ltb x y then x ∷ y ∷ ys else y ∷ rest

-- `tuple(sorted(set(xs)))`
unfoldable pub sorted_set : List String → List String
sorted_set [] = []
sorted_set (x ∷ xs) = add_sorted x (sorted_set xs)

-- `tuple(sorted(xs))`, which keeps repetitions.
unfoldable pub insert_text : String → List String → List String
insert_text x [] = x ∷ []
insert_text x (y ∷ ys) =
    let rest = insert_text x ys in if text_ltb y x then y ∷ rest else x ∷ y ∷ ys

unfoldable pub sorted_texts : List String → List String
sorted_texts [] = []
sorted_texts (x ∷ xs) = insert_text x (sorted_texts xs)

-- `{str(item) for item in changed_fingerprints if str(item)}`
unfoldable pub named_only : List String → List String
named_only [] = []
named_only (x ∷ xs) = let rest = named_only xs in if x == "" then rest else x ∷ rest

-- The criteria with a changed input.
unfoldable pub directly_affected : List String → Graph → List String
directly_affected changed [] = []
directly_affected changed ((k, c) ∷ g) =
    let rest = directly_affected changed g in
    if intersects c.input_fingerprints changed then k ∷ rest else rest

-- The body of `while advanced`: one pass over the criteria from `affected` on, and whether the pass
-- (or what came before it) added a criterion.
unfoldable pub advance : Graph → List String → Bool → List String × Bool
advance [] affected advanced = (affected, advanced)
advance ((k, c) ∷ g) affected advanced =
    let same = advance g affected advanced in
    let more = advance g (k ∷ affected) true in
    if not (contains affected k) && intersects c.depends_on affected then more else same

-- The loop `while advanced`, for at most `fuel` passes.
unfoldable pub close : ℕ → Graph → List String → List String
close zero g affected = affected
close (suc fuel) g affected =
    let (next, advanced) = advance g affected false in
    let more = close fuel g next in if advanced then more else next

-- Each pass but the last adds a criterion, so there is one pass more than criteria at most.
unfoldable pub affected_criteria : Graph → List String → List String
affected_criteria g changed = close (suc (length g)) g (directly_affected changed g)

-- The evidence of the criteria that are affected, and of all of them.
unfoldable pub stale_evidence : List String → Graph → List String
stale_evidence affected [] = []
stale_evidence affected ((k, c) ∷ g) =
    let rest = stale_evidence affected g in
    if contains affected k then c.evidence_ids ++ rest else rest

unfoldable pub all_evidence : Graph → List String
all_evidence [] = []
all_evidence ((k, c) ∷ g) = c.evidence_ids ++ all_evidence g

-- `xs - ys`
unfoldable pub difference : List String → List String → List String
difference [] ys = []
difference (x ∷ xs) ys = let rest = difference xs ys in if contains ys x then rest else x ∷ rest

-- `sorted(criteria.items(), key=...)`
unfoldable pub insert_item : String × Criterion → Graph → Graph
insert_item x [] = x ∷ []
insert_item x (y ∷ g) =
    let rest = insert_item x g in if text_ltb y.0 x.0 then y ∷ rest else x ∷ y ∷ g

unfoldable pub sorted_items : Graph → Graph
sorted_items [] = []
sorted_items (x ∷ g) = insert_item x (sorted_items g)

unfoldable pub stale_by_criterion : List String → Graph → List (String × List String)
stale_by_criterion affected [] = []
stale_by_criterion affected ((k, c) ∷ g) =
    let rest = stale_by_criterion affected g in
    if contains affected k then (k, sorted_texts c.evidence_ids) ∷ rest else rest

unfoldable pub compute_invalidation : Graph → List String → InvalidationPlan
compute_invalidation g changed_fingerprints =
    let changed = sorted_set (named_only changed_fingerprints) in
    let affected = affected_criteria g changed in
    let stale = stale_evidence affected g in
    record {
      changed_fingerprints = changed;
      affected_criterion_ids = sorted_set affected;
      stale_evidence_ids = sorted_set stale;
      preserved_evidence_ids = sorted_set (difference (all_evidence g) stale);
      stale_evidence_by_criterion = stale_by_criterion affected (sorted_items g);
    }
