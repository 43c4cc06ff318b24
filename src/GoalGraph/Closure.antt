-- ===== src/GoalGraph/Closure.antt =====
-- The affected criteria are exactly those that a change reaches along the dependencies.
use across_orchestrator.Base.{
  ℕ, zero, suc, ◌≤◌, ◌<◌, String, ◌≡◌, refl, sym, ap, ◌∙◌, subst, ◌↔◌, inl, inr, Bool, true, false,
  not, ◌&&◌, ◌||◌, List, [], ◌∷◌, arith, eq_iff, if◌then◌else◌, ◌==◌, nat_Eq, string_Eq, Bool-cases,
  length, all, contains,
}
use across_orchestrator.GoalGraph.{
  Criterion, Graph, intersects, add_sorted, sorted_set, named_only, directly_affected, advance,
  close, affected_criteria, compute_invalidation,
}

-- An entry of the mapping.
pub data Entry (k : String) (c : Criterion) : Graph → Type 0 where
  here : {g : Graph} → Entry k c ((k, c) ∷ g)
  there : {x : String × Criterion} {g : Graph} → Entry k c g → Entry k c (x ∷ g)

-- A change reaches a criterion that has a changed input, and one that depends on a criterion that
-- it reaches.
pub data Reached (g : Graph) (changed : List String) : String → Type 0 where
  by_input :
      {k : String} {c : Criterion}
      → Entry k c g
      → intersects c.input_fingerprints changed ≡ true
      → Reached g changed k
  by_dependency :
      {k j : String} {c : Criterion}
      → Entry k c g
      → contains c.depends_on j ≡ true
      → Reached g changed j
      → Reached g changed k

contains-add_sorted :
    (x k : String) (ys : List String) → contains (add_sorted x ys) k ≡ (x == k || contains ys k)
unfolding add_sorted
contains-add_sorted x k [] = refl
contains-add_sorted x k (y ∷ ys) =
    ground (arith, contains-add_sorted x k ys, eq_iff x y, eq_iff x k, eq_iff y k)

pub contains-sorted_set :
    (k : String) (xs : List String) → contains (sorted_set xs) k ≡ contains xs k
unfolding sorted_set
contains-sorted_set k [] = refl
contains-sorted_set k (x ∷ xs) =
    contains-add_sorted x k (sorted_set xs) ∙ ap (λ b. x == k || b) (contains-sorted_set k xs)

-- A pass only adds.
advance-grows :
    (g : Graph) (affected : List String) (b : Bool) (k : String)
    → contains affected k ≡ true
    → contains (advance g affected b).0 k ≡ true
unfolding advance
advance-grows [] affected b k h = h
advance-grows ((i, c) ∷ g) affected b k h =
    ground (arith, advance-grows g affected b k, advance-grows g (i ∷ affected) true k)

advance-true : (g : Graph) (affected : List String) → (advance g affected true).1 ≡ true
unfolding advance
advance-true [] affected = refl
advance-true ((i, c) ∷ g) affected =
    ground (arith, advance-true g affected, advance-true g (i ∷ affected))

-- The set is closed under the dependencies of the graph.
abbrev pub closed : Graph → List String → Bool
closed g affected = all (λ (k, c). contains affected k || not (intersects c.depends_on affected)) g

-- A pass that adds nothing has found the set closed.
advance-closed :
    (g : Graph) (affected : List String)
    → (advance g affected false).1 ≡ false
    → ((advance g affected false).0 ≡ affected) × (closed g affected ≡ true)
unfolding advance
advance-closed [] affected h = (refl, refl)
advance-closed ((i, c) ∷ g) affected h =
    ground (arith, advance-closed g affected, advance-true g (i ∷ affected))

common :
    (xs ys : List String)
    → intersects xs ys ≡ true
    → (j : String) × (contains xs j ≡ true) × (contains ys j ≡ true)
common (x ∷ xs) ys h = elim (Bool-cases (contains ys x)) [
  | inl shared ↦ (x, ground (arith, eq_iff x x), shared)
  | inr other ↦ let (j, in_xs, in_ys) = common xs ys (ground arith) in (j, ground arith, in_ys)
]
common [] ys h = ground arith

intersects_of_common :
    (xs ys : List String) (j : String)
    → contains xs j ≡ true
    → contains ys j ≡ true
    → intersects xs ys ≡ true
intersects_of_common [] ys j h k = h
intersects_of_common (x ∷ xs) ys j h k = ground (arith, intersects_of_common xs ys j, eq_iff x j)

module _ (g : Graph) (changed : List String) where
  abbrev AllReached : List String → Type 0
  AllReached affected = (k : String) → contains affected k ≡ true → Reached g changed k

  abbrev Part : Graph → Type 0
  Part h = (k : String) (c : Criterion) → Entry k c h → Entry k c g

  Reached-cons :
      (i : String) (affected : List String)
      → Reached g changed i
      → AllReached affected
      → AllReached (i ∷ affected)
  Reached-cons i affected r h k k_in = elim (Bool-cases (i == k)) [
    | inl same ↦ subst (Reached g changed) ((eq_iff i k).0 same) r
    | inr other ↦ h k (ground arith)
  ]

  advance-Reached :
      (part : Graph) (affected : List String) (b : Bool)
      → Part part
      → AllReached affected
      → AllReached (advance part affected b).0
  unfolding advance
  advance-Reached [] affected b p h = h
  advance-Reached ((i, c) ∷ part) affected b p h =
      elim (Bool-cases (not (contains affected i) && intersects c.depends_on affected)) [
        | inl new ↦
            let (j, needed, known) = common c.depends_on affected (ground arith) in
            rw new (
              advance-Reached part (i ∷ affected) true (λ k d e. p k d (there e))
                (Reached-cons i affected (by_dependency (p i c here) needed (h j known)) h))
        | inr old ↦ rw old (advance-Reached part affected b (λ k d e. p k d (there e)) h)
      ]

  directly_affected-Reached :
      (part : Graph) → Part part → AllReached (directly_affected changed part)
  unfolding directly_affected
  directly_affected-Reached [] p = λ k h. ground arith
  directly_affected-Reached ((i, c) ∷ part) p =
      elim (Bool-cases (intersects c.input_fingerprints changed)) [
        | inl hit ↦ rw hit (
            Reached-cons i _ (by_input (p i c here) hit)
              (directly_affected-Reached part (λ k d e. p k d (there e))))
        | inr miss ↦ rw miss (directly_affected-Reached part (λ k d e. p k d (there e)))
      ]

  close-Reached :
      (fuel : ℕ) (affected : List String) → AllReached affected → AllReached (close fuel g affected)
  unfolding close
  close-Reached zero affected h = h
  close-Reached (suc fuel) affected h =
      let next = advance-Reached g affected false (λ k c e. e) h in
      elim (Bool-cases (advance g affected false).1) [
        | inl more ↦ rw more (close-Reached fuel _ next)
        | inr done ↦ rw done next
      ]

affected_criteria-Reached :
    (g : Graph) (changed : List String) (k : String)
    → contains (affected_criteria g changed) k ≡ true
    → Reached g changed k
unfolding affected_criteria
affected_criteria-Reached g changed =
    close-Reached g changed (suc (length g)) _ (directly_affected-Reached g changed g (λ k c e. e))

-- The number of criteria that are not in the set.
unaffected : Graph → List String → ℕ
unaffected [] affected = 0
unaffected ((k, c) ∷ g) affected =
    let rest = unaffected g affected in if contains affected k then rest else suc rest

unaffected_bound : (g : Graph) (affected : List String) → unaffected g affected ≤ length g
unfolding unaffected
unaffected_bound [] affected = ground arith
unaffected_bound ((i, c) ∷ g) affected = ground (arith, unaffected_bound g affected)

abbrev Grows : List String → List String → Type 0
Grows a b = (k : String) → contains a k ≡ true → contains b k ≡ true

unaffected-le : (g : Graph) (a b : List String) → Grows a b → unaffected g b ≤ unaffected g a
unfolding unaffected
unaffected-le [] a b h = ground arith
unaffected-le ((i, c) ∷ g) a b h = ground (arith, unaffected-le g a b h, h i)

unaffected-lt :
    (g : Graph) (a b : List String) (k : String) (c : Criterion)
    → Grows a b
    → Entry k c g
    → contains a k ≡ false
    → contains b k ≡ true
    → unaffected g b < unaffected g a
unfolding unaffected
unaffected-lt [] a b k c h e out new = elim e [ ]
unaffected-lt ((i, d) ∷ g) a b k c h here out new = ground (arith, unaffected-le g a b h)
unaffected-lt ((i, d) ∷ g) a b k c h (there e) out new =
    ground (arith, unaffected-lt g a b k c h e out new, h i)

-- A pass that reports progress has added a criterion of the graph.
advance_adds :
    (g : Graph) (affected : List String)
    → (advance g affected false).1 ≡ true
    → (k : String) × (c : Criterion) × Entry k c g
      × (contains affected k ≡ false)
      × (contains (advance g affected false).0 k ≡ true)
unfolding advance
advance_adds [] affected h = ground arith
advance_adds ((i, c) ∷ g) affected h =
    elim (Bool-cases (not (contains affected i) && intersects c.depends_on affected)) [
      | inl new ↦ (
        i,
        c,
        here,
        ground arith,
        rw new (advance-grows g (i ∷ affected) true i (ground (arith, eq_iff i i))),
      )
      | inr old ↦
          let (k, d, e, out, found) = advance_adds g affected (ground arith) in
          (k, d, there e, out, rw old found)
    ]

close-Grows :
    (fuel : ℕ) (g : Graph) (affected : List String) → Grows affected (close fuel g affected)
unfolding close
close-Grows zero g affected k h = h
close-Grows (suc fuel) g affected k h =
    let next = advance-grows g affected false k h in
    ground (arith, close-Grows fuel g (advance g affected false).0 k)

-- With more passes than criteria are missing, the loop ends because nothing is left to add.
close-closed :
    (fuel : ℕ) (g : Graph) (affected : List String)
    → unaffected g affected < fuel
    → closed g (close fuel g affected) ≡ true
unfolding close
close-closed zero g affected h = ground arith
close-closed (suc fuel) g affected h = elim (Bool-cases (advance g affected false).1) [
  | inl more ↦
      let (k, c, e, out, found) = advance_adds g affected more in
      let fewer =
        unaffected-lt g affected (advance g affected false).0 k c (advance-grows g affected false) e
          out found in
      rw more (close-closed fuel g _ (ground (arith, fewer)))
  | inr done ↦
      let (same, all_closed) = advance-closed g affected done in
      rw done (subst (λ a. closed g a ≡ true) (sym same) all_closed)
]

closed_at :
    (g : Graph) (affected : List String) (k j : String) (c : Criterion)
    → closed g affected ≡ true
    → Entry k c g
    → contains c.depends_on j ≡ true
    → contains affected j ≡ true
    → contains affected k ≡ true
closed_at [] affected k j c h e needed known = elim e [ ]
closed_at ((i, d) ∷ g) affected k j c h here needed known =
    ground (arith, intersects_of_common c.depends_on affected j)
closed_at ((i, d) ∷ g) affected k j c h (there e) needed known =
    closed_at g affected k j c (ground arith) e needed known

directly_affected_in :
    (g : Graph) (changed : List String) (k : String) (c : Criterion)
    → Entry k c g
    → intersects c.input_fingerprints changed ≡ true
    → contains (directly_affected changed g) k ≡ true
unfolding directly_affected
directly_affected_in [] changed k c e hit = elim e [ ]
directly_affected_in ((i, d) ∷ g) changed k c here hit = ground (arith, eq_iff k k)
directly_affected_in ((i, d) ∷ g) changed k c (there e) hit =
    ground (arith, directly_affected_in g changed k c e)

Reached-affected :
    (g : Graph) (changed : List String) (k : String)
    → Reached g changed k
    → contains (affected_criteria g changed) k ≡ true
unfolding affected_criteria
Reached-affected g changed k (by_input {c = c} e hit) =
    close-Grows (suc (length g)) g _ k (directly_affected_in g changed k c e hit)
Reached-affected g changed k (by_dependency {j = j} {c = c} e needed r) =
    let bound = unaffected_bound g (directly_affected changed g) in
    closed_at g _ k j c (close-closed (suc (length g)) g _ (ground (arith, bound))) e needed
      (Reached-affected g changed j r)

-- The criteria that a plan names are exactly those that a change of the given fingerprints reaches:
-- those with a changed input, and those that depend on a criterion that is reached, over any number
-- of steps. The passes that the loop is given are always enough.
pub affected-iff-Reached :
    (g : Graph) (changed : List String) (k : String)
    → let plan = compute_invalidation g changed in
      (contains plan.affected_criterion_ids k ≡ true) ↔ Reached g plan.changed_fingerprints k
unfolding compute_invalidation
affected-iff-Reached g changed k =
    let names = sorted_set (named_only changed) in
    let unsorted = contains-sorted_set k (affected_criteria g names) in
    (
      λ h. affected_criteria-Reached g names k (sym unsorted ∙ h),
      λ r. unsorted ∙ Reached-affected g names k r,
    )
