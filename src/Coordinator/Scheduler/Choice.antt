-- ===== src/Coordinator/Scheduler/Choice.antt =====
-- `choose_node` picks a node that may take the job, and none that may is ranked above it.
use across_orchestrator.Protocol.Status.{is_online}
use across_orchestrator.Base.{
  ◌≡◌, subst, inl, inr, Bool, true, false, ◌&&◌, ◌||◌, none, some, List, [], ◌∷◌, arith, ltb, leb,
  ◌==◌, nat_Eq, string_Eq, Bool-cases, Option-cases, all, All,
}
use across_orchestrator.Protocol.Capability.{CapabilityManifest, supports}
use across_orchestrator.Protocol.Job.{JobManifest}
use across_orchestrator.Store.{Node}
use across_orchestrator.Coordinator.Scheduler.{
  job_requirements, shared_labels, ranks_before, is_candidate, best_node,
}

-- The order that the scheduling rule documents, without the tie-break by id: more preferred labels,
-- then less load, then more disk.
abbrev pub at_least_as_good : JobManifest → CapabilityManifest → CapabilityManifest → Bool
at_least_as_good m a b =
    let x = shared_labels m.preferred_labels a.labels in
    let y = shared_labels m.preferred_labels b.labels in
    ltb y x
    || (x == y
        && (ltb a.current_load b.current_load
            || (a.current_load == b.current_load
                && leb b.disk_available_bytes a.disk_available_bytes)))

module _ (m : JobManifest) where
  ranked-good :
      (a b : CapabilityManifest) → ranks_before m a b ≡ true → at_least_as_good m a b ≡ true
  unfolding ranks_before
  ranked-good a b h = ground arith

  unranked-good :
      (a b : CapabilityManifest) → ranks_before m a b ≡ false → at_least_as_good m b a ≡ true
  unfolding ranks_before
  unranked-good a b h = ground arith

  good_trans :
      (a b c : CapabilityManifest)
      → at_least_as_good m a b ≡ true
      → at_least_as_good m b c ≡ true
      → at_least_as_good m a c ≡ true
  good_trans a b c h k = ground arith

  good_refl : (a : CapabilityManifest) → at_least_as_good m a a ≡ true
  good_refl a = ground arith

  abbrev pub Beats : Node → Node → Type 0
  Beats n x =
      is_candidate m x ≡ true
      → at_least_as_good m n.capability_manifest x.capability_manifest ≡ true

  Beats-All :
      (n o : Node) (xs : List Node)
      → at_least_as_good m n.capability_manifest o.capability_manifest ≡ true
      → All (Beats o) xs
      → All (Beats n) xs
  Beats-All n o [] h all = tt
  Beats-All n o (x ∷ xs) h (first, all) = (
    λ c. good_trans n.capability_manifest o.capability_manifest x.capability_manifest h (first c),
    Beats-All n o xs h all,
  )

  none-Beats : (xs : List Node) (n : Node) → best_node m xs ≡ none → All (Beats n) xs
  unfolding best_node
  none-Beats [] n h = tt
  none-Beats (x ∷ xs) n h = elim (Option-cases (best_node m xs)) [
    | inl e ↦ (λ c. absurd (ground arith), none-Beats xs n e)
    | inr (o, e) ↦ absurd (ground arith)
  ]

  abbrev IsBest : List Node → Node → Type 0
  IsBest xs n = (is_candidate m n ≡ true) × All (Beats n) xs

  best_node-IsBest : (xs : List Node) (n : Node) → best_node m xs ≡ some n → IsBest xs n
  unfolding best_node
  best_node-IsBest [] n h = absurd (cc)
  best_node-IsBest (x ∷ xs) n h = elim (Option-cases (best_node m xs)) [
    | inl e ↦ elim (Bool-cases (is_candidate m x)) [
      | inl c ↦
          let same : x ≡ n = ground arith in
          subst (IsBest (x ∷ xs)) same
            (c, ((λ _. good_refl x.capability_manifest), none-Beats xs x e))
      | inr c ↦ absurd (ground arith)
    ]
    | inr (o, e) ↦
        let (cand, best) = best_node-IsBest xs o e in
        elim (Bool-cases (is_candidate m x)) [
          | inl c ↦ elim (Bool-cases (ranks_before m o.capability_manifest x.capability_manifest)) [
            | inl r ↦
                let same : o ≡ n = ground arith in
                subst (IsBest (x ∷ xs)) same
                  (cand, ((λ _. ranked-good o.capability_manifest x.capability_manifest r), best))
            | inr r ↦
                let same : x ≡ n = ground arith in
                subst (IsBest (x ∷ xs)) same (
                  c,
                  (
                    (λ _. good_refl x.capability_manifest),
                    Beats-All x o xs (unranked-good o.capability_manifest x.capability_manifest r)
                        best,
                  ),
                )
          ]
          | inr c ↦
              let same : o ≡ n = ground arith in
              subst (IsBest (x ∷ xs)) same (cand, ((λ d. absurd (cc)), best))
        ]
  ]

  -- What the choice of `n` among `xs` says of it.
  pub record IsChosen (xs : List Node) (n : Node) : Type 0 where
    pub online : is_online n.state ≡ true
    pub accepts : n.draining ≡ false
    pub supported : supports n.capability_manifest (job_requirements m) ≡ true
    pub best : All (Beats n) xs

  -- The node that is chosen is online, not draining and supports the job, and is at least as good
  -- as every node that is so: by preferred labels, then load, then disk.
  pub best_node-IsChosen : (xs : List Node) (n : Node) → best_node m xs ≡ some n → IsChosen xs n
  unfolding is_candidate
  best_node-IsChosen xs n h =
      let (candidate, best) = best_node-IsBest xs n h in
      record {
        online = ground (arith, candidate);
        accepts = ground (arith, candidate);
        supported = ground (arith, candidate);
        best = best;
      }
