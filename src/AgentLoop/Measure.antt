-- ===== src/AgentLoop/Measure.antt =====
-- What a round of the agent loop uses up: a retry of the recovery policy, or a turn.
use native.Mathlib.Decide.{dec_lt}
use across_orchestrator.AgentLoop.Steps.{has_step}
use across_orchestrator.Base.{
  ℕ, ◌+◌, ◌-◌, ◌*◌, ◌≤◌, ◌<◌, String, ◌≡◌, refl, sym, ap, ◌∙◌, ◌⊎◌, inl, inr, true, false, Option,
  none, some, List, [], ◌∷◌, arith, if◌then◌else◌, ◌==◌, nat_Eq, string_Eq, holds, Bool-cases,
  contains,
}
use across_orchestrator.AgentLoop.State.{RecoveryPolicy, LoopEvent, step_recovered, LoopState}
use across_orchestrator.AgentLoop.{
  action_type_Eq, FailureType, adapter_error, approval_rejected, budget_exceeded,
  environment_blocked, lease_expired, max_runtime_exceeded, max_turns_exceeded, quality_failed,
  timeout, failure_number, failure_type_Eq, RecoveryAction, retry, recovery_action_Eq,
}
use across_orchestrator.AgentLoop.Recovery.{Rule, recovery_rule, recovery_attempt_count}

abbrev pub retries_of : Option Rule → ℕ
retries_of none = 0
retries_of (some rule) = if rule.action == retry then rule.max_retries else 0

-- The retries that the policy still has for a failure.
unfoldable pub retries_left : Option RecoveryPolicy → List LoopEvent → FailureType → ℕ
retries_left policy events f =
    retries_of (recovery_rule policy f) - recovery_attempt_count f retry events

abbrev pub all_failures : List FailureType
all_failures =
    adapter_error ∷ approval_rejected ∷ budget_exceeded ∷ environment_blocked ∷ lease_expired
    ∷ max_runtime_exceeded ∷ max_turns_exceeded ∷ quality_failed ∷ timeout ∷ []

unfoldable pub left_of : List FailureType → Option RecoveryPolicy → List LoopEvent → ℕ
left_of [] policy events = 0
left_of (f ∷ fs) policy events = retries_left policy events f + left_of fs policy events

unfoldable pub pending_retries : LoopState → ℕ
unfolding left_of retries_left
pending_retries s = left_of all_failures s.loop.metadata.recovery_policy s.events

-- The fuel that is enough: for each retry all the turns, and the turns that are left.
unfoldable pub fuel_for : LoopState → ℕ
fuel_for s = pending_retries s * (s.loop.max_turns + 1) + (s.loop.max_turns - s.loop.turn_count) + 1

failure_of : ℕ → FailureType
failure_of n =
    if n == 0
    then adapter_error
    else if n == 1
    then approval_rejected
    else if n == 2
    then budget_exceeded
    else if n == 3
    then environment_blocked
    else if n == 4
    then lease_expired
    else if n == 5
    then max_runtime_exceeded
    else if n == 6
    then max_turns_exceeded
    else if n == 7
    then quality_failed
    else timeout

failure_of-failure_number : (f : FailureType) → failure_of (failure_number f) ≡ f
unfolding failure_of
failure_of-failure_number adapter_error = refl
failure_of-failure_number approval_rejected = refl
failure_of-failure_number budget_exceeded = refl
failure_of-failure_number environment_blocked = refl
failure_of-failure_number lease_expired = refl
failure_of-failure_number max_runtime_exceeded = refl
failure_of-failure_number max_turns_exceeded = refl
failure_of-failure_number quality_failed = refl
failure_of-failure_number timeout = refl

number_test : (m n : ℕ) → m == n ≡ true → m ≡ n
number_test m n h = ground arith

same_failure : (f g : FailureType) → f == g ≡ true → f ≡ g
same_failure f g h =
    sym (failure_of-failure_number f)
    ∙ ap failure_of (number_test (failure_number f) (failure_number g) h)
    ∙ failure_of-failure_number g

pub all_failures-all : (f : FailureType) → contains all_failures f ≡ true
all_failures-all adapter_error = refl
all_failures-all approval_rejected = refl
all_failures-all budget_exceeded = refl
all_failures-all environment_blocked = refl
all_failures-all lease_expired = refl
all_failures-all max_runtime_exceeded = refl
all_failures-all max_turns_exceeded = refl
all_failures-all quality_failed = refl
all_failures-all timeout = refl

retries_left-le :
    (policy : Option RecoveryPolicy) (f g : FailureType) (action : RecoveryAction)
    (events : List LoopEvent)
    → retries_left policy (step_recovered f action ∷ events) g ≤ retries_left policy events g
unfolding retries_left recovery_attempt_count
retries_left-le policy f g action events = ground arith

retries_left-lt :
    (policy : Option RecoveryPolicy) (f : FailureType) (events : List LoopEvent)
    → recovery_attempt_count f retry events < retries_of (recovery_rule policy f)
    → retries_left policy (step_recovered f retry ∷ events) f < retries_left policy events f
unfolding retries_left recovery_attempt_count
retries_left-lt policy f events k = ground arith

-- A recorded recovery leaves no more retries than before, and fewer if it was one.
pub left_of-le :
    (fs : List FailureType) (policy : Option RecoveryPolicy) (f : FailureType)
    (action : RecoveryAction) (events : List LoopEvent)
    → left_of fs policy (step_recovered f action ∷ events) ≤ left_of fs policy events
unfolding left_of
left_of-le [] policy f action events = omega arith
left_of-le (g ∷ fs) policy f action events =
    omega (arith, retries_left-le policy f g action events, left_of-le fs policy f action events)

pub left_of-lt :
    (fs : List FailureType) (policy : Option RecoveryPolicy) (f : FailureType)
    (events : List LoopEvent)
    → contains fs f ≡ true
    → recovery_attempt_count f retry events < retries_of (recovery_rule policy f)
    → left_of fs policy (step_recovered f retry ∷ events) < left_of fs policy events
unfolding left_of
left_of-lt [] policy f events h k = cc
left_of-lt (g ∷ fs) policy f events h k = elim (Bool-cases (g == f)) [
  | inl same ↦
      rw (same_failure g f same)
        (omega (arith, retries_left-lt policy f events k, left_of-le fs policy f retry events))
  | inr other ↦ omega (
    arith,
    left_of-lt fs policy f events (ground arith) k,
    retries_left-le policy f g retry events,
  )
]

-- From `s` to `t` no retry is given back and no step is added but with the id `new`, and either a
-- retry is gone or `n` turns are.
pub record Progress (n : ℕ) (new : Option String) (s t : LoopState) : Type 0 where
  pub turns_kept : t.loop.max_turns ≡ s.loop.max_turns
  pub policy_kept : t.loop.metadata.recovery_policy ≡ s.loop.metadata.recovery_policy
  pub fewer : pending_retries t ≤ pending_retries s
  pub later : (pending_retries t < pending_retries s) ⊎ (s.loop.turn_count + n ≤ t.loop.turn_count)
  pub ids_kept :
      (id : String)
      → has_step id s.loop.steps ≡ false
      → holds new id ≡ false
      → has_step id t.loop.steps ≡ false

pub Progress-trans :
    {n : ℕ} {new : Option String} {s t u : LoopState}
    → Progress 0 new s t
    → Progress n new t u
    → Progress n new s u
Progress-trans p q = record {
  turns_kept = q.turns_kept ∙ p.turns_kept;
  policy_kept = q.policy_kept ∙ p.policy_kept;
  fewer = omega (arith, p.fewer, q.fewer);
  later = ground (arith, p.fewer, q.fewer, p.later, q.later);
  ids_kept = λ id h k. q.ids_kept id (p.ids_kept id h k) k;
}

pub Progress-then :
    {n : ℕ} {new : Option String} {s t u : LoopState}
    → Progress n new s t
    → Progress 0 new t u
    → Progress n new s u
Progress-then p q = record {
  turns_kept = q.turns_kept ∙ p.turns_kept;
  policy_kept = q.policy_kept ∙ p.policy_kept;
  fewer = omega (arith, p.fewer, q.fewer);
  later = ground (arith, p.fewer, q.fewer, p.later, q.later);
  ids_kept = λ id h k. q.ids_kept id (p.ids_kept id h k) k;
}

product-le : (p q w : ℕ) → p < q → p * w + w ≤ q * w
product-le p q w h = grind arith

measure_lt :
    (p q w m a b : ℕ)
    → p ≤ q
    → (p < q) ⊎ ((a + 1 ≤ b) × (a < m))
    → w ≡ m + 1
    → p * w + (m - b) + 1 < q * w + (m - a) + 1
measure_lt p q w m a b h (inl k) e = omega (arith, product-le p q w k)
measure_lt p q w m a b h (inr (k, l)) e = elim (dec_lt p q) [
  | yes lt ↦ omega (arith, product-le p q w lt)
  | no ge ↦ let same : p ≡ q = omega arith in rw same (omega arith)
]

pub fuel_for-lt :
    {new next : Option String} (s t u : LoopState)
    → Progress 0 new s t
    → t.loop.turn_count < t.loop.max_turns
    → Progress 1 next t u
    → fuel_for u < fuel_for s
unfolding fuel_for pending_retries
fuel_for-lt s t u p h q = rw (q.turns_kept ∙ p.turns_kept) (
    measure_lt (pending_retries u) (pending_retries s) (s.loop.max_turns + 1) s.loop.max_turns
      s.loop.turn_count u.loop.turn_count (omega (arith, p.fewer, q.fewer))
      (steps_of p.later q.later) refl)
  where
    steps_of :
        (pending_retries t < pending_retries s) ⊎ (s.loop.turn_count + 0 ≤ t.loop.turn_count)
        → (pending_retries u < pending_retries t) ⊎ (t.loop.turn_count + 1 ≤ u.loop.turn_count)
        → (pending_retries u < pending_retries s)
          ⊎ ((s.loop.turn_count + 1 ≤ u.loop.turn_count) × (s.loop.turn_count < s.loop.max_turns))
    steps_of (inl a) b = inl (omega (arith, q.fewer))
    steps_of (inr a) (inl b) = inl (omega (arith, p.fewer))
    steps_of (inr a) (inr b) = inr (omega arith, rw (← p.turns_kept) (omega arith))

product_mono : (p q w : ℕ) → p ≤ q → p * w ≤ q * w
product_mono p q w h = grind arith

measure_le :
    (p q w m a b : ℕ)
    → p ≤ q
    → (p < q) ⊎ (a + 0 ≤ b)
    → w ≡ m + 1
    → p * w + (m - b) + 1 ≤ q * w + (m - a) + 1
measure_le p q w m a b h (inl k) e = omega (arith, product-le p q w k)
measure_le p q w m a b h (inr k) e = omega (arith, product_mono p q w h)

pub fuel_for-le :
    {new : Option String} (s t : LoopState) → Progress 0 new s t → fuel_for t ≤ fuel_for s
unfolding fuel_for pending_retries
fuel_for-le s t p = rw p.turns_kept (
    measure_le (pending_retries t) (pending_retries s) (s.loop.max_turns + 1) s.loop.max_turns
      s.loop.turn_count t.loop.turn_count p.fewer p.later refl)
