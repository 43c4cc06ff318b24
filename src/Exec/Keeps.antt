-- ===== src/Exec/Keeps.antt =====
-- Invariants of actions: one rule for each way in which a method is put together.
use across_orchestrator.Base.{◌≡◌, refl, Bool, true, false, Option, none, some, nat_Eq, string_Eq}
use across_orchestrator.Exec.{
  Result, ok, err, Exec, pure, raise, gets, require, lookup, lift, modify, guard, when, branch,
  raise_if, resume, ◌>>=◌, ◌>>◌,
}

-- Whether it returns or raises, `m` leaves a state with `P` in a state with `P`.
pub record Keeps {E S A : Type 0} (P : S → Type 0) (m : Exec E S A) : Type 0 where
  pub at : (s : S) → P s → P (m s).1

module _ {E S : Type 0} {P : S → Type 0} where
  pub Keeps-modify : (f : S → S) → ((s : S) → P s → P (f s)) → Keeps {E = E} P (modify f)
  unfolding modify
  Keeps-modify f h = record { at = h }

  pub Keeps-when :
      (b : Bool) {m : Exec E S (Unit {0})} → (b ≡ true → Keeps P m) → Keeps P (when b m)
  unfolding when pure
  Keeps-when true h = h refl
  Keeps-when false h = record { at = λ s p. p }

module _ {E S A : Type 0} {P : S → Type 0} where
  pub Keeps-pure : (a : A) → Keeps {E = E} P (pure a)
  unfolding pure
  Keeps-pure a = record { at = λ s h. h }

  pub Keeps-raise : (e : E) → Keeps {A = A} P (raise e)
  unfolding raise
  Keeps-raise e = record { at = λ s h. h }

  pub Keeps-gets : (f : S → A) → Keeps {E = E} P (gets f)
  unfolding gets
  Keeps-gets f = record { at = λ s h. h }

  pub Keeps-lift : (r : Result E A) → Keeps P (lift r)
  unfolding lift
  Keeps-lift r = record { at = λ s h. h }

  pub Keeps-require : (e : E) (o : Option A) → Keeps P (require e o)
  unfolding require
  Keeps-require e none = Keeps-raise e
  Keeps-require e (some a) = Keeps-pure a

  pub Keeps-lookup : (e : E) (find : S → Option A) → Keeps P (lookup e find)
  unfolding lookup
  Keeps-lookup e find = record { at = λ s p. (Keeps-require e (find s)).at s p }

  pub Keeps-branch :
      (b : Bool) (m k : Exec E S A)
      → (b ≡ true → Keeps P m)
      → (b ≡ false → Keeps P k)
      → Keeps P (branch b m k)
  unfolding branch
  Keeps-branch true m k hm hk = hm refl
  Keeps-branch false m k hm hk = hk refl

  -- After a guard its test holds.
  pub Keeps-guard :
      (b : Bool) (e : E) (m : Exec E S A) → (b ≡ true → Keeps P m) → Keeps P (guard b e >> m)
  unfolding ◌>>=◌
  Keeps-guard true e m h = record { at = λ s p. (h refl).at s p }
  Keeps-guard false e m h = record { at = λ s p. p }

module _ {E S A B : Type 0} {P : S → Type 0} where
  resume_keeps :
      (r : Result E A) (s : S) (f : A → Exec E S B)
      → P s
      → ((a : A) → Keeps P (f a))
      → P (resume (r, s) f).1
  resume_keeps (ok a) s f p h = (h a).at s p
  resume_keeps (err e) s f p h = p

  pub Keeps-bind :
      (m : Exec E S A) (f : A → Exec E S B)
      → Keeps P m
      → ((a : A) → Keeps P (f a))
      → Keeps P (m >>= f)
  unfolding ◌>>=◌
  Keeps-bind m f hm hf = record {
    at = λ s p. let (r, t) = m s in resume_keeps r t f (hm.at s p) hf;
  }

  require_keeps :
      (e : E) (o : Option A) (f : A → Exec E S B) (s : S)
      → P s
      → ((a : A) → o ≡ some a → Keeps P (f a))
      → P (resume (require e o s) f).1
  unfolding require pure raise
  require_keeps e none f s p h = p
  require_keeps e (some a) f s p h = (h a refl).at s p

  -- What follows a lookup may use a property that the invariant has of whatever is found.
  pub Keeps-found :
      (Q : A → Type 0) (e : E) (find : S → Option A) (f : A → Exec E S B)
      → ((s : S) (a : A) → P s → find s ≡ some a → Q a)
      → ((a : A) → Q a → Keeps P (f a))
      → Keeps P (lookup e find >>= f)
  unfolding ◌>>=◌
  Keeps-found Q e find f known h = record {
    at = λ s p. require_keeps e (find s) f s p (λ a found. h a (known s a p found));
  }

  pub Keeps-required :
      (e : E) (o : Option A) (f : A → Exec E S B)
      → ((a : A) → o ≡ some a → Keeps P (f a))
      → Keeps P (require e o >>= f)
  unfolding ◌>>=◌
  Keeps-required e o f h = record { at = λ s p. require_keeps e o f s p h }

module _ {E S A : Type 0} where
  raised_keeps :
      (Q : S → Type 0) (r : Result E (Unit {0})) (t : S) (e : E) (k : Exec E S A)
      → Q t
      → Q (resume {A = Unit {0}} (elim r [ ok u ↦ (err e, t) | err f ↦ (err f, t) ]) (λ _. k)).1
  raised_keeps Q (ok u) t e k h = h
  raised_keeps Q (err f) t e k h = h

module _ {E S A : Type 0} {P : S → Type 0} where
  -- Behind the exception its test does not hold.
  pub Keeps-raise_if :
      (b : Bool) (m : Exec E S (Unit {0})) (e : E) (k : Exec E S A)
      → (b ≡ true → Keeps P m)
      → (b ≡ false → Keeps P k)
      → Keeps P (raise_if b m e >> k)
  unfolding ◌>>=◌
  Keeps-raise_if true m e k hm hk = record {
    at = λ s p. raised_keeps P (m s).0 (m s).1 e k ((hm refl).at s p);
  }
  Keeps-raise_if false m e k hm hk = record { at = λ s p. (hk refl).at s p }

pub ruleset keeps_rules = (
  Keeps-pure, Keeps-raise, Keeps-gets, Keeps-lift, Keeps-require, Keeps-lookup, Keeps-branch,
  Keeps-when, Keeps-guard, Keeps-bind,
)
