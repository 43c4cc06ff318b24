-- ===== src/Exec.antt =====
-- Methods that change the durable state and may raise. What was written before a raise stays
-- written, so the state comes back beside the error too.
pub mod Keeps
use across_orchestrator.Base.{Bool, true, false, Option, none, some}

pub data Result {ℓ κ} (E : Type κ) (A : Type ℓ) : Type (ℓ ⊔ κ) where
  ok : A → Result E A
  err : E → Result E A

abbrev pub Exec : Type 0 → Type 0 → Type 0 → Type 0
Exec E S A = S → Result E A × S

module _ {E S A : Type 0} where
  unfoldable pub pure : A → Exec E S A
  pure a s = (ok a, s)

  unfoldable pub raise : E → Exec E S A
  raise e s = (err e, s)

  unfoldable pub gets : (S → A) → Exec E S A
  gets f s = (ok (f s), s)

  -- A value that must be there.
  unfoldable pub require : E → Option A → Exec E S A
  unfolding pure raise
  require e none = raise e
  require e (some a) = pure a

  -- A value that must be found in the state.
  unfoldable pub lookup : E → (S → Option A) → Exec E S A
  unfolding require
  lookup e find s = require e (find s) s

  unfoldable pub lift : Result E A → Exec E S A
  lift r s = (r, s)

module _ {E S : Type 0} where
  unfoldable pub modify : (S → S) → Exec E S (Unit {0})
  modify f s = (ok tt, f s)

  -- `if not test: raise e`
  unfoldable pub guard : Bool → E → Exec E S (Unit {0})
  unfolding pure raise
  guard true e = pure tt
  guard false e = raise e

  -- `if test: m`
  unfoldable pub when : Bool → Exec E S (Unit {0}) → Exec E S (Unit {0})
  unfolding pure
  when true m = m
  when false m = pure tt

module _ {E S A : Type 0} where
  -- `if test: m`, `else: k`
  unfoldable pub branch : Bool → Exec E S A → Exec E S A → Exec E S A
  branch true m k = m
  branch false m k = k

module _ {E S : Type 0} where
  -- `if test: ...; raise e`, where `m` is what is done before the exception
  unfoldable pub raise_if : Bool → (S → Result E (Unit {0}) × S) → E → Exec E S (Unit {0})
  raise_if true m e s = elim (m s).0 [ ok u ↦ (err e, (m s).1) | err f ↦ (err f, (m s).1) ]
  raise_if false m e s = (ok tt, s)

module _ {E S A B : Type 0} where
  abbrev pub resume : Result E A × S → (A → Exec E S B) → Result E B × S
  resume (ok a, s) f = f a s
  resume (err e, s) f = (err e, s)

  infixl 10 ◌>>=◌ ◌>>◌
  -- To unfold it is to unfold all that actions are made of.
  unfoldable pub ◌>>=◌ : Exec E S A → (A → Exec E S B) → Exec E S B
  unfolding pure raise gets require lookup lift modify guard when branch raise_if
  ◌>>=◌ m f s = resume (m s) f

  abbrev pub ◌>>◌ : Exec E S A → Exec E S B → Exec E S B
  m >> k = m >>= λ _. k
