-- ===== src/Dict/Sweep.antt =====
-- A loop over the records of a collection that writes back those that a test selects.
use across_orchestrator.Base.{
  String, ◌≡◌, refl, ◌∙◌, inl, inr, Bool, false, ◌&&◌, Option, none, some, List, [], ◌∷◌, arith,
  eq_iff, if◌then◌else◌, ◌==◌, nat_Eq, string_Eq, Bool-cases, contains,
}
use across_orchestrator.Dict.{get, put, values, keys, get-put, IsKeyed}
use across_orchestrator.Dict.{values}

module _ {V : Type 0} (id : V → String) (test : V → Bool) (f : V → V) where
  sweep_step : V → List (String × V) → List (String × V)
  sweep_step v m = if test v then put (id v) (f v) m else m

  unfoldable pub sweep : List V → List (String × V) → List (String × V)
  unfolding sweep_step
  sweep [] m = m
  sweep (v ∷ vs) m = sweep vs (sweep_step v m)

  -- What becomes of one record.
  abbrev pub swept : Option V → Option V
  swept none = none
  swept (some v) = some (if test v then f v else v)

  get-sweep_step :
      (k : String) (v : V) (m : List (String × V))
      → get k (sweep_step v m) ≡ (if id v == k && test v then some (f v) else get k m)
  unfolding sweep_step
  get-sweep_step k v m = ground (arith, get-put (id v) k (f v) m, eq_iff (id v) k)

  sweep_other :
      (k : String) (d m : List (String × V))
      → contains (keys d) k ≡ false
      → IsKeyed id d
      → get k (sweep (values d) m) ≡ get k m
  unfolding sweep values
  sweep_other k [] m h keyed = refl
  sweep_other k ((i, v) ∷ d) m h (fresh, named, keyed) =
      sweep_other k d (sweep_step v m) (ground arith) keyed
      ∙ ground (arith, get-sweep_step k v m, eq_iff i k, eq_iff (id v) k)

  sweep_at :
      (k : String) (d m : List (String × V))
      → IsKeyed id d
      → get k m ≡ get k d
      → get k (sweep (values d) m) ≡ swept (get k d)
  unfolding sweep values get
  sweep_at k [] m keyed same = same
  sweep_at k ((i, v) ∷ d) m (fresh, named, keyed) same = elim (Bool-cases (i == k)) [
    | inl hit ↦
        sweep_other k d (sweep_step v m) (ground (arith, eq_iff i k)) keyed
        ∙ ground (arith, get-sweep_step k v m, eq_iff i k, eq_iff (id v) k)
    | inr miss ↦
        sweep_at k d (sweep_step v m) keyed
          (ground (arith, get-sweep_step k v m, eq_iff i k, eq_iff (id v) k))
        ∙ rw miss refl
  ]

  -- In a collection whose records carry their keys, each record is swept once.
  pub get-sweep :
      (k : String) (d : List (String × V))
      → IsKeyed id d
      → get k (sweep (values d) d) ≡ swept (get k d)
  get-sweep k d keyed = sweep_at k d d keyed refl
