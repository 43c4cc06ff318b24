-- ===== src/Dict/Keyed.antt =====
-- Dictionaries that name each key once and whose records carry their own id, as the record files of
-- the store do.
use across_orchestrator.Base.{
  String, ◌≡◌, refl, inl, inr, false, some, List, [], ◌∷◌, arith, eq_iff, ◌==◌, nat_Eq, string_Eq,
  Bool-cases, contains,
}
use across_orchestrator.Dict.{file_ltb, get, remove, put, keys, IsKeyed}
use across_orchestrator.Dict.{
  file_ltb, insert, contains-keys-remove, contains-keys-insert, removed_absent,
}

module _ {V : Type 0} where
  remove-IsKeyed :
      (id : V → String) (k : String) (m : List (String × V))
      → IsKeyed id m
      → IsKeyed id (remove k m)
  unfolding remove
  remove-IsKeyed id k [] h = tt
  remove-IsKeyed id k ((i, w) ∷ m) (fresh, named, h) = elim (Bool-cases (i == k)) [
    | inl same ↦ rw same (remove-IsKeyed id k m h)
    | inr other ↦
        rw other (ground (arith, contains-keys-remove i k m), named, remove-IsKeyed id k m h)
  ]

  insert-IsKeyed :
      (id : V → String) (k : String) (v : V) (m : List (String × V))
      → id v ≡ k
      → contains (keys m) k ≡ false
      → IsKeyed id m
      → IsKeyed id (insert k v m)
  unfolding insert
  insert-IsKeyed id k v [] e new h = (refl, e, tt)
  insert-IsKeyed id k v ((i, w) ∷ m) e new (fresh, named, h) = elim (Bool-cases (file_ltb k i)) [
    | inl before ↦ rw before (new, e, (fresh, named, h))
    | inr behind ↦ rw behind (
      ground (arith, contains-keys-insert i k v m, eq_iff k i, eq_iff i k),
      named,
      insert-IsKeyed id k v m e (ground arith) h,
    )
  ]

  pub put-IsKeyed :
      (id : V → String) (k : String) (v : V) (m : List (String × V))
      → id v ≡ k
      → IsKeyed id m
      → IsKeyed id (put k v m)
  unfolding put
  put-IsKeyed id k v m e h =
      insert-IsKeyed id k v (remove k m) e (removed_absent k m) (remove-IsKeyed id k m h)

  pub get-IsKeyed :
      (id : V → String) (k : String) (v : V) (m : List (String × V))
      → IsKeyed id m
      → get k m ≡ some v
      → id v ≡ k
  unfolding get
  get-IsKeyed id k v [] h found = ground arith
  get-IsKeyed id k v ((i, w) ∷ m) (fresh, named, h) found = elim (Bool-cases (i == k)) [
    | inl same ↦ ground (arith, eq_iff i k)
    | inr other ↦ get-IsKeyed id k v m h (ground arith)
  ]
