-- ===== src/Dict.antt =====
-- src/across_orchestrator/worker_store.py: one collection of the store, a map from record ids to
-- records. The entries are kept in the order in which `list` walks the record files, which is that
-- of the file names, `record_id` with ".json" behind it.
pub mod Sweep
pub mod Keyed
use Prim.Native.String.{◌++◌ as text_append}
use across_orchestrator.Base.{
  ℕ, zero, suc, ◌+◌, ◌-◌, ◌*◌, ◌/◌, ◌≤◌, ◌<◌, max, min, String, ◌≡◌, refl, sym, ap, ◌∙◌, subst, ◌≢◌,
  ◌↔◌, ◌⊎◌, inl, inr, Bool, true, false, not, ◌&&◌, ◌||◌, Option, none, some, List, [], ◌∷◌, ◌++◌,
  map, arith, eq_iff, ltb, leb, text_ltb, if◌then◌else◌, Eq, ◌==◌, nat_Eq, string_Eq, holds,
  holds-some, is_some, get_or, Bool-cases, Option-cases, length, any, all, All, contains, subset,
}

-- The order of the files of two records.
abbrev pub file_ltb : String → String → Bool
file_ltb j k = text_ltb (text_append j ".json") (text_append k ".json")

module _ {V : Type 0} where
  unfoldable pub get : String → List (String × V) → Option V
  get k [] = none
  get k ((j, v) ∷ m) = if j == k then some v else get k m

  unfoldable pub remove : String → List (String × V) → List (String × V)
  remove k [] = []
  remove k ((j, w) ∷ m) = let rest = remove k m in if j == k then rest else (j, w) ∷ rest

  -- A new entry goes in front of the first later file.
  insert : String → V → List (String × V) → List (String × V)
  insert k v [] = (k, v) ∷ []
  insert k v ((j, w) ∷ m) =
      let rest = insert k v m in if file_ltb k j then (k, v) ∷ (j, w) ∷ m else (j, w) ∷ rest

  unfoldable pub put : String → V → List (String × V) → List (String × V)
  unfolding insert remove
  put k v m = insert k v (remove k m)

  unfoldable pub values : List (String × V) → List V
  values [] = []
  values ((j, v) ∷ m) = v ∷ values m

  abbrev pub keys : List (String × V) → List String
  keys [] = []
  keys ((k, v) ∷ m) = k ∷ keys m

  pub get_of_absent :
      (k : String) (m : List (String × V)) → contains (keys m) k ≡ false → get k m ≡ none
  unfolding get
  get_of_absent k [] h = refl
  get_of_absent k ((i, w) ∷ m) h = ground (arith, get_of_absent k m)

  contains-keys-remove :
      (j k : String) (m : List (String × V))
      → contains (keys (remove k m)) j ≡ (not (k == j) && contains (keys m) j)
  unfolding remove
  contains-keys-remove j k [] = ground arith
  contains-keys-remove j k ((i, w) ∷ m) =
      ground (arith, contains-keys-remove j k m, eq_iff i k, eq_iff i j, eq_iff k j)

  contains-keys-insert :
      (j k : String) (v : V) (m : List (String × V))
      → contains (keys (insert k v m)) j ≡ (k == j || contains (keys m) j)
  unfolding insert
  contains-keys-insert j k v [] = refl
  contains-keys-insert j k v ((i, w) ∷ m) = ground (arith, contains-keys-insert j k v m)

  get-insert :
      (k j : String) (v : V) (m : List (String × V))
      → contains (keys m) k ≡ false
      → get j (insert k v m) ≡ (if k == j then some v else get j m)
  unfolding get insert
  get-insert k j v [] h = refl
  get-insert k j v ((i, w) ∷ m) h =
      ground (arith, eq_iff k j, eq_iff i k, eq_iff i j, get-insert k j v m)

  remove-insert :
      (k : String) (v : V) (m : List (String × V))
      → contains (keys m) k ≡ false
      → remove k (insert k v m) ≡ m
  unfolding remove insert
  remove-insert k v [] h = ground (arith, eq_iff k k)
  remove-insert k v ((i, w) ∷ m) h =
      ground (arith, eq_iff k k, remove-insert k v m, remove_absent k m)
    where
      remove_absent :
          (j : String) (l : List (String × V)) → contains (keys l) j ≡ false → remove j l ≡ l
      remove_absent j [] e = refl
      remove_absent j ((i', x) ∷ l) e = ground (arith, remove_absent j l)

  removed_absent : (k : String) (m : List (String × V)) → contains (keys (remove k m)) k ≡ false
  removed_absent k m = ground (arith, contains-keys-remove k k m, eq_iff k k)

  pub get-remove :
      (k j : String) (m : List (String × V))
      → get j (remove k m) ≡ (if k == j then none else get j m)
  unfolding get remove
  get-remove k j [] = ground arith
  get-remove k j ((i, w) ∷ m) = ground (arith, eq_iff k j, eq_iff i k, eq_iff i j, get-remove k j m)

  pub get-put :
      (k j : String) (v : V) (m : List (String × V))
      → get j (put k v m) ≡ (if k == j then some v else get j m)
  unfolding put
  get-put k j v m =
      ground (arith, get-insert k j v (remove k m), removed_absent k m, get-remove k j m)

  -- A second write of a record replaces the first, in place.
  pub put-put : (k : String) (v w : V) (m : List (String × V)) → put k v (put k w m) ≡ put k v m
  unfolding put
  put-put k v w m = ap (insert k v) (remove-insert k w (remove k m) (removed_absent k m))

  length-insert :
      (k : String) (v : V) (m : List (String × V)) → length (insert k v m) ≡ length m + 1
  unfolding insert
  length-insert k v [] = omega arith
  length-insert k v ((i, w) ∷ m) = ground (arith, length-insert k v m)

  length-remove-le : (k : String) (m : List (String × V)) → length (remove k m) ≤ length m
  unfolding remove
  length-remove-le k [] = omega arith
  length-remove-le k ((i, w) ∷ m) = ground (arith, length-remove-le k m)

  pub length-put-le :
      (k : String) (v : V) (m : List (String × V)) → length (put k v m) ≤ length m + 1
  unfolding put
  length-put-le k v m = omega (arith, length-insert k v (remove k m), length-remove-le k m)

  -- Removing a key that is there makes the dictionary smaller.
  pub length-remove-lt :
      (k : String) (m : List (String × V)) (v : V)
      → get k m ≡ some v
      → length (remove k m) < length m
  unfolding get remove
  length-remove-lt k [] v h = cc
  length-remove-lt k ((i, w) ∷ m) v h = ground (arith, length-remove-le k m, length-remove-lt k m v)

  -- Writing to a key that is there makes the dictionary no longer.
  pub length-put-known :
      (k : String) (v : V) (m : List (String × V))
      → is_some (get k m) ≡ true
      → length (put k v m) ≤ length m
  unfolding put
  length-put-known k v m h = elim (Option-cases (get k m)) [
    | inl missing ↦ ground (arith, missing)
    | inr (w, found) ↦ omega (arith, length-insert k v (remove k m), length-remove-lt k m w found)
  ]

  -- Each key stands once, and each record bears its key as its id.
  abbrev pub IsKeyed : (V → String) → List (String × V) → Type 0
  IsKeyed id [] = Unit
  IsKeyed id ((k, v) ∷ m) = (contains (keys m) k ≡ false) × (id v ≡ k) × IsKeyed id m
