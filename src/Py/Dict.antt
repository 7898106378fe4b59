-- ===== src/Py/Dict.antt =====
-- Python's `dict` with `str` keys: an association list in insertion order. Writing to a key that is
-- present keeps its place; a new key goes to the end.
use project_nexus.Prelude.{
  ◌≡◌, refl, Bool, true, false, ◌||◌, Option, none, some, List, [], ◌∷◌, ◌++◌, String, arith,
  eq_iff, eq_refl, ◌==◌, if◌then◌else◌,
}

abbrev pub Dict {ℓ} : Type ℓ → Type ℓ
Dict V = List (String × V)

module _ {ℓ} {V : Type ℓ} where
  -- d.get(k)
  unfoldable pub lookup : String → Dict V → Option V
  lookup k [] = none
  lookup k ((j, v) ∷ d) = if j == k then some v else lookup k d

  -- d[k] = v
  unfoldable pub insert : String → V → Dict V → Dict V
  insert k v [] = (k, v) ∷ []
  insert k v ((j, w) ∷ d) = if j == k then (j, v) ∷ d else (j, w) ∷ insert k v d

  -- d.pop(k, None)
  unfoldable pub erase : String → Dict V → Dict V
  erase k [] = []
  erase k ((j, v) ∷ d) = if j == k then d else (j, v) ∷ erase k d

  -- k in d
  unfoldable pub contains : String → Dict V → Bool
  contains k [] = false
  contains k ((j, v) ∷ d) = j == k || contains k d

  -- d.values()
  unfoldable pub values : Dict V → List V
  values [] = []
  values ((j, v) ∷ d) = v ∷ values d

  -- d.keys()
  unfoldable pub keys : Dict V → List String
  keys [] = []
  keys ((j, v) ∷ d) = j ∷ keys d

  pub lookup-insert :
      (k j : String) (v : V) (d : Dict V)
      → lookup j (insert k v d) ≡ (if k == j then some v else lookup j d)
  unfolding lookup insert
  lookup-insert k j v [] = refl
  lookup-insert k j v ((i, w) ∷ d) =
      ground (arith, eq_iff k j, eq_iff i k, eq_iff i j, lookup-insert k j v d)

  pub contains-insert :
      (k j : String) (v : V) (d : Dict V) → contains j (insert k v d) ≡ (k == j || contains j d)
  unfolding contains insert
  contains-insert k j v [] = refl
  contains-insert k j v ((i, w) ∷ d) =
      ground (arith, eq_iff k j, eq_iff i k, eq_iff i j, contains-insert k j v d)

  -- A new key goes to the end.
  pub insert_fresh :
      (k : String) (v : V) (d : Dict V) → contains k d ≡ false → insert k v d ≡ d ++ (k, v) ∷ []
  unfolding contains insert
  insert_fresh k v [] h = refl
  insert_fresh k v ((i, w) ∷ d) h = ground (arith, insert_fresh k v d)

  pub keys-insert_present :
      (k : String) (v : V) (d : Dict V) → contains k d ≡ true → keys (insert k v d) ≡ keys d
  unfolding contains insert keys
  keys-insert_present k v [] h = ground arith
  keys-insert_present k v ((i, w) ∷ d) h = ground (arith, keys-insert_present k v d)

  pub contains_of_lookup :
      (k : String) (v : V) (d : Dict V) → lookup k d ≡ some v → contains k d ≡ true
  unfolding contains lookup
  contains_of_lookup k v [] h = ground arith
  contains_of_lookup k v ((i, w) ∷ d) h = ground (arith, contains_of_lookup k v d)

  pub lookup_of_not_contains : (k : String) (d : Dict V) → contains k d ≡ false → lookup k d ≡ none
  unfolding contains lookup
  lookup_of_not_contains k [] h = refl
  lookup_of_not_contains k ((i, w) ∷ d) h = ground (arith, lookup_of_not_contains k d)

  pub not_contains_of_lookup : (k : String) (d : Dict V) → lookup k d ≡ none → contains k d ≡ false
  unfolding contains lookup
  not_contains_of_lookup k [] h = refl
  not_contains_of_lookup k ((i, w) ∷ d) h = ground (arith, not_contains_of_lookup k d)

  -- No key stands twice, which holds of every Python dict.
  abbrev pub IsDistinct : Dict V → Type 0
  IsDistinct [] = Unit
  IsDistinct ((k, v) ∷ d) = (contains k d ≡ false) × IsDistinct d

  pub insert-IsDistinct :
      (k : String) (v : V) (d : Dict V) → IsDistinct d → IsDistinct (insert k v d)
  unfolding insert contains
  insert-IsDistinct k v [] h = (refl, tt)
  insert-IsDistinct k v ((j, w) ∷ d) h =
      ground (arith, eq_iff j k, eq_iff k j, contains-insert k j v d, insert-IsDistinct k v d h.1)

  pub contains-insert_present :
      (k : String) (v : V) (d : Dict V) (j : String)
      → contains k d ≡ true
      → contains j (insert k v d) ≡ contains j d
  contains-insert_present k v d j h = ground (arith, contains-insert k j v d, eq_iff k j)

  pub lookup-insert_self : (k : String) (v : V) (d : Dict V) → lookup k (insert k v d) ≡ some v
  lookup-insert_self k v d = rw (lookup-insert, eq_refl)

  pub contains-erase :
      (k j : String) (d : Dict V)
      → IsDistinct d
      → contains j (erase k d) ≡ (if k == j then false else contains j d)
  unfolding erase contains
  contains-erase k j [] h = ground arith
  contains-erase k j ((i, v) ∷ d) h =
      ground (arith, eq_iff k j, eq_iff i k, eq_iff i j, contains-erase k j d h.1)

  pub erase-IsDistinct : (k : String) (d : Dict V) → IsDistinct d → IsDistinct (erase k d)
  unfolding erase contains
  erase-IsDistinct k [] h = tt
  erase-IsDistinct k ((i, v) ∷ d) h =
      ground (arith, eq_iff i k, eq_iff k i, contains-erase k i d h.1, erase-IsDistinct k d h.1)
