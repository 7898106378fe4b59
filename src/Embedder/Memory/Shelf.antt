-- ===== src/Embedder/Memory/Shelf.antt =====
-- A collection in memory that keeps the laws of Chroma, for the runs: a dict of rows, whose search
-- gives the selected rows in their order.
use project_nexus.Prelude.{
  ℕ, ◌≡◌, refl, ap, Bool, true, false, not, Option, none, some, List, [], ◌∷◌, String, ◌==◌, All,
  All-take, take, map, if◌then◌else◌, Bool-cases, inl, inr, arith, eq_iff, ◌∙◌, ◌&&◌,
}
use project_nexus.Prelude.Int.{ℤ, pos, negsuc}
use project_nexus.Py.Dict.{Dict, lookup, insert, keys, lookup-insert}
use project_nexus.Py.Value.{Value, str}
use project_nexus.Embedder.Scopes.Defs.{
  Meta, Condition, Where, is, is_in, is_not, single, all_of, among, meta_or_empty,
}
use project_nexus.Embedder.Memory.Chroma.{Row, Hit, Chroma, first_of}

abbrev pub Shelf : Type 0
Shelf = Dict (Row ℕ)

-- the shelf with a row under `i`, unless one stands there
unfoldable pub place : Option (Row ℕ) → String → Row ℕ → Shelf → Shelf
place none i row c = insert i row c
place (some kept) i row c = c

unfoldable pub put_new : Dict (Row ℕ) → Shelf → Shelf
unfolding place
put_new [] c = c
put_new ((i, row) ∷ batch) c = put_new batch (place (lookup i c) i row c)

lookup-place :
    (o : Option (Row ℕ)) (j : String) (row : Row ℕ) (c : Shelf) (i : String)
    → lookup j c ≡ o
    → lookup i (place o j row c) ≡ first_of (lookup i c) (if j == i then some row else none)
unfolding place
lookup-place none j row c i h = ground (arith, eq_iff j i, lookup-insert j i row c)
lookup-place (some kept) j row c i h = ground (arith, eq_iff j i)

first_of_assoc : (o p q : Option (Row ℕ)) → first_of (first_of o p) q ≡ first_of o (first_of p q)
first_of_assoc none p q = refl
first_of_assoc (some row) p q = refl

first_of_if :
    (b : Bool) (row : Row ℕ) (o : Option (Row ℕ))
    → first_of (if b then some row else none) o ≡ (if b then some row else o)
first_of_if true row o = refl
first_of_if false row o = refl

pub lookup-put_new :
    (batch : Dict (Row ℕ)) (c : Shelf) (i : String)
    → lookup i (put_new batch c) ≡ first_of (lookup i c) (lookup i batch)
unfolding put_new lookup
lookup-put_new [] c i = ground arith
lookup-put_new ((j, row) ∷ batch) c i =
    lookup-put_new batch (place (lookup j c) j row c) i
    ∙ ap (λ o. first_of o (lookup i batch)) (lookup-place (lookup j c) j row c i refl)
    ∙ first_of_assoc (lookup i c) _ (lookup i batch)
    ∙ ap (first_of (lookup i c)) (first_of_if (j == i) row (lookup i batch))

unfoldable pub value_in : List String → Option Value → Bool
value_in xs (some (str s)) = among s xs
value_in xs v = false

unfoldable pub value_is : String → Option Value → Bool
value_is x (some (str s)) = s == x
value_is x v = false

unfoldable pub meets : Condition → Meta → Bool
unfolding value_in value_is
meets (is_in f xs) meta = value_in xs (lookup f meta)
meets (is f x) meta = value_is x (lookup f meta)
meets (is_not f x) meta = not (value_is x (lookup f meta))

unfoldable pub meets_all : List Condition → Meta → Bool
unfolding meets
meets_all [] meta = true
meets_all (q ∷ conds) meta = let rest = meets_all conds meta in meets q meta && rest

unfoldable pub shelf_selects : Where → Option Meta → Bool
unfolding meets_all
shelf_selects (single q) meta = meets q (meta_or_empty meta)
shelf_selects (all_of conds) meta = meets_all conds (meta_or_empty meta)

-- the row of `i`, if it is selected
unfoldable pub if_selected : Where → String → Option (Row ℕ) → Dict (Row ℕ) → Dict (Row ℕ)
unfolding shelf_selects
if_selected w i none rest = rest
if_selected w i (some row) rest = if shelf_selects w row.metadata then (i, row) ∷ rest else rest

unfoldable pub gather : Where → Shelf → List String → Dict (Row ℕ)
unfolding if_selected
gather w c [] = []
gather w c (i ∷ ids) = if_selected w i (lookup i c) (gather w c ids)

unfoldable pub IsFound : Where → Shelf → String × Row ℕ → Type 0
IsFound w c e = (lookup e.0 c ≡ some e.1) × (shelf_selects w e.1.metadata ≡ true)

if_selected-IsFound :
    (w : Where) (c : Shelf) (i : String) (o : Option (Row ℕ)) (rest : Dict (Row ℕ))
    → lookup i c ≡ o
    → All (IsFound w c) rest
    → All (IsFound w c) (if_selected w i o rest)
unfolding if_selected IsFound
if_selected-IsFound w c i none rest e h = h
if_selected-IsFound w c i (some row) rest e h = elim (Bool-cases (shelf_selects w row.metadata)) [
  | inl t ↦ rw t ((e, t), h)
  | inr t ↦ rw t h
]

pub gather-IsFound :
    (w : Where) (c : Shelf) (ids : List String) → All (IsFound w c) (gather w c ids)
unfolding gather
gather-IsFound w c [] = tt
gather-IsFound w c (i ∷ ids) =
    if_selected-IsFound w c i (lookup i c) _ refl (gather-IsFound w c ids)

unfoldable pub as_hit : String × Row ℕ → Hit ℕ ℕ
as_hit e = record { id = e.0; row = e.1; distance = none }

unfoldable pub IsHit : Where → Shelf → Hit ℕ ℕ → Type 0
IsHit w c hit = (lookup hit.id c ≡ some hit.row) × (shelf_selects w hit.row.metadata ≡ true)

pub hits-IsHit :
    (w : Where) (c : Shelf) (rows : Dict (Row ℕ))
    → All (IsFound w c) rows
    → All (IsHit w c) (map as_hit rows)
unfolding IsFound IsHit as_hit
hits-IsHit w c [] h = tt
hits-IsHit w c (e ∷ rows) h = (h.0, hits-IsHit w c rows h.1)

abbrev pub count_of : ℤ → ℕ
count_of (pos n) = n
count_of (negsuc n) = 0

pub value_in_inv :
    (xs : List String) (v : Option Value)
    → value_in xs v ≡ true
    → (s : String) × (v ≡ some (str s)) × (among s xs ≡ true)
unfolding value_in
value_in_inv xs (some (str s)) h = (s, refl, h)
value_in_inv xs none h = absurd (ground arith)
value_in_inv xs (some v) h = absurd (ground arith)

pub value_is_inv : (x : String) (v : Option Value) → value_is x v ≡ true → v ≡ some (str x)
unfolding value_is
value_is_inv x (some (str s)) h = ground (arith, eq_iff s x)
value_is_inv x none h = absurd (ground arith)
value_is_inv x (some v) h = absurd (ground arith)

pub meets_all_inv :
    (conds : List Condition) (meta : Option Meta)
    → meets_all conds (meta_or_empty meta) ≡ true
    → All (λ q. shelf_selects (single q) meta ≡ true) conds
unfolding meets_all shelf_selects
meets_all_inv [] meta h = tt
meets_all_inv (q ∷ conds) meta h = (ground arith, meets_all_inv conds meta (ground arith))

unfoldable pub shelf : Chroma Shelf ℕ ℕ
unfolding put_new gather shelf_selects IsHit IsFound as_hit
shelf = record {
  get = λ c i. lookup i c;
  add = put_new;
  search = λ c v k w. map as_hit (take (count_of k) (gather w c (keys c)));
  fetch = λ c w limit. take limit (gather w c (keys c));
  selects = shelf_selects;
  get-add = lookup-put_new;
  search_found = λ c v k w.
      hits-IsHit w c _ (All-take (IsFound w c) (count_of k) _ (gather-IsFound w c (keys c)));
  fetch_found = λ c w limit. All-take (IsFound w c) limit _ (gather-IsFound w c (keys c));
  selects_in = λ f xs meta h. value_in_inv xs (lookup f (meta_or_empty meta)) h;
  selects_is = λ f x meta h. value_is_inv x (lookup f (meta_or_empty meta)) h;
  selects_all = meets_all_inv;
}
