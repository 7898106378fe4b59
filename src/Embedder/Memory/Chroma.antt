-- ===== src/Embedder/Memory/Chroma.antt =====
-- The Chroma collection that nodes/embedder_4070/chroma_store.py opens, as an interface of what the
-- service relies on, and the calls of that file.
use project_nexus.Prelude.{
  ℕ, ◌≡◌, Bool, true, not, ◌&&◌, Option, none, some, List, [], ◌∷◌, String, All, length, nat_eq,
  map, if◌then◌else◌,
}
use project_nexus.Prelude.Int.{ℤ}
use project_nexus.Py.Dict.{Dict, lookup}
use project_nexus.Py.Value.{str}
use project_nexus.Embedder.Scopes.Defs.{
  Meta, Condition, Where, is, is_in, single, all_of, among, meta_or_empty, Checked, ok, value_error,
}

-- What the collection holds under an id. A row may lack its metadata or its vector.
pub record Row (Vec : Type 0) : Type 0 where
  pub document : String
  pub embedding : Option Vec
  pub metadata : Option Meta

-- One hit of a vector search.
pub record Hit (Vec Dist : Type 0) : Type 0 where
  pub id : String
  pub row : Row Vec
  pub distance : Option Dist

-- r if a row is there, and otherwise what is added
abbrev pub first_of {ℓ} : {A : Type ℓ} → Option A → Option A → Option A
first_of (some a) other = some a
first_of none other = other

-- The documented behaviour of the collection: `add` keeps the row that stands under an id, and a
-- search or a fetch returns stored rows that its `where` clause selects.
pub record Chroma (Coll Vec Dist : Type 0) : Type 0 where
  pub get : Coll → String → Option (Row Vec)
  pub add : Dict (Row Vec) → Coll → Coll
  pub search : Coll → Vec → ℤ → Where → List (Hit Vec Dist)
  pub fetch : Coll → Where → ℕ → Dict (Row Vec)
  pub selects : Where → Option Meta → Bool
  pub get-add :
      (batch : Dict (Row Vec)) (c : Coll) (i : String)
      → get (add batch c) i ≡ first_of (get c i) (lookup i batch)
  pub search_found :
      (c : Coll) (v : Vec) (k : ℤ) (w : Where)
      → All
          (λ hit. (get c hit.id ≡ some hit.row) × (selects w hit.row.metadata ≡ true))
          (search c v k w)
  pub fetch_found :
      (c : Coll) (w : Where) (limit : ℕ)
      → All (λ e. (get c e.0 ≡ some e.1) × (selects w e.1.metadata ≡ true)) (fetch c w limit)
  pub selects_in :
      (f : String) (xs : List String) (meta : Option Meta)
      → selects (single (is_in f xs)) meta ≡ true
      → (s : String) × (lookup f (meta_or_empty meta) ≡ some (str s)) × (among s xs ≡ true)
  pub selects_is :
      (f x : String) (meta : Option Meta)
      → selects (single (is f x)) meta ≡ true
      → lookup f (meta_or_empty meta) ≡ some (str x)
  pub selects_all :
      (conds : List Condition) (meta : Option Meta)
      → selects (all_of conds) meta ≡ true
      → All (λ q. selects (single q) meta ≡ true) conds

-- One entry of what `query` returns.
pub record Match (Dist : Type 0) : Type 0 where
  pub id : String
  pub text : String
  pub metadata : Meta
  pub distance : Option Dist

unfoldable pub match_of : {Vec Dist : Type 0} → Hit Vec Dist → Match Dist
match_of hit = record {
  id = hit.id;
  text = hit.row.document;
  metadata = meta_or_empty hit.row.metadata;
  distance = hit.distance;
}

-- The batch of rows that four parallel lists give.
unfoldable pub zip_rows :
    {Vec : Type 0} → List String → List String → List Vec → List Meta → Dict (Row Vec)
zip_rows (i ∷ ids) (d ∷ documents) (e ∷ embeddings) (m ∷ metadatas) =
    (i, record { document = d; embedding = some e; metadata = some m })
    ∷ zip_rows ids documents embeddings metadatas
zip_rows ids documents embeddings metadatas = []

module _ {Coll Vec Dist : Type 0} (db : Chroma Coll Vec Dist) where
  unfoldable pub add_documents :
      List String → List String → List Vec → List Meta → Coll → Checked Coll
  unfolding zip_rows
  add_documents ids documents embeddings metadatas c =
      if not (
        nat_eq (length ids) (length documents)
        && nat_eq (length documents) (length embeddings)
        && nat_eq (length embeddings) (length metadatas))
      then value_error
      else if nat_eq (length ids) 0
      then ok c
      else ok (db.add (zip_rows ids documents embeddings metadatas) c)

  unfoldable pub query : Coll → Vec → ℤ → Where → List (Match Dist)
  unfolding match_of
  query c embedding k where_ = map match_of (db.search c embedding k where_)

  unfoldable pub get_where : Coll → Where → Dict (Row Vec)
  get_where c where_ = db.fetch c where_ 1000
