-- ===== src/Embedder/Memory/Stored.antt =====
-- What `memory_write` of nodes/embedder_4070/server.py leaves in the collection.
use text.Mathlib.TextLemmas.{append_cancel_left}
use project_nexus.Prelude.{
  ℕ, zero, suc, ◌+◌, ◌≡◌, ◌≢◌, refl, ap, ◌∙◌, true, false, Option, some, List, [], ◌∷◌, String, map,
  length, get_elem?, none_ne_some, some_injective, ap₂, ◌==◌, arith, eq_refl, test_of_ne,
}
use project_nexus.Py.Number.{str_of_nat_injective}
use project_nexus.Py.Dict.{lookup}
use project_nexus.Embedder.Scopes.Defs.{ok, Meta}
use project_nexus.Embedder.Chunker.Pack.{chunk_turn}
use project_nexus.Embedder.Memory.Chroma.{Row, Chroma, zip_rows, add_documents, first_of}
use project_nexus.Embedder.Memory.Requests.{
  returns, WriteRequest, ChunkSettings, concatenate_turn, resolve_session_id, turn_id, chunk_id,
  chunk_meta, number_chunks, check_provenance,
}
use project_nexus.Embedder.Memory.Endpoints.{
  embed_texts, added, write_chunks, write_checked, write_session, memory_write,
}

length-map : {A B : Type 0} (f : A → B) (xs : List A) → length (map f xs) ≡ length xs
length-map f [] = refl
length-map f (x ∷ xs) = ap suc (length-map f xs)

pub chunk_id_injective : (parent : String) (n m : ℕ) → chunk_id parent n ≡ chunk_id parent m → n ≡ m
unfolding chunk_id
chunk_id_injective parent n m e =
    str_of_nat_injective n m (append_cancel_left ":" _ _ (append_cancel_left parent _ _ e))

module _ (session_id : String) (req : WriteRequest) (total : ℕ) where
  abbrev numbered : ℕ → List String → List String × List Meta
  numbered idx chunks = number_chunks session_id req total idx chunks

  length-ids : (idx : ℕ) (chunks : List String) → length (numbered idx chunks).0 ≡ length chunks
  unfolding number_chunks
  length-ids idx [] = refl
  length-ids idx (c ∷ chunks) = ap suc (length-ids (idx + 1) chunks)

  length-metas : (idx : ℕ) (chunks : List String) → length (numbered idx chunks).1 ≡ length chunks
  unfolding number_chunks
  length-metas idx [] = refl
  length-metas idx (c ∷ chunks) = ap suc (length-metas (idx + 1) chunks)

  -- the row of the `n`-th chunk
  abbrev pub chunk_row : {Vec : Type 0} → (String → Vec) → String → ℕ → Row Vec
  chunk_row encode text n = record {
    document = text;
    embedding = some (encode text);
    metadata = some (chunk_meta session_id req total n);
  }

  present :
      (n m : ℕ)
      → n ≡ m
      → (chunk_id (turn_id session_id req.turn_idx) n
          == chunk_id (turn_id session_id req.turn_idx) m)
        ≡ true
  present n m e = rw e (eq_refl _)

  absent :
      (n m : ℕ)
      → n ≢ m
      → (chunk_id (turn_id session_id req.turn_idx) n
          == chunk_id (turn_id session_id req.turn_idx) m)
        ≡ false
  absent n m e =
      test_of_ne _ _ (λ q. e (chunk_id_injective (turn_id session_id req.turn_idx) n m q))

  lookup-chunks :
      {Vec : Type 0} (encode : String → Vec) (idx k n : ℕ) (chunks : List String) (text : String)
      → get_elem? chunks k ≡ some text
      → n ≡ idx + k
      → lookup
          (chunk_id (turn_id session_id req.turn_idx) n)
          (zip_rows (numbered idx chunks).0 chunks (map encode chunks) (numbered idx chunks).1)
        ≡ some (chunk_row encode text n)
  unfolding lookup number_chunks zip_rows
  lookup-chunks encode idx k n [] text e h = absurd (none_ne_some e)
  lookup-chunks encode idx zero n (c ∷ chunks) text e h =
      rw (present idx n (omega (arith, h)))
        (ap₂ (λ t j. some (chunk_row encode t j)) (some_injective e) (omega (arith, h)))
  lookup-chunks encode idx (suc k) n (c ∷ chunks) text e h =
      rw (absent idx n (λ q. absurd (omega (arith, h, q))))
        (lookup-chunks encode (idx + 1) k n chunks text e (omega (arith, h)))

module _ {Coll Vec Dist : Type 0} (db : Chroma Coll Vec Dist) (encode : String → Vec) where
  -- `add_documents` takes the batch of a turn.
  batch_added :
      (session_id : String) (req : WriteRequest) (total : ℕ) (chunk : String) (more : List String)
      (c : Coll)
      → let chunks = chunk ∷ more in
        let n = numbered session_id req total 0 chunks in
        add_documents db n.0 chunks (map encode chunks) n.1 c
        ≡ ok (db.add (zip_rows n.0 chunks (map encode chunks) n.1) c)
  unfolding add_documents number_chunks
  batch_added session_id req total chunk more c = ground (
    arith,
    length-ids session_id req total 1 more,
    length-metas session_id req total 1 more,
    length-map encode more,
  )

  -- the document of a request, in its chunks
  abbrev pub document_chunks : (String → ℕ) → ChunkSettings → WriteRequest → List String
  document_chunks tokens settings req =
      chunk_turn tokens (concatenate_turn req.user_text req.assistant_text) settings.threshold
        settings.target settings.overlap

  get-write_chunks :
      (req : WriteRequest) (session_id : String) (chunks : List String) (c : Coll) (k : ℕ)
      (text : String)
      → get_elem? chunks k ≡ some text
      → let i = chunk_id (turn_id session_id req.turn_idx) k in
        db.get (write_chunks db encode req session_id chunks c).1 i
        ≡ first_of (db.get c i) (some (chunk_row session_id req (length chunks) encode text k))
  unfolding write_chunks embed_texts added
  get-write_chunks req session_id [] c k text e = absurd (none_ne_some e)
  get-write_chunks req session_id (chunk ∷ more) c k text e =
      let i = chunk_id (turn_id session_id req.turn_idx) k in
      rw (batch_added session_id req (length (chunk ∷ more)) chunk more c) (
        db.get-add _ c i
        ∙ ap (first_of (db.get c i))
            (lookup-chunks session_id req _ encode 0 k k (chunk ∷ more) text e (omega arith)))

  -- A write of an allowed scope and a known origin, in a session, stores each chunk of its document
  -- under the id of the turn and the chunk's number, with its vector and its metadata, where no row
  -- stood under that id; a row that stood there stays.
  pub get-memory_write :
      (tokens : String → ℕ) (settings : ChunkSettings) (req : WriteRequest) (header : Option String)
      (session_id : String) (c : Coll) (k : ℕ) (text : String)
      → resolve_session_id header ≡ returns session_id
      → check_provenance req ≡ ok tt
      → get_elem? (document_chunks tokens settings req) k ≡ some text
      → let i = chunk_id (turn_id session_id req.turn_idx) k in
        let total = length (document_chunks tokens settings req) in
        db.get (memory_write db encode tokens settings req header c).1 i
        ≡ first_of (db.get c i) (some (chunk_row session_id req total encode text k))
  unfolding memory_write write_session write_checked
  get-memory_write tokens settings req header session_id c k text s p e =
      rw (s, p) (get-write_chunks req session_id (document_chunks tokens settings req) c k text e)
