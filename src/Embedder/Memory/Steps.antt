-- ===== src/Embedder/Memory/Steps.antt =====
-- What each handler of nodes/embedder_4070/server.py does to the log.
use project_nexus.Prelude.{
  ℕ, ◌≡◌, refl, ◌⊎◌, sym, Option, none, some, List, [], ◌∷◌, String, ◌==◌, subst, fun_ext,
  Bool-cases, arith, All, inl, inr,
}
use project_nexus.Py.Dict.{Dict}
use project_nexus.Py.Text.{strip}
use project_nexus.Embedder.Scopes.Defs.{Meta, Checked, ok, value_error, meta_or_empty}
use project_nexus.Embedder.Memory.Chroma.{Row, Chroma, zip_rows, add_documents}
use project_nexus.Embedder.Memory.Requests.{
  Response, returns, http_error, WriteRequest, PromoteRequest, EventRequest, ChunkSettings,
  check_provenance,
}
use project_nexus.Embedder.Memory.Endpoints.{
  added, write_chunks, write_checked, write_session, write_event, memory_event, copy_row,
  promote_source, promote_target,
}
use project_nexus.Embedder.Memory.Provenanced.{
  zip_rows-IsLogged, IsAllowed, allowed, number_chunks-IsProvenanced, event_meta-IsProvenanced,
  promoted-IsProvenanced,
}
use project_nexus.Embedder.Memory.Log.{IsProvenanced, IsLogged, Log, same, merge-Log}

Checked-cases : (r : Checked (Unit {0})) → (r ≡ ok tt) ⊎ (r ≡ value_error)
Checked-cases (ok u) = inl refl
Checked-cases value_error = inr refl

-- The requests that may change the memory.
pub data Request : Type 0 where
  write : WriteRequest → Option String → Request
  event : String → EventRequest → Request
  promote : PromoteRequest → Request

module _ {Coll Vec Dist : Type 0} (db : Chroma Coll Vec Dist) (encode : String → Vec) where
  add-Log :
      (batch : Dict (Row Vec)) (c : Coll)
      → All (λ e. IsLogged e.1) batch
      → Log (db.get c) (db.get (db.add batch c))
  add-Log batch c h =
      subst (Log (db.get c)) (sym (fun_ext (db.get-add batch c))) (merge-Log batch (db.get c) h)

  -- A batch is refused, is empty, or is added.
  add_documents_cases :
      (ids documents : List String) (embeddings : List Vec) (metadatas : List Meta) (c : Coll)
      → (add_documents db ids documents embeddings metadatas c ≡ value_error)
        ⊎ (add_documents db ids documents embeddings metadatas c ≡ ok c)
        ⊎ (add_documents db ids documents embeddings metadatas c
            ≡ ok (db.add (zip_rows ids documents embeddings metadatas) c))
  unfolding add_documents
  add_documents_cases ids ds es ms c = ground arith

  added-Log :
      {A : Type 0} (response : A) (ids documents : List String) (embeddings : List Vec)
      (metadatas : List Meta) (c : Coll)
      → All IsProvenanced metadatas
      → Log
          (db.get c)
          (db.get (added response c (add_documents db ids documents embeddings metadatas c)).1)
  unfolding added
  added-Log response ids ds es ms c h = elim (add_documents_cases ids ds es ms c) [
    | inl e ↦ rw e same
    | inr (inl e) ↦ rw e same
    | inr (inr e) ↦ rw e (add-Log (zip_rows ids ds es ms) c (zip_rows-IsLogged ids ds es ms h))
  ]

  write_chunks-Log :
      (req : WriteRequest) (session_id : String) (chunks : List String) (c : Coll)
      → IsAllowed req
      → Log (db.get c) (db.get (write_chunks db encode req session_id chunks c).1)
  unfolding write_chunks
  write_chunks-Log req session_id [] c h = same
  write_chunks-Log req session_id (chunk ∷ more) c h =
      added-Log _ _ _ _ _ c (number_chunks-IsProvenanced session_id req _ 0 (chunk ∷ more) h)

  write_checked-Log :
      (tokens : String → ℕ) (settings : ChunkSettings) (req : WriteRequest) (session_id : String)
      (c : Coll)
      → Log (db.get c) (
          db.get
            (write_checked db encode tokens settings req session_id (check_provenance req) c).1)
  unfolding write_checked
  write_checked-Log tokens settings req session_id c = elim (Checked-cases (check_provenance req)) [
    | inl e ↦ rw e (write_chunks-Log req session_id _ c (allowed req e))
    | inr e ↦ rw e same
  ]

  pub write_session-Log :
      (tokens : String → ℕ) (settings : ChunkSettings) (req : WriteRequest)
      (session : Response String) (c : Coll)
      → Log (db.get c) (db.get (write_session db encode tokens settings req session c).1)
  unfolding write_session
  write_session-Log tokens settings req (http_error status) c = same
  write_session-Log tokens settings req (returns session_id) c =
      write_checked-Log tokens settings req session_id c

  write_event-Log :
      (hex summary : String) (r : Checked Meta) (c : Coll)
      → ((meta : Meta) → r ≡ ok meta → IsProvenanced meta)
      → Log (db.get c) (db.get (write_event db encode hex summary r c).1)
  unfolding write_event
  write_event-Log hex summary value_error c h = same
  write_event-Log hex summary (ok meta) c h = added-Log _ _ _ _ _ c (h meta refl, tt)

  pub memory_event-Log :
      (hex : String) (req : EventRequest) (c : Coll)
      → Log (db.get c) (db.get (memory_event db encode hex req c).1)
  unfolding memory_event
  memory_event-Log hex req c = elim (Bool-cases (strip req.summary == "")) [
    | inl e ↦ rw e same
    | inr e ↦ rw e (
        write_event-Log hex (strip req.summary) _ c
          (λ meta. event_meta-IsProvenanced req.sensor_source req.ts req.reported_by meta))
  ]

  copy_row-Log :
      (req : PromoteRequest) (document : String) (embedding : Option Vec) (meta : Option Meta)
      (r : Checked Meta) (c : Coll)
      → ((meta : Meta) → r ≡ ok meta → IsProvenanced meta)
      → Log (db.get c) (
          db.get
            (copy_row db encode req
              (record { document = document; embedding = embedding; metadata = meta })
              r
              c).1)
  unfolding copy_row
  copy_row-Log req document embedding old value_error c h = same
  copy_row-Log req document none old (ok meta) c h = same
  copy_row-Log req document (some e) old (ok meta) c h = added-Log _ _ _ _ _ c (h meta refl, tt)

  promote_source-Log :
      (req : PromoteRequest) (source : Option (Row Vec)) (c : Coll)
      → Log (db.get c) (db.get (promote_source db encode req source c).1)
  unfolding promote_source
  promote_source-Log req none c = same
  promote_source-Log req (some source) c =
      copy_row-Log req source.document source.embedding source.metadata _ c (λ meta.
        promoted-IsProvenanced (meta_or_empty source.metadata) meta req.member_id req.promoted_by
          req.memory_id)

  pub promote_target-Log :
      (req : PromoteRequest) (target : Option (Row Vec)) (c : Coll)
      → Log (db.get c) (db.get (promote_target db encode req target c).1)
  unfolding promote_target
  promote_target-Log req (some row) c = same
  promote_target-Log req none c = promote_source-Log req (db.get c req.memory_id) c
