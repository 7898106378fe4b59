-- ===== src/Embedder/Memory/Endpoints.antt =====
-- The endpoints of nodes/embedder_4070/server.py over the collection: `memory_write`, `memory_query`,
-- `memory_event` and `memory_promote`. `encode` is the embedding model on one text, `tokens` the
-- length of its tokenization, and `hex` what `uuid4().hex[:12]` gives.
use project_nexus.Prelude.{
  ℕ, true, false, Option, none, some, List, [], ◌∷◌, String, ◌==◌, map, length, if◌then◌else◌,
}
use project_nexus.Py.Text.{◌⧺◌, strip}
use project_nexus.Py.Dict.{lookup}
use project_nexus.Py.Value.{Value, str}
use project_nexus.Embedder.Scopes.Defs.{
  Meta, Checked, ok, value_error, meta_or_empty, build_where, build_event_metadata, promoted_id,
  build_promotion_metadata,
}
use project_nexus.Embedder.Chunker.Pack.{chunk_turn}
use project_nexus.Embedder.Memory.Chroma.{Row, Chroma, Match, add_documents, query}
use project_nexus.Embedder.Memory.Requests.{
  Response, returns, http_error, WriteRequest, WriteResponse, QueryRequest, PromoteRequest,
  PromoteResponse, EventRequest, EventResponse, ChunkSettings, concatenate_turn, resolve_session_id,
  turn_id, number_chunks, check_provenance,
}

-- the model's vector of each text
unfoldable pub embed_texts : {Vec : Type 0} → (String → Vec) → List String → List Vec
embed_texts encode texts = map encode texts

-- after `add_documents`: its `ValueError` is not caught
unfoldable pub added : {Coll A : Type 0} → A → Coll → Checked Coll → Response A × Coll
added response c (ok c') = (returns response, c')
added response c value_error = (http_error 500, c)

unfoldable pub event_id : String → Option Value → String
event_id hex (some (str source)) = "event:" ⧺ source ⧺ ":" ⧺ hex
event_id hex v = ""

module _ {Coll Vec Dist : Type 0} (db : Chroma Coll Vec Dist) (encode : String → Vec) where
  unfoldable pub write_chunks :
      WriteRequest → String → List String → Coll → Response WriteResponse × Coll
  unfolding embed_texts added number_chunks
  write_chunks req session_id [] c = (http_error 400, c)
  write_chunks req session_id (chunk ∷ more) c =
      let chunks = chunk ∷ more in
      let numbered = number_chunks session_id req (length chunks) 0 chunks in
      added
        (record {
          ids = numbered.0;
          chunks = length chunks;
          parent_turn_id = turn_id session_id req.turn_idx;
        })
        c (add_documents db numbered.0 chunks (embed_texts encode chunks) numbered.1 c)

  unfoldable pub write_checked :
      (String → ℕ)
      → ChunkSettings
      → WriteRequest
      → String
      → Checked (Unit {0})
      → Coll
      → Response WriteResponse × Coll
  unfolding write_chunks
  write_checked tokens settings req session_id value_error c = (http_error 400, c)
  write_checked tokens settings req session_id (ok u) c =
      write_chunks req session_id
        (chunk_turn tokens (concatenate_turn req.user_text req.assistant_text) settings.threshold
          settings.target settings.overlap)
        c

  unfoldable pub write_session :
      (String → ℕ)
      → ChunkSettings
      → WriteRequest
      → Response String
      → Coll
      → Response WriteResponse × Coll
  unfolding write_checked
  write_session tokens settings req (http_error status) c = (http_error status, c)
  write_session tokens settings req (returns session_id) c =
      write_checked tokens settings req session_id (check_provenance req) c

  unfoldable pub memory_write :
      (String → ℕ)
      → ChunkSettings
      → WriteRequest
      → Option String
      → Coll
      → Response WriteResponse × Coll
  unfolding write_session
  memory_write tokens settings req x_session_id c =
      write_session tokens settings req (resolve_session_id x_session_id) c

  unfoldable pub memory_query : QueryRequest → Coll → List (Match Dist)
  memory_query req c =
      query db c (encode req.query) req.k
        (build_where req.member_id req.session_id_filter req.exclude_parent_turn_id)

  unfoldable pub write_event : String → String → Checked Meta → Coll → Response EventResponse × Coll
  unfolding added event_id embed_texts
  write_event hex summary value_error c = (http_error 400, c)
  write_event hex summary (ok meta) c =
      let id = event_id hex (lookup "sensor_source" meta) in
      added (record { id = id; scope = lookup "scope" meta }) c
        (add_documents db (id ∷ []) (summary ∷ []) (embed_texts encode (summary ∷ [])) (meta ∷ [])
          c)

  unfoldable pub memory_event : String → EventRequest → Coll → Response EventResponse × Coll
  unfolding write_event
  memory_event hex req c =
      if strip req.summary == ""
      then (http_error 400, c)
      else write_event hex (strip req.summary)
          (build_event_metadata req.sensor_source req.ts req.reported_by) c

  -- the copy of `source` under the new metadata
  unfoldable pub copy_row :
      PromoteRequest → Row Vec → Checked Meta → Coll → Response PromoteResponse × Coll
  unfolding added
  copy_row req source value_error c = (http_error 400, c)
  copy_row req source (ok new_meta) c = elim source.embedding [
    | none ↦ (http_error 500, c)
    | some embedding ↦
        added
          (record {
            promoted_id = promoted_id req.memory_id;
            promoted_from = req.memory_id;
            already_promoted = false;
          })
          c
          (add_documents db (promoted_id req.memory_id ∷ []) (source.document ∷ []) (embedding ∷ [])
            (new_meta ∷ []) c)
  ]

  unfoldable pub promote_source :
      PromoteRequest → Option (Row Vec) → Coll → Response PromoteResponse × Coll
  unfolding copy_row
  promote_source req none c = (http_error 404, c)
  promote_source req (some source) c =
      copy_row req source
        (build_promotion_metadata (meta_or_empty source.metadata) req.member_id req.promoted_by
          req.memory_id)
        c

  -- the row that stands under the id of the copy
  unfoldable pub promote_target :
      PromoteRequest → Option (Row Vec) → Coll → Response PromoteResponse × Coll
  unfolding promote_source
  promote_target req (some row) c = (
    returns (record {
      promoted_id = promoted_id req.memory_id;
      promoted_from = req.memory_id;
      already_promoted = true;
    }),
    c,
  )
  promote_target req none c = promote_source req (db.get c req.memory_id) c

  unfoldable pub memory_promote : PromoteRequest → Coll → Response PromoteResponse × Coll
  unfolding promote_target
  memory_promote req c = promote_target req (db.get c (promoted_id req.memory_id)) c
