-- ===== src/Embedder/Memory/Tests.antt =====
-- The memory service at concrete requests, over the shelf.
use project_nexus.Prelude.{
  ℕ, ◌≡◌, refl, ◌≤◌, false, true, Bool, ◌++◌, none, some, List, [], ◌∷◌, String, length, All,
}
use project_nexus.Prelude.Int.{pos}
use project_nexus.Py.Dict.{lookup, insert}
use project_nexus.Py.Value.{str}
use project_nexus.Py.Text.{str_len, strip}
use project_nexus.Embedder.Scopes.Defs.{
  promoted_id, promotion_trail, meta_or_empty, validate_write_scope, private_scope, validate_origin,
  build_promotion_metadata,
}
use project_nexus.Embedder.Chunker.Pack.{chunk_turn}
use project_nexus.Embedder.Memory.Chroma.{Row, first_of, add_documents}
use project_nexus.Embedder.Memory.Requests.{
  returns, WriteRequest, PromoteRequest, PromoteResponse, QueryRequest, EventRequest, ChunkSettings,
  resolve_session_id, turn_id, chunk_id, check_provenance, concatenate_turn,
}
use project_nexus.Embedder.Memory.Endpoints.{memory_write, memory_query, memory_promote}
use project_nexus.Embedder.Memory.Log.{Log}
use project_nexus.Embedder.Memory.Refine.{
  Request, write, event, promote, handle_all, Since, memory_refines,
}
use project_nexus.Embedder.Memory.Visible.{IsMatchFor, memory_query-IsMatchFor}
use project_nexus.Embedder.Memory.Stored.{document_chunks, chunk_row, get-memory_write}
use project_nexus.Embedder.Memory.Promote.{Promised, promote_once}
use project_nexus.Embedder.Memory.Timeline.{
  memory_timeline, IsNewestFirst, IsFeedEvent, memory_timeline_lem,
}
use project_nexus.Embedder.Memory.Shelf.{Shelf, shelf}

abbrev hello : WriteRequest
hello = record {
  user_text = " hello ";
  assistant_text = "hi";
  turn_idx = pos 3;
  ts = "2026-01-02";
  model_used = "m";
  user_token_count = pos 1;
  assistant_token_count = pos 1;
  source_service = "brainstem";
  tool_calls_present = false;
  scope = "private:kit";
  member_id = "kit";
  origin = "conversation";
  participants = "ada" ∷ [];
}

abbrev settings : ChunkSettings
settings = record { threshold = 450; target = 400; overlap = 50 }

abbrev kit_row : Row ℕ
kit_row = record {
  document = "the dog";
  embedding = some 7;
  metadata = some (("scope", str "private:kit") ∷ ("ts", str "t1") ∷ []);
}

abbrev old_shelf : Shelf
old_shelf = ("row_1", kit_row) ∷ []

abbrev share : PromoteRequest
share = record { member_id = "kit"; memory_id = "row_1"; promoted_by = "ada" }

abbrev door : EventRequest
door = record { summary = "the door"; sensor_source = "cam"; ts = "2026"; reported_by = "" }

abbrev requests : List Request
requests = write hello (some " s1 ") ∷ promote share ∷ event "0123456789ab" door ∷ []

memory_refines_example :
    Log
      (shelf.get old_shelf)
      (shelf.get (handle_all shelf str_len str_len settings requests old_shelf))
    × ((i : String)
        → Since
            (shelf.get old_shelf i)
            (shelf.get (handle_all shelf str_len str_len settings requests old_shelf) i))
memory_refines_example = memory_refines shelf str_len str_len settings requests old_shelf

abbrev dog_query : QueryRequest
dog_query = record {
  query = "dog";
  k = pos 5;
  member_id = "kit";
  session_id_filter = none;
  exclude_parent_turn_id = some "s1:3";
}

memory_query-IsMatchFor_example :
    All (IsMatchFor shelf dog_query old_shelf) (memory_query shelf str_len dog_query old_shelf)
memory_query-IsMatchFor_example = memory_query-IsMatchFor shelf str_len dog_query old_shelf

abbrev hello_text : String
hello_text = "### User\nhello\n\n### Assistant\nhi"

get-memory_write_example :
    shelf.get
      (memory_write shelf str_len str_len settings hello (some " s1 ") old_shelf).1
      (chunk_id (turn_id "s1" (pos 3)) 0)
    ≡ first_of (shelf.get old_shelf (chunk_id (turn_id "s1" (pos 3)) 0)) (
        some (
          chunk_row "s1" hello
            (length (document_chunks shelf str_len str_len settings hello))
            str_len
            hello_text
            0))
unfolding resolve_session_id check_provenance strip validate_write_scope private_scope
    validate_origin chunk_turn concatenate_turn
get-memory_write_example =
    get-memory_write shelf str_len str_len settings hello (some " s1 ") "s1" old_shelf 0 hello_text
      refl refl refl

memory_timeline_lem_example :
    IsNewestFirst (memory_timeline shelf (pos 1000) old_shelf)
    × (length (memory_timeline shelf (pos 1000) old_shelf) ≤ 200)
    × All (IsFeedEvent shelf old_shelf) (memory_timeline shelf (pos 1000) old_shelf)
memory_timeline_lem_example = memory_timeline_lem shelf (pos 1000) old_shelf

abbrev shared_shelf : Shelf
shared_shelf =
    old_shelf
    ++ (
      promoted_id "row_1",
      record {
        document = "the dog";
        embedding = some 7;
        metadata = some (
            promotion_trail "kit" "ada" "row_1"
              (("scope", str "private:kit") ∷ ("ts", str "t1") ∷ []));
      },
    )
      ∷ []

abbrev promoted : Bool → PromoteResponse
promoted already = record {
  promoted_id = promoted_id "row_1";
  promoted_from = "row_1";
  already_promoted = already;
}

promote_once_example :
    Promised shelf str_len false share old_shelf shared_shelf
    × (memory_promote shelf str_len share shared_shelf ≡ (returns (promoted true), shared_shelf))
unfolding memory_promote shelf lookup promoted_id build_promotion_metadata meta_or_empty
    add_documents insert
promote_once_example = promote_once shelf str_len share old_shelf shared_shelf (promoted false) refl
