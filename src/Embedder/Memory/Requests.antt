-- ===== src/Embedder/Memory/Requests.antt =====
-- nodes/embedder_4070/server.py: the requests, the responses and the helpers of its endpoints.
use project_nexus.Prelude.{
  ℕ, ◌+◌, Bool, not, ◌||◌, Option, none, some, List, [], ◌∷◌, String, if◌then◌else◌,
}
use project_nexus.Prelude.Int.{ℤ, pos}
use project_nexus.Py.Text.{◌⧺◌, strip, str_truthy}
use project_nexus.Py.Number.{str_of_nat, str_of_int}
use project_nexus.Py.Value.{Value, str, bool, int}
use project_nexus.Embedder.Scopes.Defs.{
  Meta, Checked, ok, value_error, validate_write_scope, validate_origin, participants_to_meta,
}

-- What a handler returns; `http_error` holds the status code.
pub data Response (A : Type 0) : Type 0 where
  returns : A → Response A
  http_error : ℕ → Response A

pub record WriteRequest : Type 0 where
  pub user_text : String
  pub assistant_text : String
  pub turn_idx : ℤ
  pub ts : String
  pub model_used : String
  pub user_token_count : ℤ
  pub assistant_token_count : ℤ
  pub source_service : String
  pub tool_calls_present : Bool
  pub scope : String
  pub member_id : String
  pub origin : String
  pub participants : List String

pub record WriteResponse : Type 0 where
  pub ids : List String
  pub chunks : ℕ
  pub parent_turn_id : String

pub record QueryRequest : Type 0 where
  pub query : String
  pub k : ℤ
  pub member_id : String
  pub session_id_filter : Option String
  pub exclude_parent_turn_id : Option String

pub record PromoteRequest : Type 0 where
  pub member_id : String
  pub memory_id : String
  pub promoted_by : String

pub record PromoteResponse : Type 0 where
  pub promoted_id : String
  pub promoted_from : String
  pub already_promoted : Bool

pub record EventRequest : Type 0 where
  pub summary : String
  pub sensor_source : String
  pub ts : String
  pub reported_by : String

pub record EventResponse : Type 0 where
  pub id : String
  pub scope : Option Value

-- The settings that `memory_write` reads.
pub record ChunkSettings : Type 0 where
  pub threshold : ℕ
  pub target : ℕ
  pub overlap : ℕ

unfoldable pub concatenate_turn : String → String → String
concatenate_turn user_text assistant_text =
    "### User\n" ⧺ strip user_text ⧺ "\n\n### Assistant\n" ⧺ strip assistant_text

unfoldable pub resolve_session_id : Option String → Response String
resolve_session_id none = http_error 400
resolve_session_id (some value) =
    if not (str_truthy value) || not (str_truthy (strip value))
    then http_error 400
    else returns (strip value)

unfoldable pub turn_id : String → ℤ → String
unfolding str_of_int
turn_id session_id turn_idx = session_id ⧺ ":" ⧺ str_of_int turn_idx

unfoldable pub chunk_id : String → ℕ → String
chunk_id parent_turn_id idx = parent_turn_id ⧺ ":" ⧺ str_of_nat idx

unfoldable pub chunk_meta : String → WriteRequest → ℕ → ℕ → Meta
unfolding turn_id participants_to_meta
chunk_meta session_id req total idx =
    ("session_id", str session_id)
    ∷ ("turn_idx", int req.turn_idx)
    ∷ ("ts", str req.ts)
    ∷ ("model_used", str req.model_used)
    ∷ ("user_token_count", int req.user_token_count)
    ∷ ("assistant_token_count", int req.assistant_token_count)
    ∷ ("source_service", str req.source_service)
    ∷ ("tool_calls_present", bool req.tool_calls_present)
    ∷ ("chunk_idx", int (pos idx))
    ∷ ("chunk_total", int (pos total))
    ∷ ("parent_turn_id", str (turn_id session_id req.turn_idx))
    ∷ ("scope", str req.scope)
    ∷ ("member_id", str req.member_id)
    ∷ ("origin", str req.origin)
    ∷ ("participants", str (participants_to_meta (some req.participants)))
    ∷ []

-- the loop over `enumerate(chunks)`
unfoldable pub number_chunks : String → WriteRequest → ℕ → ℕ → List String → List String × List Meta
unfolding chunk_id chunk_meta turn_id
number_chunks session_id req total idx [] = ([], [])
number_chunks session_id req total idx (chunk ∷ chunks) =
    let rest = number_chunks session_id req total (idx + 1) chunks in
    (
      chunk_id (turn_id session_id req.turn_idx) idx ∷ rest.0,
      chunk_meta session_id req total idx ∷ rest.1,
    )

-- `scopes.validate_write_scope` and `scopes.validate_origin`
unfoldable pub check_provenance : WriteRequest → Checked (Unit {0})
check_provenance req = elim (validate_write_scope req.scope req.member_id) [
  | ok u ↦ validate_origin req.origin
  | value_error ↦ value_error
]
