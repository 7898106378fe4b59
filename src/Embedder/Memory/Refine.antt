-- ===== src/Embedder/Memory/Refine.antt =====
-- The memory service refines the log: `memory_write`, `memory_event` and `memory_promote` of
-- nodes/embedder_4070/server.py.
use project_nexus.Prelude.{
  ℕ, ◌≡◌, refl, Option, none, some, List, [], ◌∷◌, String, Option-cases, inl, inr, sym, ◌∙◌, subst,
  some_injective, none_ne_some,
}
use project_nexus.Embedder.Scopes.Defs.{promoted_id}
use project_nexus.Embedder.Memory.Chroma.{Row, Chroma}
use project_nexus.Embedder.Memory.Requests.{
  WriteRequest, PromoteRequest, EventRequest, ChunkSettings, resolve_session_id,
}
use project_nexus.Embedder.Memory.Endpoints.{memory_write, memory_event, memory_promote}
use project_nexus.Embedder.Memory.Log.{IsLogged, Log, same, Log-trans, Log-keeps, Log-IsLogged}
use project_nexus.Embedder.Memory.Steps.{write_session-Log, memory_event-Log, promote_target-Log}

-- What may stand under an id later: a row that stood there, and a provenanced one where none stood.
abbrev pub Since : {Vec : Type 0} → Option (Row Vec) → Option (Row Vec) → Type 0
Since (some row) after = after ≡ some row
Since none none = Unit
Since none (some row) = IsLogged row

Since-of :
    {Vec : Type 0} (before after : Option (Row Vec))
    → ((row : Row Vec) → before ≡ some row → after ≡ some row)
    → ((row : Row Vec) → before ≡ none → after ≡ some row → IsLogged row)
    → Since before after
Since-of (some row) after kept new = kept row refl
Since-of none none kept new = tt
Since-of none (some row) kept new = new row refl refl

-- The requests that may change the memory.
pub data Request : Type 0 where
  write : WriteRequest → Option String → Request
  event : String → EventRequest → Request
  promote : PromoteRequest → Request

module _ {Coll Vec Dist : Type 0} (db : Chroma Coll Vec Dist) (encode : String → Vec)
    (tokens : String → ℕ) (settings : ChunkSettings) where
  -- the collection after a request
  unfoldable pub handle : Request → Coll → Coll
  handle (write req header) c = (memory_write db encode tokens settings req header c).1
  handle (event hex req) c = (memory_event db encode hex req c).1
  handle (promote req) c = (memory_promote db encode req c).1

  unfoldable pub handle_all : List Request → Coll → Coll
  unfolding handle
  handle_all [] c = c
  handle_all (r ∷ rs) c = handle_all rs (handle r c)

  handle-Log : (r : Request) (c : Coll) → Log (db.get c) (db.get (handle r c))
  unfolding handle memory_write memory_promote
  handle-Log (write req header) c =
      write_session-Log db encode tokens settings req (resolve_session_id header) c
  handle-Log (event hex req) c = memory_event-Log db encode hex req c
  handle-Log (promote req) c =
      promote_target-Log db encode req (db.get c (promoted_id req.memory_id)) c

  rows_kept :
      (rs : List Request) (c : Coll) (i : String) (row : Row Vec)
      → db.get c i ≡ some row
      → db.get (handle_all rs c) i ≡ some row
  unfolding handle_all
  rows_kept [] c i row h = h
  rows_kept (r ∷ rs) c i row h =
      rows_kept rs (handle r c) i row (Log-keeps i row (handle-Log r c) h)

  rows-IsLogged :
      (rs : List Request) (c : Coll) (i : String) (row : Row Vec)
      → db.get c i ≡ none
      → db.get (handle_all rs c) i ≡ some row
      → IsLogged row
  unfolding handle_all
  rows-IsLogged [] c i row h k = absurd (none_ne_some (sym h ∙ k))
  rows-IsLogged (r ∷ rs) c i row h k = elim (Option-cases (db.get (handle r c) i)) [
    | inl e ↦ rows-IsLogged rs (handle r c) i row e k
    | inr (first, e) ↦
        subst IsLogged (some_injective (sym (rows_kept rs (handle r c) i first e) ∙ k))
          (Log-IsLogged i first (handle-Log r c) h e)
  ]

  all-Log : (rs : List Request) (c : Coll) → Log (db.get c) (db.get (handle_all rs c))
  unfolding handle_all
  all-Log [] c = same
  all-Log (r ∷ rs) c = Log-trans (handle-Log r c) (all-Log rs (handle r c))

  -- Any sequence of requests to `/memory/write`, `/memory/event` and `/memory/promote`, whatever
  -- they ask, is a run of the log, which puts rows with a scope that their member may read and a
  -- known origin under free ids: no stored row changes or goes away, and every row that comes has
  -- such a scope and origin.
  pub memory_refines :
      (rs : List Request) (c : Coll)
      → Log (db.get c) (db.get (handle_all rs c))
        × ((i : String) → Since (db.get c i) (db.get (handle_all rs c) i))
  memory_refines rs c = (
    all-Log rs c,
    λ i.
        Since-of (db.get c i) (db.get (handle_all rs c) i) (rows_kept rs c i)
          (rows-IsLogged rs c i),
  )
