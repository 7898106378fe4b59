-- ===== src/Embedder/Memory/Visible.antt =====
-- Who sees what: `memory_query` of nodes/embedder_4070/server.py.
use project_nexus.Prelude.{
  ◌≡◌, refl, Bool, true, false, Option, none, some, List, [], ◌∷◌, ◌++◌, String, map, All,
  if◌then◌else◌,
}
use project_nexus.Py.Text.{str_truthy}
use project_nexus.Py.Dict.{lookup}
use project_nexus.Py.Value.{str}
use project_nexus.Embedder.Scopes.Defs.{
  Meta, Condition, is, single, among, readable_scopes, meta_or_empty, build_where, where_of,
  opt_condition,
}
use project_nexus.Embedder.Memory.Chroma.{Row, Hit, Chroma, Match, match_of, query}
use project_nexus.Embedder.Memory.Requests.{QueryRequest}
use project_nexus.Embedder.Memory.Endpoints.{memory_query}

-- A scope that the member may read stands in the metadata.
abbrev pub IsReadable : String → Meta → Type 0
IsReadable member meta =
    (s : String) × (lookup "scope" meta ≡ some (str s)) × (among s (readable_scopes member) ≡ true)

-- What the session filter of a query asks of a row; a blank filter is none.
abbrev pub InSession : Option String → Meta → Type 0
InSession none meta = Unit
InSession (some s) meta = if str_truthy s then (lookup "session_id" meta ≡ some (str s)) else Unit

module _ {Coll Vec Dist : Type 0} (db : Chroma Coll Vec Dist) where
  -- A match shows a stored row that the member may read and that passes the session filter.
  pub record IsMatchFor (req : QueryRequest) (c : Coll) (m : Match Dist) : Type 0 where
    pub row : Row Vec
    pub stored : db.get c m.id ≡ some row
    pub same_text : m.text ≡ row.document
    pub same_metadata : m.metadata ≡ meta_or_empty row.metadata
    pub readable : IsReadable req.member_id m.metadata
    pub in_session : InSession req.session_id_filter m.metadata

  abbrev Passes : Option Meta → Condition → Type 0
  Passes meta q = db.selects (single q) meta ≡ true

  selects-where_of :
      (q : Condition) (conds : List Condition) (meta : Option Meta)
      → db.selects (where_of (q ∷ conds)) meta ≡ true
      → All (Passes meta) (q ∷ conds)
  unfolding where_of
  selects-where_of q [] meta h = (h, tt)
  selects-where_of q (r ∷ conds) meta h = db.selects_all (q ∷ r ∷ conds) meta h

  session_if :
      (b : Bool) (s : String) (rest : List Condition) (meta : Option Meta)
      → All (Passes meta) ((if b then is "session_id" s ∷ [] else []) ++ rest)
      → if b then (lookup "session_id" (meta_or_empty meta) ≡ some (str s)) else Unit
  session_if true s rest meta h = db.selects_is "session_id" s meta h.0
  session_if false s rest meta h = tt

  in_session :
      (filter : Option String) (rest : List Condition) (meta : Option Meta)
      → All (Passes meta) (opt_condition (is "session_id") filter ++ rest)
      → InSession filter (meta_or_empty meta)
  unfolding opt_condition
  in_session none rest meta h = tt
  in_session (some s) rest meta h = session_if (str_truthy s) s rest meta h

  match-IsMatchFor :
      (req : QueryRequest) (c : Coll) (hit : Hit Vec Dist)
      → (db.get c hit.id ≡ some hit.row)
      → db.selects
          (build_where req.member_id req.session_id_filter req.exclude_parent_turn_id)
          hit.row.metadata
        ≡ true
      → IsMatchFor req c (match_of hit)
  unfolding build_where match_of
  match-IsMatchFor req c hit h k =
      let passed = selects-where_of _ _ hit.row.metadata k in
      record {
        row = hit.row;
        stored = h;
        same_text = refl;
        same_metadata = refl;
        readable = db.selects_in "scope" (readable_scopes req.member_id) hit.row.metadata passed.0;
        in_session = in_session req.session_id_filter _ hit.row.metadata passed.1;
      }

  matches-IsMatchFor :
      (req : QueryRequest) (c : Coll) (hits : List (Hit Vec Dist))
      → All
          (λ hit.
            (db.get c hit.id ≡ some hit.row)
            × (db.selects
                  (build_where req.member_id req.session_id_filter req.exclude_parent_turn_id)
                  hit.row.metadata
                ≡ true))
          hits
      → All (IsMatchFor req c) (map match_of hits)
  matches-IsMatchFor req c [] h = tt
  matches-IsMatchFor req c (hit ∷ hits) h =
      (match-IsMatchFor req c hit h.0.0 h.0.1, matches-IsMatchFor req c hits h.1)

  -- Each match of a query shows a stored row, with its text and its metadata, whose scope the
  -- querying member may read, and which is of the session that a filter that is not blank names.
  pub memory_query-IsMatchFor :
      (encode : String → Vec) (req : QueryRequest) (c : Coll)
      → All (IsMatchFor req c) (memory_query db encode req c)
  unfolding memory_query query
  memory_query-IsMatchFor encode req c =
      matches-IsMatchFor req c _ (db.search_found c (encode req.query) req.k _)
