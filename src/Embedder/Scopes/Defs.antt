-- ===== src/Embedder/Scopes/Defs.antt =====
-- nodes/embedder_4070/scopes.py: the memory scopes and the provenance of a row.
use project_nexus.Prelude.{
  Bool, false, not, ◌&&◌, ◌||◌, Option, none, some, List, [], ◌∷◌, ◌++◌, String, any, ◌==◌,
  if◌then◌else◌,
}
use project_nexus.Py.Text.{◌⧺◌, strip, str_truthy, join}
use project_nexus.Py.Dict.{Dict, lookup, insert}
use project_nexus.Py.Value.{Value, str, truthy}

-- A row's metadata.
abbrev pub Meta : Type 0
Meta = Dict Value

abbrev pub shared_scope : String
shared_scope = "shared:household"

abbrev pub household_member_id : String
household_member_id = "household"

abbrev pub origins : List String
origins = "conversation" ∷ "sensor" ∷ "promotion" ∷ "vector_platform" ∷ "delegated_task" ∷ []

unfoldable pub private_scope : String → String
private_scope member_id = "private:" ⧺ member_id

unfoldable pub experiential_scope : String → String
experiential_scope member_id = "experiential:" ⧺ member_id

unfoldable pub readable_scopes : String → List String
readable_scopes member_id =
    private_scope member_id ∷ shared_scope ∷ experiential_scope member_id ∷ []

-- x in xs
unfoldable pub among : String → List String → Bool
among x xs = any (λ y. y == x) xs

-- The functions that may raise `ValueError`.
pub data Checked {ℓ} (A : Type ℓ) : Type ℓ where
  ok : A → Checked A
  value_error : Checked A

unfoldable pub validate_write_scope : String → String → Checked (Unit {0})
unfolding among readable_scopes
validate_write_scope scope member_id =
    if among scope (readable_scopes member_id) then ok tt else value_error

unfoldable pub validate_origin : String → Checked (Unit {0})
unfolding among
validate_origin origin = if among origin origins then ok tt else value_error

-- One condition of a Chroma `where` clause: `{f: {"$in": xs}}`, `{f: x}` and `{f: {"$ne": x}}`.
pub data Condition : Type 0 where
  is_in : String → List String → Condition
  is : String → String → Condition
  is_not : String → String → Condition

pub data Where : Type 0 where
  single : Condition → Where
  all_of : List Condition → Where

-- A truthy optional string adds its condition.
unfoldable pub opt_condition : (String → Condition) → Option String → List Condition
opt_condition c none = []
opt_condition c (some s) = if str_truthy s then c s ∷ [] else []

-- conds[0] if len(conds) == 1 else {"$and": conds}
unfoldable pub where_of : List Condition → Where
where_of (c ∷ []) = single c
where_of conds = all_of conds

unfoldable pub build_where : String → Option String → Option String → Where
unfolding opt_condition where_of
build_where member_id session_id_filter exclude_parent_turn_id = where_of (
    is_in "scope" (readable_scopes member_id) ∷ opt_condition (is "session_id") session_id_filter
    ++ opt_condition (is_not "parent_turn_id") exclude_parent_turn_id)

-- [p.strip() for p in participants if p and p.strip()]
unfoldable pub kept_participants : List String → List String
kept_participants [] = []
kept_participants (p ∷ ps) =
    if str_truthy p && str_truthy (strip p)
    then strip p ∷ kept_participants ps
    else kept_participants ps

-- `none` is Python's `None`.
unfoldable pub participants_to_meta : Option (List String) → String
unfolding kept_participants
participants_to_meta none = join "," []
participants_to_meta (some ps) = join "," (kept_participants ps)

unfoldable pub build_event_metadata : String → String → String → Checked Meta
build_event_metadata sensor_source ts reported_by =
    if not (str_truthy sensor_source) || not (str_truthy (strip sensor_source))
    then value_error
    else ok (
        ("scope", str shared_scope)
        ∷ ("member_id", str household_member_id)
        ∷ ("origin", str "sensor")
        ∷ ("sensor_source", str (strip sensor_source))
        ∷ ("reported_by", str reported_by)
        ∷ ("participants", str "")
        ∷ ("ts", str ts)
        ∷ [])

unfoldable pub promoted_id : String → String
promoted_id source_id = source_id ⧺ "::promoted"

-- source_scope != private_scope(member_id), where `None` and any other value differ from a text
unfoldable pub is_text : String → Option Value → Bool
is_text s (some (str t)) = t == s
is_text s v = false

-- the keyword arguments of `meta.update` in `build_promotion_metadata`
unfoldable pub promotion_trail : String → String → String → Meta → Meta
promotion_trail member_id promoted_by source_id meta = insert "promoted_by" (str promoted_by) (
    insert "promoted_from_member" (str member_id) (
      insert "promoted_from" (str source_id) (
        insert "origin" (str "promotion")
          (insert "member_id" (str household_member_id) (insert "scope" (str shared_scope) meta)))))

-- An empty dict stands for `None` as well: `(source_meta or {})`.
unfoldable pub build_promotion_metadata : Meta → String → String → String → Checked Meta
unfolding is_text promotion_trail private_scope
build_promotion_metadata source_meta member_id promoted_by source_id =
    if is_text (private_scope member_id) (lookup "scope" source_meta)
    then ok (promotion_trail member_id promoted_by source_id source_meta)
    else value_error

-- bool(meta.get("scope"))
unfoldable pub has_scope : Meta → Bool
has_scope meta = elim (lookup "scope" meta) [ none ↦ false | some v ↦ truthy v ]

-- dict(meta or {})
unfoldable pub meta_or_empty : Option Meta → Meta
meta_or_empty none = []
meta_or_empty (some meta) = meta

-- the keyword arguments of `meta.update` in `plan_scope_backfill`
unfoldable pub grandfather : String → Option (List String) → Meta → Meta
grandfather member_id participants meta =
    insert "participants" (str (participants_to_meta participants)) (
      insert "origin" (str "conversation")
        (insert "member_id" (str member_id) (insert "scope" (str (private_scope member_id)) meta)))

-- The ids and the merged metadata of the rows that lack a scope; `zip` stops at the shorter list.
unfoldable pub plan_scope_backfill :
    List String → List (Option Meta) → String → Option (List String) → List String × List Meta
unfolding has_scope meta_or_empty grandfather
plan_scope_backfill [] metadatas member_id participants = ([], [])
plan_scope_backfill (i ∷ ids) [] member_id participants = ([], [])
plan_scope_backfill (i ∷ ids) (m ∷ metadatas) member_id participants =
    let rest = plan_scope_backfill ids metadatas member_id participants in
    let meta = meta_or_empty m in
    if has_scope meta then rest else (i ∷ rest.0, grandfather member_id participants meta ∷ rest.1)
