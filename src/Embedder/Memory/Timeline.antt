-- ===== src/Embedder/Memory/Timeline.antt =====
-- `newest_first` and `memory_timeline` of nodes/embedder_4070/server.py.
use Prim.Native.Nat.{max, min}
use project_nexus.Prelude.{
  ℕ, zero, suc, All-take, length-take-le, ◌≤◌, ◌≡◌, refl, true, Option, some, List, [], ◌∷◌, String,
  map, length, take, All, arith, if◌then◌else◌, if_both, if_known,
}
use project_nexus.Prelude.Int.{ℤ, pos, negsuc}
use project_nexus.Py.Order.{str_leb, str_leb_total, str_leb_trans}
use project_nexus.Py.Dict.{Dict, lookup}
use project_nexus.Py.Value.{Value, str}
use project_nexus.Embedder.Scopes.Defs.{Meta, single, is, shared_scope, meta_or_empty}
use project_nexus.Embedder.Memory.Chroma.{Row, Chroma, get_where}

pub record TimelineEvent : Type 0 where
  pub id : String
  pub text : String
  pub metadata : Meta

-- r["metadata"].get("ts") or ""; a `ts` that is not a text, which no writer stores, counts as none.
unfoldable pub ts_of : Option Value → String
ts_of (some (str ts)) = ts
ts_of v = ""

unfoldable pub sort_key : TimelineEvent → String
unfolding ts_of
sort_key e = ts_of (lookup "ts" e.metadata)

-- rows.sort(key=..., reverse=True), which is stable
unfoldable pub sort_into : TimelineEvent → List TimelineEvent → List TimelineEvent
unfolding sort_key
sort_into e [] = e ∷ []
sort_into e (f ∷ rows) =
    let rest = sort_into e rows in
    if str_leb (sort_key f) (sort_key e) then e ∷ f ∷ rows else f ∷ rest

unfoldable pub sort_rows : List TimelineEvent → List TimelineEvent
unfolding sort_into
sort_rows [] = []
sort_rows (e ∷ rows) = sort_into e (sort_rows rows)

unfoldable pub event_of : {Vec : Type 0} → String × Row Vec → TimelineEvent
event_of (i, row) = record { id = i; text = row.document; metadata = meta_or_empty row.metadata }

unfoldable pub newest_first : {Vec : Type 0} → Dict (Row Vec) → ℕ → List TimelineEvent
unfolding sort_rows event_of
newest_first rows limit = take limit (sort_rows (map event_of rows))

-- max(1, min(limit, 200))
unfoldable pub clamp_limit : ℤ → ℕ
clamp_limit (negsuc n) = 1
clamp_limit (pos n) = max 1 (min n 200)

module _ {Coll Vec Dist : Type 0} (db : Chroma Coll Vec Dist) where
  unfoldable pub memory_timeline : ℤ → Coll → List TimelineEvent
  unfolding newest_first clamp_limit get_where
  memory_timeline limit c =
      newest_first (get_where db c (single (is "scope" shared_scope))) (clamp_limit limit)

-- Each row is at least as new as those after it.
abbrev NotOlder : TimelineEvent → TimelineEvent → Type 0
NotOlder e f = str_leb (sort_key f) (sort_key e) ≡ true

abbrev pub IsNewestFirst : List TimelineEvent → Type 0
IsNewestFirst [] = Unit
IsNewestFirst (e ∷ rows) = All (NotOlder e) rows × IsNewestFirst rows

All-NotOlder :
    (e f : TimelineEvent) (rows : List TimelineEvent)
    → NotOlder e f
    → All (NotOlder f) rows
    → All (NotOlder e) rows
All-NotOlder e f [] h k = tt
All-NotOlder e f (g ∷ rows) h k =
    (str_leb_trans _ (sort_key f) _ k.0 h, All-NotOlder e f rows h k.1)

All-sort_into :
    (P : TimelineEvent → Type 0) (e : TimelineEvent) (rows : List TimelineEvent)
    → P e
    → All P rows
    → All P (sort_into e rows)
unfolding sort_into
All-sort_into P e [] h k = (h, tt)
All-sort_into P e (f ∷ rows) h k =
    if_both (All P) (str_leb (sort_key f) (sort_key e)) (h, k) (k.0, All-sort_into P e rows h k.1)

sort_into-IsNewestFirst :
    (e : TimelineEvent) (rows : List TimelineEvent)
    → IsNewestFirst rows
    → IsNewestFirst (sort_into e rows)
unfolding sort_into
sort_into-IsNewestFirst e [] h = (tt, tt)
sort_into-IsNewestFirst e (f ∷ rows) h =
    if_known IsNewestFirst (str_leb (sort_key f) (sort_key e))
      (λ t. ((t, All-NotOlder e f rows t h.0), h))
      (λ t. (
        All-sort_into (NotOlder f) e rows (str_leb_total _ _ t) h.0,
        sort_into-IsNewestFirst e rows h.1,
      ))

sort_rows-IsNewestFirst : (rows : List TimelineEvent) → IsNewestFirst (sort_rows rows)
unfolding sort_rows
sort_rows-IsNewestFirst [] = tt
sort_rows-IsNewestFirst (e ∷ rows) = sort_into-IsNewestFirst e _ (sort_rows-IsNewestFirst rows)

module _ (P : TimelineEvent → Type 0) where
  All-sort_rows : (rows : List TimelineEvent) → All P rows → All P (sort_rows rows)
  unfolding sort_rows
  All-sort_rows [] h = tt
  All-sort_rows (e ∷ rows) h = All-sort_into P e _ h.0 (All-sort_rows rows h.1)

take-IsNewestFirst :
    (n : ℕ) (rows : List TimelineEvent) → IsNewestFirst rows → IsNewestFirst (take n rows)
take-IsNewestFirst zero rows h = tt
take-IsNewestFirst (suc n) [] h = tt
take-IsNewestFirst (suc n) (e ∷ rows) h =
    (All-take (NotOlder e) n rows h.0, take-IsNewestFirst n rows h.1)

at_most : (n : ℕ) (rows : List TimelineEvent) → n ≤ 200 → length (take n rows) ≤ 200
at_most n rows h = omega (arith, length-take-le n rows, h)

module _ {Coll Vec Dist : Type 0} (db : Chroma Coll Vec Dist) where
  -- An event of the feed shows a stored row of the household's scope.
  pub record IsFeedEvent (c : Coll) (e : TimelineEvent) : Type 0 where
    pub row : Row Vec
    pub stored : db.get c e.id ≡ some row
    pub same_text : e.text ≡ row.document
    pub same_metadata : e.metadata ≡ meta_or_empty row.metadata
    pub shared : lookup "scope" e.metadata ≡ some (str shared_scope)

  fetched :
      (c : Coll) (rows : Dict (Row Vec))
      → All
          (λ e.
            (db.get c e.0 ≡ some e.1)
            × (db.selects (single (is "scope" shared_scope)) e.1.metadata ≡ true))
          rows
      → All (IsFeedEvent c) (map event_of rows)
  unfolding event_of
  fetched c [] h = tt
  fetched c ((i, row) ∷ rows) h = (
    record {
      row = row;
      stored = h.0.0;
      same_text = refl;
      same_metadata = refl;
      shared = db.selects_is "scope" shared_scope row.metadata h.0.1;
    },
    fetched c rows h.1,
  )

  clamped : (limit : ℤ) → clamp_limit limit ≤ 200
  unfolding clamp_limit
  clamped (pos n) = omega arith
  clamped (negsuc n) = omega arith

  -- The household feed is sorted, newest first, has at most 200 events, and each shows a stored row
  -- of the shared household scope, whatever the limit.
  pub memory_timeline_lem :
      (limit : ℤ) (c : Coll)
      → IsNewestFirst (memory_timeline db limit c)
        × (length (memory_timeline db limit c) ≤ 200)
        × All (IsFeedEvent c) (memory_timeline db limit c)
  unfolding memory_timeline newest_first get_where
  memory_timeline_lem limit c =
      let found = fetched c _ (db.fetch_found c (single (is "scope" shared_scope)) 1000) in
      (
        take-IsNewestFirst (clamp_limit limit) _ (
            sort_rows-IsNewestFirst
              (map event_of (get_where db c (single (is "scope" shared_scope))))),
        at_most (clamp_limit limit) _ (clamped limit),
        All-take (IsFeedEvent c) (clamp_limit limit) _ (All-sort_rows (IsFeedEvent c) _ found),
      )
