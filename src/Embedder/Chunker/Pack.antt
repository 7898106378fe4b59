-- ===== src/Embedder/Chunker/Pack.antt =====
-- `_pack` and `chunk_turn` of nodes/embedder_4070/chunker.py.
use project_nexus.Prelude.{
  ℕ, ◌+◌, Bool, true, false, ◌&&◌, not, List, [], ◌∷◌, ◌++◌, map, String, leb, ltb, filter,
  if◌then◌else◌,
}
use project_nexus.Py.Text.{join, strip, str_truthy}
use project_nexus.Embedder.Chunker.Split.{separators, recursive}

-- The loop's variables: the groups of pieces that were emitted, oldest first, and the current one.
pub record Packing : Type 0 where
  pub groups : List (List String)
  pub current : List String
  pub current_tokens : ℕ

unfoldable pub is_empty : List String → Bool
is_empty [] = true
is_empty (p ∷ ps) = false

unfoldable pub reverse_onto : List String → List String → List String
reverse_onto [] acc = acc
reverse_onto (p ∷ ps) acc = reverse_onto ps (p ∷ acc)

module _ (tokens : String → ℕ) (target overlap : ℕ) where
  -- the loop over `reversed(current)`: the tail so far, and its tokens
  unfoldable pub tail_loop : List String → List String → ℕ → List String × ℕ
  tail_loop [] tail n = (tail, n)
  tail_loop (p ∷ before) tail n =
      if leb overlap (n + tokens p)
      then (p ∷ tail, n + tokens p)
      else tail_loop before (p ∷ tail) (n + tokens p)

  -- what the next chunk is seeded with
  unfoldable pub seed_of : List String → List String × ℕ
  unfolding tail_loop reverse_onto
  seed_of current = if leb overlap 0 then ([], 0) else tail_loop (reverse_onto current []) [] 0

  unfoldable pub flush : Packing → Packing
  unfolding seed_of is_empty
  flush s = if is_empty s.current then s else record {
    groups = s.groups ++ s.current ∷ [];
    current = (seed_of s.current).0;
    current_tokens = (seed_of s.current).1;
  }

  -- current.append(piece)
  unfoldable pub append : String → Packing → Packing
  append piece s = record s {
    current = s.current ++ piece ∷ [];
    current_tokens = s.current_tokens + tokens piece;
  }

  -- flush if the piece would exceed the target
  unfoldable pub make_room : String → Packing → Packing
  unfolding flush is_empty
  make_room piece s =
      if ltb target (s.current_tokens + tokens piece) && not (is_empty s.current)
      then flush s
      else s

  unfoldable pub pack_piece : String → Packing → Packing
  unfolding make_room append
  pack_piece piece s = append piece (make_room piece s)

  unfoldable pub pack_loop : List String → Packing → Packing
  unfolding pack_piece
  pack_loop [] s = s
  pack_loop (p ∷ ps) s = pack_loop ps (pack_piece p s)

  -- the last group
  unfoldable pub finish : Packing → List (List String)
  unfolding is_empty
  finish s = if is_empty s.current then s.groups else s.groups ++ s.current ∷ []

  unfoldable pub pack_groups : List String → List (List String)
  unfolding pack_loop finish
  pack_groups pieces =
      finish (pack_loop pieces (record { groups = []; current = []; current_tokens = 0 }))

  unfoldable pub pack : List String → List String
  unfolding pack_groups
  pack pieces = filter str_truthy (map (λ g. strip (join "" g)) (pack_groups pieces))

unfoldable pub chunk_turn : (String → ℕ) → String → ℕ → ℕ → ℕ → List String
unfolding recursive pack
chunk_turn tokens text threshold target overlap =
    if leb (tokens text) threshold
    then text ∷ []
    else pack tokens target overlap (recursive tokens target separators text)
