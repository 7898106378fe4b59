-- ===== src/Embedder/Tests.antt =====
-- The theorems on nodes/embedder_4070/scopes.py at concrete members and rows.
use project_nexus.Prelude.{
  ◌≡◌, ◌≢◌, ◌⊎◌, ◌↔◌, filter, refl, Option, none, some, List, [], ◌∷◌, map, String, ne_of_test, All,
}
use project_nexus.Py.Value.{str}
use project_nexus.Py.Dict.{lookup}
use project_nexus.Embedder.Scopes.Defs.{
  Meta, ok, private_scope, experiential_scope, shared_scope, validate_write_scope, promotion_trail,
  build_promotion_metadata, plan_scope_backfill, is_text,
}
use project_nexus.Embedder.Chunker.Split.{separators, str_len, recursive}
use project_nexus.Embedder.Chunker.Pack.{
  pack, pack_groups, pack_loop, pack_piece, make_room, flush, append, seed_of, tail_loop,
  reverse_onto, is_empty, finish,
}
use project_nexus.Embedder.Chunker.Lossless.{concat, recursive_lossless}
use project_nexus.Embedder.Chunker.Bound.{IsSmall, recursive-IsSmall}
use project_nexus.Embedder.Chunker.Cover.{IsPacked, pack_covers}
use project_nexus.Py.Text.{str_truthy, strip, lstrip, rstrip, join}
use project_nexus.Embedder.Scopes.Access.{write_scope_iff}
use project_nexus.Embedder.Scopes.Provenance.{
  IsPromotionOf, InPrivate, promotion_faithful, backfill_idempotent,
}

kit_ne_nyx : ◌≢◌ {A = String} "kit" "nyx"
kit_ne_nyx = ne_of_test "kit" "nyx" refl

write_scope_iff_example : (validate_write_scope "private:nyx" "kit" ≡ ok tt) ↔ (
    ("private:nyx" ≡ private_scope "kit")
    ⊎ ("private:nyx" ≡ shared_scope)
    ⊎ ("private:nyx" ≡ experiential_scope "kit"))
write_scope_iff_example = write_scope_iff "private:nyx" "kit"

abbrev source_row : Meta
source_row = ("scope", str "private:kit") ∷ ("ts", str "t1") ∷ []

promotion_faithful_example :
    IsPromotionOf source_row (promotion_trail "kit" "ada" "row_1" source_row) "kit" "ada" "row_1"
unfolding build_promotion_metadata private_scope is_text lookup
promotion_faithful_example =
    promotion_faithful source_row (promotion_trail "kit" "ada" "row_1" source_row) "kit" "ada"
      "row_1" refl

abbrev old_rows : List (Option Meta)
old_rows = none ∷ some source_row ∷ some (("ts", str "t2") ∷ []) ∷ []

backfill_idempotent_example :
    All (InPrivate "kit") (plan_scope_backfill ("a" ∷ "b" ∷ "c" ∷ []) old_rows "kit" none).1
    × (plan_scope_backfill
          ("a" ∷ "c" ∷ [])
          (map some (plan_scope_backfill ("a" ∷ "b" ∷ "c" ∷ []) old_rows "kit" none).1)
          "nyx"
          none
        ≡ ([], []))
backfill_idempotent_example =
    backfill_idempotent ("a" ∷ "b" ∷ "c" ∷ []) ("a" ∷ "c" ∷ []) old_rows "kit" "nyx" none none

abbrev words : List String
words = "ab" ∷ " cd" ∷ []

recursive_lossless_example : concat (recursive str_len 3 (" " ∷ "" ∷ []) "ab cd") ≡ "ab cd"
recursive_lossless_example = recursive_lossless str_len 3 (" " ∷ "" ∷ []) "ab cd"

recursive-IsSmall_example : All (IsSmall str_len 3) (recursive str_len 3 separators "ab cd")
recursive-IsSmall_example = recursive-IsSmall str_len 3 "ab cd"

pack_covers_example :
    (groups : List (List String)) × (pack str_len 3 1 words
      ≡ filter str_truthy (map (λ g. strip (join "" g)) groups))
    × IsPacked words groups
pack_covers_example = pack_covers str_len 3 1 words

-- The bound of `_pack` on a chunk is exceeded when a flush seeds the next chunk with a whole piece.
pack_runs : pack str_len 3 1 words ≡ "ab" ∷ "ab cd" ∷ []
unfolding pack pack_groups pack_loop pack_piece make_room flush append seed_of tail_loop
    reverse_onto is_empty finish str_len strip lstrip rstrip join
pack_runs = refl
