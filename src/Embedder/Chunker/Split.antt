-- ===== src/Embedder/Chunker/Split.antt =====
-- `_split_on` and `_recursive` of nodes/embedder_4070/chunker.py. `tokens` is the length of what the
-- embedding model's tokenizer returns.
use Prim.Native.Char.{Char}
use project_nexus.Prelude.{
  ℕ, zero, suc, Bool, true, false, ◌||◌, List, [], ◌∷◌, ◌++◌, map, String, leb, nat_eq, length,
  filter, if◌then◌else◌,
}
unfoldable pub use project_nexus.Py.Text.{starts_with, str_len}
use project_nexus.Py.Text.{◌⧺◌, str_truthy}

abbrev pub separators : List String
separators = "\n```" ∷ "\n### " ∷ "\n## " ∷ "\n# " ∷ "\n\n" ∷ "\n" ∷ ". " ∷ " " ∷ "" ∷ []

-- sep in text
unfoldable pub occurs : String → String → Bool
unfolding starts_with
occurs sep String.[] = starts_with sep String.[]
occurs sep (String.◌∷◌ c s) = starts_with sep (String.◌∷◌ c s) || occurs sep s

-- list(text)
unfoldable pub chars : String → List String
chars String.[] = []
chars (String.◌∷◌ c s) = String.◌∷◌ c String.[] ∷ chars s

unfoldable pub onto_first : Char → List String → List String
onto_first c [] = String.◌∷◌ c String.[] ∷ []
onto_first c (p ∷ ps) = String.◌∷◌ c p ∷ ps

-- text.split(sep) for the separator `d ∷ sep`, after `skip` characters
unfoldable pub split_from : Char → String → ℕ → String → List String
unfolding starts_with onto_first str_len
split_from d sep skip String.[] = "" ∷ []
split_from d sep (suc skip) (String.◌∷◌ c s) = split_from d sep skip s
split_from d sep zero (String.◌∷◌ c s) = elim (starts_with (String.◌∷◌ d sep) (String.◌∷◌ c s)) [
  | true ↦ "" ∷ split_from d sep (str_len sep) s
  | false ↦ onto_first c (split_from d sep 0 s)
]

-- the separator again on all but the first piece
unfoldable pub reattach : String → List String → List String
reattach sep [] = []
reattach sep (p ∷ ps) = p ∷ map (λ q. sep ⧺ q) ps

unfoldable pub split_on : String → String → List String
unfolding chars occurs reattach split_from
split_on text String.[] = chars text
split_on text (String.◌∷◌ d sep) =
    if occurs (String.◌∷◌ d sep) text
    then filter str_truthy (reattach (String.◌∷◌ d sep) (split_from d sep 0 text))
    else text ∷ []

module _ (tokens : String → ℕ) (target : ℕ) where
  -- out.append(piece), or out.extend(...) of what `split` makes of it, for each piece
  unfoldable pub extend : (String → List String) → List String → List String
  extend split [] = []
  extend split (p ∷ ps) = (if leb (tokens p) target then p ∷ [] else split p) ++ extend split ps

  -- `_recursive`, on the separators from `sep_idx` on
  unfoldable pub recursive : List String → String → List String
  unfolding extend split_on
  recursive [] text = text ∷ []
  recursive (sep ∷ seps) text =
      if leb (tokens text) target
      then text ∷ []
      else if nat_eq (length (split_on text sep)) 1
      then recursive seps text
      else extend (recursive seps) (split_on text sep)
