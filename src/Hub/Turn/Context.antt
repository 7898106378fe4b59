-- ===== src/Hub/Turn/Context.antt =====
-- The system prompt of a turn: `_format_retrieved_context` and `_merge_system` of
-- nodes/brainstem_4070/server.py.
use project_nexus.Prelude.{
  ℕ, zero, suc, ◌+◌, ◌&&◌, Option, none, some, List, [], ◌∷◌, String, ◌==◌, if◌then◌else◌,
}
use project_nexus.Py.Text.{◌⧺◌, strip, str_truthy, join}
use project_nexus.Py.Number.{str_of_nat}
use project_nexus.Hub.Turn.Types.{Match}

-- the first `n` characters, s[:n]
unfoldable pub first_chars : ℕ → String → String
first_chars zero s = String.[]
first_chars (suc n) String.[] = String.[]
first_chars (suc n) (String.◌∷◌ c s) = String.◌∷◌ c (first_chars n s)

-- d.get(k, default)
unfoldable pub or_default {ℓ} : {A : Type ℓ} → A → Option A → A
or_default d none = d
or_default d (some a) = a

-- the heading line of the `i`-th match; `f3` is f"{x:.3f}"
unfoldable pub heading : (String → String) → ℕ → Match → String
unfolding str_of_nat first_chars or_default
heading f3 i m =
    "--- prior turn "
    ⧺ str_of_nat i
    ⧺ " (session "
    ⧺ first_chars 8 (or_default "" m.session_id)
    ⧺ ", turn "
    ⧺ elim m.turn_idx [ none ↦ "?" | some n ↦ str_of_nat n ]
    ⧺ ", "
    ⧺ or_default "" m.ts
    ⧺ elim m.distance [ none ↦ "" | some d ↦ ", distance=" ⧺ f3 d ]
    ⧺ ") ---"

unfoldable pub match_lines : (String → String) → ℕ → List Match → List String
unfolding heading
match_lines f3 i [] = []
match_lines f3 i (m ∷ ms) =
    heading f3 i m ∷ strip (or_default "" m.text) ∷ "" ∷ match_lines f3 (i + 1) ms

unfoldable pub format_retrieved_context : (String → String) → List Match → String
unfolding match_lines
format_retrieved_context f3 [] = ""
format_retrieved_context f3 (m ∷ ms) = strip (
    join "\n" (
      "You have access to prior turns from this user's memory. Use any that are actually relevant; ignore the rest."
      ∷ ""
      ∷ match_lines f3 1 (m ∷ ms)))

unfoldable pub merge_system : Option String → String → Option String
merge_system caller_system retrieved_block =
    if retrieved_block == "" then caller_system else elim caller_system [
      | none ↦ some retrieved_block
      | some s ↦
          if str_truthy s && str_truthy (strip s)
          then some (strip s ⧺ "\n\n" ⧺ retrieved_block)
          else some retrieved_block
    ]
