-- ===== src/Bench/Eval/Select.antt =====
-- `_select_candidate` of bench/eval/bestofn.py.
use project_nexus.Prelude.{ℕ, not, Option, none, some, List, [], ◌∷◌, String, if◌then◌else◌}
use project_nexus.Py.Dict.{lookup}
use project_nexus.Bench.Eval.Types.{Floats, Candidate, oracle_pass, highest_score, no_valid, Picked}

-- The loop's variables of the second pass; `none` is the index -1.
pub record Best (F : Type 0) : Type 0 where
  pub idx : Option ℕ
  pub value : F

module _ {F : Type 0} (fl : Floats F) (primary_metric : String) where
  -- float(c.metrics.get(primary_metric, 0.0))
  unfoldable pub value_of : Candidate F → F
  value_of c = elim (lookup primary_metric c.metrics) [ none ↦ fl.zero | some v ↦ v ]

  -- one turn of the first pass: an errored candidate is skipped
  unfoldable pub pass_or : Candidate F → Option String → Option (Picked F) → Option (Picked F)
  unfolding value_of
  pass_or c (some error) rest = rest
  pass_or c none rest =
      if not (fl.lt (value_of c) fl.one)
      then some (record { idx = some c.candidate_idx; reason = oracle_pass; value = value_of c })
      else rest

  unfoldable pub first_pass : List (Candidate F) → Option (Picked F)
  unfolding pass_or
  first_pass [] = none
  first_pass (c ∷ candidates) = pass_or c c.error (first_pass candidates)

  -- one turn of the second pass
  unfoldable pub improve : Candidate F → Option String → Best F → Best F
  unfolding value_of
  improve c (some error) best = best
  improve c none best =
      if fl.lt best.value (value_of c)
      then record { idx = some c.candidate_idx; value = value_of c }
      else best

  unfoldable pub best_of : List (Candidate F) → Best F → Best F
  unfolding improve
  best_of [] best = best
  best_of (c ∷ candidates) best = best_of candidates (improve c c.error best)

  -- max(0.0, x)
  unfoldable pub at_least_zero : F → F
  at_least_zero x = if fl.lt fl.zero x then x else fl.zero

  unfoldable pub pick_best : Best F → Picked F
  unfolding at_least_zero
  pick_best best = elim best.idx [
    | none ↦ record { idx = none; reason = no_valid; value = fl.zero }
    | some i ↦ record { idx = some i; reason = highest_score; value = at_least_zero best.value }
  ]

  unfoldable pub pass_else : Option (Picked F) → Picked F → Picked F
  pass_else none picked = picked
  pass_else (some picked) other = picked

  unfoldable pub select_candidate : List (Candidate F) → Picked F
  unfolding first_pass best_of pick_best pass_else
  select_candidate [] = record { idx = none; reason = no_valid; value = fl.zero }
  select_candidate (c ∷ candidates) =
      pass_else (first_pass (c ∷ candidates))
        (pick_best (best_of (c ∷ candidates) (record { idx = none; value = fl.minus_one })))
