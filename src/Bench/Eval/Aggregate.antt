-- ===== src/Bench/Eval/Aggregate.antt =====
-- What `run_seed` of bench/eval/bestofn.py computes over the outcomes of its problems.
use project_nexus.Prelude.{
  ℕ, suc, ◌+◌, Option, none, some, List, [], ◌∷◌, ◌++◌, String, map, length, any, get_elem?, ◌==◌,
  if◌then◌else◌,
}
use project_nexus.Py.Dict.{Dict, lookup, keys}
use project_nexus.Py.Order.{str_leb}
use project_nexus.Bench.Eval.Types.{
  Floats, Candidate, Reason, oracle_pass, highest_score, no_valid, ProblemOutcome,
}

-- The runner's configuration.
pub record Runner (F : Type 0) : Type 0 where
  pub n_candidates : ℕ
  pub temperature : F
  pub top_p : F
  pub max_tokens : ℕ

pub record ReasonCounts : Type 0 where
  pub oracle : ℕ
  pub highest : ℕ
  pub invalid : ℕ

pub record Aggregate (F : Type 0) : Type 0 where
  pub primary_metric_value : F
  pub metrics : Dict F
  pub n_problems : ℕ
  pub n_candidates_total : ℕ
  pub tokens_prompt_total : ℕ
  pub tokens_completion_total : ℕ
  pub latency_p50 : F
  pub latency_p95 : F
  pub picked_reason_counts : ReasonCounts

unfoldable pub count_reason : Reason → ReasonCounts → ReasonCounts
count_reason oracle_pass c = record c { oracle = suc c.oracle }
count_reason highest_score c = record c { highest = suc c.highest }
count_reason no_valid c = record c { invalid = suc c.invalid }

unfoldable pub count_reasons : {F : Type 0} → List (ProblemOutcome F) → ReasonCounts
unfolding count_reason
count_reasons [] = record { oracle = 0; highest = 0; invalid = 0 }
count_reasons (p ∷ outcomes) = count_reason p.picked.reason (count_reasons outcomes)

unfoldable pub sum_nat : List ℕ → ℕ
sum_nat [] = 0
sum_nat (n ∷ ns) = n + sum_nat ns

-- all candidates of all problems, in the order in which they were sampled
unfoldable pub all_candidates : {F : Type 0} → List (ProblemOutcome F) → List (Candidate F)
all_candidates [] = []
all_candidates (p ∷ outcomes) = p.candidates ++ all_candidates outcomes

-- a sorted list of names without repetitions, with `name` in it
unfoldable pub add_name : String → List String → List String
add_name name [] = name ∷ []
add_name name (other ∷ names) =
    let rest = add_name name names in
    if name == other
    then other ∷ names
    else if str_leb name other
    then name ∷ other ∷ names
    else other ∷ rest

unfoldable pub add_names : List String → List String → List String
unfolding add_name
add_names [] names = names
add_names (n ∷ ns) names = add_name n (add_names ns names)

unfoldable pub metric_names : {F : Type 0} → List (ProblemOutcome F) → List String
unfolding add_names
metric_names [] = []
metric_names (p ∷ outcomes) = add_names (keys p.selected_metrics) (metric_names outcomes)

-- if primary not in metric_names: metric_names.append(primary)
unfoldable pub with_primary : String → List String → List String
with_primary primary names = if any (λ n. n == primary) names then names else names ++ primary ∷ []

module _ {F : Type 0} (fl : Floats F) where
  -- dict(candidates[picked_idx].metrics) if picked_idx >= 0 else {primary: 0.0}
  unfoldable pub selected_metrics : String → List (Candidate F) → Option ℕ → Dict F
  selected_metrics primary candidates none = (primary, fl.zero) ∷ []
  selected_metrics primary candidates (some i) = elim (get_elem? candidates i) [
    | none ↦ []
    | some c ↦ c.metrics
  ]

  -- float(pp.selected_metrics.get(name, 0.0))
  unfoldable pub metric_value : String → ProblemOutcome F → F
  metric_value name p = elim (lookup name p.selected_metrics) [ none ↦ fl.zero | some v ↦ v ]

  -- n = max(1, len(per_problem))
  unfoldable pub denominator : List (ProblemOutcome F) → ℕ
  denominator [] = 1
  denominator (p ∷ outcomes) = length (p ∷ outcomes)

  unfoldable pub seed_metrics : List (ProblemOutcome F) → List String → Dict F
  unfolding metric_value denominator
  seed_metrics outcomes [] = []
  seed_metrics outcomes (name ∷ names) =
      (name, fl.div (fl.sum (map (metric_value name) outcomes)) (fl.of_nat (denominator outcomes)))
      ∷ seed_metrics outcomes names

  -- sorted(latencies)
  unfoldable pub sort_in : F → List F → List F
  sort_in x [] = x ∷ []
  sort_in x (y ∷ ys) = let rest = sort_in x ys in if fl.lt y x then y ∷ rest else x ∷ y ∷ ys

  unfoldable pub sorted : List F → List F
  unfolding sort_in
  sorted [] = []
  sorted (x ∷ xs) = sort_in x (sorted xs)
