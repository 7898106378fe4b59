-- ===== src/Bench/Eval/Run.antt =====
-- `run_seed` of bench/eval/bestofn.py, up to the file that it writes. The provider is asked at a
-- moment, the number of completions before, so that two calls may answer differently. Seeds are
-- natural numbers.
use project_nexus.Prelude.{ℕ, zero, suc, ◌+◌, ◌*◌, none, some, List, [], ◌∷◌, String, map, length}
use project_nexus.Py.Dict.{lookup}
use project_nexus.Bench.Eval.Types.{
  Floats, Sampling, Problem, EvalTask, Reply, completed, provider_error, Candidate, ProblemOutcome,
}
use project_nexus.Bench.Eval.Scoring.{percentile}
use project_nexus.Bench.Eval.Aggregate.{
  Runner, Aggregate, count_reasons, sum_nat, all_candidates, metric_names, with_primary,
  selected_metrics, seed_metrics, sorted,
}
use project_nexus.Bench.Eval.Select.{select_candidate}

unfoldable pub candidate_seed : ℕ → ℕ → ℕ → ℕ
candidate_seed seed n k = seed * n + k

module _ {Data F : Type 0} (fl : Floats F) (provider : ℕ → String → Sampling F → Reply F) where
  unfoldable pub candidate_of : EvalTask Data F → Problem Data → ℕ → Reply F → Candidate F
  candidate_of task problem k (completed text prompt_tokens completion_tokens latency) = record {
    candidate_idx = k;
    completion = text;
    metrics = task.score problem text;
    prompt_tokens = prompt_tokens;
    completion_tokens = completion_tokens;
    latency = latency;
    error = none;
  }
  candidate_of task problem k (provider_error text) = record {
    candidate_idx = k;
    completion = "";
    metrics = [];
    prompt_tokens = 0;
    completion_tokens = 0;
    latency = fl.zero;
    error = some text;
  }

  -- the loop over the candidates, with `left` of them to come
  unfoldable pub sample_loop :
      Runner F → EvalTask Data F → Problem Data → ℕ → ℕ → ℕ → ℕ → List (Candidate F)
  unfolding candidate_of candidate_seed
  sample_loop runner task problem seed t zero k = []
  sample_loop runner task problem seed t (suc left) k =
      candidate_of task problem k (
        provider (t + k) (task.build_prompt problem) (record {
          temperature = runner.temperature;
          top_p = runner.top_p;
          max_tokens = runner.max_tokens;
          seed = candidate_seed seed runner.n_candidates k;
        }))
      ∷ sample_loop runner task problem seed t left (k + 1)

  unfoldable pub run_problem : Runner F → EvalTask Data F → ℕ → ℕ → Problem Data → ProblemOutcome F
  unfolding sample_loop selected_metrics
  run_problem runner task seed t problem =
      let candidates = sample_loop runner task problem seed t runner.n_candidates 0 in
      let picked = select_candidate fl task.primary_metric candidates in
      record {
        problem_id = problem.problem_id;
        candidates = candidates;
        picked = picked;
        selected_metrics = selected_metrics fl task.primary_metric candidates picked.idx;
      }

  unfoldable pub run_problems :
      Runner F → EvalTask Data F → ℕ → ℕ → List (Problem Data) → List (ProblemOutcome F)
  unfolding run_problem
  run_problems runner task seed t [] = []
  run_problems runner task seed t (p ∷ problems) =
      run_problem runner task seed t p
      ∷ run_problems runner task seed (t + runner.n_candidates) problems

  unfoldable pub aggregate : Runner F → EvalTask Data F → List (ProblemOutcome F) → Aggregate F
  unfolding seed_metrics with_primary metric_names sorted all_candidates sum_nat count_reasons
  aggregate runner task outcomes =
      let metrics =
        seed_metrics fl outcomes (with_primary task.primary_metric (metric_names outcomes)) in
      let sampled = all_candidates outcomes in
      let latencies = sorted fl (map (λ c. c.latency) sampled) in
      record {
        primary_metric_value = elim (lookup task.primary_metric metrics) [
          | none ↦ fl.zero
          | some v ↦ v
        ];
        metrics = metrics;
        n_problems = length task.problems;
        n_candidates_total = length task.problems * runner.n_candidates;
        tokens_prompt_total = sum_nat (map (λ c. c.prompt_tokens) sampled);
        tokens_completion_total = sum_nat (map (λ c. c.completion_tokens) sampled);
        latency_p50 = percentile fl latencies fl.p50;
        latency_p95 = percentile fl latencies fl.p95;
        picked_reason_counts = count_reasons outcomes;
      }

  unfoldable pub run_seed : Runner F → EvalTask Data F → ℕ → List (ProblemOutcome F) × Aggregate F
  unfolding run_problems aggregate
  run_seed runner task seed =
      let outcomes = run_problems runner task seed 0 task.problems in
      (outcomes, aggregate runner task outcomes)
