-- ===== src/Bench/Eval/Baseline.antt =====
-- `run_seed`, `run_task` and `aggregate_overall` of bench/eval/runner.py, less the files that they
-- write. The provider is asked at a moment, the number of problems before.
use project_nexus.Prelude.{
  ℕ, zero, suc, ◌+◌, Option, none, some, List, [], ◌∷◌, String, map, length, if◌then◌else◌,
}
use project_nexus.Py.Dict.{Dict, lookup, insert, contains, keys}
use project_nexus.Bench.Eval.Types.{
  Floats, Sampling, Problem, EvalTask, Reply, completed, provider_error,
}
use project_nexus.Bench.Eval.Scoring.{percentile}
use project_nexus.Bench.Eval.Aggregate.{sum_nat, add_names, sorted}
use project_nexus.Bench.Eval.Bootstrap.{MetricBlock, aggregate_seed_metrics}

pub record ProblemResult (F : Type 0) : Type 0 where
  pub problem_id : String
  pub metrics : Dict F
  pub completion : String
  pub completion_tokens : ℕ
  pub prompt_tokens : ℕ
  pub latency : F
  pub error : Option String

pub record SeedResult (F : Type 0) : Type 0 where
  pub seed : ℕ
  pub metrics : Dict F
  pub per_problem : List (ProblemResult F)
  pub primary_metric_value : F
  pub tokens_prompt_total : ℕ
  pub tokens_completion_total : ℕ
  pub latency_p50 : F
  pub latency_p95 : F
  pub n_problems : ℕ

pub record TaskSummary (F : Type 0) : Type 0 where
  pub task_id : String
  pub seeds : List ℕ
  pub metrics : Dict (MetricBlock F)
  pub primary_metric : String

-- An entry of the overall summary.
pub record Overall (F : Type 0) : Type 0 where
  pub primary_metric : String
  pub mean : F
  pub ci_low : F
  pub ci_high : F

-- the keys of all dicts, sorted
unfoldable pub all_names : {V : Type 0} → List (Dict V) → List String
unfolding add_names
all_names [] = []
all_names (d ∷ ds) = add_names (keys d) (all_names ds)

-- max(1, len(problems))
unfoldable pub at_least_one : ℕ → ℕ
at_least_one zero = 1
at_least_one (suc n) = suc n

module _ {F : Type 0} (fl : Floats F) where
  -- metric_sums[k] = metric_sums.get(k, 0.0) + float(v)
  unfoldable pub add_metric : String → F → Dict F → Dict F
  add_metric k v sums =
      insert k (fl.add (elim (lookup k sums) [ none ↦ fl.zero | some w ↦ w ]) v) sums

  unfoldable pub add_metrics : Dict F → Dict F → Dict F
  unfolding add_metric
  add_metrics [] sums = sums
  add_metrics ((k, v) ∷ metrics) sums = add_metrics metrics (add_metric k v sums)

  unfoldable pub sum_metrics : List (ProblemResult F) → Dict F → Dict F
  unfolding add_metrics
  sum_metrics [] sums = sums
  sum_metrics (p ∷ results) sums = sum_metrics results (add_metrics p.metrics sums)

  unfoldable pub divide_all : F → Dict F → Dict F
  divide_all n [] = []
  divide_all n ((k, v) ∷ sums) = (k, fl.div v n) ∷ divide_all n sums

  -- if primary not in metrics_mean: metrics_mean[primary] = 0.0
  unfoldable pub default_primary : String → Dict F → Dict F
  default_primary primary metrics =
      if contains primary metrics then metrics else insert primary fl.zero metrics

  unfoldable pub overall_of : TaskSummary F → Overall F
  overall_of s = elim (lookup s.primary_metric s.metrics) [
    | none ↦ record {
      primary_metric = s.primary_metric;
      mean = fl.zero;
      ci_low = fl.zero;
      ci_high = fl.zero;
    }
    | some block ↦ record {
      primary_metric = s.primary_metric;
      mean = block.mean;
      ci_low = block.ci_low;
      ci_high = block.ci_high;
    }
  ]

  unfoldable pub aggregate_overall : List (TaskSummary F) → Dict (Overall F) → Dict (Overall F)
  unfolding overall_of
  aggregate_overall [] tasks = tasks
  aggregate_overall (s ∷ summaries) tasks =
      aggregate_overall summaries (insert s.task_id (overall_of s) tasks)

module _ {Data F : Type 0} (fl : Floats F) (provider : ℕ → String → Sampling F → Reply F) where
  unfoldable pub result_of : EvalTask Data F → Problem Data → Reply F → ProblemResult F
  result_of task problem (completed text prompt_tokens completion_tokens latency) = record {
    problem_id = problem.problem_id;
    metrics = task.score problem text;
    completion = text;
    completion_tokens = completion_tokens;
    prompt_tokens = prompt_tokens;
    latency = latency;
    error = none;
  }
  result_of task problem (provider_error text) = record {
    problem_id = problem.problem_id;
    metrics = [];
    completion = "";
    completion_tokens = 0;
    prompt_tokens = 0;
    latency = fl.zero;
    error = some text;
  }

  unfoldable pub run_all :
      EvalTask Data F → Sampling F → ℕ → List (Problem Data) → List (ProblemResult F)
  unfolding result_of
  run_all task sampling t [] = []
  run_all task sampling t (p ∷ problems) =
      result_of task p (provider t (task.build_prompt p) sampling)
      ∷ run_all task sampling (t + 1) problems

  unfoldable pub seed_result : EvalTask Data F → ℕ → List (ProblemResult F) → SeedResult F
  unfolding sum_metrics divide_all at_least_one default_primary
  seed_result task seed results =
      let n = fl.of_nat (at_least_one (length task.problems)) in
      let metrics =
        default_primary fl task.primary_metric (divide_all fl n (sum_metrics fl results [])) in
      let latencies = sorted fl (map (λ r. r.latency) results) in
      record {
        seed = seed;
        metrics = metrics;
        per_problem = results;
        primary_metric_value = elim (lookup task.primary_metric metrics) [
          | none ↦ fl.zero
          | some v ↦ v
        ];
        tokens_prompt_total = sum_nat (map (λ r. r.prompt_tokens) results);
        tokens_completion_total = sum_nat (map (λ r. r.completion_tokens) results);
        latency_p50 = percentile fl latencies fl.p50;
        latency_p95 = percentile fl latencies fl.p95;
        n_problems = length task.problems;
      }

  unfoldable pub run_baseline_seed : EvalTask Data F → Sampling F → ℕ → ℕ → SeedResult F
  unfolding run_all seed_result
  run_baseline_seed task sampling t seed =
      seed_result task seed (run_all task (record sampling { seed = seed }) t task.problems)

  unfoldable pub run_seeds : EvalTask Data F → Sampling F → ℕ → List ℕ → List (SeedResult F)
  unfolding run_baseline_seed
  run_seeds task sampling t [] = []
  run_seeds task sampling t (s ∷ seeds) =
      run_baseline_seed task sampling t s ∷ run_seeds task sampling (t + length task.problems) seeds

  unfoldable pub run_task :
      (ℕ → ℕ → ℕ → ℕ) → EvalTask Data F → Sampling F → ℕ → List ℕ → ℕ → TaskSummary F
  unfolding run_seeds all_names
  run_task randrange task sampling n_resamples seeds bootstrap_seed =
      let per_seed = map (λ r. r.metrics) (run_seeds task sampling 0 seeds) in
      record {
        task_id = task.task_id;
        seeds = seeds;
        metrics =
            aggregate_seed_metrics fl randrange per_seed (all_names per_seed) n_resamples
              bootstrap_seed;
        primary_metric = task.primary_metric;
      }
