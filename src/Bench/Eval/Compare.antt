-- ===== src/Bench/Eval/Compare.antt =====
-- `build_comparison` of bench/eval/comparison.py, and `run_task` of bestofn.py, less the files.
use project_nexus.Prelude.{
  ℕ, ◌+◌, ◌*◌, Bool, none, some, List, [], ◌∷◌, String, map, length, ◌==◌, if◌then◌else◌, nat_eq,
}
use project_nexus.Py.Dict.{Dict, lookup}
use project_nexus.Bench.Eval.Types.{Floats, Sampling, EvalTask, Reply}
use project_nexus.Bench.Eval.Scoring.{mean}
use project_nexus.Bench.Eval.Aggregate.{Runner, ReasonCounts, Aggregate, sum_nat}
use project_nexus.Bench.Eval.Bootstrap.{MetricBlock, aggregate_seed_metrics}
use project_nexus.Bench.Eval.Baseline.{TaskSummary, all_names}
use project_nexus.Bench.Eval.Run.{run_seed}

pub record BestOfNSummary (F : Type 0) : Type 0 where
  pub run_label : String
  pub task_id : String
  pub seeds : List ℕ
  pub primary_metric : String
  pub n_candidates : ℕ
  pub metrics : Dict (MetricBlock F)
  pub totals : ReasonCounts
  pub total_picks : ℕ
  pub tokens_prompt_total : ℕ
  pub tokens_completion_total : ℕ
  pub latency_p50_mean : F
  pub latency_p95_mean : F

unfoldable pub add_counts : ReasonCounts → ReasonCounts → ReasonCounts
add_counts c d = record {
  oracle = c.oracle + d.oracle;
  highest = c.highest + d.highest;
  invalid = c.invalid + d.invalid;
}

unfoldable pub sum_counts : List ReasonCounts → ReasonCounts
unfolding add_counts
sum_counts [] = record { oracle = 0; highest = 0; invalid = 0 }
sum_counts (c ∷ counts) = add_counts c (sum_counts counts)

-- sum(sel_totals.values()) or 1
unfoldable pub picks : ReasonCounts → ℕ
picks c = let n = c.oracle + c.highest + c.invalid in if nat_eq n 0 then 1 else n

-- The seeds run one after the other, each with all candidates of all problems.
unfoldable pub run_bestofn_seeds :
    {Data F : Type 0}
    → Floats F
    → (ℕ → String → Sampling F → Reply F)
    → Runner F
    → EvalTask Data F
    → ℕ
    → List ℕ
    → List (Aggregate F)
unfolding run_seed
run_bestofn_seeds fl provider runner task t [] = []
run_bestofn_seeds fl provider runner task t (s ∷ seeds) =
    (run_seed fl (λ k. provider (t + k)) runner task s).1
    ∷ run_bestofn_seeds fl provider runner task (t + length task.problems * runner.n_candidates)
        seeds

unfoldable pub run_bestofn_task :
    {Data F : Type 0}
    → Floats F
    → (ℕ → String → Sampling F → Reply F)
    → (ℕ → ℕ → ℕ → ℕ)
    → Runner F
    → String
    → EvalTask Data F
    → ℕ
    → List ℕ
    → ℕ
    → BestOfNSummary F
unfolding run_bestofn_seeds sum_counts picks
run_bestofn_task fl provider randrange runner run_label task n_resamples seeds bootstrap_seed =
    let aggregates = run_bestofn_seeds fl provider runner task 0 seeds in
    let per_seed = map (λ a. a.metrics) aggregates in
    let totals = sum_counts (map (λ a. a.picked_reason_counts) aggregates) in
    record {
      run_label = run_label;
      task_id = task.task_id;
      seeds = seeds;
      primary_metric = task.primary_metric;
      n_candidates = runner.n_candidates;
      metrics =
          aggregate_seed_metrics fl randrange per_seed (all_names per_seed) n_resamples
            bootstrap_seed;
      totals = totals;
      total_picks = picks totals;
      tokens_prompt_total = sum_nat (map (λ a. a.tokens_prompt_total) aggregates);
      tokens_completion_total = sum_nat (map (λ a. a.tokens_completion_total) aggregates);
      latency_p50_mean = mean fl (map (λ a. a.latency_p50) aggregates);
      latency_p95_mean = mean fl (map (λ a. a.latency_p95) aggregates);
    }

pub record Comparison (F : Type 0) : Type 0 where
  pub run_label : String
  pub task_id : String
  pub primary_metric : String
  pub baseline_mean : F
  pub baseline_low : F
  pub baseline_high : F
  pub bestofn_mean : F
  pub bestofn_low : F
  pub bestofn_high : F
  pub lift : F
  pub non_overlapping : Bool
  pub cost_multiplier : F
  pub bestofn_n : ℕ
  pub notes : String

pub data Compared (F : Type 0) : Type 0 where
  compared : Comparison F → Compared F
  task_mismatch metric_mismatch : Compared F

-- the mean and the interval of a block, which defaults to the mean; a block that is there has both
unfoldable pub block_of : {F : Type 0} → Floats F → String → Dict (MetricBlock F) → F × F × F
block_of fl primary metrics = elim (lookup primary metrics) [
  | none ↦ (fl.zero, fl.zero, fl.zero)
  | some b ↦ (b.mean, b.ci_low, b.ci_high)
]

unfoldable pub build_comparison :
    {F : Type 0} → Floats F → TaskSummary F → BestOfNSummary F → String → Compared F
unfolding block_of
build_comparison fl baseline bestofn notes =
    let (b_mean, b_low, b_high) = block_of fl baseline.primary_metric baseline.metrics in
    let (n_mean, n_low, n_high) = block_of fl baseline.primary_metric bestofn.metrics in
    if baseline.task_id == bestofn.task_id
    then (if baseline.primary_metric == bestofn.primary_metric
        then compared (record {
          run_label = bestofn.run_label;
          task_id = baseline.task_id;
          primary_metric = baseline.primary_metric;
          baseline_mean = b_mean;
          baseline_low = b_low;
          baseline_high = b_high;
          bestofn_mean = n_mean;
          bestofn_low = n_low;
          bestofn_high = n_high;
          lift = fl.mul (fl.sub n_mean b_mean) fl.hundred;
          non_overlapping = fl.lt b_high n_low;
          cost_multiplier = fl.of_nat bestofn.n_candidates;
          bestofn_n = bestofn.n_candidates;
          notes = notes;
        })
        else metric_mismatch)
    else task_mismatch
