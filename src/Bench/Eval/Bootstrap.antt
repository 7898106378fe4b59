-- ===== src/Bench/Eval/Bootstrap.antt =====
-- `bootstrap_ci` and `aggregate_seed_metrics` of bench/eval/scoring.py. `randrange seed t n` is the
-- `t`-th draw below `n` of `random.Random(seed)`.
use project_nexus.Prelude.{ℕ, zero, suc, ◌+◌, none, some, List, [], ◌∷◌, String, length}
use project_nexus.Py.Dict.{Dict, lookup}
use project_nexus.Bench.Eval.Types.{Floats}
use project_nexus.Bench.Eval.Scoring.{item, percentile, mean}
use project_nexus.Bench.Eval.Aggregate.{sorted}

-- The block of one metric in a summary.
pub record MetricBlock (F : Type 0) : Type 0 where
  pub per_seed : List F
  pub mean : F
  pub ci_low : F
  pub ci_high : F

module _ {F : Type 0} (fl : Floats F) (randrange : ℕ → ℕ → ℕ → ℕ) where
  -- the inner loop: `left` draws to come, of `n` values, from draw `t` on
  unfoldable pub draw_sum : ℕ → List F → ℕ → ℕ → ℕ → F → F
  unfolding item
  draw_sum seed vals n zero t s = s
  draw_sum seed vals n (suc left) t s =
      draw_sum seed vals n left (t + 1) (fl.add s (item fl vals (randrange seed t n)))

  unfoldable pub resample : ℕ → List F → ℕ → ℕ → List F
  unfolding draw_sum
  resample seed vals zero t = []
  resample seed vals (suc left) t =
      let n = length vals in
      fl.div (draw_sum seed vals n n t fl.zero) (fl.of_nat n) ∷ resample seed vals left (t + n)

  -- The confidence is a float.
  unfoldable pub bootstrap_ci : List F → ℕ → F → ℕ → F × F
  unfolding resample percentile
  bootstrap_ci [] n_resamples confidence seed = (fl.zero, fl.zero)
  bootstrap_ci (v ∷ []) n_resamples confidence seed = (v, v)
  bootstrap_ci (v ∷ w ∷ values) n_resamples confidence seed =
      let means = sorted fl (resample seed (v ∷ w ∷ values) n_resamples 0) in
      let alpha = fl.div (fl.sub fl.one confidence) (fl.of_nat 2) in
      (percentile fl means alpha, percentile fl means (fl.sub fl.one alpha))

  -- float(d.get(name, 0.0)) for each seed
  unfoldable pub per_seed_values : String → List (Dict F) → List F
  per_seed_values name [] = []
  per_seed_values name (d ∷ per_seed) =
      (elim (lookup name d) [ none ↦ fl.zero | some v ↦ v ]) ∷ per_seed_values name per_seed

  unfoldable pub metric_block : List (Dict F) → ℕ → ℕ → String → MetricBlock F
  unfolding per_seed_values bootstrap_ci mean
  metric_block per_seed n_resamples bootstrap_seed name =
      let values = per_seed_values name per_seed in
      let ci = bootstrap_ci values n_resamples fl.p95 bootstrap_seed in
      record { per_seed = values; mean = mean fl values; ci_low = ci.0; ci_high = ci.1 }

  unfoldable pub aggregate_seed_metrics : List (Dict F) → List String → ℕ → ℕ → Dict (MetricBlock F)
  unfolding metric_block
  aggregate_seed_metrics per_seed [] n_resamples bootstrap_seed = []
  aggregate_seed_metrics per_seed (name ∷ names) n_resamples bootstrap_seed =
      (name, metric_block per_seed n_resamples bootstrap_seed name)
      ∷ aggregate_seed_metrics per_seed names n_resamples bootstrap_seed
