-- ===== src/Bench/Eval/Sound.antt =====
-- What a best-of-N run of a seed answers: `run_seed` of bench/eval/bestofn.py.
use project_nexus.Prelude.{
  ℕ, suc, ◌≡◌, Bool, true, false, if◌then◌else◌, List, [], ◌∷◌, String, length,
}
use project_nexus.Bench.Eval.Types.{
  Floats, Sampling, EvalTask, Reply, Reason, oracle_pass, highest_score, no_valid, ProblemOutcome,
}
use project_nexus.Bench.Eval.Aggregate.{Runner, ReasonCounts}
use project_nexus.Bench.Eval.Rule.{Rule}

abbrev pub is_oracle : Reason → Bool
is_oracle oracle_pass = true
is_oracle highest_score = false
is_oracle no_valid = false

abbrev pub is_highest : Reason → Bool
is_highest oracle_pass = false
is_highest highest_score = true
is_highest no_valid = false

abbrev pub is_invalid : Reason → Bool
is_invalid oracle_pass = false
is_invalid highest_score = false
is_invalid no_valid = true

-- how many of the outcomes were picked for such a reason
abbrev pub how_many : {F : Type 0} → (Reason → Bool) → List (ProblemOutcome F) → ℕ
how_many test [] = 0
how_many test (o ∷ outcomes) =
    let rest = how_many test outcomes in if test o.picked.reason then suc rest else rest

-- Each count is the number of the outcomes with its reason.
pub record IsCounted {F : Type 0} (outcomes : List (ProblemOutcome F)) (c : ReasonCounts)
    : Type 0 where
  pub oracle : c.oracle ≡ how_many is_oracle outcomes
  pub highest : c.highest ≡ how_many is_highest outcomes
  pub invalid : c.invalid ≡ how_many is_invalid outcomes

module _ {Data F : Type 0} (fl : Floats F) (provider : ℕ → String → Sampling F → Reply F) where
  -- An outcome has all its candidates, and what was picked follows the rule.
  pub record IsFair (runner : Runner F) (task : EvalTask Data F) (o : ProblemOutcome F)
      : Type 0 where
    pub sampled : length o.candidates ≡ runner.n_candidates
    pub ruled : Rule fl task.primary_metric o.candidates o.picked
