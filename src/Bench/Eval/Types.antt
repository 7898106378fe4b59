-- ===== src/Bench/Eval/Types.antt =====
-- bench/eval/base.py and bestofn.py: floats, tasks, and the records of a best-of-N run.
use project_nexus.Prelude.{ℕ, ◌≡◌, Bool, true, false, Option, List, String}
use project_nexus.Py.Dict.{Dict}

-- Python's floats, as far as the harness uses them. The two laws are those of a comparison of floats
-- none of which is a NaN. `sum` is the built-in, `trunc` is `int`.
pub record Floats (F : Type 0) : Type 0 where
  pub zero : F
  pub one : F
  pub minus_one : F
  pub hundred : F
  pub p50 : F
  pub p95 : F
  pub of_nat : ℕ → F
  pub sub : F → F → F
  pub add : F → F → F
  pub mul : F → F → F
  pub div : F → F → F
  pub sum : List F → F
  pub trunc : F → ℕ
  pub lt : F → F → Bool
  pub lt_trans : (a b c : F) → lt a b ≡ true → lt b c ≡ true → lt a c ≡ true
  pub le_lt : (a b c : F) → lt b a ≡ false → lt b c ≡ true → lt a c ≡ true

pub record Sampling (F : Type 0) : Type 0 where
  pub temperature : F
  pub top_p : F
  pub max_tokens : ℕ
  pub seed : ℕ

-- A problem; `reference` and `meta` are read by its task alone: they are one `reference`.
pub record Problem (Data : Type 0) : Type 0 where
  pub problem_id : String
  pub prompt : String
  pub reference : Data

-- The hooks of an `EvalTask`.
pub record EvalTask (Data F : Type 0) : Type 0 where
  pub task_id : String
  pub primary_metric : String
  pub problems : List (Problem Data)
  pub build_prompt : Problem Data → String
  pub score : Problem Data → String → Dict F

-- What `provider.complete` returns; `provider_error` holds the text of the `ProviderError`.
pub data Reply (F : Type 0) : Type 0 where
  completed : String → ℕ → ℕ → F → Reply F
  provider_error : String → Reply F

pub record Candidate (F : Type 0) : Type 0 where
  pub candidate_idx : ℕ
  pub completion : String
  pub metrics : Dict F
  pub prompt_tokens : ℕ
  pub completion_tokens : ℕ
  pub latency : F
  pub error : Option String

pub data Reason : Type 0 where
  oracle_pass highest_score no_valid : Reason

-- What the selector returns; `none` is the index -1.
pub record Picked (F : Type 0) : Type 0 where
  pub idx : Option ℕ
  pub reason : Reason
  pub value : F

pub record ProblemOutcome (F : Type 0) : Type 0 where
  pub problem_id : String
  pub candidates : List (Candidate F)
  pub picked : Picked F
  pub selected_metrics : Dict F
