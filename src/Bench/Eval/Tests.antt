-- ===== src/Bench/Eval/Tests.antt =====
-- Best-of-N at concrete candidates.
use project_nexus.Prelude.{
  ℕ, ◌≡◌, refl, ◌+◌, ◌-◌, ◌*◌, ◌/◌, none, some, List, [], ◌∷◌, String, ltb, arith,
}
use project_nexus.Py.Dict.{lookup}
use project_nexus.Bench.Eval.Types.{
  Floats, EvalTask, Reply, completed, Candidate, highest_score, Sampling,
}
use project_nexus.Bench.Eval.Aggregate.{Runner}
use project_nexus.Bench.Eval.Select.{select_candidate}
use project_nexus.Bench.Eval.Run.{run_seed}

total : List ℕ → ℕ
total [] = 100
total (n ∷ ns) = n + total ns - 100

-- hundredths, with 100 for zero
abbrev cents : Floats ℕ
cents = record {
  zero = 100;
  one = 200;
  minus_one = 0;
  hundred = 10100;
  p50 = 150;
  p95 = 195;
  of_nat = λ n. n * 100 + 100;
  sub = λ a b. a + 100 - b;
  add = λ a b. a + b - 100;
  mul = λ a b. (a - 100) * (b - 100) / 100 + 100;
  div = λ a b. (a - 100) * 100 / (b - 100) + 100;
  sum = total;
  trunc = λ a. (a - 100) / 100;
  lt = ltb;
  lt_trans = λ a b c h k. ground arith;
  le_lt = λ a b c h k. ground arith;
}

abbrev scored : ℕ → ℕ → Candidate ℕ
scored i v = record {
  candidate_idx = i;
  completion = "";
  metrics = ("score", v) ∷ [];
  prompt_tokens = 1;
  completion_tokens = 1;
  latency = 100;
  error = none;
}

abbrev errored : ℕ → Candidate ℕ
errored i = record (scored i 200) { error = some "timeout" }

-- the first errored, the second and the fourth are best
abbrev four : List (Candidate ℕ)
four = errored 0 ∷ scored 1 150 ∷ scored 2 120 ∷ scored 3 150 ∷ []

four_runs :
    select_candidate cents "score" four
    ≡ record { idx = some 1; reason = highest_score; value = 150 }
unfolding select_candidate lookup
four_runs = refl

abbrev echo : EvalTask ℕ ℕ
echo = record {
  task_id = "echo";
  primary_metric = "score";
  problems = record { problem_id = "p1"; prompt = "say"; reference = 0 } ∷ [];
  build_prompt = λ p. p.prompt;
  score = λ p text. ("score", 200) ∷ [];
}

abbrev provider : ℕ → String → Sampling ℕ → Reply ℕ
provider t prompt sampling = completed prompt 3 4 (sampling.seed + 100)

abbrev runner : Runner ℕ
runner = record { n_candidates = 2; temperature = 180; top_p = 195; max_tokens = 2048 }

tokens_run : (run_seed cents provider runner echo 5).1.tokens_completion_total ≡ 8
unfolding run_seed
tokens_run = refl
