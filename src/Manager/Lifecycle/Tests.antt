-- ===== src/Manager/Lifecycle/Tests.antt =====
-- The model manager at a concrete member.
use project_nexus.Prelude.{false, ◌+◌, ◌≡◌, refl, inl, true, none, List, [], ◌∷◌, arith, leb}
use project_nexus.Prelude.Int.{pos}
use project_nexus.Py.Dict.{contains}
use project_nexus.Registry.Types.{FamilyMember}
use project_nexus.Manager.Tiering.{WeightsFile, wrote}
use project_nexus.Manager.Lifecycle.Command.{Config, weights_filename, build_command}
use project_nexus.Manager.Lifecycle.Wait.{Host, ready, wait_healthy, Explained, Advances, wait_ends}
use project_nexus.Manager.Lifecycle.Load.{Manager, Boot, started, no_binary, load}
use project_nexus.Manager.Lifecycle.Presence.{IsSound, IsInStep, last_report}
use project_nexus.Manager.Lifecycle.Sound.{
  IsDone, load-IsDone, Command, load_it, unload_it, obey_all, obey_all-IsInStep,
}

abbrev kit : FamilyMember
kit = record {
  id = "kit";
  display_name = "Kit";
  spec_file = "family/kit.md";
  model = record {
    source = "hf:Qwen/Qwen3-30B";
    gguf_repo = none;
    format = "gguf";
    quant = "Q4";
    context_length = pos 4096;
  };
  runtime = record { offload_policy = "vram_then_ram"; sampling_defaults = [] };
  memory = record { collection = "memory" };
  storage_tier_hint = "hot";
  briefing_on_wake = true;
}

abbrev weights : WeightsFile
weights = record { size = 30; atime = 1; content = "gguf" }

abbrev config : Config
config = record {
  hot_dir = "D:/hot";
  llama_server_bin = "llama-server";
  llama_host = "127.0.0.1";
  llama_port = 8000;
  load_timeout = 600;
  has_sink = true;
}

abbrev idle : Manager
idle = record {
  config = config;
  tiers = record { hot = []; warm = ("Qwen3-30B.Q4.gguf", weights) ∷ []; cold = [] };
  loaded = [];
  effects = [];
}

-- the clock moves by two in each round, and the server answers in the fourth
abbrev slow_host : Host
slow_host = record { clock = λ k. 100 + (k + k); poll = λ k. none; healthy = λ k. leb 3 k }

abbrev boot : Boot
boot = record {
  copied = wrote weights true;
  hears = λ p. true;
  spawned = started 42;
  host = slow_host;
  start = 100;
  now = 7;
}

slow-Advances : Advances slow_host
slow-Advances k = omega arith

weights_filename_runs : weights_filename kit ≡ "Qwen3-30B.Q4.gguf"
unfolding weights_filename
weights_filename_runs = refl

build_command_runs :
    build_command config kit "D:/hot/w"
    ≡ "llama-server" ∷ "--model" ∷ "D:/hot/w" ∷ "--host" ∷ "127.0.0.1" ∷ "--port" ∷ "8000"
      ∷ "--ctx-size" ∷ "4096" ∷ "--n-gpu-layers" ∷ "999" ∷ "--no-mmap" ∷ []
unfolding build_command
build_command_runs = refl

wait_runs : wait_healthy slow_host 100 600 ≡ ready 3
unfolding wait_healthy
wait_runs = refl

wait_ends_example : Explained slow_host 700 (wait_healthy slow_host 100 600)
wait_ends_example = wait_ends slow_host 100 600 slow-Advances (omega arith)

idle-IsSound : IsSound idle
unfolding contains last_report
idle-IsSound = record { distinct = tt; agrees = λ i. inl refl }

load-IsDone_example : IsDone "kit" (load (λ s. s) boot kit idle)
load-IsDone_example = load-IsDone (λ s. s) boot kit idle idle-IsSound

abbrev day : List Command
day =
    load_it boot kit
    ∷ unload_it true false "kit"
    ∷ load_it (record boot { spawned = no_binary }) kit
    ∷ []

obey_all-IsInStep_example : IsInStep (obey_all (λ s. s) day idle)
obey_all-IsInStep_example = obey_all-IsInStep (λ s. s) day idle idle-IsSound
