-- ===== src/Manager/Lifecycle/Command.antt =====
-- `weights_filename` and `_build_command` of nodes/model_manager_4090/manager.py.
use Prim.Native.Char.{code}
use project_nexus.Prelude.{ℕ, Bool, List, [], ◌∷◌, ◌++◌, String, nat_eq, ◌==◌, if◌then◌else◌}
use project_nexus.Py.Text.{◌⧺◌}
use project_nexus.Py.Number.{str_of_int, str_of_nat}
use project_nexus.Registry.Types.{FamilyMember, one_of, offload_policies}

-- s.split("/")[-1], where `part` is what stands before `s` in its part
unfoldable pub last_part : String → String → String
last_part part String.[] = part
last_part part (String.◌∷◌ c s) =
    let here = last_part (part ⧺ String.◌∷◌ c String.[]) s in
    let next = last_part "" s in if nat_eq (code c) 47 then next else here

unfoldable pub weights_filename : FamilyMember → String
unfolding last_part
weights_filename member =
    last_part "" member.model.source ⧺ "." ⧺ member.model.quant ⧺ "." ⧺ member.model.format

-- What `ModelManager.__init__` keeps of the configuration. Times are in nanoseconds.
pub record Config : Type 0 where
  pub hot_dir : String
  pub llama_server_bin : String
  pub llama_host : String
  pub llama_port : ℕ
  pub load_timeout : ℕ
  pub has_sink : Bool

unfoldable pub gpu_layers : String → List String
unfolding one_of
gpu_layers policy = if one_of policy offload_policies then "--n-gpu-layers" ∷ "999" ∷ [] else []

unfoldable pub no_mmap : String → List String
no_mmap policy = if policy == "vram_then_ram" then "--no-mmap" ∷ [] else []

unfoldable pub build_command : Config → FamilyMember → String → List String
unfolding gpu_layers no_mmap str_of_nat str_of_int
build_command config member weights_path =
    (config.llama_server_bin
      ∷ "--model"
      ∷ weights_path
      ∷ "--host"
      ∷ config.llama_host
      ∷ "--port"
      ∷ str_of_nat config.llama_port
      ∷ "--ctx-size"
      ∷ str_of_int member.model.context_length
      ∷ [])
    ++ gpu_layers member.runtime.offload_policy
    ++ no_mmap member.runtime.offload_policy
