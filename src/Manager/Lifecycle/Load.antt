-- ===== src/Manager/Lifecycle/Load.antt =====
-- `load`, `unload` and `status` of nodes/model_manager_4090/manager.py.
use project_nexus.Prelude.{
  ℕ, Bool, true, false, Option, none, some, List, [], ◌∷◌, String, if◌then◌else◌,
}
use project_nexus.Prelude.Int.{ℤ}
use project_nexus.Py.Text.{◌⧺◌}
use project_nexus.Py.Dict.{Dict, lookup, insert, erase}
use project_nexus.Registry.Types.{FamilyMember}
use project_nexus.Manager.Tiering.{
  Tiers, Copying, Stage, staged_from, not_found, checksum_failed, io_failed, ensure_hot,
}
use project_nexus.Manager.Lifecycle.Command.{Config, weights_filename, build_command}
use project_nexus.Manager.Lifecycle.Wait.{
  Host, Waited, ready, exited, timed_out, out_of_fuel, wait_healthy,
}

pub record LoadedMember : Type 0 where
  pub member_id : String
  pub process : ℕ
  pub port : ℕ
  pub weights_path : String
  pub loaded_at : ℕ

-- What the manager does outside: a presence report to the hub, and whether the hub took it, since
-- `HubPresenceClient.report` only logs a failed request; the processes; a metric record.
pub data Effect : Type 0 where
  report : String → String → Bool → Effect
  spawn : List String → Effect
  terminate kill : ℕ → Effect
  write_record : String → Bool → Effect

-- `effects` holds the newest first.
pub record Manager : Type 0 where
  pub config : Config
  pub tiers : Tiers
  pub loaded : Dict LoadedMember
  pub effects : List Effect

unfoldable pub emit : Effect → Manager → Manager
emit e m = record m { effects = e ∷ m.effects }

-- `_record`
unfoldable pub record_load : String → Bool → Manager → Manager
unfolding emit
record_load member_id ok m = if m.config.has_sink then emit (write_record member_id ok) m else m

-- The exceptions that leave `load`.
pub data LoadError : Type 0 where
  weights_not_found binary_not_found checksum_mismatch os_error process_exited load_timeout never :
      LoadError

pub data Load : Type 0 where
  entry : LoadedMember → Load
  raised : LoadError → Load

-- What `subprocess.Popen` does: a process, `FileNotFoundError`, or another `OSError`.
pub data Spawned : Type 0 where
  started : ℕ → Spawned
  no_binary spawn_failed : Spawned

-- What the surroundings do during one call of `load`.
-- `hears` says which presence's report reaches the hub: a load reports each at most once.
pub record Boot : Type 0 where
  pub copied : Copying
  pub hears : String → Bool
  pub spawned : Spawned
  pub host : Host
  pub start : ℕ
  pub now : ℕ

-- the `except` and `finally` of a failed start
unfoldable pub fail_load : Boot → String → LoadError → Manager → Load × Manager
unfolding emit record_load
fail_load boot member_id error m = (
  raised error,
  record_load member_id false (emit (report member_id "asleep" (boot.hears "asleep")) m),
)

unfoldable pub loaded_member : String → String → ℕ → ℕ → Config → LoadedMember
loaded_member member_id path pid now config = record {
  member_id = member_id;
  process = pid;
  port = config.llama_port;
  weights_path = path;
  loaded_at = now;
}

-- the `finally`, and what follows it
unfoldable pub finish_load : Boot → String → String → ℕ → ℕ → Manager → Load × Manager
unfolding emit record_load loaded_member
finish_load boot member_id path pid now m =
    let e = loaded_member member_id path pid now m.config in
    let recorded = record_load member_id true m in
    (
      entry e,
      emit (report member_id "awake" (boot.hears "awake"))
          (record recorded { loaded = insert member_id e recorded.loaded }),
    )

unfoldable pub after_wait : Boot → String → String → ℕ → ℕ → Waited → Manager → Load × Manager
unfolding fail_load finish_load emit
after_wait boot member_id path pid now (ready k) m = finish_load boot member_id path pid now m
after_wait boot member_id path pid now (exited code) m = fail_load boot member_id process_exited m
after_wait boot member_id path pid now timed_out m =
    fail_load boot member_id load_timeout (emit (terminate pid) m)
after_wait boot member_id path pid now out_of_fuel m = fail_load boot member_id never m

unfoldable pub after_spawn : Boot → FamilyMember → String → Spawned → Manager → Load × Manager
unfolding after_wait fail_load
after_spawn boot member path (started pid) m =
    after_wait boot member.id path pid boot.now
      (wait_healthy boot.host boot.start m.config.load_timeout) m
after_spawn boot member path no_binary m = fail_load boot member.id binary_not_found m
after_spawn boot member path spawn_failed m = fail_load boot member.id os_error m

-- tiers.hot / filename
unfoldable pub hot_path : Config → String → String
hot_path config filename = config.hot_dir ⧺ "/" ⧺ filename

unfoldable pub after_stage : Boot → FamilyMember → Stage → Manager → Load × Manager
unfolding after_spawn emit hot_path
after_stage boot member (staged_from tier) m =
    let path = hot_path m.config (weights_filename member) in
    after_spawn boot member path boot.spawned (
      emit (spawn (build_command m.config member path))
        (emit (report member.id "waking" (boot.hears "waking")) m))
after_stage boot member not_found m = (raised weights_not_found, m)
after_stage boot member checksum_failed m = (raised checksum_mismatch, m)
after_stage boot member io_failed m = (raised os_error, m)

unfoldable pub load_new : (String → String) → Boot → FamilyMember → Manager → Load × Manager
unfolding after_stage
load_new sha256 boot member m =
    let staged = ensure_hot sha256 boot.copied (weights_filename member) m.tiers in
    after_stage boot member staged.0 (record m { tiers = staged.1 })

unfoldable pub load_or :
    (String → String) → Boot → FamilyMember → Option LoadedMember → Manager → Load × Manager
unfolding load_new
load_or sha256 boot member (some e) m = (entry e, m)
load_or sha256 boot member none m = load_new sha256 boot member m

unfoldable pub load : (String → String) → Boot → FamilyMember → Manager → Load × Manager
unfolding load_or
load sha256 boot member m = load_or sha256 boot member (lookup member.id m.loaded) m

-- `stops` says whether the process ends within the grace after SIGTERM, `hears` whether the report
-- reaches the hub.
unfoldable pub stop_process : Bool → ℕ → Manager → Manager
unfolding emit
stop_process true pid m = emit (terminate pid) m
stop_process false pid m = emit (kill pid) (emit (terminate pid) m)

unfoldable pub unload_entry : Bool → Bool → String → Option LoadedMember → Manager → Bool × Manager
unfolding stop_process emit
unload_entry stops hears member_id none m = (false, m)
unload_entry stops hears member_id (some e) m = (
  true,
  emit (report member_id "asleep" hears)
      (stop_process stops e.process (record m { loaded = erase member_id m.loaded })),
)

unfoldable pub unload : Bool → Bool → String → Manager → Bool × Manager
unfolding unload_entry
unload stops hears member_id m = unload_entry stops hears member_id (lookup member_id m.loaded) m

pub record Status : Type 0 where
  pub port : ℕ
  pub weights : String
  pub alive : Bool
  pub loaded_at : ℕ

-- `poll` is `entry.process.poll()` for a process; none where it lives.
unfoldable pub status_of : (ℕ → Option ℤ) → LoadedMember → Status
status_of poll e = record {
  port = e.port;
  weights = e.weights_path;
  alive = elim (poll e.process) [ none ↦ true | some code ↦ false ];
  loaded_at = e.loaded_at;
}

unfoldable pub status : (ℕ → Option ℤ) → Dict LoadedMember → Dict Status
unfolding status_of
status poll [] = []
status poll ((i, e) ∷ loaded) = (i, status_of poll e) ∷ status poll loaded
