-- ===== src/Registry/Tests.antt =====
-- The registry at concrete entries.
use project_nexus.Prelude.{
  ℕ, ◌≡◌, refl, Bool, true, ◌&&◌, ◌||◌, Option, none, some, [], ◌∷◌, String, leb, ◌==◌,
  if◌then◌else◌,
}
use project_nexus.Prelude.Int.{pos}
use project_nexus.Py.Text.{strip}
use project_nexus.Registry.Types.{
  FamilyMember, Concierge, FamilyRegistry, MemberModel, MemberRuntime, get,
}
use project_nexus.Registry.Load.{registry_error, not_found, load_registry}
use project_nexus.Registry.Laws.{IsFit, load_registry-IsFit}

-- the ASCII letters and digits
abbrev ascii_alnum : ℕ → Bool
ascii_alnum c = (leb 48 c && leb c 57) || (leb 65 c && leb c 90) || (leb 97 c && leb c 122)

abbrev qwen : MemberModel
qwen = record {
  source = "hf:Qwen/Qwen3-30B";
  gguf_repo = none;
  format = "gguf";
  quant = "Q4_K_M";
  context_length = pos 8192;
}

abbrev spill : MemberRuntime
spill = record { offload_policy = "vram_then_ram"; sampling_defaults = [] }

abbrev member_of : String → FamilyMember
member_of id = record {
  id = id;
  display_name = id;
  spec_file = "family/spec.md";
  model = qwen;
  runtime = spill;
  memory = record { collection = "memory" };
  storage_tier_hint = "hot";
  briefing_on_wake = true;
}

abbrev page : Concierge
page = record {
  id = "page";
  display_name = "Page";
  spec_file = "family/spec.md";
  model = qwen;
  runtime = spill;
}

abbrev household : FamilyRegistry
household = record { members = member_of "kit" ∷ member_of "nyx_2" ∷ []; concierge = some page }

abbrev files : String → Option String
files path =
    if path == "family/spec.md"
    then some "Be kind."
    else if path == "family/registry.yaml"
    then some "members: ..."
    else none

abbrev parse : String → Option FamilyRegistry
parse text = some household

load_registry-IsFit_example : IsFit ascii_alnum refl files household
unfolding load_registry strip
load_registry-IsFit_example =
    load_registry-IsFit ascii_alnum refl files parse "family/registry.yaml" household refl

missing_file_runs :
    load_registry ascii_alnum files parse "family/registry.yml" ≡ registry_error not_found
unfolding load_registry
missing_file_runs = refl

get_runs : get "nyx_2" household.members ≡ some (member_of "nyx_2")
unfolding get
get_runs = refl
