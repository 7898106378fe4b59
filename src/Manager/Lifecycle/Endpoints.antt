-- ===== src/Manager/Lifecycle/Endpoints.antt =====
-- The endpoints of nodes/model_manager_4090/server.py.
use project_nexus.Prelude.{ℕ, Bool, Option, none, some, List, [], ◌∷◌, String}
use project_nexus.Prelude.Int.{ℤ}
use project_nexus.Py.Dict.{Dict}
use project_nexus.Registry.Types.{FamilyMember, get}
use project_nexus.Manager.Tiering.{WeightsFile, Tiers, Tier, find_weights}
use project_nexus.Manager.Lifecycle.Command.{weights_filename}
use project_nexus.Manager.Lifecycle.Load.{
  Manager, Load, entry, raised, LoadError, weights_not_found, binary_not_found, Boot, Status, load,
  unload, status,
}

-- A response, or the status code of an `HTTPException`.
pub data Served (A : Type 0) : Type 0 where
  served : A → Served A
  http_error : ℕ → Served A

-- `FileNotFoundError` is 404, the other exceptions of a load are 502.
unfoldable pub status_code : LoadError → ℕ
status_code weights_not_found = 404
status_code binary_not_found = 404
status_code error = 502

pub record LoadResponse : Type 0 where
  pub member_id : String
  pub port : ℕ
  pub weights : String

unfoldable pub load_response : String → Load × Manager → Served LoadResponse × Manager
unfolding status_code
load_response member_id (entry e, m) =
    (served (record { member_id = member_id; port = e.port; weights = e.weights_path }), m)
load_response member_id (raised error, m) = (http_error (status_code error), m)

unfoldable pub load_found :
    (String → String)
    → Boot
    → String
    → Option FamilyMember
    → Manager
    → Served LoadResponse × Manager
unfolding load_response
load_found sha256 boot member_id none m = (http_error 404, m)
load_found sha256 boot member_id (some member) m =
    load_response member_id (load sha256 boot member m)

-- `_member_or_404` is `get` over the registry's members.
unfoldable pub load_member :
    (String → String) → Boot → List FamilyMember → String → Manager → Served LoadResponse × Manager
unfolding load_found
load_member sha256 boot members member_id m =
    load_found sha256 boot member_id (get member_id members) m

unfoldable pub unload_found :
    Bool → Bool → String → Option FamilyMember → Manager → Served Bool × Manager
unload_found stops hears member_id none m = (http_error 404, m)
unload_found stops hears member_id (some member) m =
    let r = unload stops hears member_id m in (served r.0, r.1)

unfoldable pub unload_member :
    Bool → Bool → List FamilyMember → String → Manager → Served Bool × Manager
unfolding unload_found
unload_member stops hears members member_id m =
    unload_found stops hears member_id (get member_id members) m

unfoldable pub tier_of : Option (Tier × WeightsFile) → Option Tier
tier_of none = none
tier_of (some (tier, f)) = some tier

-- The file name and the tier of each member's weights.
unfoldable pub weights_status : Tiers → List FamilyMember → Dict (String × Option Tier)
unfolding tier_of
weights_status tiers [] = []
weights_status tiers (m ∷ members) =
    (m.id, (weights_filename m, tier_of (find_weights (weights_filename m) tiers)))
    ∷ weights_status tiers members

unfoldable pub get_status :
    (ℕ → Option ℤ) → List FamilyMember → Manager → Dict Status × Dict (String × Option Tier)
unfolding weights_status
get_status poll members m = (status poll m.loaded, weights_status m.tiers members)
