-- ===== src/Client/Settings.antt =====
-- clients/cli/nexus_cli.py: where the client finds the hub, its token, and the headers it sends.
use Prim.Native.Char.{Char, code}
use project_nexus.Prelude.{
  Bool, true, false, Option, none, some, [], ◌∷◌, String, nat_eq, if◌then◌else◌,
}
use project_nexus.Py.Text.{◌⧺◌, str_truthy, strip}
use project_nexus.Py.Dict.{Dict, lookup, insert}

-- `s or t`, where `s` may be None
unfoldable pub or_text : Option String → String → String
or_text none t = t
or_text (some s) t = if str_truthy s then s else t

unfoldable pub given : Option String → Bool
given none = false
given (some s) = str_truthy s

unfoldable pub cons_unless_slash : Char → String → String
cons_unless_slash c String.[] = if nat_eq (code c) 47 then String.[] else String.◌∷◌ c String.[]
cons_unless_slash c (String.◌∷◌ d s) = String.◌∷◌ c (String.◌∷◌ d s)

-- s.rstrip("/")
unfoldable pub rstrip_slash : String → String
unfolding cons_unless_slash
rstrip_slash String.[] = String.[]
rstrip_slash (String.◌∷◌ c s) = cons_unless_slash c (rstrip_slash s)

-- The id that this run uses and the one written to the file, from the file's text, where it exists,
-- and a new uuid. A write that fails changes nothing of the answer.
unfoldable pub load_session_id : Bool → Option String → String → String × Option String
load_session_id true stored new_id = (new_id, some new_id)
load_session_id false none new_id = (new_id, some new_id)
load_session_id false (some content) new_id =
    if str_truthy (strip content) then (strip content, none) else (new_id, some new_id)

-- The parts of the config file that the client reads, as it has them.
pub record Config : Type 0 where
  pub targets : Option (Dict String)
  pub default_target : Option String
  pub auth_token : Option String
  pub default_member : Option String

-- The flags that choose what the client does.
pub record Args : Type 0 where
  pub url : Option String
  pub target : Option String
  pub token : Option String
  pub session_id : Option String
  pub new_session : Bool
  pub family : Bool
  pub member : Option String
  pub check_inbox : Option String
  pub prompt : Option String

abbrev pub or_default {ℓ} : {A : Type ℓ} → Option A → A → A
or_default none d = d
or_default (some a) d = a

unfoldable pub target_name : Args → Config → String
unfolding or_text
target_name args cfg = or_text args.target (or_default cfg.default_target "tailscale")

-- `none` is the BrainstemError for an unknown target.
unfoldable pub url_of : Option String → Option String
unfolding rstrip_slash
url_of none = none
url_of (some url) = some (rstrip_slash url)

unfoldable pub resolve_base_url : Args → Config → Option String
unfolding url_of target_name
resolve_base_url args cfg =
    let named = url_of (lookup (target_name args cfg) (or_default cfg.targets [])) in
    elim args.url [ none ↦ named | some url ↦ if str_truthy url then url_of (some url) else named ]

-- The second argument is the environment's NEXUS_AUTH_TOKEN.
unfoldable pub resolve_token : Args → Option String → Config → String
resolve_token args env_token cfg = elim args.token [
  | some token ↦ token
  | none ↦ elim env_token [ some token ↦ token | none ↦ or_default cfg.auth_token "" ]
]

abbrev pub with_token : String → Dict String → Dict String
with_token token headers =
    if str_truthy token then insert "Authorization" ("Bearer " ⧺ token) headers else headers

unfoldable pub build_headers : String → String → Dict String
build_headers session_id token =
    with_token token (("Content-Type", "application/json") ∷ ("X-Session-Id", session_id) ∷ [])

unfoldable pub build_member_headers : String → Dict String
build_member_headers token = with_token token (("Content-Type", "application/json") ∷ [])
