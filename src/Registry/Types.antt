-- ===== src/Registry/Types.antt =====
-- core/family.py: the registry's models and their field validators. `is_alnum` tells the characters
-- that `str.isalnum` accepts.
use Prim.Native.Char.{code}
use project_nexus.Prelude.{
  ℕ, Bool, true, false, not, ◌&&◌, Option, none, some, List, [], ◌∷◌, String, ◌==◌, any, nat_eq,
  if◌then◌else◌,
}
use project_nexus.Prelude.Int.{ℤ, pos, negsuc}
use project_nexus.Py.Text.{str_truthy}
use project_nexus.Py.Dict.{Dict}

abbrev pub offload_policies : List String
offload_policies = "vram_then_ram" ∷ "vram_ram_ssd" ∷ []

abbrev pub storage_tiers : List String
storage_tiers = "hot" ∷ "warm" ∷ "cold" ∷ []

abbrev pub model_formats : List String
model_formats = "gguf" ∷ []

pub record MemberModel : Type 0 where
  pub source : String
  pub gguf_repo : Option String
  pub format : String
  pub quant : String
  pub context_length : ℤ

-- The sampling defaults are floats, by their `repr`.
pub record MemberRuntime : Type 0 where
  pub offload_policy : String
  pub sampling_defaults : Dict String

pub record MemberMemory : Type 0 where
  pub collection : String

pub record FamilyMember : Type 0 where
  pub id : String
  pub display_name : String
  pub spec_file : String
  pub model : MemberModel
  pub runtime : MemberRuntime
  pub memory : MemberMemory
  pub storage_tier_hint : String
  pub briefing_on_wake : Bool

pub record Concierge : Type 0 where
  pub id : String
  pub display_name : String
  pub spec_file : String
  pub model : MemberModel
  pub runtime : MemberRuntime

pub record FamilyRegistry : Type 0 where
  pub members : List FamilyMember
  pub concierge : Option Concierge

-- v in xs
unfoldable pub one_of : String → List String → Bool
one_of v xs = any (λ x. x == v) xs

unfoldable pub known_format : MemberModel → Bool
unfolding one_of
known_format m = one_of m.format model_formats

-- v > 0
unfoldable pub positive_ctx : MemberModel → Bool
positive_ctx m = elim m.context_length [ pos n ↦ not (nat_eq n 0) | negsuc n ↦ false ]

unfoldable pub known_policy : MemberRuntime → Bool
unfolding one_of
known_policy r = one_of r.offload_policy offload_policies

-- v.replace(c, "") for a character
unfoldable pub without : ℕ → String → String
without c String.[] = String.[]
without c (String.◌∷◌ d s) =
    let rest = without c s in if nat_eq (code d) c then rest else String.◌∷◌ d rest

unfoldable pub all_alnum : (ℕ → Bool) → String → Bool
all_alnum is_alnum String.[] = true
all_alnum is_alnum (String.◌∷◌ c s) = let rest = all_alnum is_alnum s in is_alnum (code c) && rest

-- s.isalnum(), which is false for the empty text
unfoldable pub isalnum : (ℕ → Bool) → String → Bool
unfolding all_alnum
isalnum is_alnum s = str_truthy s && all_alnum is_alnum s

-- `_` is 95 and `-` is 45
unfoldable pub sane_id : (ℕ → Bool) → String → Bool
unfolding isalnum without
sane_id is_alnum v = str_truthy v && isalnum is_alnum (without 45 (without 95 v))

unfoldable pub known_tier : FamilyMember → Bool
unfolding one_of
known_tier m = one_of m.storage_tier_hint storage_tiers

-- The validators of a member and of the concierge.
unfoldable pub valid_member : (ℕ → Bool) → FamilyMember → Bool
unfolding known_format positive_ctx known_policy sane_id known_tier
valid_member is_alnum m =
    sane_id is_alnum m.id
    && known_format m.model
    && positive_ctx m.model
    && known_policy m.runtime
    && known_tier m

unfoldable pub valid_concierge : (ℕ → Bool) → Concierge → Bool
unfolding known_format positive_ctx known_policy sane_id
valid_concierge is_alnum c =
    sane_id is_alnum c.id && known_format c.model && positive_ctx c.model && known_policy c.runtime

-- registry.get; `none` is its KeyError
unfoldable pub get : String → List FamilyMember → Option FamilyMember
get member_id [] = none
get member_id (m ∷ members) =
    let rest = get member_id members in if m.id == member_id then some m else rest

-- member_id in registry
unfoldable pub is_member : String → List FamilyMember → Bool
is_member member_id members = any (λ m. m.id == member_id) members
