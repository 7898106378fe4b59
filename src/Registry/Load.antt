-- ===== src/Registry/Load.antt =====
-- `load_registry` and `load_member_spec` of core/family.py. The file system is `read`, which gives
-- the text of a regular file under the repository's root; the YAML parser and pydantic's typing of
-- the fields are `parse`, before the field validators of the models.
use project_nexus.Prelude.{
  ℕ, Bool, true, ◌&&◌, Option, none, some, List, [], ◌∷◌, String, ◌==◌, any, if◌then◌else◌,
}
use project_nexus.Py.Text.{strip, str_truthy}
use project_nexus.Registry.Types.{
  FamilyMember, Concierge, FamilyRegistry, valid_member, valid_concierge, one_of,
}

-- What is wrong, in the order of the checks.
pub data Fault : Type 0 where
  not_found invalid no_members : Fault
  duplicate_id missing_spec empty_spec : String → Fault
  concierge_collides : String → Fault

pub data Loaded : Type 0 where
  loaded : FamilyRegistry → Loaded
  registry_error : Fault → Loaded

-- the check of a spec file, on behalf of `id`
unfoldable pub spec_fault : String → Option String → Option Fault
spec_fault id none = some (missing_spec id)
spec_fault id (some text) = if str_truthy (strip text) then none else some (empty_spec id)

unfoldable pub all_valid : (ℕ → Bool) → List FamilyMember → Bool
unfolding valid_member
all_valid is_alnum [] = true
all_valid is_alnum (m ∷ members) =
    let rest = all_valid is_alnum members in valid_member is_alnum m && rest

unfoldable pub concierge_valid : (ℕ → Bool) → Option Concierge → Bool
unfolding valid_concierge
concierge_valid is_alnum none = true
concierge_valid is_alnum (some c) = valid_concierge is_alnum c

-- the first fault of a member, or that of the rest
unfoldable pub or_next : Option Fault → Option Fault → Option Fault
or_next none rest = rest
or_next (some fault) rest = some fault

module _ (is_alnum : ℕ → Bool) (read : String → Option String) where
  -- the loop over the members; `seen` holds the ids before
  unfoldable pub members_fault : List String → List FamilyMember → Option Fault
  unfolding spec_fault one_of or_next
  members_fault seen [] = none
  members_fault seen (m ∷ members) =
      let rest = members_fault (m.id ∷ seen) members in
      if one_of m.id seen
      then some (duplicate_id m.id)
      else or_next (spec_fault m.id (read m.spec_file)) rest

  unfoldable pub concierge_fault : List FamilyMember → Option Concierge → Option Fault
  unfolding spec_fault
  concierge_fault members none = none
  concierge_fault members (some c) =
      if any (λ m. m.id == c.id) members
      then some (concierge_collides c.id)
      else spec_fault c.id (read c.spec_file)

  unfoldable pub judged : FamilyRegistry → Option Fault → Loaded
  judged registry none = loaded registry
  judged registry (some fault) = registry_error fault

  -- what follows the validation
  unfoldable pub check_registry : FamilyRegistry → Loaded
  unfolding judged members_fault concierge_fault or_next
  check_registry registry = elim registry.members [
    | [] ↦ registry_error no_members
    | m ∷ members ↦ judged registry (
        or_next (members_fault [] (m ∷ members)) (concierge_fault (m ∷ members) registry.concierge))
  ]

  unfoldable pub validated : Option FamilyRegistry → Loaded
  unfolding check_registry all_valid concierge_valid
  validated none = registry_error invalid
  validated (some registry) =
      if all_valid is_alnum registry.members && concierge_valid is_alnum registry.concierge
      then check_registry registry
      else registry_error invalid

  unfoldable pub parsed : (String → Option FamilyRegistry) → Option String → Loaded
  unfolding validated
  parsed parse none = registry_error not_found
  parsed parse (some text) = validated (parse text)

  unfoldable pub load_registry : (String → Option FamilyRegistry) → String → Loaded
  unfolding parsed
  load_registry parse registry_path = parsed parse (read registry_path)

  -- the text of the spec file; `none` is its OSError
  unfoldable pub load_member_spec : FamilyMember → Option String
  load_member_spec member = elim (read member.spec_file) [
    | none ↦ none
    | some text ↦ some (strip text)
  ]
