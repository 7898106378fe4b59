-- ===== src/Registry/Laws.antt =====
-- What `load_registry` of core/family.py lets through.
use project_nexus.Prelude.{
  ℕ, ◌≡◌, ◌≢◌, refl, Bool, true, false, Option, none, some, List, [], ◌∷◌, String, ◌==◌, any, All,
  arith, eq_iff, eq_refl, subst, if◌then◌else◌,
}
use project_nexus.Py.Text.{strip, str_truthy}
use project_nexus.Registry.Types.{
  FamilyMember, Concierge, FamilyRegistry, valid_member, valid_concierge, one_of, get, all_alnum,
  isalnum, without, sane_id,
}
use project_nexus.Hub.Sessions.Keys.{has_colon}
use project_nexus.Registry.Ids.{plain}
use project_nexus.Registry.Load.{
  Fault, loaded, spec_fault, all_valid, concierge_valid, or_next, members_fault, concierge_fault,
  judged, check_registry, validated, parsed, load_registry,
}

module _ (is_alnum : ℕ → Bool) (colon : is_alnum 58 ≡ false) (read : String → Option String) where
  -- The spec file is there and is not blank.
  abbrev pub HasSpec : String → Type 0
  HasSpec spec_file =
      (text : String) × (read spec_file ≡ some text) × (str_truthy (strip text) ≡ true)

  -- A member that passed its validators, that its id finds, and that has a spec.
  pub record IsAdmitted (members : List FamilyMember) (m : FamilyMember) : Type 0 where
    pub valid : valid_member is_alnum m ≡ true
    pub no_colon : has_colon m.id ≡ false
    pub found : get m.id members ≡ some m
    pub spec : HasSpec m.spec_file

  pub record IsStaff (members : List FamilyMember) (c : Concierge) : Type 0 where
    pub valid : valid_concierge is_alnum c ≡ true
    pub apart : get c.id members ≡ none
    pub spec : HasSpec c.spec_file

  abbrev pub StaffOf : List FamilyMember → Option Concierge → Type 0
  StaffOf members none = Unit
  StaffOf members (some c) = IsStaff members c

  pub record IsFit (registry : FamilyRegistry) : Type 0 where
    pub peopled : registry.members ≢ []
    pub members : All (IsAdmitted registry.members) registry.members
    pub staff : StaffOf registry.members registry.concierge

  spec_of :
      (id spec_file : String) (o : Option String)
      → read spec_file ≡ o
      → spec_fault id o ≡ none
      → HasSpec spec_file
  unfolding spec_fault
  spec_of id spec_file none e h = absurd (ground arith)
  spec_of id spec_file (some text) e h = (text, e, ground arith)

  or_next-none : (o p : Option Fault) → or_next o p ≡ none → (o ≡ none) × (p ≡ none)
  unfolding or_next
  or_next-none none p h = (refl, h)
  or_next-none (some fault) p h = absurd (ground arith)

  all_clear :
      (b : Bool) (fault : Fault) (o p : Option Fault)
      → (if b then some fault else or_next o p) ≡ none
      → (b ≡ false) × (o ≡ none) × (p ≡ none)
  unfolding or_next
  all_clear true fault o p h = absurd (ground arith)
  all_clear false fault none p h = (refl, refl, h)
  all_clear false fault (some f) p h = absurd (ground arith)

  clear :
      (b : Bool) (fault : Fault) (o : Option Fault)
      → (if b then some fault else o) ≡ none
      → (b ≡ false) × (o ≡ none)
  clear true fault o h = absurd (ground arith)
  clear false fault o h = (refl, h)

  -- the ids are new, one after the other
  IsFresh : List String → List FamilyMember → Type 0
  IsFresh seen [] = Unit
  IsFresh seen (m ∷ members) =
      (one_of m.id seen ≡ false) × HasSpec m.spec_file × IsFresh (m.id ∷ seen) members

  fresh :
      (seen : List String) (members : List FamilyMember)
      → members_fault is_alnum read seen members ≡ none
      → IsFresh seen members
  unfolding members_fault IsFresh
  fresh seen [] h = tt
  fresh seen (m ∷ members) h =
      let (new, spec, rest) = all_clear (one_of m.id seen) _ _ _ h in
      (new, spec_of m.id m.spec_file (read m.spec_file) refl spec, fresh (m.id ∷ seen) members rest)

  Fresh-apart :
      (i : String) (seen : List String) (members : List FamilyMember)
      → one_of i seen ≡ true
      → IsFresh seen members
      → All (λ m. (i == m.id) ≡ false) members
  unfolding IsFresh one_of
  Fresh-apart i seen [] h k = tt
  Fresh-apart i seen (m ∷ members) h k =
      (ground (arith, eq_iff i m.id), Fresh-apart i (m.id ∷ seen) members (ground arith) k.2)

  kept :
      (m : FamilyMember) (members rest : List FamilyMember)
      → All (λ x. (m.id == x.id) ≡ false) rest
      → All (λ x. get x.id members ≡ some x) rest
      → All (λ x. get x.id (m ∷ members) ≡ some x) rest
  unfolding get
  kept m members [] h k = tt
  kept m members (x ∷ rest) h k = (ground arith, kept m members rest h.1 k.1)

  all_found :
      (seen : List String) (members : List FamilyMember)
      → IsFresh seen members
      → All (λ x. get x.id members ≡ some x) members
  unfolding get IsFresh one_of
  all_found seen [] h = tt
  all_found seen (m ∷ members) h = (
    ground (arith, eq_refl m.id),
    kept m members members
        (Fresh-apart m.id (m.id ∷ seen) members (ground (arith, eq_refl m.id)) h.2)
        (all_found (m.id ∷ seen) members h.2),
  )

  head_found : (m : FamilyMember) (members : List FamilyMember) → get m.id (m ∷ members) ≡ some m
  unfolding get
  head_found m members = ground (arith, eq_refl m.id)

  sane :
      (m : FamilyMember)
      → valid_member is_alnum m ≡ true
      → all_alnum is_alnum (without 45 (without 95 m.id)) ≡ true
  unfolding valid_member sane_id isalnum
  sane m h = ground arith

  -- Each of the rows meets what the validators and the loop ask.
  admitted :
      (all rest : List FamilyMember) (seen : List String)
      → all_valid is_alnum rest ≡ true
      → IsFresh seen rest
      → All (λ x. get x.id all ≡ some x) rest
      → All (IsAdmitted all) rest
  unfolding all_valid IsFresh
  admitted all [] seen v f g = tt
  admitted all (m ∷ rest) seen v f g = (
    record {
      valid = ground arith;
      no_colon = plain is_alnum m.id colon (sane m (ground arith));
      found = g.0;
      spec = f.1;
    },
    admitted all rest (m.id ∷ seen) (ground arith) f.2 g.1,
  )

  absent :
      (i : String) (members : List FamilyMember)
      → any (λ m. m.id == i) members ≡ false
      → get i members ≡ none
  unfolding get
  absent i [] h = refl
  absent i (m ∷ members) h = ground (arith, absent i members)

  staff_fits :
      (members : List FamilyMember) (c : Option Concierge)
      → concierge_valid is_alnum c ≡ true
      → concierge_fault is_alnum read members c ≡ none
      → StaffOf members c
  unfolding concierge_valid concierge_fault
  staff_fits members none v h = tt
  staff_fits members (some c) v h =
      let (new, spec) = clear (any (λ m. m.id == c.id) members) _ _ h in
      record {
        valid = v;
        apart = absent c.id members new;
        spec = spec_of c.id c.spec_file (read c.spec_file) refl spec;
      }

  judged_inv :
      (registry r : FamilyRegistry) (o : Option Fault)
      → judged is_alnum read registry o ≡ loaded r
      → (o ≡ none) × (registry ≡ r)
  unfolding judged
  judged_inv registry r none h = (refl, cc)
  judged_inv registry r (some fault) h = absurd (ground arith)

  -- what the checks after the validation let through
  checked :
      (members : List FamilyMember) (c : Option Concierge) (r : FamilyRegistry)
      → all_valid is_alnum members ≡ true
      → concierge_valid is_alnum c ≡ true
      → check_registry is_alnum read (record { members = members; concierge = c }) ≡ loaded r
      → IsFit r
  unfolding check_registry
  checked [] c r v w h = absurd (ground arith)
  checked (m ∷ members) c r v w h =
      let all = m ∷ members in
      let (clean, same) = judged_inv _ r _ h in
      let (no_fault, staff) = or_next-none (members_fault is_alnum read [] all) _ clean in
      let new = fresh [] all no_fault in
      subst IsFit same (record {
        peopled = λ e. absurd (ground arith);
        members = admitted all all [] v new (all_found [] all new);
        staff = staff_fits all c w staff;
      })

  valid_inv :
      (registry : Option FamilyRegistry) (r : FamilyRegistry)
      → validated is_alnum read registry ≡ loaded r
      → IsFit r
  unfolding validated
  valid_inv none r h = absurd (ground arith)
  valid_inv (some registry) r h =
      checked registry.members registry.concierge r (ground arith) (ground arith) (ground arith)

  parsed_inv :
      (parse : String → Option FamilyRegistry) (text : Option String) (r : FamilyRegistry)
      → parsed is_alnum read parse text ≡ loaded r
      → IsFit r
  unfolding parsed
  parsed_inv parse none r h = absurd (ground arith)
  parsed_inv parse (some text) r h = valid_inv (parse text) r h

  -- A registry that is loaded has members; its validators passed, each member is found under its own
  -- id, which thus stands once, no id holds a colon, no member has the concierge's id, and every spec file is there and is
  -- not blank.
  pub load_registry-IsFit :
      (parse : String → Option FamilyRegistry) (path : String) (r : FamilyRegistry)
      → load_registry is_alnum read parse path ≡ loaded r
      → IsFit r
  unfolding load_registry
  load_registry-IsFit parse path r h = parsed_inv parse (read path) r h
