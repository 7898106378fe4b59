-- ===== src/Embedder/Scopes/Access.antt =====
-- Who may read and write which scope: `readable_scopes`, `validate_write_scope`.
use project_nexus.Prelude.{◌≡◌, ◌≢◌, ◌⊎◌, ◌↔◌, true, String, arith, eq_iff}
use project_nexus.Embedder.Scopes.Defs.{
  private_scope, experiential_scope, shared_scope, readable_scopes, among, ok, value_error,
  validate_write_scope,
}
use project_nexus.Embedder.Scopes.Names.{
  private-ne-experiential, private-ne-shared, experiential-ne-shared, private_injective,
  experiential_injective,
}

-- The three ways to be readable.
pub readable_cases :
    (s m : String)
    → among s (readable_scopes m) ≡ true
    → (s ≡ private_scope m) ⊎ (s ≡ shared_scope) ⊎ (s ≡ experiential_scope m)
unfolding among readable_scopes
readable_cases s m h =
    ground
      (arith, eq_iff (private_scope m) s, eq_iff shared_scope s, eq_iff (experiential_scope m) s)

-- Whatever scope two different members may both read is the shared household scope.
pub shared_by_two :
    (a b s : String)
    → a ≢ b
    → among s (readable_scopes a) ≡ true
    → among s (readable_scopes b) ≡ true
    → s ≡ shared_scope
shared_by_two a b s ne ha hb = ground (
  arith,
  readable_cases s a ha,
  readable_cases s b hb,
  private_injective a b,
  experiential_injective a b,
  private-ne-experiential a b,
  private-ne-experiential b a,
)

-- A write of member `a` is accepted exactly for its own private scope, its own experiential scope
-- and the shared household scope.
pub write_scope_iff :
    (s a : String)
    → (validate_write_scope s a ≡ ok tt)
      ↔ ((s ≡ private_scope a) ⊎ (s ≡ shared_scope) ⊎ (s ≡ experiential_scope a))
unfolding validate_write_scope
write_scope_iff s a = (
  (λ h. readable_cases s a (ground arith)),
  (λ h.
      ground (
        arith,
        eq_iff (private_scope a) s,
        eq_iff shared_scope s,
        eq_iff (experiential_scope a) s,
      )),
)

-- A write into the private or the experiential scope of another member is refused.
pub write_scope_foreign :
    (a b : String)
    → a ≢ b
    → (validate_write_scope (private_scope b) a ≡ value_error)
      × (validate_write_scope (experiential_scope b) a ≡ value_error)
unfolding validate_write_scope
write_scope_foreign a b ne = (
  ground (
    arith,
    eq_iff (private_scope a) (private_scope b),
    eq_iff shared_scope (private_scope b),
    eq_iff (experiential_scope a) (private_scope b),
    private_injective a b,
    private-ne-shared b,
    private-ne-experiential b a,
  ),
  ground (
    arith,
    eq_iff (private_scope a) (experiential_scope b),
    eq_iff shared_scope (experiential_scope b),
    eq_iff (experiential_scope a) (experiential_scope b),
    experiential_injective a b,
    experiential-ne-shared b,
    private-ne-experiential a b,
  ),
)
