-- ===== src/Embedder/Scopes/Provenance.antt =====
-- The paper trail of a promotion, and the migration of rows without a scope.
use project_nexus.Prelude.{
  ◌≡◌, refl, true, false, Option, none, some, List, [], ◌∷◌, String, arith, eq_iff, map, All, ◌==◌,
  Bool-cases, inl, inr, if◌then◌else◌,
}
use project_nexus.Py.Dict.{lookup, lookup-insert}
use project_nexus.Py.Value.{Value, str, truthy}
use project_nexus.Embedder.Scopes.Defs.{
  Meta, private_scope, shared_scope, household_member_id, ok, is_text, among, promotion_trail,
  build_promotion_metadata, has_scope, grandfather, plan_scope_backfill, meta_or_empty,
}
use project_nexus.Embedder.Scopes.Names.{private-ne-empty}

is_text_eq : (s : String) (o : Option Value) → is_text s o ≡ true → o ≡ some (str s)
unfolding is_text
is_text_eq s (some (str t)) h = ground (arith, eq_iff t s)
is_text_eq s none h = ground arith
is_text_eq s (some v) h = ground arith

-- What a lookup in a promoted row's metadata finds.
promoted_lookup :
    (k m by i : String) (meta : Meta)
    → lookup k (promotion_trail m by i meta) ≡ (
        if "promoted_by" == k
        then some (str by)
        else if "promoted_from_member" == k
        then some (str m)
        else if "promoted_from" == k
        then some (str i)
        else if "origin" == k
        then some (str "promotion")
        else if "member_id" == k
        then some (str household_member_id)
        else if "scope" == k
        then some (str shared_scope)
        else lookup k meta)
unfolding promotion_trail
promoted_lookup k m by i meta = simp lookup-insert

-- The keys that a promotion writes.
abbrev pub trail_keys : List String
trail_keys =
    "scope" ∷ "member_id" ∷ "origin" ∷ "promoted_from" ∷ "promoted_from_member" ∷ "promoted_by" ∷ []

promoted_kept :
    (meta : Meta) (m by i k : String)
    → among k trail_keys ≡ false
    → lookup k (promotion_trail m by i meta) ≡ lookup k meta
unfolding among
promoted_kept meta m by i k h = rw promoted_lookup (ground arith)

promoted_inv :
    (meta meta' : Meta) (m by i : String)
    → build_promotion_metadata meta m by i ≡ ok meta'
    → (lookup "scope" meta ≡ some (str (private_scope m))) × (meta' ≡ promotion_trail m by i meta)
unfolding build_promotion_metadata
promoted_inv meta meta' m by i h =
    ground (arith, is_text_eq (private_scope m) (lookup "scope" meta))

pub record IsPromotionOf (meta meta' : Meta) (m by i : String) : Type 0 where
  pub source : lookup "scope" meta ≡ some (str (private_scope m))
  pub scope : lookup "scope" meta' ≡ some (str shared_scope)
  pub member : lookup "member_id" meta' ≡ some (str household_member_id)
  pub origin : lookup "origin" meta' ≡ some (str "promotion")
  pub from_row : lookup "promoted_from" meta' ≡ some (str i)
  pub from_member : lookup "promoted_from_member" meta' ≡ some (str m)
  pub promoter : lookup "promoted_by" meta' ≡ some (str by)
  pub kept : (k : String) → among k trail_keys ≡ false → lookup k meta' ≡ lookup k meta

-- A promotion succeeds only for a row of the member's own private scope; the copy is shared, carries
-- its whole paper trail, and keeps every other key of the source row.
pub promotion_faithful :
    (meta meta' : Meta) (m by i : String)
    → build_promotion_metadata meta m by i ≡ ok meta'
    → IsPromotionOf meta meta' m by i
promotion_faithful meta meta' m by i h =
    let (source, made) = promoted_inv meta meta' m by i h in
    rw made (record {
      source = source;
      scope = promoted_lookup "scope" m by i meta;
      member = promoted_lookup "member_id" m by i meta;
      origin = promoted_lookup "origin" m by i meta;
      from_row = promoted_lookup "promoted_from" m by i meta;
      from_member = promoted_lookup "promoted_from_member" m by i meta;
      promoter = promoted_lookup "promoted_by" m by i meta;
      kept = promoted_kept meta m by i;
    })

grandfather_scope :
    (m : String) (ps : Option (List String)) (meta : Meta)
    → lookup "scope" (grandfather m ps meta) ≡ some (str (private_scope m))
unfolding grandfather
grandfather_scope m ps meta = simp lookup-insert

has_scope_private :
    (m : String) (meta : Meta)
    → lookup "scope" meta ≡ some (str (private_scope m))
    → has_scope meta ≡ true
unfolding has_scope truthy
has_scope_private m meta h = ground (arith, eq_iff (private_scope m) "", private-ne-empty m)

IsScoped : Option Meta → Type 0
IsScoped meta = has_scope (meta_or_empty meta) ≡ true

plan_none :
    (ids : List String) (metas : List (Option Meta)) (m : String) (ps : Option (List String))
    → All IsScoped metas
    → plan_scope_backfill ids metas m ps ≡ ([], [])
unfolding plan_scope_backfill IsScoped
plan_none [] metas m ps h = refl
plan_none (i ∷ ids) [] m ps h = refl
plan_none (i ∷ ids) (x ∷ metas) m ps h = rw (h.0, plan_none ids metas m ps h.1)

abbrev pub InPrivate : String → Meta → Type 0
InPrivate m meta = lookup "scope" meta ≡ some (str (private_scope m))

plan_private :
    (ids : List String) (metas : List (Option Meta)) (m : String) (ps : Option (List String))
    → All (InPrivate m) (plan_scope_backfill ids metas m ps).1
unfolding plan_scope_backfill
plan_private [] metas m ps = tt
plan_private (i ∷ ids) [] m ps = tt
plan_private (i ∷ ids) (x ∷ metas) m ps = elim (Bool-cases (has_scope (meta_or_empty x))) [
  | inl e ↦ rw e (plan_private ids metas m ps)
  | inr e ↦ rw e (grandfather_scope m ps (meta_or_empty x), plan_private ids metas m ps)
]

All-IsScoped :
    (m : String) (metas : List Meta) → All (InPrivate m) metas → All IsScoped (map some metas)
unfolding IsScoped meta_or_empty
All-IsScoped m [] h = tt
All-IsScoped m (x ∷ metas) h = (has_scope_private m x h.0, All-IsScoped m metas h.1)

-- The migration puts every row that it touches into the member's private scope, and it is
-- idempotent: planned again over the metadata that it wrote, for any member, it plans nothing.
pub backfill_idempotent :
    (ids ids' : List String) (metas : List (Option Meta)) (m m' : String)
    (ps ps' : Option (List String))
    → All (InPrivate m) (plan_scope_backfill ids metas m ps).1
      × (plan_scope_backfill ids' (map some (plan_scope_backfill ids metas m ps).1) m' ps'
          ≡ ([], []))
backfill_idempotent ids ids' metas m m' ps ps' =
    let scoped = plan_private ids metas m ps in
    (scoped, plan_none ids' _ m' ps' (All-IsScoped m _ scoped))
