-- ===== src/Embedder/Memory/Provenanced.antt =====
-- The metadata that the endpoints of nodes/embedder_4070/server.py write is provenanced.
use project_nexus.Prelude.{ℕ, ◌+◌, ◌≡◌, refl, true, List, [], ◌∷◌, String, arith, All}
use project_nexus.Py.Dict.{lookup}
use project_nexus.Py.Value.{str}
use project_nexus.Py.Text.{strip}
use project_nexus.Embedder.Scopes.Defs.{
  Meta, ok, meta_or_empty, readable_scopes, among, origins, shared_scope, household_member_id,
  validate_write_scope, validate_origin, build_event_metadata, build_promotion_metadata,
}
use project_nexus.Embedder.Scopes.Provenance.{promotion_faithful}
use project_nexus.Embedder.Memory.Chroma.{zip_rows}
use project_nexus.Embedder.Memory.Requests.{
  WriteRequest, number_chunks, check_provenance, chunk_meta,
}
use project_nexus.Embedder.Memory.Log.{IsProvenanced, IsLogged}

pub zip_rows-IsLogged :
    {Vec : Type 0} (ids documents : List String) (embeddings : List Vec) (metadatas : List Meta)
    → All IsProvenanced metadatas
    → All (λ e. IsLogged e.1) (zip_rows ids documents embeddings metadatas)
unfolding zip_rows meta_or_empty
zip_rows-IsLogged (i ∷ ids) (d ∷ ds) (e ∷ es) (m ∷ ms) h = (h.0, zip_rows-IsLogged ids ds es ms h.1)
zip_rows-IsLogged [] ds es ms h = tt
zip_rows-IsLogged (i ∷ ids) [] es ms h = tt
zip_rows-IsLogged (i ∷ ids) (d ∷ ds) [] ms h = tt
zip_rows-IsLogged (i ∷ ids) (d ∷ ds) (e ∷ es) [] h = tt

-- A write whose checks pass names a scope of its member and a known origin.
unfoldable pub IsAllowed : WriteRequest → Type 0
IsAllowed req =
    (among req.scope (readable_scopes req.member_id) ≡ true) × (among req.origin origins ≡ true)

pub allowed : (req : WriteRequest) → check_provenance req ≡ ok tt → IsAllowed req
unfolding check_provenance validate_write_scope validate_origin IsAllowed
allowed req h = (ground arith, ground arith)

chunk_meta-IsProvenanced :
    (session_id : String) (req : WriteRequest) (total idx : ℕ)
    → IsAllowed req
    → IsProvenanced (chunk_meta session_id req total idx)
unfolding chunk_meta IsAllowed lookup
chunk_meta-IsProvenanced session_id req total idx h = record {
  member = req.member_id;
  scope = req.scope;
  origin = req.origin;
  has_member = refl;
  has_scope = refl;
  has_origin = refl;
  readable = h.0;
  known = h.1;
}

pub number_chunks-IsProvenanced :
    (session_id : String) (req : WriteRequest) (total idx : ℕ) (chunks : List String)
    → IsAllowed req
    → All IsProvenanced (number_chunks session_id req total idx chunks).1
unfolding number_chunks
number_chunks-IsProvenanced session_id req total idx [] h = tt
number_chunks-IsProvenanced session_id req total idx (c ∷ chunks) h = (
  chunk_meta-IsProvenanced session_id req total idx h,
  number_chunks-IsProvenanced session_id req total (idx + 1) chunks h,
)

event_meta_inv :
    (source ts by : String) (meta : Meta)
    → build_event_metadata source ts by ≡ ok meta
    → meta
      ≡ ("scope", str shared_scope)
        ∷ ("member_id", str household_member_id)
        ∷ ("origin", str "sensor")
        ∷ ("sensor_source", str (strip source))
        ∷ ("reported_by", str by)
        ∷ ("participants", str "")
        ∷ ("ts", str ts)
        ∷ []
unfolding build_event_metadata
event_meta_inv source ts by meta h = ground arith

pub event_meta-IsProvenanced :
    (source ts by : String) (meta : Meta)
    → build_event_metadata source ts by ≡ ok meta
    → IsProvenanced meta
unfolding lookup among readable_scopes
event_meta-IsProvenanced source ts by meta h = rw (event_meta_inv source ts by meta h) (record {
  member = household_member_id;
  scope = shared_scope;
  origin = "sensor";
  has_member = refl;
  has_scope = refl;
  has_origin = refl;
  readable = ground arith;
  known = refl;
})

pub promoted-IsProvenanced :
    (source meta : Meta) (m by i : String)
    → build_promotion_metadata source m by i ≡ ok meta
    → IsProvenanced meta
unfolding among readable_scopes
promoted-IsProvenanced source meta m by i h =
    let p = promotion_faithful source meta m by i h in
    record {
      member = household_member_id;
      scope = shared_scope;
      origin = "promotion";
      has_member = p.member;
      has_scope = p.scope;
      has_origin = p.origin;
      readable = ground arith;
      known = ground arith;
    }
