-- ===== src/Embedder/Memory/Promote.antt =====
-- What `memory_promote` of nodes/embedder_4070/server.py leaves in the collection.
use project_nexus.Prelude.{
  ◌≡◌, refl, sym, ap, ◌∙◌, Bool, true, false, Option, none, some, [], ◌∷◌, String, subst, arith,
  eq_refl,
}
use project_nexus.Py.Dict.{Dict, lookup}
use project_nexus.Embedder.Scopes.Defs.{
  Meta, Checked, ok, value_error, meta_or_empty, promoted_id, build_promotion_metadata,
}
use project_nexus.Embedder.Scopes.Provenance.{IsPromotionOf, promotion_faithful}
use project_nexus.Embedder.Memory.Chroma.{Row, Chroma, add_documents, zip_rows, first_of}
use project_nexus.Embedder.Memory.Requests.{Response, returns, PromoteRequest, PromoteResponse}
use project_nexus.Embedder.Memory.Endpoints.{
  added, copy_row, promote_source, promote_target, memory_promote,
}

returns_injective : {A : Type 0} {a b : A} → ◌≡◌ {A = Response A} (returns a) (returns b) → a ≡ b
returns_injective h = cc

module _ {Coll Vec Dist : Type 0} (db : Chroma Coll Vec Dist) (encode : String → Vec) where
  -- The shared copy of a private row of the member, and the row itself, which stays.
  pub record IsShared (req : PromoteRequest) (c c' : Coll) : Type 0 where
    pub source : Row Vec
    pub meta : Meta
    pub stood : db.get c req.memory_id ≡ some source
    pub stays : db.get c' req.memory_id ≡ some source
    pub copy :
        db.get c' (promoted_id req.memory_id)
        ≡ some (record {
          document = source.document;
          embedding = source.embedding;
          metadata = some meta;
        })
    pub trail :
        IsPromotionOf
          (meta_or_empty source.metadata)
          meta
          req.member_id
          req.promoted_by
          req.memory_id

  -- What a response promises: no change where the row was promoted before, and otherwise the copy.
  abbrev pub Promised : Bool → PromoteRequest → Coll → Coll → Type 0
  Promised true req c c' =
      (c' ≡ c) × (row : Row Vec) × (db.get c (promoted_id req.memory_id) ≡ some row)
  Promised false req c c' = IsShared req c c'

  copy_batch : PromoteRequest → String → Vec → Meta → Dict (Row Vec)
  copy_batch req document e meta =
      (
        promoted_id req.memory_id,
        record { document = document; embedding = some e; metadata = some meta },
      )
      ∷ []

  shared :
      (req : PromoteRequest) (document : String) (e : Vec) (old : Option Meta) (meta : Meta)
      (c : Coll)
      → build_promotion_metadata (meta_or_empty old) req.member_id req.promoted_by req.memory_id
        ≡ ok meta
      → db.get c (promoted_id req.memory_id) ≡ none
      → db.get c req.memory_id
        ≡ some (record { document = document; embedding = some e; metadata = old })
      → IsShared req c (db.add (copy_batch req document e meta) c)
  unfolding copy_batch lookup
  shared req document e old meta c b t s = record {
    source = record { document = document; embedding = some e; metadata = old };
    meta = meta;
    stood = s;
    stays =
        db.get-add _ c req.memory_id
        ∙ ap (λ o. first_of o (lookup req.memory_id (copy_batch req document e meta))) s;
    copy =
        db.get-add _ c (promoted_id req.memory_id)
        ∙ ap (λ o. first_of o (lookup (promoted_id req.memory_id) (copy_batch req document e meta)))
            t
        ∙ ground (arith, eq_refl (promoted_id req.memory_id));
    trail =
        promotion_faithful (meta_or_empty old) meta req.member_id req.promoted_by req.memory_id b;
  }

  copied :
      (req : PromoteRequest) (document : String) (embedding : Option Vec) (old : Option Meta)
      (r : Checked Meta) (c c' : Coll) (resp : PromoteResponse)
      → build_promotion_metadata (meta_or_empty old) req.member_id req.promoted_by req.memory_id ≡ r
      → db.get c (promoted_id req.memory_id) ≡ none
      → db.get c req.memory_id
        ≡ some (record { document = document; embedding = embedding; metadata = old })
      → copy_row db encode req
          (record { document = document; embedding = embedding; metadata = old })
          r
          c
        ≡ (returns resp, c')
      → Promised resp.already_promoted req c c'
  unfolding copy_row added add_documents zip_rows copy_batch
  copied req document embedding old value_error c c' resp b t s h = absurd (ground arith)
  copied req document none old (ok meta) c c' resp b t s h = absurd (ground arith)
  copied req document (some e) old (ok meta) c c' resp b t s h =
      subst (λ r. Promised r.already_promoted req c c') (returns_injective (ap (λ p. p.0) h))
        (subst (λ d. IsShared req c d) (ap (λ p. p.1) h) (shared req document e old meta c b t s))

  promoted_from_source :
      (req : PromoteRequest) (source : Option (Row Vec)) (c c' : Coll) (resp : PromoteResponse)
      → db.get c (promoted_id req.memory_id) ≡ none
      → db.get c req.memory_id ≡ source
      → promote_source db encode req source c ≡ (returns resp, c')
      → Promised resp.already_promoted req c c'
  unfolding promote_source
  promoted_from_source req none c c' resp t s h = absurd (ground arith)
  promoted_from_source req (some row) c c' resp t s h =
      copied req row.document row.embedding row.metadata _ c c' resp refl t s h

  promoted_to_target :
      (req : PromoteRequest) (target : Option (Row Vec)) (c c' : Coll) (resp : PromoteResponse)
      → db.get c (promoted_id req.memory_id) ≡ target
      → promote_target db encode req target c ≡ (returns resp, c')
      → Promised resp.already_promoted req c c'
  unfolding promote_target
  promoted_to_target req (some row) c c' resp t h =
      subst (λ r. Promised r.already_promoted req c c') (returns_injective (ap (λ p. p.0) h))
        (sym (ap (λ p. p.1) h), row, t)
  promoted_to_target req none c c' resp t h =
      promoted_from_source req (db.get c req.memory_id) c c' resp t refl h

  promote_promised :
      (req : PromoteRequest) (c c' : Coll) (resp : PromoteResponse)
      → memory_promote db encode req c ≡ (returns resp, c')
      → Promised resp.already_promoted req c c'
  unfolding memory_promote
  promote_promised req c c' resp h =
      promoted_to_target req (db.get c (promoted_id req.memory_id)) c c' resp refl h

  promoted_before :
      (req : PromoteRequest) (b : Bool) (c c' : Coll)
      → Promised b req c c'
      → (row : Row Vec) × (db.get c' (promoted_id req.memory_id) ≡ some row)
  promoted_before req true c c' h =
      subst (λ d. (row : Row Vec) × (db.get d (promoted_id req.memory_id) ≡ some row)) (sym h.0)
        (h.1, h.2)
  promoted_before req false c c' h = (_, h.copy)

  again :
      (req : PromoteRequest) (c : Coll) (row : Row Vec)
      → db.get c (promoted_id req.memory_id) ≡ some row
      → memory_promote db encode req c ≡ (
        returns (record {
          promoted_id = promoted_id req.memory_id;
          promoted_from = req.memory_id;
          already_promoted = true;
        }),
        c,
      )
  unfolding memory_promote promote_target
  again req c row h = rw h refl

  -- A promotion that succeeds either finds the shared copy there and changes nothing, or puts the
  -- copy of a private row of the member, with its paper trail, beside the row, which stays as it was;
  -- after it, promoting the row again changes nothing and reports that it was promoted already.
  pub promote_once :
      (req : PromoteRequest) (c c' : Coll) (resp : PromoteResponse)
      → memory_promote db encode req c ≡ (returns resp, c')
      → Promised resp.already_promoted req c c'
        × (memory_promote db encode req c' ≡ (
          returns (record {
            promoted_id = promoted_id req.memory_id;
            promoted_from = req.memory_id;
            already_promoted = true;
          }),
          c',
        ))
  promote_once req c c' resp h =
      let promise = promote_promised req c c' resp h in
      let (row, there) = promoted_before req resp.already_promoted c c' promise in
      (promise, again req c' row there)
