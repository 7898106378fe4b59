-- ===== src/Embedder/Memory/Log.antt =====
-- The abstract memory: a log that only grows, of rows whose scope belongs to their member. Each
-- endpoint refines steps of it.
use project_nexus.Prelude.{
  ◌≡◌, sym, true, Option, none, some, [], ◌∷◌, String, ◌==◌, subst, fun_ext, Option-cases,
  Bool-cases, some_injective, arith, eq_iff, if◌then◌else◌, All, inl, inr, ◌∙◌,
}
use project_nexus.Py.Dict.{Dict, lookup}
use project_nexus.Py.Value.{str}
use project_nexus.Embedder.Scopes.Defs.{Meta, meta_or_empty, readable_scopes, among, origins}
use project_nexus.Embedder.Memory.Chroma.{Row, first_of}

-- The scope of a row is one that its member may read, and its origin is known.
pub record IsProvenanced (meta : Meta) : Type 0 where
  pub member : String
  pub scope : String
  pub origin : String
  pub has_member : lookup "member_id" meta ≡ some (str member)
  pub has_scope : lookup "scope" meta ≡ some (str scope)
  pub has_origin : lookup "origin" meta ≡ some (str origin)
  pub readable : among scope (readable_scopes member) ≡ true
  pub known : among origin origins ≡ true

abbrev pub IsLogged : {Vec : Type 0} → Row Vec → Type 0
IsLogged row = IsProvenanced (meta_or_empty row.metadata)

-- What stands under each id.
abbrev pub Contents : Type 0 → Type 0
Contents Vec = String → Option (Row Vec)

module _ {Vec : Type 0} where
  abbrev pub put : String → Row Vec → Contents Vec → Contents Vec
  put i row f j = if i == j then some row else f j

  -- the contents after a batch, whose rows do not replace any
  abbrev pub merge : Dict (Row Vec) → Contents Vec → Contents Vec
  merge batch f j = first_of (f j) (lookup j batch)

  -- The steps of the log: a row under a new id.
  pub data Log : Contents Vec → Contents Vec → Type 0 where
    same : {f : Contents Vec} → Log f f
    append :
        {f g : Contents Vec} (i : String) (row : Row Vec)
        → f i ≡ none
        → IsLogged row
        → Log (put i row f) g
        → Log f g

  merge_taken :
      (i : String) (row kept : Row Vec) (batch : Dict (Row Vec)) (f : Contents Vec)
      → f i ≡ some kept
      → merge ((i, row) ∷ batch) f ≡ merge batch f
  unfolding lookup
  merge_taken i row kept batch f h = fun_ext (λ j. ground (arith, eq_iff i j))

  merge_new :
      (i : String) (row : Row Vec) (batch : Dict (Row Vec)) (f : Contents Vec)
      → f i ≡ none
      → merge batch (put i row f) ≡ merge ((i, row) ∷ batch) f
  unfolding lookup
  merge_new i row batch f h = fun_ext (λ j. ground (arith, eq_iff i j))

  pub merge-Log :
      (batch : Dict (Row Vec)) (f : Contents Vec)
      → All (λ e. IsLogged e.1) batch
      → Log f (merge batch f)
  unfolding lookup
  merge-Log [] f h = subst (Log f) (fun_ext (λ j. ground arith)) same
  merge-Log ((i, row) ∷ batch) f h = elim (Option-cases (f i)) [
    | inl e ↦
        append i row e h.0 (
          subst (Log (put i row f)) (merge_new i row batch f e) (merge-Log batch (put i row f) h.1))
    | inr (kept, e) ↦ subst (Log f) (sym (merge_taken i row kept batch f e)) (merge-Log batch f h.1)
  ]

  pub Log-trans : {f g h : Contents Vec} → Log f g → Log g h → Log f h
  Log-trans same l = l
  Log-trans (append i row e p rest) l = append i row e p (Log-trans rest l)

  -- the log is append only
  pub Log-keeps :
      {f g : Contents Vec} (i : String) (row : Row Vec) → Log f g → f i ≡ some row → g i ≡ some row
  Log-keeps i row same h = h
  Log-keeps i row (append {f = f} j r e l rest) h =
      Log-keeps i row rest (ground (arith, eq_iff j i))

  -- what a log adds is provenanced
  pub Log-IsLogged :
      {f g : Contents Vec} (i : String) (row : Row Vec)
      → Log f g
      → f i ≡ none
      → g i ≡ some row
      → IsLogged row
  Log-IsLogged i row same h k = absurd (ground arith)
  Log-IsLogged i row (append {f = f} j r e l rest) h k = elim (Bool-cases (j == i)) [
    | inl t ↦ subst IsLogged (some_injective (sym (Log-keeps i r rest (ground arith)) ∙ k)) l
    | inr t ↦ Log-IsLogged i row rest (ground arith) k
  ]
