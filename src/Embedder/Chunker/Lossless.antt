-- ===== src/Embedder/Chunker/Lossless.antt =====
-- Splitting loses no character: the pieces put together are the text.
use Prim.Native.Char.{Char, code}
use text.Mathlib.TextEquality.{Char-path}
use text.Mathlib.TextLemmas.{append_assoc, append-nil, cons-append, nil-append}
use project_nexus.Prelude.{
  false_ne_true, ℕ, zero, suc, ◌≡◌, ◌≢◌, refl, sym, ap, ap₂, ◌∙◌, Bool, true, false, ◌&&◌, List, [],
  ◌∷◌, ◌++◌, String, arith, leb, ◌==◌, nat_eq, length, filter, Bool-cases, inl, inr, eq_of_test,
  if_both,
}
use project_nexus.Py.Text.{◌⧺◌, str_truthy}
use project_nexus.Embedder.Chunker.Split.{
  starts_with, occurs, str_len, chars, onto_first, split_from, reattach, split_on, extend,
  recursive,
}

-- "".join(pieces)
unfoldable pub concat : List String → String
concat [] = ""
concat (p ∷ ps) = p ⧺ concat ps

unfoldable skip_chars : ℕ → String → String
skip_chars zero s = s
skip_chars (suc n) String.[] = String.[]
skip_chars (suc n) (String.◌∷◌ c s) = skip_chars n s

concat-append : (ps qs : List String) → concat (ps ++ qs) ≡ concat ps ⧺ concat qs
unfolding concat
concat-append [] qs = sym (nil-append _)
concat-append (p ∷ ps) qs = rw (concat-append ps qs) (sym (append_assoc p _ _))

concat-chars : (s : String) → concat (chars s) ≡ s
unfolding concat chars
concat-chars String.[] = refl
concat-chars (String.◌∷◌ c s) =
    cons-append c "" _ ∙ ap (String.◌∷◌ c) (nil-append _ ∙ concat-chars s)

both : (a b : Bool) → (a && b) ≡ true → (a ≡ true) × (b ≡ true)
both true b e = (refl, e)
both false b e = absurd (false_ne_true e)

same_number : (m n : ℕ) → nat_eq m n ≡ true → m ≡ n
same_number m n e = ground arith

-- A prefix that is there, put back before the rest.
restore : (p s : String) → starts_with p s ≡ true → p ⧺ skip_chars (str_len p) s ≡ s
unfolding starts_with skip_chars str_len
restore String.[] s h = nil-append s
restore (String.◌∷◌ d p) String.[] h = absurd (false_ne_true h)
restore (String.◌∷◌ d p) (String.◌∷◌ c s) h =
    cons-append d p _
    ∙ ap₂ String.◌∷◌ (Char-path d c (same_number (code d) (code c) (both _ _ h).0))
        (restore p s (both _ _ h).1)

-- The pieces after the first, each with its separator.
unfoldable joined : String → List String → String
joined sep ps = concat (reattach sep ps)

joined-onto_first :
    (sep : String) (c : Char) (ps : List String)
    → joined sep (onto_first c ps) ≡ String.◌∷◌ c (joined sep ps)
unfolding joined concat reattach onto_first
joined-onto_first sep c [] = cons-append c "" "" ∙ ap (String.◌∷◌ c) (nil-append "")
joined-onto_first sep c (p ∷ ps) = cons-append c p _

-- The pieces with an empty one before them.
joined-cons :
    (sep : String) (ps : List String) → length ps ≢ 0 → joined sep ("" ∷ ps) ≡ sep ⧺ joined sep ps
unfolding joined concat reattach
joined-cons sep [] ne = absurd (ne refl)
joined-cons sep (p ∷ ps) ne = nil-append _ ∙ append_assoc sep p _

concat-filter : (ps : List String) → concat (filter str_truthy ps) ≡ concat ps
unfolding concat
concat-filter [] = refl
concat-filter (p ∷ ps) = elim (Bool-cases (p == "")) [
  | inl blank ↦
      rw blank
        (concat-filter ps ∙ sym (ap (λ q. q ⧺ concat ps) (eq_of_test p "" blank) ∙ nil-append _))
  | inr full ↦ rw full (ap (λ t. p ⧺ t) (concat-filter ps))
]

some_onto_first : (c : Char) (ps : List String) → length (onto_first c ps) ≢ 0
unfolding onto_first
some_onto_first c [] e = ground arith
some_onto_first c (p ∷ ps) e = ground arith

some_piece : (d : Char) (sep : String) (n : ℕ) (s : String) → length (split_from d sep n s) ≢ 0
unfolding split_from
some_piece d sep n String.[] e = ground arith
some_piece d sep (suc n) (String.◌∷◌ c s) e = some_piece d sep n s e
some_piece d sep zero (String.◌∷◌ c s) e = go (starts_with (String.◌∷◌ d sep) (String.◌∷◌ c s)) e
  where
    go :
        (b : Bool)
        → length (
            let r : List String = elim b [
              | true ↦ "" ∷ split_from d sep (str_len sep) s
              | false ↦ onto_first c (split_from d sep 0 s)
            ] in
            r)
          ≢ 0
    go true e = ground arith
    go false e = some_onto_first c _ e

skip_nil : (n : ℕ) → skip_chars n "" ≡ ""
unfolding skip_chars
skip_nil zero = refl
skip_nil (suc n) = refl

joined-blank : (sep : String) → joined sep ("" ∷ []) ≡ ""
unfolding joined concat reattach
joined-blank sep = nil-append ""

split_lossless :
    (d : Char) (sep : String) (n : ℕ) (s : String)
    → joined (String.◌∷◌ d sep) (split_from d sep n s) ≡ skip_chars n s
unfolding split_from skip_chars str_len
split_lossless d sep n String.[] = joined-blank (String.◌∷◌ d sep) ∙ sym (skip_nil n)
split_lossless d sep (suc n) (String.◌∷◌ c s) = split_lossless d sep n s
split_lossless d sep zero (String.◌∷◌ c s) =
    go (starts_with (String.◌∷◌ d sep) (String.◌∷◌ c s)) refl (split_lossless d sep (str_len sep) s)
      (split_lossless d sep zero s)
  where
    go :
        (b : Bool)
        → starts_with (String.◌∷◌ d sep) (String.◌∷◌ c s) ≡ b
        → joined (String.◌∷◌ d sep) (split_from d sep (str_len sep) s) ≡ skip_chars (str_len sep) s
        → joined (String.◌∷◌ d sep) (split_from d sep zero s) ≡ s
        → joined (String.◌∷◌ d sep) (elim b [
          | true ↦ "" ∷ split_from d sep (str_len sep) s
          | false ↦ onto_first c (split_from d sep 0 s)
        ])
          ≡ String.◌∷◌ c s
    go true e after before =
        joined-cons (String.◌∷◌ d sep) _ (some_piece d sep (str_len sep) s)
        ∙ ap (λ t. String.◌∷◌ d sep ⧺ t) after
        ∙ restore (String.◌∷◌ d sep) (String.◌∷◌ c s) e
    go false e after before = joined-onto_first (String.◌∷◌ d sep) c _ ∙ ap (String.◌∷◌ c) before

concat-split_on : (text sep : String) → concat (split_on text sep) ≡ text
unfolding split_on concat joined skip_chars
concat-split_on text String.[] = concat-chars text
concat-split_on text (String.◌∷◌ d sep) =
    if_both {A = List String} (λ r. concat r ≡ text) (occurs (String.◌∷◌ d sep) text)
      (concat-filter _ ∙ split_lossless d sep 0 text) (append-nil text)

module _ (tokens : String → ℕ) (target : ℕ) where
  concat-extend :
      (split : String → List String) (ps : List String)
      → ((p : String) → concat (split p) ≡ p)
      → concat (extend tokens target split ps) ≡ concat ps
  unfolding extend concat
  concat-extend split [] h = refl
  concat-extend split (p ∷ ps) h =
      concat-append _ _
      ∙ ap₂ (λ x y. x ⧺ y)
          (if_both {A = List String} (λ r. concat r ≡ p) (leb (tokens p) target) (append-nil p)
            (h p))
          (concat-extend split ps h)

  -- The pieces of a text, put together again, are the text, for every tokenizer, target and list of
  -- separators.
  pub recursive_lossless :
      (seps : List String) (text : String) → concat (recursive tokens target seps text) ≡ text
  unfolding recursive concat
  recursive_lossless [] text = append-nil text
  recursive_lossless (sep ∷ seps) text =
      if_both {A = List String} (λ r. concat r ≡ text) (leb (tokens text) target) (append-nil text)
        (if_both {A = List String} (λ r. concat r ≡ text) (nat_eq (length (split_on text sep)) 1)
          (recursive_lossless seps text)
          (concat-extend (recursive tokens target seps) (split_on text sep)
              (recursive_lossless seps)
            ∙ concat-split_on text sep))
