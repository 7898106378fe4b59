-- ===== src/Embedder/Chunker/Bound.antt =====
-- How large the pieces of a split text are.
use project_nexus.Prelude.{
  ℕ, suc, ◌≡◌, ◌⊎◌, refl, sym, ap, ◌∙◌, true, List, [], ◌∷◌, String, arith, leb, nat_eq, length,
  inl, inr, if_both, if_known, subst, All, All-append,
}
use project_nexus.Embedder.Chunker.Split.{separators, str_len, chars, split_on, extend, recursive}

abbrev EndsInChars : List String → Type 0
EndsInChars [] = ⊥
EndsInChars (sep ∷ []) = sep ≡ ""
EndsInChars (sep ∷ next ∷ seps) = EndsInChars (next ∷ seps)

length-chars : (s : String) → length (chars s) ≡ str_len s
unfolding chars str_len
length-chars String.[] = refl
length-chars (String.◌∷◌ c s) = ap suc (length-chars s)

same_number : (m n : ℕ) → nat_eq m n ≡ true → m ≡ n
same_number m n e = ground arith

module _ (tokens : String → ℕ) (target : ℕ) where
  -- A piece that is small enough: it fits the target, or it is one character.
  abbrev pub IsSmall : String → Type 0
  IsSmall p = (leb (tokens p) target ≡ true) ⊎ (str_len p ≡ 1)

  extend-IsSmall :
      (split : String → List String) (ps : List String)
      → All (λ p. All IsSmall (split p)) ps
      → All IsSmall (extend tokens target split ps)
  unfolding extend
  extend-IsSmall split [] h = tt
  extend-IsSmall split (p ∷ ps) h =
      All-append IsSmall _ _
        (if_known {A = List String} (All IsSmall) (leb (tokens p) target) (λ fits. (inl fits, tt))
          (λ big. h.0))
        (extend-IsSmall split ps h.1)

  singles : (s : String) → All (λ p. All IsSmall (recursive tokens target [] p)) (chars s)
  unfolding chars str_len recursive
  singles String.[] = tt
  singles (String.◌∷◌ c s) = ((inr refl, tt), singles s)

  each :
      (split : String → List String) (ps : List String)
      → ((p : String) → All IsSmall (split p))
      → All (λ p. All IsSmall (split p)) ps
  each split [] h = tt
  each split (p ∷ ps) h = (h p, each split ps h)

  by_chars : (text : String) → All IsSmall (recursive tokens target ("" ∷ []) text)
  unfolding recursive split_on
  by_chars text =
      if_known {A = List String} (All IsSmall) (leb (tokens text) target) (λ fits. (inl fits, tt))
        (λ big.
          if_known {A = List String} (All IsSmall) (nat_eq (length (chars text)) 1)
            (λ one. (inr (sym (length-chars text) ∙ same_number _ 1 one), tt))
            (λ many. extend-IsSmall (recursive tokens target []) (chars text) (singles text)))

  recursive-IsSmall_by_seps :
      (seps : List String) (text : String)
      → EndsInChars seps
      → All IsSmall (recursive tokens target seps text)
  unfolding recursive
  recursive-IsSmall_by_seps [] text h = absurd h
  recursive-IsSmall_by_seps (sep ∷ []) text h =
      subst (λ x. All IsSmall (recursive tokens target (x ∷ []) text)) (sym h) (by_chars text)
  recursive-IsSmall_by_seps (sep ∷ next ∷ seps) text h =
      if_known {A = List String} (All IsSmall) (leb (tokens text) target) (λ fits. (inl fits, tt))
        (λ big.
          if_both {A = List String} (All IsSmall) (nat_eq (length (split_on text sep)) 1)
            (recursive-IsSmall_by_seps (next ∷ seps) text h)
            (extend-IsSmall (recursive tokens target (next ∷ seps)) (split_on text sep) (
              each (recursive tokens target (next ∷ seps)) (split_on text sep)
                (λ p. recursive-IsSmall_by_seps (next ∷ seps) p h))))

  -- Every piece that the splitter makes of a text has at most the target's tokens, or is a single
  -- character.
  pub recursive-IsSmall : (text : String) → All IsSmall (recursive tokens target separators text)
  recursive-IsSmall text = recursive-IsSmall_by_seps separators text refl
