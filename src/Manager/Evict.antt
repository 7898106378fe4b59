-- ===== src/Manager/Evict.antt =====
-- An eviction removes only files that have another copy.
use project_nexus.Prelude.{
  ℕ, ◌+◌, ◌≡◌, refl, ◌∙◌, Bool, true, false, not, ◌&&◌, ◌||◌, some, List, [], ◌∷◌, String, arith,
  ◌⊎◌, inl, inr, subst, eq_of_test, Bool-cases, eq_refl, eq_iff, ◌==◌, leb, any, if_both, if_known,
  All,
}
use project_nexus.Py.Dict.{Dict, lookup, contains, erase, IsDistinct, contains_of_lookup}
use project_nexus.Manager.Tiering.{
  WeightsFile, Tiers, has_lower_copy, is_candidate, candidates_of, ends_with, sort_in, by_atime,
  evict_loop, evict_from_hot,
}

-- A file that may go: it is not pinned, and a file of its name and size is on a lower tier.
abbrev pub IsSpare : Tiers → List String → String × WeightsFile → Type 0
IsSpare tiers pinned c =
    (any (λ p. p == c.0) pinned ≡ false)
    × (has_lower_copy tiers c.0 c.1 ≡ true)
    × (lookup c.0 tiers.hot ≡ some c.1)

candidate-IsSpare :
    (tiers : Tiers) (pinned : List String) (name : String) (f : WeightsFile)
    → is_candidate tiers pinned name f ≡ true
    → lookup name tiers.hot ≡ some f
    → IsSpare tiers pinned (name, f)
unfolding is_candidate
candidate-IsSpare tiers pinned name f h there =
    let (free, copied) =
      parts (any (λ p. p == name) pinned) (ends_with ".staging" name) (has_lower_copy tiers name f)
        h in
    (free, copied, there)
  where
    parts : (a b c : Bool) → (not (a || b) && c) ≡ true → (a ≡ false) × (c ≡ true)
    parts a b c h = ground arith

pub lookup-erase :
    {V : Type 0} (k j : String) (d : Dict V) → (k == j) ≡ false → lookup j (erase k d) ≡ lookup j d
unfolding lookup erase
lookup-erase k j [] h = refl
lookup-erase k j ((i, v) ∷ d) h =
    ground (arith, eq_iff k j, eq_iff i k, eq_iff i j, lookup-erase k j d)

later_self :
    (j : String) (v : WeightsFile) (d cs : Dict WeightsFile)
    → contains j d ≡ false
    → All (λ c. lookup c.0 d ≡ some c.1) cs
    → All (λ c. lookup c.0 ((j, v) ∷ d) ≡ some c.1) cs
unfolding lookup
later_self j v d [] away h = tt
later_self j v d ((k, f) ∷ cs) away h =
    (ground (arith, h.0, eq_iff j k, contains_of_lookup k f d), later_self j v d cs away h.1)

found_self : (d : Dict WeightsFile) → IsDistinct d → All (λ c. lookup c.0 d ≡ some c.1) d
unfolding lookup
found_self [] h = tt
found_self ((j, v) ∷ d) h = (ground (arith, eq_refl j), later_self j v d d h.0 (found_self d h.1))

module _ (tiers : Tiers) (pinned : List String) where
  candidates-IsSpare :
      (files : Dict WeightsFile)
      → All (λ c. lookup c.0 tiers.hot ≡ some c.1) files
      → All (IsSpare tiers pinned) (candidates_of tiers pinned files)
  unfolding candidates_of
  candidates-IsSpare [] there = tt
  candidates-IsSpare ((name, f) ∷ files) there =
      if_known {A = Dict WeightsFile} (All (IsSpare tiers pinned))
        (is_candidate tiers pinned name f)
        (λ yes.
          (candidate-IsSpare tiers pinned name f yes there.0, candidates-IsSpare files there.1))
        (λ no. candidates-IsSpare files there.1)

  sort_in-IsSpare :
      (name : String) (f : WeightsFile) (files : Dict WeightsFile)
      → IsSpare tiers pinned (name, f)
      → All (IsSpare tiers pinned) files
      → All (IsSpare tiers pinned) (sort_in name f files)
  unfolding sort_in
  sort_in-IsSpare name f [] h hs = (h, tt)
  sort_in-IsSpare name f ((other, g) ∷ files) h hs =
      if_both {A = Dict WeightsFile} (All (IsSpare tiers pinned)) (leb f.atime g.atime) (h, hs)
        (hs.0, sort_in-IsSpare name f files h hs.1)

  by_atime-IsSpare :
      (files : Dict WeightsFile)
      → All (IsSpare tiers pinned) files
      → All (IsSpare tiers pinned) (by_atime files)
  unfolding by_atime
  by_atime-IsSpare [] h = tt
  by_atime-IsSpare ((name, f) ∷ files) h =
      sort_in-IsSpare name f (by_atime files) h.0 (by_atime-IsSpare files h.1)

  -- A name of the hot tier after an eviction: its file is as before, or the file was spare.
  abbrev pub Kept : Dict WeightsFile → Dict WeightsFile → String → Type 0
  Kept files files' name =
      (lookup name files' ≡ lookup name files)
      ⊎ ((f : WeightsFile) × IsSpare tiers pinned (name, f))

  erase_step :
      (files files' : Dict WeightsFile) (name other : String) (f : WeightsFile)
      → IsSpare tiers pinned (other, f)
      → Kept (erase other files) files' name
      → Kept files files' name
  erase_step files files' name other f spare (inr gone) = inr gone
  erase_step files files' name other f spare (inl same) = elim (Bool-cases (other == name)) [
    | inl evicted ↦
        inr (f, subst (λ n. IsSpare tiers pinned (n, f)) (eq_of_test other name evicted) spare)
    | inr apart ↦ inl (same ∙ lookup-erase other name files apart)
  ]

  loop_keeps :
      (needed freed : ℕ) (cs files : Dict WeightsFile) (name : String)
      → All (IsSpare tiers pinned) cs
      → Kept files (evict_loop needed freed cs files).1 name
  unfolding evict_loop
  loop_keeps needed freed [] files name h = inl refl
  loop_keeps needed freed ((other, f) ∷ cs) files name h =
      if_both {A = List String × Dict WeightsFile} (λ r. Kept files r.1 name) (leb needed freed)
        (inl refl)
        (erase_step files (evict_loop needed (freed + f.size) cs (erase other files)).1 name other f
          h.0 (loop_keeps needed (freed + f.size) cs (erase other files) name h.1))

-- An eviction touches no lower tier, and whatever name is gone from the hot tier was not pinned and has
-- a file of its own size on a lower tier.
pub evict_keeps_copies :
    (tiers : Tiers) (needed : ℕ) (pinned : List String) (name : String)
    → IsDistinct tiers.hot
    → Kept tiers pinned tiers.hot (evict_from_hot tiers needed pinned).1.hot name
      × ((evict_from_hot tiers needed pinned).1.warm ≡ tiers.warm)
      × ((evict_from_hot tiers needed pinned).1.cold ≡ tiers.cold)
unfolding evict_from_hot
evict_keeps_copies tiers needed pinned name distinct = (
  loop_keeps tiers pinned needed 0 (by_atime (candidates_of tiers pinned tiers.hot)) tiers.hot name
      (by_atime-IsSpare tiers pinned (candidates_of tiers pinned tiers.hot)
        (candidates-IsSpare tiers pinned tiers.hot (found_self tiers.hot distinct))),
  refl,
  refl,
)
