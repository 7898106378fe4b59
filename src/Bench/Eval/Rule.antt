-- ===== src/Bench/Eval/Rule.antt =====
-- The selection rule of bench/eval/bestofn.py: `_select_candidate` picks what its rule says.
use project_nexus.Prelude.{
  ◌≡◌, ◌⊎◌, inl, inr, refl, Option, none, some, List, [], ◌∷◌, String, All, ap, sym, subst,
}
use project_nexus.Bench.Eval.Types.{Floats, Candidate, highest_score, no_valid, Picked}
use project_nexus.Bench.Eval.Select.{Best, at_least_zero, pick_best, pass_else, select_candidate}
use project_nexus.Bench.Eval.Best.{
  Fails, NotAbove, IsFirstPass, IsHighest, FirstPass, Highest, first_pass-FirstPass,
  best_of-Highest,
}

module _ {F : Type 0} (fl : Floats F) (primary : String) where
  -- What the selector answers, by its reason: the first candidate that passes; or, where none passes,
  -- the first of those with the highest value, which is returned as zero at least; or nothing, where
  -- each candidate errored or has no value above -1.
  abbrev pub Rule : List (Candidate F) → Picked F → Type 0
  Rule candidates p =
      IsFirstPass fl primary candidates p
      ⊎ ((b : Best F) × All (Fails fl primary) candidates
          × IsHighest fl primary candidates fl.minus_one b
          × (p ≡ record {
            idx = b.idx;
            reason = highest_score;
            value = at_least_zero fl primary b.value;
          }))
      ⊎ (All (Fails fl primary) candidates
          × All (NotAbove fl primary fl.minus_one) candidates
          × (p ≡ record { idx = none; reason = no_valid; value = fl.zero }))

  start : Best F
  start = record { idx = none; value = fl.minus_one }

  picked_best :
      (candidates : List (Candidate F)) (b : Best F)
      → All (Fails fl primary) candidates
      → Highest fl primary candidates start b
      → Rule candidates (pick_best fl primary b)
  unfolding Highest pick_best start
  picked_best candidates b f (inl (same, none_above)) =
      inr (inr (f, none_above, ap (pick_best fl primary) same))
  picked_best candidates b f (inr h) = inr (
      inl (
        b,
        f,
        h,
        subst
            (λ x. pick_best fl primary x ≡ record {
              idx = x.idx;
              reason = highest_score;
              value = at_least_zero fl primary x.value;
            })
            (sym h.best) refl,
      ))

  by_passes :
      (candidates : List (Candidate F)) (o : Option (Picked F)) (b : Best F)
      → FirstPass fl primary candidates o
      → Highest fl primary candidates start b
      → Rule candidates (pass_else fl primary o (pick_best fl primary b))
  unfolding FirstPass pass_else
  by_passes candidates (some p) b f h = inl f
  by_passes candidates none b f h = picked_best candidates b f h

  pub select_candidate_lem :
      (candidates : List (Candidate F)) → Rule candidates (select_candidate fl primary candidates)
  unfolding select_candidate start
  select_candidate_lem [] = inr (inr (tt, tt, refl))
  select_candidate_lem (c ∷ cs) =
      by_passes (c ∷ cs) _ _ (first_pass-FirstPass fl primary (c ∷ cs))
        (best_of-Highest fl primary (c ∷ cs) start)
