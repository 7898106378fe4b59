-- ===== src/Bench/Eval/Scoring.antt =====
-- `percentile` and `mean` of bench/eval/scoring.py.
use Prim.Native.Nat.{min}
use project_nexus.Prelude.{
  ℕ, ◌+◌, ◌-◌, none, some, List, [], ◌∷◌, length, get_elem?, if◌then◌else◌, not,
}
use project_nexus.Bench.Eval.Types.{Floats}

module _ {F : Type 0} (fl : Floats F) where
  -- s[i], which is in range wherever it is read
  unfoldable pub item : List F → ℕ → F
  item s i = elim (get_elem? s i) [ none ↦ fl.zero | some v ↦ v ]

  unfoldable pub between : List F → F → F
  unfolding item
  between s k =
      let lo = fl.trunc k in
      let hi = min (lo + 1) (length s - 1) in
      let frac = fl.sub k (fl.of_nat lo) in
      fl.add (fl.mul (item s lo) (fl.sub fl.one frac)) (fl.mul (item s hi) frac)

  unfoldable pub percentile : List F → F → F
  unfolding between item
  percentile [] p = fl.zero
  percentile (v ∷ []) p = v
  percentile (v ∷ w ∷ s) p =
      let all = v ∷ w ∷ s in
      if not (fl.lt fl.zero p)
      then v
      else if not (fl.lt p fl.one)
      then item all (length all - 1)
      else between all (fl.mul (fl.of_nat (length all - 1)) p)

  unfoldable pub mean : List F → F
  mean [] = fl.zero
  mean (v ∷ values) = fl.div (fl.sum (v ∷ values)) (fl.of_nat (length (v ∷ values)))
