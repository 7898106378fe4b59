-- ===== src/Bench/Eval/Best.antt =====
-- What the two passes of `_select_candidate` of bench/eval/bestofn.py find.
use project_nexus.Prelude.{
  ◌≡◌, ◌⊎◌, inl, inr, refl, true, false, Option, none, some, List, [], ◌∷◌, ◌++◌, String, All, ap,
  sym, subst, Bool-cases,
}
use project_nexus.Bench.Eval.Types.{Floats, Candidate, oracle_pass, Picked}
use project_nexus.Bench.Eval.Select.{Best, value_of, pass_or, first_pass, improve, best_of}

module _ {F : Type 0} (fl : Floats F) (primary : String) where
  abbrev val : Candidate F → F
  val c = value_of fl primary c

  -- What holds of a candidate unless it errored.
  abbrev pub Unless : Option String → Type 0 → Type 0
  Unless (some error) P = Unit
  Unless none P = P

  abbrev pub Fails : Candidate F → Type 0
  Fails c = Unless c.error (fl.lt (value_of fl primary c) fl.one ≡ true)

  -- less than `v`, and not greater than `v`
  abbrev pub Below : F → Candidate F → Type 0
  Below v c = Unless c.error (fl.lt (value_of fl primary c) v ≡ true)

  abbrev pub NotAbove : F → Candidate F → Type 0
  NotAbove v c = Unless c.error (fl.lt v (value_of fl primary c) ≡ false)

  -- The first candidate that passes.
  pub record IsFirstPass (candidates : List (Candidate F)) (p : Picked F) : Type 0 where
    pub before : List (Candidate F)
    pub c : Candidate F
    pub after : List (Candidate F)
    pub split : candidates ≡ before ++ c ∷ after
    pub valid : c.error ≡ none
    pub passes : fl.lt (value_of fl primary c) fl.one ≡ false
    pub first : All Fails before
    pub picked :
        p
        ≡ record { idx = some c.candidate_idx; reason = oracle_pass; value = value_of fl primary c }

  -- The first of the candidates with the highest value, which is above `v`.
  pub record IsHighest (candidates : List (Candidate F)) (v : F) (b : Best F) : Type 0 where
    pub before : List (Candidate F)
    pub c : Candidate F
    pub after : List (Candidate F)
    pub split : candidates ≡ before ++ c ∷ after
    pub valid : c.error ≡ none
    pub above : fl.lt v (value_of fl primary c) ≡ true
    pub earlier : All (Below (value_of fl primary c)) before
    pub later : All (NotAbove (value_of fl primary c)) after
    pub best : b ≡ record { idx = some c.candidate_idx; value = value_of fl primary c }

  unfoldable pub FirstPass : List (Candidate F) → Option (Picked F) → Type 0
  FirstPass candidates none = All Fails candidates
  FirstPass candidates (some p) = IsFirstPass candidates p

  skipped : (P : Type 0) (e : Option String) (error : String) → e ≡ some error → Unless e P
  skipped P e error h = rw h tt

  checked : {P : Type 0} (e : Option String) → P → Unless e P
  checked none p = p
  checked (some error) p = tt

  later_pass :
      (c : Candidate F) (cs : List (Candidate F)) (o : Option (Picked F))
      → Fails c
      → FirstPass cs o
      → FirstPass (c ∷ cs) o
  unfolding FirstPass
  later_pass c cs none f h = (f, h)
  later_pass c cs (some p) f h = record {
    before = c ∷ h.before;
    c = h.c;
    after = h.after;
    split = ap (◌∷◌ c) h.split;
    valid = h.valid;
    passes = h.passes;
    first = (f, h.first);
    picked = h.picked;
  }

  pass_or-FirstPass :
      (c : Candidate F) (cs : List (Candidate F)) (e : Option String) (rest : Option (Picked F))
      → c.error ≡ e
      → FirstPass cs rest
      → FirstPass (c ∷ cs) (pass_or fl primary c e rest)
  unfolding pass_or FirstPass
  pass_or-FirstPass c cs (some error) rest h k = later_pass c cs rest (skipped _ c.error error h) k
  pass_or-FirstPass c cs none rest h k = elim (Bool-cases (fl.lt (value_of fl primary c) fl.one)) [
    | inl t ↦ rw t (later_pass c cs rest (checked c.error t) k)
    | inr t ↦ rw t (record {
      before = [];
      c = c;
      after = cs;
      split = refl;
      valid = h;
      passes = t;
      first = tt;
      picked = refl;
    })
  ]

  pub first_pass-FirstPass :
      (candidates : List (Candidate F)) → FirstPass candidates (first_pass fl primary candidates)
  unfolding first_pass FirstPass
  first_pass-FirstPass [] = tt
  first_pass-FirstPass (c ∷ cs) =
      pass_or-FirstPass c cs c.error (first_pass fl primary cs) refl (first_pass-FirstPass cs)

  unfoldable pub Highest : List (Candidate F) → Best F → Best F → Type 0
  Highest candidates start b =
      ((b ≡ start) × All (NotAbove start.value) candidates) ⊎ IsHighest candidates start.value b

  -- a candidate that does not improve on `v`
  Highest-kept :
      (c : Candidate F) (cs : List (Candidate F)) (start b : Best F)
      → NotAbove start.value c
      → ((d : Candidate F)
          → fl.lt start.value (value_of fl primary d) ≡ true
          → Below (value_of fl primary d) c)
      → Highest cs start b
      → Highest (c ∷ cs) start b
  unfolding Highest
  Highest-kept c cs start b n under (inl (same, rest)) = inl (same, (n, rest))
  Highest-kept c cs start b n under (inr h) = inr (record {
    before = c ∷ h.before;
    c = h.c;
    after = h.after;
    split = ap (◌∷◌ c) h.split;
    valid = h.valid;
    above = h.above;
    earlier = (under h.c h.above, h.earlier);
    later = h.later;
    best = h.best;
  })

  -- a candidate that improves on `v`
  Highest-improved :
      (c : Candidate F) (cs : List (Candidate F)) (start b : Best F)
      → c.error ≡ none
      → fl.lt start.value (value_of fl primary c) ≡ true
      → Highest cs (record { idx = some c.candidate_idx; value = value_of fl primary c }) b
      → Highest (c ∷ cs) start b
  unfolding Highest
  Highest-improved c cs start b valid t (inl (same, rest)) = inr (record {
    before = [];
    c = c;
    after = cs;
    split = refl;
    valid = valid;
    above = t;
    earlier = tt;
    later = rest;
    best = same;
  })
  Highest-improved c cs start b valid t (inr h) = inr (record {
    before = c ∷ h.before;
    c = h.c;
    after = h.after;
    split = ap (◌∷◌ c) h.split;
    valid = h.valid;
    above = fl.lt_trans _ (value_of fl primary c) _ t h.above;
    earlier = (checked c.error h.above, h.earlier);
    later = h.later;
    best = h.best;
  })

  Onward : Candidate F → List (Candidate F) → Best F → Best F → Type 0
  Onward c cs start i =
      Highest cs i (best_of fl primary cs i) → Highest (c ∷ cs) start (best_of fl primary cs i)

  errored_eq :
      (c : Candidate F) (start : Best F) (error : String)
      → improve fl primary c (some error) start ≡ start
  unfolding improve
  errored_eq c start error = refl

  improved_eq :
      (c : Candidate F) (start : Best F)
      → fl.lt start.value (value_of fl primary c) ≡ true
      → improve fl primary c none start
        ≡ record { idx = some c.candidate_idx; value = value_of fl primary c }
  unfolding improve
  improved_eq c start t = rw t refl

  kept_eq :
      (c : Candidate F) (start : Best F)
      → fl.lt start.value (value_of fl primary c) ≡ false
      → improve fl primary c none start ≡ start
  unfolding improve
  kept_eq c start t = rw t refl

  improve-Onward :
      (c : Candidate F) (cs : List (Candidate F)) (start : Best F) (e : Option String)
      → c.error ≡ e
      → Onward c cs start (improve fl primary c e start)
  unfolding Onward
  improve-Onward c cs start (some error) h =
      subst (Onward c cs start) (sym (errored_eq c start error)) (λ k.
        Highest-kept c cs start _ (skipped _ c.error error h) (λ d t. skipped _ c.error error h) k)
  improve-Onward c cs start none h = elim (Bool-cases (fl.lt start.value (value_of fl primary c))) [
    | inl t ↦
        subst (Onward c cs start) (sym (improved_eq c start t))
          (λ k. Highest-improved c cs start _ h t k)
    | inr t ↦ subst (Onward c cs start) (sym (kept_eq c start t)) (λ k.
        Highest-kept c cs start _ (checked c.error t)
          (λ d u. checked c.error (fl.le_lt _ start.value _ t u)) k)
  ]

  pub best_of-Highest :
      (candidates : List (Candidate F)) (start : Best F)
      → Highest candidates start (best_of fl primary candidates start)
  unfolding best_of Highest Onward
  best_of-Highest [] start = inl (refl, tt)
  best_of-Highest (c ∷ cs) start =
      improve-Onward c cs start c.error refl
        (best_of-Highest cs (improve fl primary c c.error start))
