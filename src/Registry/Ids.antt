-- ===== src/Registry/Ids.antt =====
-- An id that `_sane_id` of core/family.py accepts holds no colon.
use Prim.Native.Char.{Char, code}
use project_nexus.Prelude.{
  ◌⊎◌, inl, inr, nat_eq, nat_eq_iff, Bool-cases, false_ne_true, sym, ◌∙◌, ℕ, ◌≡◌, refl, Bool, true,
  false, String, arith, ap, if◌then◌else◌,
}
use project_nexus.Registry.Types.{all_alnum, without}
use project_nexus.Hub.Sessions.Keys.{has_colon}

dropped :
    (is_alnum : ℕ → Bool) (b : Bool) (c : Char) (s : String)
    → all_alnum is_alnum (if b then s else String.◌∷◌ c s) ≡ true
    → (all_alnum is_alnum s ≡ true) × ((b ≡ true) ⊎ (is_alnum (code c) ≡ true))
unfolding all_alnum
dropped is_alnum true c s k = (k, inl refl)
dropped is_alnum false c s k = (ground arith, inr (ground arith))

dropped_both :
    (is_alnum : ℕ → Bool) (b : Bool) (c : Char) (s : String)
    → all_alnum is_alnum (without 45 (if b then s else String.◌∷◌ c s)) ≡ true
    → (all_alnum is_alnum (without 45 s) ≡ true)
      × ((b ≡ true) ⊎ (nat_eq (code c) 45 ≡ true) ⊎ (is_alnum (code c) ≡ true))
unfolding without
dropped_both is_alnum true c s k = (k, inl refl)
dropped_both is_alnum false c s k =
    let (rest, which) = dropped is_alnum (nat_eq (code c) 45) c (without 45 s) k in
    (rest, inr which)

not_colon :
    (is_alnum : ℕ → Bool) (n : ℕ)
    → is_alnum 58 ≡ false
    → (nat_eq n 95 ≡ true) ⊎ (nat_eq n 45 ≡ true) ⊎ (is_alnum n ≡ true)
    → nat_eq n 58 ≡ false
not_colon is_alnum n h (inl e) = ground arith
not_colon is_alnum n h (inr (inl e)) = ground arith
not_colon is_alnum n h (inr (inr e)) = elim (Bool-cases (nat_eq n 58)) [
  | inl t ↦ absurd (false_ne_true (sym h ∙ ap is_alnum (sym ((nat_eq_iff n 58).0 t)) ∙ e))
  | inr t ↦ t
]

pub plain :
    (is_alnum : ℕ → Bool) (s : String)
    → is_alnum 58 ≡ false
    → all_alnum is_alnum (without 45 (without 95 s)) ≡ true
    → has_colon s ≡ false
unfolding all_alnum without has_colon
plain is_alnum String.[] h k = refl
plain is_alnum (String.◌∷◌ c s) h k =
    let (rest, which) = dropped_both is_alnum (nat_eq (code c) 95) c (without 95 s) k in
    rw (not_colon is_alnum (code c) h which) (plain is_alnum s h rest)
