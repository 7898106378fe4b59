-- ===== src/Hub/Auth/Laws.antt =====
-- nodes/brainstem_4070/auth.py: about the entries that let a request in.
use project_nexus.Prelude.{
  some_injective, none_ne_some, ℕ, ◌≡◌, ◌≢◌, ◌⊎◌, refl, sym, ap, Bool, true, false, Option, none,
  some, List, [], ◌∷◌, String, if_both, inl, inr, Option-cases,
}
use project_nexus.Hub.Auth.Token.{Kdf, verify_token, looks_like_token, parse_bearer}
use project_nexus.Hub.Auth.Store.{
  TokenEntry, TokenStore, reload_if_changed, used, or_here, walk, after_walk, verify, Access,
  granted, missing_header, invalid_token, access_of, require_token,
}

abbrev pub IsIn : TokenEntry → List TokenEntry → Type 0
IsIn x [] = ⊥
IsIn x (y ∷ es) = (y ≡ x) ⊎ IsIn x es

-- An entry that the walk may return: a stored one whose hash the token passes, after one more use.
abbrev pub Matches : Kdf → String → String → List TokenEntry → TokenEntry → Type 0
Matches kdf now token es e =
    (stored : TokenEntry) × IsIn stored es
    × (verify_token kdf stored.hash token ≡ true)
    × (e ≡ used now stored)

or_here_cases :
    (here : Bool) (now : String) (x e : TokenEntry) (es : List TokenEntry)
    (r : Option TokenEntry × List TokenEntry)
    → (or_here here now x es r).0 ≡ some e
    → (r.0 ≡ some e) ⊎ ((here ≡ true) × (e ≡ used now x))
unfolding or_here
or_here_cases here now x e es (some m, es') h = inl h
or_here_cases true now x e es (none, es') h = inr (refl, sym (some_injective h))
or_here_cases false now x e es (none, es') h = absurd (none_ne_some h)

walk-Matches :
    (kdf : Kdf) (now token : String) (es : List TokenEntry) (e : TokenEntry)
    → (walk kdf now token es).0 ≡ some e
    → Matches kdf now token es e
unfolding walk
walk-Matches kdf now token [] e h = absurd (none_ne_some h)
walk-Matches kdf now token (x ∷ es) e h =
    elim (or_here_cases (verify_token kdf x.hash token) now x e es (walk kdf now token es) h) [
      | inl later ↦
          let (stored, there, passes, is_used) = walk-Matches kdf now token es e later in
          (stored, inr there, passes, is_used)
      | inr (passes, is_used) ↦ (x, inl refl, passes, is_used)
    ]

after_walk-Matches :
    (kdf : Kdf) (now token : String) (written : Option ℕ) (s : TokenStore) (e : TokenEntry)
    (r : Option TokenEntry × List TokenEntry)
    → (r.0 ≡ some e → Matches kdf now token s.entries e)
    → (after_walk written s r).0 ≡ some e
    → Matches kdf now token s.entries e
unfolding after_walk
after_walk-Matches kdf now token written s e (none, es) k h = k h
after_walk-Matches kdf now token written s e (some m, es) k h = k h

-- What `verify` returns is a stored entry that the token passes.
verify-Matches :
    (kdf : Kdf) (written : Option ℕ) (now : String) (s : TokenStore) (token : String)
    (e : TokenEntry)
    → (verify kdf written now s token).0 ≡ some e
    → Matches kdf now token (reload_if_changed false s).entries e
unfolding verify
verify-Matches kdf written now s token e =
    if_both {A = Option TokenEntry × TokenStore}
      (λ r. r.0 ≡ some e → Matches kdf now token (reload_if_changed false s).entries e)
      (looks_like_token token)
      (after_walk-Matches kdf now token written (reload_if_changed false s) e _
        (walk-Matches kdf now token (reload_if_changed false s).entries e))
      (λ h. absurd (none_ne_some h))

granted_injective : {x y : TokenEntry} → ◌≡◌ {A = Access} (granted x) (granted y) → x ≡ y
granted_injective e = cc

invalid_ne : {x : TokenEntry} → ◌≢◌ {A = Access} invalid_token (granted x)
invalid_ne e = cc

missing_ne : {x : TokenEntry} → ◌≢◌ {A = Access} missing_header (granted x)
missing_ne e = cc

access_granted :
    (r : Option TokenEntry × TokenStore) (e : TokenEntry)
    → (access_of r).0 ≡ granted e
    → r.0 ≡ some e
unfolding access_of
access_granted (none, s) e h = absurd (invalid_ne h)
access_granted (some x, s) e h = ap some (granted_injective h)

-- A request is let in only with a bearer token in its header that passes the hash of an entry of the
-- store, as it is after rereading a changed file; it is let in under that entry's name, with one more
-- use on record.
pub require_token_sound :
    (kdf : Kdf) (written : Option ℕ) (now : String) (s : TokenStore) (header : Option String)
    (e : TokenEntry)
    → (require_token kdf written now s header).0 ≡ granted e
    → (token : String) × (parse_bearer header ≡ some token)
      × Matches kdf now token (reload_if_changed false s).entries e
unfolding require_token
require_token_sound kdf written now s header e = elim (Option-cases (parse_bearer header)) [
  | inl none_there ↦ rw (none_there, require_token) (λ h. absurd (missing_ne h))
  | inr (token, there) ↦
      rw (there, require_token)
        (λ h. (
          token,
          refl,
          verify-Matches kdf written now s token e
              (access_granted (verify kdf written now s token) e h),
        ))
]
