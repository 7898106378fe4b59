-- ===== src/Hub/Auth/Minted.antt =====
-- nodes/brainstem_4070/auth.py: about a token that was just minted, and the walk that finds it.
use text.Mathlib.TextLemmas.{cons-append, nil-append}
use project_nexus.Prelude.{
  false_ne_true, none_ne_some, ◌≡◌, ◌≢◌, refl, sym, ap, ◌∙◌, Bool, true, false, Option, none, some,
  List, [], ◌∷◌, ◌++◌, String, arith, ◌==◌, leb, subst, test_of_ne,
}
use project_nexus.Py.Text.{starts_with, str_len}
use project_nexus.Hub.Auth.Token.{Kdf, hash_token, verify_token, mint_token, looks_like_token}
use project_nexus.Hub.Auth.Store.{TokenEntry, used, or_here, walk, Created, created, value_error}

-- A KDF that accepts what it hashed, with the tags that `verify_token` tells the two formats apart by.
pub record IsKdf (kdf : Kdf) : Type 0 where
  pub argon2_tag : (salt token : String) → starts_with "$argon2" (kdf.argon2_hash salt token) ≡ true
  pub argon2_own :
      (salt token : String) → kdf.argon2_verify (kdf.argon2_hash salt token) token ≡ true
  pub scrypt_tag :
      (salt token : String) → starts_with "$scrypt$" (kdf.scrypt_hash salt token) ≡ true
  pub scrypt_other :
      (salt token : String) → starts_with "$argon2" (kdf.scrypt_hash salt token) ≡ false
  pub scrypt_own :
      (salt token : String) → kdf.scrypt_verify (kdf.scrypt_hash salt token) token ≡ true

pub not_blank :
    (tag h : String) → starts_with tag "" ≡ false → starts_with tag h ≡ true → (h == "") ≡ false
not_blank tag h bare e =
    test_of_ne h ""
      (λ blank. false_ne_true (sym bare ∙ subst (λ x. starts_with tag x ≡ true) blank e))

pub verify_own :
    (kdf : Kdf) (salt token : String)
    → IsKdf kdf
    → (token == "") ≡ false
    → verify_token kdf (hash_token kdf salt token) token ≡ true
unfolding verify_token hash_token
verify_own kdf salt token law t = ground (
  arith,
  law.argon2_tag salt token,
  law.argon2_own salt token,
  law.scrypt_tag salt token,
  law.scrypt_other salt token,
  law.scrypt_own salt token,
  not_blank "$argon2" (kdf.argon2_hash salt token) (unfold starts_with in refl),
  not_blank "$scrypt$" (kdf.scrypt_hash salt token) (unfold starts_with in refl),
)

pub mint_eq :
    (r : String)
    → mint_token r ≡ String.◌∷◌ "n" (String.◌∷◌ "x" (String.◌∷◌ "s" (String.◌∷◌ "_" r)))
unfolding mint_token
mint_eq r =
    cons-append "n" "xs_" r
    ∙ ap (String.◌∷◌ "n") (
        cons-append "x" "s_" r
        ∙ ap (String.◌∷◌ "x") (
            cons-append "s" "_" r
            ∙ ap (String.◌∷◌ "s") (cons-append "_" "" r ∙ ap (String.◌∷◌ "_") (nil-append r))))

pub mint-not_blank : (r : String) → (mint_token r == "") ≡ false
unfolding starts_with
mint-not_blank r =
    rw (mint_eq r) (
      not_blank "n" (String.◌∷◌ "n" (String.◌∷◌ "x" (String.◌∷◌ "s" (String.◌∷◌ "_" r)))) refl refl)

pub mint-looks_like_token :
    (r : String) → leb 20 (str_len r) ≡ true → looks_like_token (mint_token r) ≡ true
unfolding looks_like_token starts_with str_len
mint-looks_like_token r h = rw (mint_eq r) (
    ground (
      arith,
      h,
      not_blank "n" (String.◌∷◌ "n" (String.◌∷◌ "x" (String.◌∷◌ "s" (String.◌∷◌ "_" r)))) refl refl,
    ))

pub later_found :
    (here : Bool) (now : String) (x m : TokenEntry) (es : List TokenEntry)
    (r : Option TokenEntry × List TokenEntry)
    → r.0 ≡ some m
    → (or_here here now x es r).0 ≡ some m
unfolding or_here
later_found here now x m es (some y, es') h = h
later_found here now x m es (none, es') h = absurd (none_ne_some h)

pub walk_last :
    (kdf : Kdf) (now token : String) (es : List TokenEntry) (e : TokenEntry)
    → verify_token kdf e.hash token ≡ true
    → (walk kdf now token (es ++ e ∷ [])).0 ≡ some (used now e)
unfolding walk or_here
walk_last kdf now token [] e h = rw h refl
walk_last kdf now token (x ∷ es) e h =
    later_found (verify_token kdf x.hash token) now x (used now e) (es ++ e ∷ [])
      (walk kdf now token (es ++ e ∷ [])) (walk_last kdf now token es e h)

pub created_injective :
    {t t' : String} {e e' : TokenEntry}
    → ◌≡◌ {A = Created} (created t e) (created t' e')
    → (t ≡ t') × (e ≡ e')
created_injective e = (cc, cc)

pub value_error_ne : {t : String} {e : TokenEntry} → ◌≢◌ {A = Created} value_error (created t e)
value_error_ne e = cc
