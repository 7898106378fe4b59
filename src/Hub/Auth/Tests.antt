-- ===== src/Hub/Auth/Tests.antt =====
-- The token store with a KDF that keeps the token in its hash.
use text.Mathlib.TextLemmas.{cons-append}
use text.Mathlib.TextPositions.{eq_refl}
use project_nexus.Prelude.{◌≡◌, refl, true, false, Option, none, some, List, [], ◌∷◌, String, ◌==◌}
use project_nexus.Py.Text.{◌⧺◌, starts_with, strip, lstrip, rstrip, is_space, str_len}
use project_nexus.Hub.Auth.Token.{
  Kdf, mint_token, hash_token, verify_token, parse_bearer, bearer_of, split_word, is_word, nonempty,
  looks_like_token,
}
use project_nexus.Hub.Turn.Down.{lower}
use project_nexus.Hub.Auth.Store.{
  TokenEntry, TokenStore, holds, revoke, revoke_in, require_token, used, create, create_in,
  add_entry, entry_of, granted, verify, reload_if_changed, reload_from, walk, or_here, after_walk,
  access_of, flush,
}
use project_nexus.Hub.Auth.Visits.{Visit, visit_all}
use project_nexus.Hub.Auth.Minted.{IsKdf}
use project_nexus.Hub.Auth.Creation.{created_gets_in}
use project_nexus.Hub.Auth.Laws.{Matches, require_token_sound}
use project_nexus.Hub.Auth.Lifecycle.{revoked_stays_out}

abbrev kdf : Kdf
kdf = record {
  argon2_available = true;
  argon2_hash = λ salt token. "$argon2$" ⧺ token;
  argon2_verify = λ stored token. stored == "$argon2$" ⧺ token;
  scrypt_hash = λ salt token. "$scrypt$" ⧺ token;
  scrypt_verify = λ stored token. stored == "$scrypt$" ⧺ token;
}

argon2_there : (t : String) → starts_with "$argon2" ("$argon2$" ⧺ t) ≡ true
unfolding starts_with
argon2_there t =
    rw
      (
        cons-append "$" "argon2$" t,
        cons-append "a" "rgon2$" t,
        cons-append "r" "gon2$" t,
        cons-append "g" "on2$" t,
        cons-append "o" "n2$" t,
        cons-append "n" "2$" t,
        cons-append "2" "$" t,
      )
      refl

scrypt_there : (t : String) → starts_with "$scrypt$" ("$scrypt$" ⧺ t) ≡ true
unfolding starts_with
scrypt_there t =
    rw
      (
        cons-append "$" "scrypt$" t,
        cons-append "s" "crypt$" t,
        cons-append "c" "rypt$" t,
        cons-append "r" "ypt$" t,
        cons-append "y" "pt$" t,
        cons-append "p" "t$" t,
        cons-append "t" "$" t,
        cons-append "$" "" t,
      )
      refl

scrypt_no_argon2 : (t : String) → starts_with "$argon2" ("$scrypt$" ⧺ t) ≡ false
unfolding starts_with
scrypt_no_argon2 t = rw (cons-append "$" "scrypt$" t, cons-append "s" "crypt$" t) refl

kdf-IsKdf : IsKdf kdf
kdf-IsKdf = record {
  argon2_tag = λ salt t. argon2_there t;
  argon2_own = λ salt t. eq_refl ("$argon2$" ⧺ t);
  scrypt_tag = λ salt t. scrypt_there t;
  scrypt_other = λ salt t. scrypt_no_argon2 t;
  scrypt_own = λ salt t. eq_refl ("$scrypt$" ⧺ t);
}

abbrev random : String
random = "0123456789abcdefghijABCDEFGHIJ"

abbrev token : String
token = "nxs_0123456789abcdefghijABCDEFGHIJ"

abbrev laptop : TokenEntry
laptop = record {
  name = "laptop";
  hash = "$argon2$nxs_0123456789abcdefghijABCDEFGHIJ";
  created_at = "t0";
  last_used_at = none;
  use_count = 0;
}

abbrev phone : TokenEntry
phone = record laptop { name = "phone"; hash = "$argon2$nxs_other" }

abbrev tokens : TokenStore
tokens = record {
  entries = phone ∷ laptop ∷ [];
  mtime = 7;
  disk = some (7, holds (some phone ∷ some laptop ∷ []));
}

abbrev header : Option String
header = some "bearer nxs_0123456789abcdefghijABCDEFGHIJ"

require_token_sound_example :
    (t : String) × (parse_bearer header ≡ some t)
    × Matches kdf "t1" t (reload_if_changed false tokens).entries (used "t1" laptop)
unfolding require_token parse_bearer bearer_of split_word is_word nonempty verify walk
    reload_if_changed reload_from or_here after_walk access_of strip lstrip rstrip is_space lower
    verify_token starts_with looks_like_token str_len used
require_token_sound_example =
    require_token_sound kdf (some 8) "t1" tokens header (used "t1" laptop) refl

revoked_stays_out_example : ("laptop" == "phone") ≡ false
unfolding require_token parse_bearer bearer_of split_word is_word nonempty verify walk
    reload_if_changed reload_from or_here after_walk access_of strip lstrip rstrip is_space lower
    verify_token starts_with looks_like_token str_len used revoke revoke_in flush visit_all
revoked_stays_out_example =
    revoked_stays_out kdf (some 8) (some 9) "t1" "phone" tokens [] header (used "t1" laptop) refl

-- a use that the disk does not take, and a request without a header
abbrev visits : List Visit
visits =
    record { written = none; now = "t1"; header = header }
    ∷ record { written = some 11; now = "t1"; header = none }
    ∷ []

abbrev tablet : TokenEntry
tablet = record laptop { name = "tablet"; created_at = "t1" }

created_gets_in_example :
    (e' : TokenEntry) × ((require_token kdf
        (some 9)
        "t2"
        (visit_all kdf visits (create kdf (some 8) "salt" "t1" random tokens "tablet").1)
        header).0
      ≡ granted e')
    × (e'.name ≡ "tablet")
unfolding create create_in add_entry entry_of reload_if_changed reload_from mint_token str_len strip
    lstrip rstrip is_space hash_token parse_bearer bearer_of split_word is_word nonempty lower
created_gets_in_example =
    created_gets_in kdf 8 "salt" "t1" random "tablet" token tokens tablet visits (some 9) "t2"
      header kdf-IsKdf refl refl refl
