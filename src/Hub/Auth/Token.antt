-- ===== src/Hub/Auth/Token.antt =====
-- The KDF, the format of a token and the Authorization header of nodes/brainstem_4070/auth.py.
use Prim.Native.Char.{code}
use project_nexus.Prelude.{
  ◌+◌, Bool, true, false, not, ◌&&◌, ◌||◌, Option, none, some, String, leb, nat_eq, if◌then◌else◌,
}
use project_nexus.Py.Text.{◌⧺◌, is_space, lstrip, strip, str_truthy, starts_with, str_len}
use project_nexus.Hub.Turn.Down.{lower}

-- argon2-cffi and hashlib.scrypt: is the first installed, and what each hashes and accepts. The hash of
-- a token depends on a salt, and an exception counts as a refusal.
pub record Kdf : Type 0 where
  pub argon2_available : Bool
  pub argon2_hash : String → String → String
  pub argon2_verify : String → String → Bool
  pub scrypt_hash : String → String → String
  pub scrypt_verify : String → String → Bool

unfoldable pub hash_token : Kdf → String → String → String
hash_token kdf salt token =
    if kdf.argon2_available then kdf.argon2_hash salt token else kdf.scrypt_hash salt token

unfoldable pub verify_token : Kdf → String → String → Bool
verify_token kdf stored_hash token =
    if not (str_truthy stored_hash) || not (str_truthy token)
    then false
    else if starts_with "$argon2" stored_hash
    then kdf.argon2_available && kdf.argon2_verify stored_hash token
    else if starts_with "$scrypt$" stored_hash
    then kdf.scrypt_verify stored_hash token
    else false

abbrev pub token_prefix : String
token_prefix = "nxs_"

-- `random` is `secrets.token_urlsafe(TOKEN_RANDOM_BYTES)`.
unfoldable pub mint_token : String → String
mint_token random = token_prefix ⧺ random

unfoldable pub looks_like_token : String → Bool
looks_like_token value =
    str_truthy value
    && starts_with token_prefix value
    && leb (str_len token_prefix + 20) (str_len value)

-- s.split(None, 1) of a stripped text: the first word and the rest, `none` where there is one word
unfoldable pub split_word : String → Option (String × String)
split_word String.[] = none
split_word (String.◌∷◌ c s) =
    let rest = split_word s in
    if is_space (code c)
    then some ("", lstrip s)
    else elim rest [ none ↦ none | some wr ↦ some (String.◌∷◌ c wr.0, wr.1) ]

-- s.lower() == word, for a word of lower-case ASCII letters
unfoldable pub is_word : String → String → Bool
is_word String.[] String.[] = true
is_word String.[] (String.◌∷◌ c s) = false
is_word (String.◌∷◌ d w) String.[] = false
is_word (String.◌∷◌ d w) (String.◌∷◌ c s) = nat_eq (code d) (lower (code c)) && is_word w s

-- token or None
unfoldable pub nonempty : String → Option String
nonempty token = if str_truthy token then some token else none

unfoldable pub bearer_of : Option (String × String) → Option String
unfolding nonempty
bearer_of none = none
bearer_of (some (scheme, token)) = if is_word "bearer" scheme then nonempty (strip token) else none

unfoldable pub parse_bearer : Option String → Option String
unfolding bearer_of split_word
parse_bearer none = none
parse_bearer (some value) = if str_truthy value then bearer_of (split_word (strip value)) else none
