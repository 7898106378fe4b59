-- ===== src/Hub/Auth/Store.antt =====
-- `TokenStore` and `require_token` of nodes/brainstem_4070/auth.py.
use project_nexus.Prelude.{
  ℕ, ◌+◌, Bool, true, false, not, ◌&&◌, ◌||◌, Option, none, some, List, [], ◌∷◌, ◌++◌, map, String,
  ltb, nat_eq, ◌==◌, any, filter, length, if◌then◌else◌,
}
use project_nexus.Py.Text.{strip, str_truthy}
use project_nexus.Hub.Auth.Token.{
  Kdf, hash_token, verify_token, mint_token, looks_like_token, parse_bearer,
}

pub record TokenEntry : Type 0 where
  pub name : String
  pub hash : String
  pub created_at : String
  pub last_used_at : Option String
  pub use_count : ℕ

-- What the file holds: no JSON, or the items of its "tokens" (none where it is no dict), each an entry
-- or an item that `from_dict` refuses.
pub data Content : Type 0 where
  unreadable : Content
  holds : List (Option TokenEntry) → Content

-- The file is missing, or has an mtime and a content.
pub record TokenStore : Type 0 where
  pub entries : List TokenEntry
  pub mtime : ℕ
  pub disk : Option (ℕ × Content)

unfoldable pub well_formed : List (Option TokenEntry) → List TokenEntry
well_formed [] = []
well_formed (none ∷ items) = well_formed items
well_formed (some e ∷ items) = e ∷ well_formed items

unfoldable pub read : ℕ → Content → TokenStore → TokenStore
unfolding well_formed
read m unreadable s = s
read m (holds items) s = record s { entries = well_formed items; mtime = m }

unfoldable pub reload_from : Bool → Option (ℕ × Content) → TokenStore → TokenStore
unfolding read
reload_from force none s = record s { entries = []; mtime = 0 }
reload_from force (some (m, content)) s =
    if not force && nat_eq m s.mtime then s else read m content s

-- _reload_if_changed
unfoldable pub reload_if_changed : Bool → TokenStore → TokenStore
unfolding reload_from
reload_if_changed force s = reload_from force s.disk s

-- `TokenStore.load` over the file
unfoldable pub load : Option (ℕ × Content) → TokenStore
unfolding reload_if_changed
load disk = reload_if_changed true (record { entries = []; mtime = 0; disk = disk })

-- _flush: `written` is the mtime of the new file, `none` an `OSError` that left the old one.
unfoldable pub flush : Option ℕ → TokenStore → TokenStore
flush none s = s
flush (some m) s = record s { mtime = m; disk = some (m, holds (map some s.entries)) }

pub data Created : Type 0 where
  created : String → TokenEntry → Created
  value_error os_error : Created

unfoldable pub entry_of : Kdf → String → String → String → String → TokenEntry
entry_of kdf salt now name token = record {
  name = name;
  hash = hash_token kdf salt token;
  created_at = now;
  last_used_at = none;
  use_count = 0;
}

-- self._entries.append(entry); self._flush()
unfoldable pub add_entry : Option ℕ → String → TokenEntry → TokenStore → Created × TokenStore
unfolding flush
add_entry none token entry s = (os_error, record s { entries = s.entries ++ entry ∷ [] })
add_entry (some m) token entry s =
    (created token entry, flush (some m) (record s { entries = s.entries ++ entry ∷ [] }))

-- under the lock, after the reload
unfoldable pub create_in :
    Kdf → Option ℕ → String → String → String → String → TokenStore → Created × TokenStore
unfolding add_entry entry_of
create_in kdf written salt now random name s =
    if any (λ e. e.name == name) s.entries
    then (value_error, s)
    else add_entry written (mint_token random) (entry_of kdf salt now name (mint_token random)) s

unfoldable pub create :
    Kdf → Option ℕ → String → String → String → TokenStore → String → Created × TokenStore
unfolding create_in
create kdf written salt now random s name =
    if not (str_truthy name) || not (str_truthy (strip name))
    then (value_error, s)
    else create_in kdf written salt now random (strip name) (reload_if_changed false s)

-- The reply of `revoke`, `none` for the `OSError` of a failed flush.
unfoldable pub flushed : Option ℕ → Option Bool
flushed none = none
flushed (some m) = some true

unfoldable pub revoke_in : Option ℕ → String → TokenStore → Option Bool × TokenStore
unfolding flush flushed
revoke_in written name s =
    let kept = filter (λ e. not (e.name == name)) s.entries in
    if ltb (length kept) (length s.entries)
    then (flushed written, flush written (record s { entries = kept }))
    else (some false, record s { entries = kept })

unfoldable pub revoke : Option ℕ → TokenStore → String → Option Bool × TokenStore
unfolding revoke_in
revoke written s name = revoke_in written name (reload_if_changed false s)

-- matched.last_used_at = ..., matched.use_count += 1
unfoldable pub used : String → TokenEntry → TokenEntry
used now e = record e { last_used_at = some now; use_count = e.use_count + 1 }

unfoldable pub or_here :
    Bool
    → String
    → TokenEntry
    → List TokenEntry
    → Option TokenEntry × List TokenEntry
    → Option TokenEntry × List TokenEntry
or_here here now e es (some m, es') = (some m, e ∷ es')
or_here here now e es (none, es') =
    if here then (some (used now e), used now e ∷ es) else (none, e ∷ es)

-- The walk over all entries: the last that matches, as it is after its use, and the entries after it.
unfoldable pub walk : Kdf → String → String → List TokenEntry → Option TokenEntry × List TokenEntry
unfolding or_here used
walk kdf now token [] = (none, [])
walk kdf now token (e ∷ es) =
    or_here (verify_token kdf e.hash token) now e es (walk kdf now token es)

unfoldable pub after_walk :
    Option ℕ → TokenStore → Option TokenEntry × List TokenEntry → Option TokenEntry × TokenStore
unfolding flush
after_walk written s (none, es) = (none, s)
after_walk written s (some m, es) = (some m, flush written (record s { entries = es }))

unfoldable pub verify :
    Kdf → Option ℕ → String → TokenStore → String → Option TokenEntry × TokenStore
unfolding after_walk walk reload_if_changed
verify kdf written now s token =
    let s' = reload_if_changed false s in
    if looks_like_token token
    then after_walk written s' (walk kdf now token s'.entries)
    else (none, s)

-- What the dependency answers: the entry of the token, or a 401.
pub data Access : Type 0 where
  granted : TokenEntry → Access
  missing_header invalid_token : Access

unfoldable pub access_of : Option TokenEntry × TokenStore → Access × TokenStore
access_of (none, s) = (invalid_token, s)
access_of (some e, s) = (granted e, s)

unfoldable pub require_token :
    Kdf → Option ℕ → String → TokenStore → Option String → Access × TokenStore
unfolding access_of
require_token kdf written now s authorization = elim (parse_bearer authorization) [
  | none ↦ (missing_header, s)
  | some token ↦ access_of (verify kdf written now s token)
]
