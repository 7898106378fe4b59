-- ===== src/Hub/Sessions/Store.antt =====
-- `HubSessionStore` of nodes/brainstem_4070/sessions.py. The uuid and whether the disk takes a write
-- are arguments; what a method wrote before it raised stays written.
use project_nexus.Prelude.{ℕ, Bool, Option, none, some, [], ◌∷◌, String, if◌then◌else◌}
use project_nexus.Py.Text.{◌⧺◌}
use project_nexus.Py.Dict.{Dict, lookup, insert}

-- An entry of the map; `turn_idx` is `none` where the file's entry lacks it.
pub record Session : Type 0 where
  pub session_id : String
  pub turn_idx : Option ℕ

-- What the file holds, as far as `_load` tells it apart; `none` for an entry is a value that is no
-- dict or has no `session_id`.
pub data SessionFile : Type 0 where
  missing unreadable not_a_dict : SessionFile
  holds : Dict (Option Session) → SessionFile

pub record Sessions : Type 0 where
  pub sessions : Dict Session
  pub disk : SessionFile

-- f"{person}::{member_id}"
unfoldable pub key : String → String → String
key person member_id = person ⧺ "::" ⧺ member_id

-- {k: v for k, v in raw.items() if isinstance(v, dict) and "session_id" in v}
unfoldable pub well_formed : Dict (Option Session) → Dict Session
well_formed [] = []
well_formed ((k, none) ∷ raw) = well_formed raw
well_formed ((k, some v) ∷ raw) = (k, v) ∷ well_formed raw

unfoldable pub load : SessionFile → Sessions
unfolding well_formed
load (holds raw) = record { sessions = well_formed raw; disk = holds raw }
load disk = record { sessions = []; disk = disk }

unfoldable pub as_file : Dict Session → Dict (Option Session)
as_file [] = []
as_file ((k, v) ∷ d) = (k, some v) ∷ as_file d

-- _flush, with the disk after it; a failed write raises `OSError`.
unfoldable pub flush : Bool → Sessions → Sessions
unfolding as_file
flush writes s = if writes then record s { disk = holds (as_file s.sessions) } else s

-- int(entry.get("turn_idx", 0))
unfoldable pub stored_turn : Session → ℕ
stored_turn entry = elim entry.turn_idx [ none ↦ 0 | some n ↦ n ]

-- "sess_" and `uuid.uuid4().hex[:12]`
unfoldable pub mint : String → Session
mint hex = record { session_id = "sess_" ⧺ hex; turn_idx = some 0 }

-- `none` is the `OSError` of a failed flush.
unfoldable pub get_or_mint :
    Bool → String → Sessions → String → String → Option (String × ℕ) × Sessions
unfolding flush mint key stored_turn
get_or_mint writes hex s person member_id = elim (lookup (key person member_id) s.sessions) [
  | some entry ↦ (some (entry.session_id, stored_turn entry), s)
  | none ↦
      let s' = record s { sessions = insert (key person member_id) (mint hex) s.sessions } in
      (
        if writes then some ((mint hex).session_id, stored_turn (mint hex)) else none,
        flush writes s',
      )
]

unfoldable pub record_turn : Bool → Sessions → String → String → ℕ → Sessions
unfolding flush key
record_turn writes s person member_id turn_idx = elim (lookup (key person member_id) s.sessions) [
  | none ↦ s
  | some entry ↦ flush writes (record s {
    sessions = insert (key person member_id) (record entry { turn_idx = some turn_idx }) s.sessions;
  })
]
