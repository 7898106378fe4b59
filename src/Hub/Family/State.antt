-- ===== src/Hub/Family/State.antt =====
-- `FamilyState` of nodes/brainstem_4070/family_state.py. The lock serialises the methods, so each is
-- one step on the state; what the world decides (the clock, the uuid, whether the disk takes the
-- write) is an argument.
use project_nexus.Prelude.{
  ℕ, Bool, true, false, not, ◌&&◌, Option, none, some, List, [], ◌∷◌, String, ◌==◌, length, filter,
  any, if◌then◌else◌,
}
use project_nexus.Prelude.Int.{ℤ}
use project_nexus.Py.Text.{◌⧺◌}
use project_nexus.Py.Dict.{Dict, lookup, insert, contains, values}

-- PRESENCE_STATES of core/family.py
abbrev pub presence_states : List String
presence_states = "awake" ∷ "busy" ∷ "waking" ∷ "asleep" ∷ []

unfoldable pub is_presence : String → Bool
is_presence state = any (λ p. p == state) presence_states

-- The `result` dict that the drain attaches to an answered message.
pub record Answer : Type 0 where
  pub text : String
  pub model : String
  pub session_id : String
  pub turn_idx : Option ℕ
  pub memory_written : Bool

-- The dict that `enqueue` builds; a temperature is the float's `repr`.
pub record Message : Type 0 where
  pub msg_id : String
  pub member_id : String
  pub person : String
  pub prompt : String
  pub system : Option String
  pub max_tokens : ℤ
  pub temperature : Option String
  pub status : String
  pub queued_at : String
  pub result : Option Answer
  pub answered_at : Option String

abbrev pub Inbox : Type 0
Inbox = Dict (Dict Message)

abbrev pub PresenceLog : Type 0
PresenceLog = Dict (Dict String)

-- What `json.loads` finds in the store's file, as far as `_load` tells it apart. `none` for a
-- member's entry is a value that is not a dict, `none` for a whole map a missing or falsy one.
-- `not_utf8` is a file that `read_text` cannot decode, `bad_maps` one with a version whose `inbox` or
-- `presence_log` is truthy and no dict.
pub data Stored : Type 0 where
  missing unreadable not_a_dict not_utf8 bad_maps : Stored
  v1 : Dict (Option (Dict Message)) → Stored
  v2 : Option (Dict (Option (Dict Message))) → Option (Dict (Option (Dict String))) → Stored

pub record Family : Type 0 where
  pub presences : Dict String
  pub inbox : Inbox
  pub log : PresenceLog
  -- is `_store_path` set, and what its file holds
  pub durable : Bool
  pub disk : Stored

pub data Outcome {ℓ} (A : Type ℓ) : Type ℓ where
  ok : A → Outcome A
  unknown_member value_error key_error : Outcome A

infixl 5 ◌>>=◌
abbrev pub ◌>>=◌ {ℓ κ} : {A : Type ℓ} {B : Type κ} → Outcome A → (A → Outcome B) → Outcome B
ok a >>= f = f a
unknown_member >>= f = unknown_member
value_error >>= f = value_error
key_error >>= f = key_error

-- {m: v for m in member_ids}, added to `d`
unfoldable pub add_keys {ℓ} : {V : Type ℓ} → V → List String → Dict V → Dict V
add_keys v [] d = d
add_keys v (m ∷ ms) d = add_keys v ms (insert m v d)

-- for k, v in raw.items(): if k in d and isinstance(v, dict): d[k] = v
unfoldable pub overlay {ℓ} : {V : Type ℓ} → Dict (Option V) → Dict V → Dict V
overlay [] d = d
overlay ((k, none) ∷ raw) d = overlay raw d
overlay ((k, some v) ∷ raw) d = overlay raw (if contains k d then insert k v d else d)

unfoldable pub overlay_opt : {V : Type 0} → Option (Dict (Option V)) → Dict V → Dict V
overlay_opt none d = d
overlay_opt (some raw) d = overlay raw d

-- What `_load` leaves of the fresh maps; where it raises, `init` stops before.
unfoldable pub load : Stored → Inbox × PresenceLog → Inbox × PresenceLog
unfolding overlay_opt
load (v1 inbox_raw) (inbox, log) = (overlay inbox_raw inbox, log)
load (v2 inbox_raw presence_raw) (inbox, log) =
    (overlay_opt inbox_raw inbox, overlay_opt presence_raw log)
load missing fresh = fresh
load unreadable fresh = fresh
load not_a_dict fresh = fresh
load not_utf8 fresh = fresh
load bad_maps fresh = fresh

-- The `UnicodeDecodeError` of `read_text` and the `AttributeError` of `.items()`, which `_load` does not
-- catch.
unfoldable pub load_raises : Stored → Bool
load_raises (v1 inbox_raw) = false
load_raises (v2 inbox_raw presence_raw) = false
load_raises missing = false
load_raises unreadable = false
load_raises not_a_dict = false
load_raises not_utf8 = true
load_raises bad_maps = true

-- A start: a store, the ValueError for the default presence, or an exception of `_load`.
pub data Start : Type 0 where
  started : Family → Start
  refused stopped : Start

-- {m: {} for m in member_ids}, twice
unfoldable pub fresh : List String → Inbox × PresenceLog
fresh member_ids = (add_keys [] member_ids [], add_keys [] member_ids [])

unfoldable pub boot : List String → String → Bool → Stored → Family
unfolding fresh load
boot member_ids default_presence durable disk =
    let loaded = if durable then load disk (fresh member_ids) else fresh member_ids in
    record {
      presences = add_keys default_presence member_ids [];
      inbox = loaded.0;
      log = loaded.1;
      durable = durable;
      disk = disk;
    }

-- __init__
unfoldable pub init : List String → String → Bool → Stored → Start
unfolding is_presence boot load_raises
init member_ids default_presence durable disk =
    if not (is_presence default_presence)
    then refused
    else if durable && load_raises disk
    then stopped
    else started (boot member_ids default_presence durable disk)

-- the payload's maps, as they read back
unfoldable pub as_stored {ℓ} : {V : Type ℓ} → Dict V → Dict (Option V)
as_stored [] = []
as_stored ((k, v) ∷ d) = (k, some v) ∷ as_stored d

-- _flush_locked; `writes` says whether the disk takes the write, and a failure is swallowed.
unfoldable pub flush : Bool → Family → Family
flush writes s =
    if s.durable && writes
    then record s { disk = v2 (some (as_stored s.inbox)) (some (as_stored s.log)) }
    else s

unfoldable pub check : Family → String → Outcome (Unit {0})
check s member_id = if contains member_id s.presences then ok tt else unknown_member

-- d[k], which raises `KeyError`
unfoldable pub subscript {ℓ} : {V : Type ℓ} → Dict V → String → Outcome V
subscript d k = elim (lookup k d) [ none ↦ key_error | some v ↦ ok v ]

unfoldable pub presence : Family → String → Outcome String
unfolding check subscript
presence s member_id = check s member_id >>= λ _. subscript s.presences member_id

-- the entry of the presence log that a transition writes
unfoldable pub stamp : String → String → Dict String → Dict String
stamp state now entry =
    if state == "asleep"
    then insert "last_asleep_at" now entry
    else if state == "awake"
    then insert "last_awake_at" now entry
    else entry

-- the body of `set_presence` under the lock
unfoldable pub enter_presence : Bool → String → Family → String → String → Dict String → Family
unfolding stamp flush
enter_presence writes now s member_id state entry = flush writes (record s {
  presences = insert member_id state s.presences;
  log = insert member_id (stamp state now entry) s.log;
})

unfoldable pub set_presence : Bool → String → Family → String → String → Outcome Family
unfolding check is_presence subscript enter_presence
set_presence writes now s member_id state = check s member_id >>= λ _.
    if is_presence state
    then (subscript s.log member_id >>= λ entry.
        ok (enter_presence writes now s member_id state entry))
    else value_error

unfoldable pub last_asleep_at : Family → String → Outcome (Option String)
unfolding check subscript
last_asleep_at s member_id = do
  _ ← check s member_id
  entry ← subscript s.log member_id
  ok (lookup "last_asleep_at" entry)

-- The keyword arguments of `enqueue`.
pub record Letter : Type 0 where
  pub prompt : String
  pub system : Option String
  pub person : String
  pub max_tokens : ℤ
  pub temperature : Option String

-- The record that `enqueue` stores.
unfoldable pub message : String → String → String → Letter → Message
message msg_id now member_id letter = record {
  msg_id = msg_id;
  member_id = member_id;
  person = letter.person;
  prompt = letter.prompt;
  system = letter.system;
  max_tokens = letter.max_tokens;
  temperature = letter.temperature;
  status = "queued";
  queued_at = now;
  result = none;
  answered_at = none;
}

-- `hex` is `uuid.uuid4().hex[:12]`.
unfoldable pub enqueue :
    Bool → String → String → Family → String → Letter → Outcome (Family × String)
unfolding check subscript flush message
enqueue writes now hex s member_id letter = do
  _ ← check s member_id
  box ← subscript s.inbox member_id
  let msg_id = "msg_" ⧺ hex
  let box' = insert msg_id (message msg_id now member_id letter) box
  ok (flush writes (record s { inbox = insert member_id box' s.inbox }), msg_id)

unfoldable pub is_queued : Message → Bool
is_queued m = m.status == "queued"

unfoldable pub queue_depth : Family → String → Outcome ℕ
unfolding check subscript is_queued
queue_depth s member_id = do
  _ ← check s member_id
  box ← subscript s.inbox member_id
  ok (length (filter is_queued (values box)))

unfoldable pub queued_messages : Family → String → Outcome (List Message)
unfolding check subscript is_queued
queued_messages s member_id = do
  _ ← check s member_id
  box ← subscript s.inbox member_id
  ok (filter is_queued (values box))

unfoldable pub get_message : Family → String → String → Outcome (Option Message)
unfolding check subscript
get_message s member_id msg_id = do
  _ ← check s member_id
  box ← subscript s.inbox member_id
  ok (lookup msg_id box)

unfoldable pub answered : String → Answer → Message → Message
answered now result m = record m {
  status = "answered";
  result = some result;
  answered_at = some now;
}

unfoldable pub complete_message : Bool → String → Family → String → String → Answer → Outcome Family
unfolding check subscript answered flush
complete_message writes now s member_id msg_id result = do
  _ ← check s member_id
  box ← subscript s.inbox member_id
  elim (lookup msg_id box) [
    | none ↦ ok s
    | some m ↦ ok (
        flush writes (record s {
          inbox = insert member_id (insert msg_id (answered now result m) box) s.inbox;
        }))
  ]
