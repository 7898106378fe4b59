-- ===== src/Hub/Samples.antt =====
-- A small household for the tests: two members, one asleep with two messages waiting.
use project_nexus.Prelude.{
  some_injective, ◌≡◌, refl, Bool, true, false, none, some, [], ◌∷◌, String, arith, ◌==◌, subst,
  if◌then◌else◌,
}
use project_nexus.Prelude.Int.{pos}
use project_nexus.Py.Dict.{contains, lookup, values}
use project_nexus.Hub.Family.State.{
  Family, Message, Letter, Answer, missing, is_presence, queued_messages, check, subscript,
  is_queued, ok,
}
use project_nexus.Hub.Family.Valid.{IsValid}
use project_nexus.Hub.Sessions.Store
use project_nexus.Hub.Sessions.Store.{Sessions, Session}
use project_nexus.Hub.Turn.Types.{
  GenerateRequest, Completion, completion, Member, World, Settings, Hub, events,
}
use project_nexus.Hub.Turn.Pipeline.{Ask}
use project_nexus.Hub.Turn.Counter.{Numbered}
use project_nexus.Hub.Inbox.Reach.{IsSound}

abbrev pub letter : Letter
letter = record {
  prompt = "hello";
  system = none;
  person = "ada";
  max_tokens = pos 64;
  temperature = none;
}

abbrev pub first : Message
first = record {
  msg_id = "msg_1";
  member_id = "kit";
  person = "ada";
  prompt = "hello";
  system = none;
  max_tokens = pos 64;
  temperature = none;
  status = "queued";
  queued_at = "t1";
  result = none;
  answered_at = none;
}

abbrev pub second : Message
second = record first { msg_id = "msg_2"; prompt = "again"; queued_at = "t2" }

abbrev pub reply : Answer
reply = record {
  text = "hi";
  model = "m";
  session_id = "sess_1";
  turn_idx = some 0;
  memory_written = true;
}

abbrev pub household : Family
household = record {
  presences = ("kit", "asleep") ∷ ("nyx", "awake") ∷ [];
  inbox = ("kit", ("msg_1", first) ∷ ("msg_2", second) ∷ []) ∷ ("nyx", []) ∷ [];
  log = ("kit", ("last_asleep_at", "t0") ∷ []) ∷ ("nyx", []) ∷ [];
  durable = true;
  disk = missing;
}

-- the presences in the household are known states
known_state :
    (here there : Bool) (p : String)
    → (if here then some "asleep" else if there then some "awake" else none) ≡ some p
    → is_presence p ≡ true
unfolding is_presence
known_state true there p e = subst (λ q. is_presence q ≡ true) (some_injective e) refl
known_state false true p e = subst (λ q. is_presence q ≡ true) (some_injective e) refl
known_state false false p e = cc

pub household-IsValid : IsValid household
unfolding contains lookup
household-IsValid = record {
  has_inbox = λ m. refl;
  has_log = λ m. refl;
  known = λ m p e. known_state ("kit" == m) ("nyx" == m) p e;
  inbox_keys = (refl, (refl, tt));
  log_keys = (refl, (refl, tt));
  boxes = λ m box e. ground arith;
}

abbrev pub entry : Session
entry = record { session_id = "sess_1"; turn_idx = some 4 }

abbrev pub sessions : Sessions
sessions = record { sessions = ("ada::kit", entry) ∷ []; disk = Store.missing }

abbrev pub kit : Member
kit = record {
  id = "kit";
  display_name = "Kit";
  spec = "You are Kit.";
  sampling_temperature = none;
  briefing_on_wake = true;
}

abbrev pub answer : Completion
answer = record {
  text = "hi";
  model = "m";
  finish_reason = some "stop";
  usage = record { prompt_tokens = some 3; completion_tokens = some 1 };
}

-- A cortex that answers, an embedder that accepts, and disks that take every write.
abbrev pub world : World
world = record {
  now = λ t. "t9";
  day_before = λ t. "t0";
  hex = λ t. "3";
  session_disk = λ t. true;
  inbox_disk = λ t. true;
  sink_disk = λ t. true;
  memory_query = λ t query. some [];
  memory_write = λ t row. true;
  cortex = λ t system req. completion answer;
  memory_timeline = λ t limit. events [];
  concierge_reply = λ t system req. completion answer;
  dumps = λ b. "{}";
  three_decimals = λ x. x;
}

abbrev pub settings : Settings
settings = record {
  cortex_down_retry = 30;
  cortex_timeout_retry = 10;
  member_loading_retry = 5;
  metrics_window = 100;
  concierge = none;
}

abbrev pub hub : Hub
hub = record {
  moment = 0;
  turns = ("sess_1", 4) ∷ [];
  sessions = sessions;
  family = household;
  recent = [];
  sink = [];
  rows = [];
}

abbrev pub request : GenerateRequest
request = record { prompt = "hello"; system = none; max_tokens = pos 64; temperature = "0.7" }

abbrev pub ask : Ask
ask = record { prompt = "hello"; system = none; max_tokens = pos 64; temperature = none }

pub hub-Numbered : Numbered hub
hub-Numbered = record { counted = λ sid. tt; unseen = λ sid e. refl }

pub hub-IsSound : IsSound hub
hub-IsSound = record { family = household-IsValid; numbered = hub-Numbered }

pub kit_queue : queued_messages household "kit" ≡ ok (first ∷ second ∷ [])
unfolding queued_messages check subscript contains lookup is_queued values
kit_queue = refl
