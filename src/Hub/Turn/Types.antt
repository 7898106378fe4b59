-- ===== src/Hub/Turn/Types.antt =====
-- The requests, replies and state of the turn pipeline of nodes/brainstem_4070/server.py.
use project_nexus.Prelude.{ℕ, Bool, Option, List, String}
use project_nexus.Prelude.Int.{ℤ}
use project_nexus.Py.Dict.{Dict}
use project_nexus.Hub.Family.State.{Family}
use project_nexus.Hub.Sessions.Store.{Sessions}

-- GenerateRequest; a temperature is the float's `repr`.
pub record GenerateRequest : Type 0 where
  pub prompt : String
  pub system : Option String
  pub max_tokens : ℤ
  pub temperature : String

-- The arguments of `embedder.memory_query`.
pub record Query : Type 0 where
  pub session_id : String
  pub query : String
  pub member_id : String
  pub k : ℕ

-- A match of the embedder's reply: the fields that the pipeline reads. The distance is the float's
-- `repr`.
pub record Match : Type 0 where
  pub id : String
  pub text : Option String
  pub ts : Option String
  pub session_id : Option String
  pub turn_idx : Option ℕ
  pub distance : Option String

pub record Usage : Type 0 where
  pub prompt_tokens : Option ℕ
  pub completion_tokens : Option ℕ

-- The dict that `CortexClient.generate` returns.
pub record Completion : Type 0 where
  pub text : String
  pub model : String
  pub finish_reason : Option String
  pub usage : Usage

-- What a call of the cortex comes to; `cortex_error` holds `str(exc)` of the `CortexError`.
pub data Reply : Type 0 where
  completion : Completion → Reply
  cortex_error : String → Reply

-- The arguments of `embedder.memory_write`.
pub record Memory : Type 0 where
  pub session_id : String
  pub user_text : String
  pub assistant_text : String
  pub turn_idx : ℕ
  pub ts : String
  pub scope : String
  pub member_id : String
  pub origin : String
  pub participants : List String
  pub model_used : String
  pub user_token_count : ℕ
  pub assistant_token_count : ℕ
  pub source_service : String
  pub tool_calls_present : Bool

-- The `brainstem.generate` metric record, less its timings and byte counts.
pub record Metric : Type 0 where
  pub ok : Bool
  pub retrieved_ids : List String
  pub prompt_tokens : ℕ
  pub completion_tokens : ℕ
  pub cortex_model : Option String
  pub finish_reason : Option String
  pub session_id : String
  pub turn_idx : Option ℕ
  pub memory_written : Bool
  pub token_name : String
  pub member_id : String
  pub error : Option String

-- The `brainstem.inbox_drain` metric record, less its timings.
pub record DrainMetric : Type 0 where
  pub member_id : String
  pub msg_id : String
  pub briefing_attached : Bool
  pub token_name : String

-- The records that the metric file takes; a `brainstem.briefing` record names its member.
pub data Probe : Type 0 where
  generate : Metric → Probe
  drain : DrainMetric → Probe
  briefing : String → Probe

-- A family member, as far as the hub reads it: `spec` is `member_specs[id]`, `sampling_temperature`
-- is `runtime.sampling_defaults.get("temperature")`.
pub record Member : Type 0 where
  pub id : String
  pub display_name : String
  pub spec : String
  pub sampling_temperature : Option String
  pub briefing_on_wake : Bool

-- An event of the household timeline: its `ts` metadata is `none` where it is missing.
pub record HouseholdEvent : Type 0 where
  pub id : String
  pub text : String
  pub ts : Option String

-- The reply to `embedder.memory_timeline`, or `str(exc)` of the `EmbedderError`.
pub data Timeline : Type 0 where
  events : List HouseholdEvent → Timeline
  embedder_error : String → Timeline

-- What a briefing says of a queued message.
pub record Custody : Type 0 where
  pub msg_id : String
  pub person : String
  pub queued_at : String

-- The dict that `_build_briefing` returns.
pub record Briefing : Type 0 where
  pub member_id : String
  pub generated_at : String
  pub presence : String
  pub since : String
  pub since_source : String
  pub queued_messages : List Custody
  pub household_events : List HouseholdEvent
  pub household_events_error : Option String

-- The concierge, where one is deployed: its spec and `sampling_defaults.get("temperature")`.
pub record Concierge : Type 0 where
  pub spec : String
  pub temperature : Option String

-- What stands outside the hub. Each is asked at a moment, the number of effects so far, so that two
-- calls may differ.
pub record World : Type 0 where
  -- datetime.now(timezone.utc).isoformat(), the same 24 hours before, and uuid4().hex[:12]
  pub now : ℕ → String
  pub day_before : ℕ → String
  pub hex : ℕ → String
  -- does the disk take the session store's, the inbox's and the metric sink's write?
  pub session_disk : ℕ → Bool
  pub inbox_disk : ℕ → Bool
  pub sink_disk : ℕ → Bool
  -- the embedder service and the cortex; `none` is an `EmbedderError`
  pub memory_query : ℕ → Query → Option (List Match)
  pub memory_write : ℕ → Memory → Bool
  pub cortex : ℕ → Option String → GenerateRequest → Reply
  pub memory_timeline : ℕ → ℕ → Timeline
  pub concierge_reply : ℕ → Option String → GenerateRequest → Reply
  -- json.dumps(briefing, indent=2)
  pub dumps : Briefing → String
  -- f"{x:.3f}" of a float
  pub three_decimals : String → String

-- The settings that the pipeline reads.
pub record Settings : Type 0 where
  pub cortex_down_retry : ℕ
  pub cortex_timeout_retry : ℕ
  pub member_loading_retry : ℕ
  pub metrics_window : ℕ
  pub concierge : Option Concierge

-- The hub's state. `rows` is what the embedder has accepted, newest first, and `sink` what the metric
-- file has taken, newest first.
pub record Hub : Type 0 where
  pub moment : ℕ
  pub turns : Dict ℕ
  pub sessions : Sessions
  pub family : Family
  pub recent : List Metric
  pub sink : List Probe
  pub rows : List Memory
