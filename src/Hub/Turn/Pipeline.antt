-- ===== src/Hub/Turn/Pipeline.antt =====
-- `_run_turn` and `_live_member_turn` of nodes/brainstem_4070/server.py.
use project_nexus.Prelude.{
  ℕ, ◌+◌, ◌-◌, Bool, true, false, Option, none, some, List, [], ◌∷◌, ◌++◌, map, String, length,
  drop, if◌then◌else◌,
}
use project_nexus.Prelude.Int.{ℤ}
use project_nexus.Py.Text.{◌⧺◌, strip, str_truthy}
use project_nexus.Py.Dict.{Dict, lookup, insert, contains}
use project_nexus.Embedder.Scopes.Defs.{private_scope}
use project_nexus.Hub.Sessions.Store
use project_nexus.Hub.Sessions.Store.{Sessions}
use project_nexus.Hub.Turn.Types.{
  GenerateRequest, Match, Usage, Completion, Reply, completion, cortex_error, Memory, Metric,
  Member, World, Settings, Hub, generate,
}
use project_nexus.Hub.Turn.Context.{format_retrieved_context, merge_system, or_default}
use project_nexus.Hub.Turn.Down.{Down, cortex_down_response}

-- GenerateResponse
pub record Generated : Type 0 where
  pub text : String
  pub model : String
  pub finish_reason : Option String
  pub usage : Usage
  pub session_id : String
  pub turn_idx : Option ℕ
  pub memory_written : Bool

pub data TurnResult : Type 0 where
  generated : Generated → TurnResult
  down : Down → TurnResult

abbrev pub retrieval_k : ℕ
retrieval_k = 5

-- The query's reply: the matches, or `none` after an `EmbedderError`.
unfoldable pub retrieve : World → Hub → String → String → Member → Option (List Match)
retrieve w h session_id prompt member =
    w.memory_query h.moment
      (record { session_id = session_id; query = prompt; member_id = member.id; k = retrieval_k })

unfoldable pub effective_system : World → Option String → Option (List Match) → Option String
effective_system w system none = system
effective_system w system (some matches) =
    merge_system system (format_retrieved_context w.three_decimals matches)

-- [m.get("id", "") for m in matches]
unfoldable pub ids_of : Option (List Match) → List String
ids_of none = []
ids_of (some matches) = map (λ m. m.id) matches

-- _turn_idx_by_session[session_id], a `defaultdict(int)`
unfoldable pub turn_of : Dict ℕ → String → ℕ
turn_of turns session_id = or_default 0 (lookup session_id turns)

-- the arguments of `embedder.memory_write`
unfoldable pub memory_of : World → ℕ → String → String → String → Member → ℕ → Completion → Memory
memory_of w t session_id prompt person member turn_idx c = record {
  session_id = session_id;
  user_text = prompt;
  assistant_text = c.text;
  turn_idx = turn_idx;
  ts = w.now t;
  scope = private_scope member.id;
  member_id = member.id;
  origin = "conversation";
  participants = person ∷ [];
  model_used = c.model;
  user_token_count = or_default 0 c.usage.prompt_tokens;
  assistant_token_count = or_default 0 c.usage.completion_tokens;
  source_service = "brainstem_4070";
  tool_calls_present = false;
}

-- deque(maxlen=n).append(x)
unfoldable pub push {ℓ} : {A : Type ℓ} → ℕ → List A → A → List A
push n xs x = let all = xs ++ x ∷ [] in drop (length all - n) all

-- metrics_sink.write(record), whose failure is swallowed, and recent_roundtrips.append(...)
unfoldable pub measure : World → Settings → Metric → Hub → Hub
unfolding push
measure w settings metric h = record h {
  recent = push settings.metrics_window h.recent metric;
  sink = if w.sink_disk h.moment then generate metric ∷ h.sink else h.sink;
  moment = h.moment + 1;
}

-- The legs after a reply of the cortex: write-on-turn, and the turn counter.
unfoldable pub remember : World → Hub → Memory → Bool × Hub
remember w h row =
    let h' = record h {
      moment = h.moment + 1;
      turns = insert row.session_id row.turn_idx h.turns;
    } in
    if w.memory_write h.moment row
    then (
      true,
      record h' { turns = insert row.session_id (row.turn_idx + 1) h'.turns; rows = row ∷ h'.rows },
    )
    else (false, h')

module _ (session_id person : String) (member : Member) (ids : List String) where
  unfoldable pub metric_ok : Completion → ℕ → Bool → Metric
  metric_ok c turn_idx written = record {
    ok = true;
    retrieved_ids = ids;
    prompt_tokens = or_default 0 c.usage.prompt_tokens;
    completion_tokens = or_default 0 c.usage.completion_tokens;
    cortex_model = some c.model;
    finish_reason = c.finish_reason;
    session_id = session_id;
    turn_idx = if written then some turn_idx else none;
    memory_written = written;
    token_name = person;
    member_id = member.id;
    error = none;
  }

  unfoldable pub metric_failed : String → Metric
  metric_failed text = record {
    ok = false;
    retrieved_ids = ids;
    prompt_tokens = 0;
    completion_tokens = 0;
    cortex_model = none;
    finish_reason = none;
    session_id = session_id;
    turn_idx = none;
    memory_written = false;
    token_name = person;
    member_id = member.id;
    error = some text;
  }

-- err or "cortex unreachable"
unfoldable pub error_text : String → String
error_text text = if str_truthy text then text else "cortex unreachable"

unfoldable pub generated_of : Completion → String → ℕ → Bool → Generated
generated_of c session_id turn_idx written = record {
  text = c.text;
  model = c.model;
  finish_reason = c.finish_reason;
  usage = c.usage;
  session_id = session_id;
  turn_idx = if written then some turn_idx else none;
  memory_written = written;
}

-- `_run_turn` from the reply of the cortex on; reading the counter enters it into the `defaultdict`.
unfoldable pub conclude :
    World
    → Settings
    → Hub
    → String
    → String
    → String
    → Member
    → List String
    → Reply
    → TurnResult × Hub
unfolding memory_of measure remember metric_ok metric_failed error_text generated_of
conclude w settings h prompt session_id person member ids (cortex_error text) =
    let h' = record h { turns = insert session_id (turn_of h.turns session_id) h.turns } in
    (
      down (cortex_down_response settings (error_text text) (some session_id) none),
      measure w settings (metric_failed session_id person member ids text) h',
    )
conclude w settings h prompt session_id person member ids (completion c) =
    let turn_idx = turn_of h.turns session_id in
    let (written, h') =
      remember w h (memory_of w h.moment session_id prompt person member turn_idx c) in
    (
      generated (generated_of c session_id turn_idx written),
      measure w settings (metric_ok session_id person member ids c turn_idx written) h',
    )

unfoldable pub run_turn :
    World → Settings → Hub → GenerateRequest → String → String → Member → TurnResult × Hub
unfolding retrieve effective_system ids_of conclude
run_turn w settings h req session_id person member =
    let matches = retrieve w h session_id req.prompt member in
    let reply = w.cortex (h.moment + 1) (effective_system w req.system matches) req in
    conclude w settings (record h { moment = h.moment + 2 }) req.prompt session_id person member
      (ids_of matches) reply

-- What a live turn comes to; `os_error` is a session that could not be persisted at first contact.
pub data LiveResult : Type 0 where
  turn : String → TurnResult → LiveResult
  os_error : LiveResult

-- spec, then the caller's system prompt
unfoldable pub layered_system : Member → Option String → String
layered_system member system =
    let caller_system = strip (or_default "" system) in
    if str_truthy caller_system then member.spec ⧺ "\n\n" ⧺ caller_system else member.spec

unfoldable pub effective_temperature : Member → Option String → String
effective_temperature member temperature =
    or_default (or_default "0.7" member.sampling_temperature) temperature

-- What a caller sends to a member: `prompt`, `system`, `max_tokens` and `temperature`.
pub record Ask : Type 0 where
  pub prompt : String
  pub system : Option String
  pub max_tokens : ℤ
  pub temperature : Option String

unfoldable pub request_of : Member → Ask → GenerateRequest
unfolding layered_system effective_temperature
request_of member ask = record {
  prompt = ask.prompt;
  system = some (layered_system member ask.system);
  max_tokens = ask.max_tokens;
  temperature = effective_temperature member ask.temperature;
}

-- if session_id not in _turn_idx_by_session: seed it from the durable copy
unfoldable pub seed : String → ℕ → Dict ℕ → Dict ℕ
seed session_id stored turns =
    if contains session_id turns then turns else insert session_id stored turns

-- hub_sessions.record_turn, unless the cortex was down
unfoldable pub settle : World → String → Member → String → TurnResult × Hub → LiveResult × Hub
settle w person member session_id (down d, h) = (turn session_id (down d), h)
settle w person member session_id (generated g, h) = (
  turn session_id (generated g),
  record h {
    moment = h.moment + 1;
    sessions =
        Store.record_turn (w.session_disk h.moment) h.sessions person member.id
          (turn_of h.turns session_id);
  },
)

-- the turn on the session that `get_or_mint` gave
unfoldable pub on_session :
    World
    → Settings
    → Member
    → String
    → Ask
    → Option (String × ℕ) × Sessions
    → Hub
    → LiveResult × Hub
unfolding seed settle request_of
on_session w settings member person ask (none, sessions) h =
    (os_error, record h { moment = h.moment + 1; sessions = sessions })
on_session w settings member person ask (some (session_id, stored), sessions) h =
    settle w person member session_id (
      run_turn w settings
        (record h {
          moment = h.moment + 1;
          sessions = sessions;
          turns = seed session_id stored h.turns;
        })
        (request_of member ask) session_id person member)

unfoldable pub live_member_turn : World → Settings → Hub → Member → String → Ask → LiveResult × Hub
unfolding on_session
live_member_turn w settings h member person ask =
    on_session w settings member person ask
      (Store.get_or_mint (w.session_disk h.moment) (w.hex h.moment) h.sessions person member.id) h
