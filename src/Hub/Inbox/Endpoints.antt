-- ===== src/Hub/Inbox/Endpoints.antt =====
-- The member endpoints of nodes/brainstem_4070/server.py, behind `require_token`: `person` is the name
-- of the token that the request was authenticated with.
use project_nexus.Prelude.{
  ℕ, ◌+◌, not, ◌||◌, Option, none, some, List, [], ◌∷◌, String, ◌==◌, if◌then◌else◌,
}
use project_nexus.Py.Text.{strip, str_truthy}
use project_nexus.Hub.Family.State
use project_nexus.Hub.Family.State.{
  Family, Message, Answer, Letter, Outcome, ok, unknown_member, value_error, key_error,
}
use project_nexus.Hub.Turn.Types.{World, Settings, Hub, Member, GenerateRequest}
use project_nexus.Hub.Turn.Down.{Down}
use project_nexus.Hub.Turn.Pipeline.{
  Ask, Generated, TurnResult, LiveResult, generated, down, turn, os_error, live_member_turn,
  run_turn,
}
use project_nexus.Hub.Inbox.Drain.{finished, cortex_down, raised, Drained, drain_inbox}

-- What the endpoints answer. `server_error` is an exception that no handler catches.
pub data Response (A : Type 0) : Type 0 where
  success : A → Response A
  accepted : String → String → Response A
  not_found bad_request server_error : Response A
  unavailable : Down → Response A
  loading : ℕ → Response A

-- family_registry.get(member_id), where `none` is its `KeyError`
unfoldable pub find_member : List Member → String → Option Member
find_member [] member_id = none
find_member (m ∷ ms) member_id = if m.id == member_id then some m else find_member ms member_id

-- `_resolve_session_id`: `none` is the 400
unfoldable pub resolve_session_id : Option String → Option String
resolve_session_id none = none
resolve_session_id (some value) =
    if not (str_truthy value) || not (str_truthy (strip value)) then none else some (strip value)

unfoldable pub generate_response : TurnResult × Hub → Response Generated × Hub
generate_response (generated g, h) = (success g, h)
generate_response (down d, h) = (unavailable d, h)

-- POST /generate, which runs as the registry's first member
unfoldable pub post_generate :
    World
    → Settings
    → List Member
    → Hub
    → Option String
    → String
    → GenerateRequest
    → Response Generated × Hub
unfolding resolve_session_id generate_response
post_generate w settings [] h header person req = (server_error, h)
post_generate w settings (m ∷ ms) h header person req = elim (resolve_session_id header) [
  | none ↦ (bad_request, h)
  | some session_id ↦ generate_response (run_turn w settings h req session_id person m)
]

unfoldable pub chat_response : LiveResult × Hub → Response Generated × Hub
chat_response (os_error, h) = (server_error, h)
chat_response (turn session_id (down d), h) = (unavailable d, h)
chat_response (turn session_id (generated g), h) = (success g, h)

unfoldable pub queue_response : Hub → String → Outcome (Family × String) → Response Generated × Hub
queue_response h presence (ok (family, msg_id)) =
    (accepted msg_id presence, record h { family = family; moment = h.moment + 1 })
queue_response h presence unknown_member = (server_error, h)
queue_response h presence value_error = (server_error, h)
queue_response h presence key_error = (server_error, h)

unfoldable pub letter_of : String → Ask → Letter
letter_of person ask = record {
  prompt = ask.prompt;
  system = ask.system;
  person = person;
  max_tokens = ask.max_tokens;
  temperature = ask.temperature;
}

-- the three ways to take a message, by the member's presence
unfoldable pub by_presence :
    World
    → Settings
    → Hub
    → Member
    → String
    → String
    → Ask
    → Outcome String
    → Response Generated × Hub
unfolding chat_response queue_response letter_of
by_presence w settings h member member_id person ask (ok presence) =
    if presence == "waking"
    then (loading settings.member_loading_retry, h)
    else if presence == "asleep" || presence == "busy"
    then queue_response h presence (
        State.enqueue (w.inbox_disk h.moment) (w.now h.moment) (w.hex h.moment) h.family member_id
          (letter_of person ask))
    else chat_response (live_member_turn w settings h member person ask)
by_presence w settings h member member_id person ask unknown_member = (server_error, h)
by_presence w settings h member member_id person ask value_error = (server_error, h)
by_presence w settings h member member_id person ask key_error = (server_error, h)

-- POST /members/{member_id}/chat
unfoldable pub post_chat :
    World → Settings → List Member → Hub → String → String → Ask → Response Generated × Hub
unfolding find_member by_presence
post_chat w settings members h member_id person ask = elim (find_member members member_id) [
  | none ↦ (not_found, h)
  | some member ↦
      by_presence w settings h member member_id person ask (State.presence h.family member_id)
]

unfoldable pub drain_response : Drained × Hub → Response ℕ × Hub
drain_response (d, h) = elim d.ending [
  | raised ↦ (server_error, h)
  | finished ↦ (success d.answered, h)
  | cortex_down ↦ (success d.answered, h)
]

-- after `set_presence`
unfoldable pub after_report :
    World → Settings → Hub → Member → String → Outcome Family → Response ℕ × Hub
unfolding drain_response
after_report w settings h member state (ok family) =
    let h' = record h { family = family; moment = h.moment + 1 } in
    if state == "awake" then drain_response (drain_inbox w settings h' member) else (success 0, h')
after_report w settings h member state value_error = (bad_request, h)
after_report w settings h member state unknown_member = (server_error, h)
after_report w settings h member state key_error = (server_error, h)

-- POST /members/{member_id}/presence; the success is the number of messages that were answered
unfoldable pub post_presence :
    World → Settings → List Member → Hub → String → String → Response ℕ × Hub
unfolding find_member after_report
post_presence w settings members h member_id state = elim (find_member members member_id) [
  | none ↦ (not_found, h)
  | some member ↦
      after_report w settings h member state
        (State.set_presence (w.inbox_disk h.moment) (w.now h.moment) h.family member_id state)
]

-- The body of a reply to GET /members/{member_id}/inbox/{msg_id}.
pub record Slip : Type 0 where
  pub msg_id : String
  pub member_id : String
  pub status : String
  pub queued_at : String
  pub result : Option Answer

unfoldable pub slip_of : String → Outcome (Option Message) → Response Slip
slip_of person (ok none) = not_found
slip_of person (ok (some m)) =
    if m.person == person
    then success (record {
      msg_id = m.msg_id;
      member_id = m.member_id;
      status = m.status;
      queued_at = m.queued_at;
      result = m.result;
    })
    else not_found
slip_of person unknown_member = server_error
slip_of person value_error = server_error
slip_of person key_error = server_error

unfoldable pub get_inbox_message : List Member → Hub → String → String → String → Response Slip
unfolding find_member slip_of
get_inbox_message members h member_id msg_id person = elim (find_member members member_id) [
  | none ↦ not_found
  | some member ↦ slip_of person (State.get_message h.family member_id msg_id)
]
