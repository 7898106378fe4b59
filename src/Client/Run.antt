-- ===== src/Client/Run.antt =====
-- clients/cli/nexus_cli.py: the commands that run once. What they print on stderr and the footers
-- are left out.
use project_nexus.Prelude.{ℕ, ◌+◌, Bool, Option, none, some, List, [], ◌∷◌, String, if◌then◌else◌}
use project_nexus.Py.Dict.{Dict}
use project_nexus.Client.Settings.{or_default}
use project_nexus.Client.Requests.{Request, chat_request, generate_request}
use project_nexus.Client.Calls.{
  Answer, Payload, Message, Called, returned, raised, GenerateReply, MemberReply, ok, queued,
  call_generate, call_member_chat, call_inbox_status, call_family,
}
use project_nexus.Client.Errors.{CallError}
use project_nexus.Client.Retry.{Turn, call_member_with_retry, call_with_cortex_down_retry}
use project_nexus.Client.Poll.{
  Inbox, Polled, answer, still_queued, failed, out_of_fuel, poll_inbox, is_answered,
}

-- The hub's answer to the `k`-th request of a kind, and the time since the polling began.
pub record Net : Type 0 where
  pub post : ℕ → Request → Answer Payload
  pub inbox : ℕ → Request → Answer Message
  pub elapsed : ℕ → ℕ

-- The flags of a chat, and the hub's address.
pub record Options : Type 0 where
  pub base_url : String
  pub headers : Dict String
  pub system : Option String
  pub max_tokens : ℕ
  pub temperature : String
  pub temperature_explicit : Bool
  pub poll_interval : ℕ
  pub max_wait : ℕ

-- The exit code with what stdout got, or an exception that nothing catches; `never` is no way
-- that the program ends.
pub data Ended : Type 0 where
  exited : ℕ → List String → Ended
  uncaught : CallError → Ended
  never : Ended

unfoldable pub print_reply : Called GenerateReply → Ended
print_reply (returned r) = exited 0 (r.text ∷ [])
print_reply (raised e) = exited 1 []

unfoldable pub run_once : Net → Options → String → Ended
unfolding print_reply
run_once net o prompt =
    let req = generate_request o.base_url prompt o.headers o.system o.max_tokens o.temperature in
    print_reply (call_with_cortex_down_retry (λ k. call_generate (net.post k) req)).outcome

-- What the poll's end becomes where its exceptions are caught, and where they are not.
unfoldable pub print_message : Message → Ended
print_message m = exited 0 (or_default m.result_text "" ∷ [])

unfoldable pub drained : Polled → Ended
unfolding print_message
drained (answer m) = print_message m
drained still_queued = exited 0 []
drained (failed e) = uncaught e
drained out_of_fuel = never

unfoldable pub caught : Ended → Ended
caught (uncaught e) = exited 1 []
caught (exited code lines) = exited code lines
caught never = never

-- The polled message, from the `skip`-th request for it on.
abbrev pub inbox_of : Net → Options → ℕ → String → String → Inbox
inbox_of net o skip member_id msg_id = record {
  status_of = λ k. call_inbox_status (net.inbox (skip + k)) o.base_url member_id msg_id o.headers;
  elapsed = net.elapsed;
}

unfoldable pub drain_and_print : Net → Options → String → String → Ended
unfolding drained
drain_and_print net o member_id msg_id =
    drained (poll_inbox (inbox_of net o 0 member_id msg_id) o.poll_interval o.max_wait).ending

-- A 202 without an id polls the id None.
unfoldable pub after_chat : Net → Options → String → Called MemberReply → Ended
unfolding drain_and_print
after_chat net o member_id (raised e) = exited 1 []
after_chat net o member_id (returned (ok id name r)) = exited 0 (r.text ∷ [])
after_chat net o member_id (returned (queued msg_id id presence status_url)) =
    drain_and_print net o member_id (or_default msg_id "None")

unfoldable pub chat_call : Net → Options → String → String → ℕ → Called MemberReply
chat_call net o member_id prompt k = call_member_chat (net.post k) member_id (
    chat_request o.base_url member_id prompt o.headers o.system o.max_tokens
      (if o.temperature_explicit then some o.temperature else none))

unfoldable pub after_turn : Net → Options → String → Option (Turn MemberReply) → Ended
unfolding after_chat
after_turn net o member_id none = never
after_turn net o member_id (some t) = after_chat net o member_id t.outcome

unfoldable pub run_member_once : Net → Options → String → String → Ended
unfolding after_turn
run_member_once net o member_id prompt =
    after_turn net o member_id (call_member_with_retry (chat_call net o member_id prompt))

unfoldable pub after_first : Net → Options → String → String → Called Message → Ended
unfolding print_message caught drained
after_first net o member_id msg_id (raised e) = exited 1 []
after_first net o member_id msg_id (returned m) =
    if is_answered m
    then print_message m
    else caught
        (drained (poll_inbox (inbox_of net o 1 member_id msg_id) o.poll_interval o.max_wait).ending)

unfoldable pub run_check_inbox : Net → Options → String → String → Ended
unfolding after_first
run_check_inbox net o member_id msg_id =
    after_first net o member_id msg_id
      (call_inbox_status (net.inbox 0) o.base_url member_id msg_id o.headers)

-- How the roster is laid out is a parameter.
unfoldable pub run_family :
    {M : Type 0} → (List M → String) → (Request → Answer (Option (List M))) → String → Ended
run_family format urlopen base_url = elim (call_family urlopen base_url) [
  | returned members ↦ exited 0 (format members ∷ [])
  | raised e ↦ exited 1 []
]
