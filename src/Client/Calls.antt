-- ===== src/Client/Calls.antt =====
-- clients/cli/nexus_cli.py: the round trips, and what an answer or a failure becomes. What `urlopen`
-- does with a request is a parameter. The measured times of a result are left out, and ids are
-- texts without quotes, so that their `repr` only adds quotes.
use project_nexus.Prelude.{ℕ, Option, List, [], String, nat_eq, if◌then◌else◌}
use project_nexus.Py.Text.{◌⧺◌}
use project_nexus.Py.Dict.{Dict}
use project_nexus.Client.Errors.{
  HttpError, CallError, brainstem_error, generate_error, chat_error, inbox_error, family_error,
}
use project_nexus.Client.Requests.{Request, get_request}
use project_nexus.Client.Settings.{or_default}

-- The fields of a JSON answer that the client reads.
pub record Payload : Type 0 where
  pub text : Option String
  pub model : Option String
  pub finish_reason : Option String
  pub completion_tokens : Option ℕ
  pub prompt_tokens : Option ℕ
  pub member_id : Option String
  pub display_name : Option String
  pub msg_id : Option String
  pub presence : Option String
  pub status_url : Option String

-- The queued message that `inbox/{msg_id}` shows.
pub record Message : Type 0 where
  pub status : Option String
  pub result_text : Option String

-- What `urlopen` and `json.loads` do with a request.
pub data Answer (A : Type 0) : Type 0 where
  response : ℕ → A → Answer A
  http_error : HttpError → Answer A
  unreachable : String → Answer A
  os_error : String → Answer A
  not_json : String → Answer A

pub data Called (A : Type 0) : Type 0 where
  returned : A → Called A
  raised : CallError → Called A

pub record GenerateReply : Type 0 where
  pub text : String
  pub model : String
  pub finish_reason : Option String
  pub completion_tokens : ℕ
  pub prompt_tokens : ℕ

pub data MemberReply : Type 0 where
  ok : String → String → GenerateReply → MemberReply
  queued : Option String → String → Option String → Option String → MemberReply

-- The `except` clauses of a round trip, with its advice for a hub that cannot be reached.
unfoldable pub settle :
    {A B : Type 0} → String → String → (HttpError → CallError) → (ℕ → A → B) → Answer A → Called B
settle url advice on_http use_answer (response status a) = returned (use_answer status a)
settle url advice on_http use_answer (http_error exc) = raised (on_http exc)
settle url advice on_http use_answer (unreachable reason) =
    raised (brainstem_error ("could not reach brainstem at " ⧺ url ⧺ " (" ⧺ reason ⧺ ")." ⧺ advice))
settle url advice on_http use_answer (os_error e) =
    raised (brainstem_error ("request to " ⧺ url ⧺ " failed: " ⧺ e))
settle url advice on_http use_answer (not_json e) =
    raised (brainstem_error ("brainstem returned non-JSON from " ⧺ url ⧺ ": " ⧺ e))

abbrev pub check_target : String
check_target = " check the target address and that the 4070 stack is up."

unfoldable pub generate_reply : ℕ → Payload → GenerateReply
generate_reply status p = record {
  text = or_default p.text "";
  model = or_default p.model "unknown";
  finish_reason = p.finish_reason;
  completion_tokens = or_default p.completion_tokens 0;
  prompt_tokens = or_default p.prompt_tokens 0;
}

unfoldable pub member_reply : String → ℕ → Payload → MemberReply
unfolding generate_reply
member_reply member_id status p =
    if nat_eq status 202
    then queued p.msg_id (or_default p.member_id member_id) p.presence p.status_url
    else ok (or_default p.member_id member_id) (or_default p.display_name member_id)
        (generate_reply status p)

unfoldable pub call_generate : (Request → Answer Payload) → Request → Called GenerateReply
unfolding settle
call_generate urlopen req = settle req.url check_target generate_error generate_reply (urlopen req)

unfoldable pub call_member_chat : (Request → Answer Payload) → String → Request → Called MemberReply
unfolding settle
call_member_chat urlopen member_id req =
    settle req.url check_target (chat_error member_id) (member_reply member_id) (urlopen req)

abbrev pub as_is : {A : Type 0} → ℕ → A → A
as_is status a = a

unfoldable pub call_inbox_status :
    (Request → Answer Message) → String → String → String → Dict String → Called Message
unfolding settle get_request
call_inbox_status urlopen base_url member_id msg_id headers =
    let req = get_request (base_url ⧺ "/members/" ⧺ member_id ⧺ "/inbox/" ⧺ msg_id) headers in
    settle req.url "" (inbox_error member_id msg_id) as_is (urlopen req)

-- `none` is an answer without "members".
unfoldable pub call_family :
    {M : Type 0} → (Request → Answer (Option (List M))) → String → Called (List M)
unfolding settle get_request
call_family urlopen base_url =
    let req = get_request (base_url ⧺ "/family") [] in
    settle req.url check_target family_error (λ status members. or_default members []) (urlopen req)
