-- ===== src/Client/Tests.antt =====
-- The command line client at concrete answers of the hub.
use project_nexus.Prelude.{ℕ, ◌+◌, ◌≡◌, refl, false, none, some, List, [], ◌∷◌, ltb, if◌then◌else◌}
use project_nexus.Prelude.Int.{pos}
use project_nexus.Client.Settings.{Args, Config, resolve_base_url, build_member_headers}
use project_nexus.Client.Calls.{
  response, http_error, Payload, Message, call_member_chat, call_inbox_status, member_reply,
}
use project_nexus.Py.Dict.{lookup, insert}
use project_nexus.Py.Text.{strip, starts_with}
use project_nexus.Client.Errors.{HttpError, chat_error}
use project_nexus.Client.Retry.{call_member_with_retry, wait_seconds}
use project_nexus.Client.Poll.{poll_inbox}
use project_nexus.Client.Run.{Net, Options, exited, run_member_once, run_check_inbox, chat_call}
use project_nexus.Client.Main.{main, empty_prompt, unknown_target}
use project_nexus.Client.Settings.{build_headers}
use project_nexus.Client.Repl.{Moment, run_repl}
use project_nexus.Client.Exits.{Advances, Exits, IsPoll, poll_inbox-IsPoll}
use project_nexus.Client.Run.{inbox_of}
use project_nexus.Prelude.{arith}
use project_nexus.Client.Poll.{Inbox}
use project_nexus.Client.Bounded.{Found, call_member_with_retry-IsRun}

abbrev loading : HttpError
loading = record {
  code = 503;
  reason = some "Service Unavailable";
  error_body = some (record {
    message = some "vera is waking";
    detail = none;
    error = some "member_loading";
    retry_after_seconds = some (pos 90);
  });
  retry_after_header = some (pos 15);
}

abbrev hello : Payload
hello = record {
  text = some "hello";
  model = none;
  finish_reason = some "stop";
  completion_tokens = some 3;
  prompt_tokens = none;
  member_id = some "vera";
  display_name = none;
  msg_id = none;
  presence = none;
  status_url = none;
}

abbrev waiting : Message
waiting = record { status = some "queued"; result_text = none }

abbrev answered : Message
answered = record { status = some "answered"; result_text = some "good morning" }

-- the member is up at the third request; the message is answered at the third look at the inbox
abbrev net : Net
net = record {
  post = λ k req. if ltb k 2 then http_error loading else response 200 hello;
  inbox = λ k req. response 200 (if ltb k 2 then waiting else answered);
  elapsed = λ k. k + 1;
}

abbrev options : Options
options = record {
  base_url = "http://hub:5001";
  headers = build_member_headers "";
  system = none;
  max_tokens = 512;
  temperature = "0.7";
  temperature_explicit = false;
  poll_interval = 5;
  max_wait = 300;
}

member_runs : run_member_once net options "vera" "hi" ≡ exited 0 ("hello" ∷ [])
unfolding run_member_once call_member_with_retry chat_call call_member_chat chat_error member_reply
member_runs = refl

waits_run : ◌≡◌ {A = List ℕ} (wait_seconds (pos 90) 60 ∷ wait_seconds (pos 0) 30 ∷ []) (60 ∷ 5 ∷ [])
unfolding wait_seconds
waits_run = refl

check_runs : run_check_inbox net options "vera" "m1" ≡ exited 0 ("good morning" ∷ [])
unfolding run_check_inbox call_inbox_status poll_inbox
check_runs = refl

call_member_with_retry-IsRun_example :
    Found
      (chat_call net options "vera" "hi")
      0
      (call_member_with_retry (chat_call net options "vera" "hi"))
call_member_with_retry-IsRun_example =
    call_member_with_retry-IsRun (chat_call net options "vera" "hi")

-- the flag wins over the config, and its trailing slashes go
abbrev config : Config
config = record {
  targets = some (("lan", "http://lan:5001/") ∷ []);
  default_target = some "lan";
  auth_token = none;
  default_member = none;
}

abbrev no_flags : Args
no_flags = record {
  url = none;
  target = none;
  token = none;
  session_id = none;
  new_session = false;
  family = false;
  member = none;
  check_inbox = none;
  prompt = none;
}

lan_runs : resolve_base_url no_flags config ≡ some "http://lan:5001"
unfolding resolve_base_url lookup
lan_runs = refl

url_runs :
    resolve_base_url (record no_flags { url = some "http://hub//" }) config ≡ some "http://hub"
unfolding resolve_base_url
url_runs = refl

unknown_runs :
    main (record no_flags { target = some "moon" }) config none none "s1" ≡ unknown_target
unfolding main lookup
unknown_runs = refl

blank_pipe_runs : main no_flags config none (some " \n") "s1" ≡ empty_prompt
unfolding main lookup strip
blank_pipe_runs = refl

-- A turn with a member, the switch to the legacy path, the session's id, and /exit.
abbrev moment : Moment
moment = record { net = net; fresh = "s2"; roster = none }

repl_runs :
    run_repl "t" "s1" options
      ((moment, " hi ")
        ∷ (moment, "/legacy")
        ∷ (moment, "/new")
        ∷ (moment, "/session")
        ∷ (moment, "/exit")
        ∷ [])
      (record { current_headers = build_headers "s1" "t"; member_id = some "vera" })
    ≡ exited 0 (
        "vera > hello" ∷ "  switched back to legacy /generate" ∷ "  new session: s2"
        ∷ "  session: s2" ∷ [])
unfolding run_repl strip starts_with call_member_with_retry chat_call call_member_chat chat_error
    member_reply lookup insert
repl_runs = refl

net-Advances : Advances net.elapsed
net-Advances k = omega arith

abbrev vera_inbox : Inbox
vera_inbox = inbox_of net options 0 "vera" "m1"

poll_inbox-IsPoll_example :
    (last : ℕ) × IsPoll vera_inbox 5 300 0 last (poll_inbox vera_inbox 5 300)
poll_inbox-IsPoll_example = poll_inbox-IsPoll vera_inbox 5 300 net-Advances
