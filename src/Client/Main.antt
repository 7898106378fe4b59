-- ===== src/Client/Main.antt =====
-- clients/cli/nexus_cli.py: which command `main` chooses.
use project_nexus.Prelude.{Bool, true, false, Option, none, some, String, ◌==◌, if◌then◌else◌}
use project_nexus.Py.Text.{str_truthy, strip}
use project_nexus.Py.Dict.{Dict}
use project_nexus.Client.Settings.{
  Args, Config, or_default, or_text, given, resolve_base_url, resolve_token, build_headers,
  build_member_headers,
}

-- What `main` does after it has read its flags.
pub data Action : Type 0 where
  unknown_target member_required empty_prompt : Action
  list_family : String → Action
  check_message : String → String → String → Dict String → Action
  chat_once : String → String → String → Dict String → Action
  generate_once : String → String → Dict String → Action
  repl : String → Dict String → String → Option String → Action

-- The prompt: `--prompt`, or what is piped. `none` is a terminal.
unfoldable pub prompt_of : Args → Option String → Option String
prompt_of args piped = elim args.prompt [
  | some prompt ↦ some prompt
  | none ↦ elim piped [ none ↦ none | some content ↦ some (strip content) ]
]

unfoldable pub member_of : Args → Config → Option String
member_of args cfg = elim args.member [
  | none ↦ none
  | some id ↦
      if id == "__member_default__" then some (or_default cfg.default_member "vera") else some id
]

unfoldable pub is_empty_pipe : Args → Option String → Bool
is_empty_pipe args none = false
is_empty_pipe args (some content) = elim args.prompt [
  | none ↦ if str_truthy (strip content) then false else true
  | some prompt ↦ false
]

unfoldable pub choose :
    Args → Option String → String → String → String → Option String → Bool → Action
unfolding prompt_of is_empty_pipe build_headers build_member_headers
choose args piped url token session_id member_id chats =
    if is_empty_pipe args piped then empty_prompt else elim (prompt_of args piped) [
      | none ↦ repl url (build_headers session_id token) token (if chats then member_id else none)
      | some prompt ↦
          if chats
          then chat_once url (or_default member_id "") prompt (build_member_headers token)
          else generate_once url prompt (build_headers session_id token)
    ]

unfoldable pub choose_check :
    Args → Option String → String → String → String → Option String → Option String → Action
unfolding choose given build_member_headers
choose_check args piped url token session_id member_id none =
    choose args piped url token session_id member_id (given member_id)
choose_check args piped url token session_id member_id (some msg_id) =
    if given member_id
    then check_message url (or_default member_id "") msg_id (build_member_headers token)
    else member_required

-- `persisted` is the id that load_session_id returns.
unfoldable pub main : Args → Config → Option String → Option String → String → Action
unfolding resolve_base_url resolve_token member_of choose_check or_text
main args cfg env_token piped persisted =
    let token = resolve_token args env_token cfg in
    let session_id = or_text args.session_id persisted in
    elim (resolve_base_url args cfg) [
      | none ↦ unknown_target
      | some url ↦
          if args.family
          then list_family url
          else choose_check args piped url token session_id (member_of args cfg) args.check_inbox
    ]
