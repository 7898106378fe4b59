-- ===== src/Client/Repl.antt =====
-- clients/cli/nexus_cli.py: `run_repl`, one line at a time. The help text, the footers and what goes to
-- stderr are left out.
use Prim.Native.String.{slice}
use project_nexus.Prelude.{
  not, ◌||◌, Option, none, some, List, [], ◌∷◌, ◌++◌, String, ◌==◌, if◌then◌else◌,
}
use project_nexus.Py.Text.{◌⧺◌, str_truthy, strip, starts_with, str_len}
use project_nexus.Py.Dict.{Dict, lookup}
use project_nexus.Client.Settings.{or_default, or_text, given, build_headers, build_member_headers}
use project_nexus.Client.Requests.{generate_request}
use project_nexus.Client.Calls.{
  Called, returned, raised, GenerateReply, MemberReply, ok, queued, call_generate,
}
use project_nexus.Client.Retry.{Turn, call_member_with_retry, call_with_cortex_down_retry}
use project_nexus.Client.Run.{
  Net, Options, Ended, exited, uncaught, never, drain_and_print, chat_call,
}

-- What changes between two lines: the headers of the legacy path, and the member.
pub record Prompting : Type 0 where
  pub current_headers : Dict String
  pub member_id : Option String

-- What a line meets: the hub's answers, the id that load_session_id mints, and the text of the roster,
-- where the hub gave it.
pub record Moment : Type 0 where
  pub net : Net
  pub fresh : String
  pub roster : Option String

-- After a line the REPL goes on with what it printed, or it ends.
pub data Step : Type 0 where
  go_on : Prompting → List String → Step
  leave : Ended → Step

-- `_drain_and_print` stands in no try.
unfoldable pub after_drain : Prompting → Ended → Step
after_drain s (exited code lines) = go_on s lines
after_drain s (uncaught e) = leave (uncaught e)
after_drain s never = leave never

unfoldable pub member_said : Moment → Options → Prompting → String → Called MemberReply → Step
unfolding after_drain
member_said at o s member_id (raised e) = go_on s []
member_said at o s member_id (returned (ok id name r)) = go_on s ((name ⧺ " > " ⧺ r.text) ∷ [])
member_said at o s member_id (returned (queued msg_id id presence status_url)) =
    after_drain s (drain_and_print at.net o member_id (or_default msg_id "None"))

unfoldable pub member_ends :
    Moment → Options → Prompting → String → Option (Turn MemberReply) → Step
unfolding member_said
member_ends at o s member_id none = leave never
member_ends at o s member_id (some t) = member_said at o s member_id t.outcome

unfoldable pub legacy_said : Prompting → Called GenerateReply → Step
legacy_said s (raised e) = go_on s []
legacy_said s (returned r) = go_on s (("nexus > " ⧺ r.text) ∷ [])

abbrev pub with_headers : Dict String → Options → Options
with_headers headers o = record o { headers = headers }

unfoldable pub chat_line : String → Moment → Options → Prompting → String → Step
unfolding member_ends legacy_said build_member_headers given
chat_line token at o s line =
    let member_id = or_default s.member_id "" in
    let member_options = with_headers (build_member_headers token) o in
    let req =
      generate_request o.base_url line s.current_headers o.system o.max_tokens o.temperature in
    if given s.member_id
    then member_ends at member_options s member_id
        (call_member_with_retry (chat_call at.net member_options member_id line))
    else legacy_said s
        (call_with_cortex_down_retry (λ k. call_generate (at.net.post k) req)).outcome

-- "/member ID" and "/member"
unfoldable pub member_line : Prompting → String → Step
unfolding or_text
member_line s rest =
    if str_truthy rest
    then go_on (record s { member_id = some rest })
        (("  now chatting with member '" ⧺ rest ⧺ "'") ∷ [])
    else go_on s (("  current member: " ⧺ or_text s.member_id "(none, legacy /generate mode)") ∷ [])

unfoldable pub roster_line : Prompting → Option String → Step
roster_line s none = go_on s []
roster_line s (some roster) = go_on s (roster ∷ [])

-- `line` is stripped.
unfoldable pub repl_line : String → String → Moment → Options → Prompting → String → Step
unfolding chat_line member_line roster_line build_headers
repl_line token session_id at o s line =
    if not (str_truthy line)
    then go_on s []
    else if line == "/exit" || line == "/quit"
    then leave (exited 0 [])
    else if line == "/help"
    then go_on s []
    else if line == "/session"
    then go_on s
        (("  session: " ⧺ or_default (lookup "X-Session-Id" s.current_headers) session_id) ∷ [])
    else if line == "/target"
    then go_on s (("  target: " ⧺ o.base_url) ∷ [])
    else if line == "/new"
    then go_on (record s { current_headers = build_headers at.fresh token })
        (("  new session: " ⧺ at.fresh) ∷ [])
    else if line == "/family"
    then roster_line s at.roster
    else if starts_with "/member" line
    then member_line s (strip (slice line 7 (str_len line)))
    else if line == "/legacy"
    then go_on (record s { member_id = none }) ("  switched back to legacy /generate" ∷ [])
    else chat_line token at o s line

abbrev pub print_before : List String → Ended → Ended
print_before out (exited code lines) = exited code (out ++ lines)
print_before out (uncaught e) = uncaught e
print_before out never = never

unfoldable pub after_line : Step → (Prompting → Ended) → Ended
after_line (go_on s out) rest = print_before out (rest s)
after_line (leave e) rest = e

-- The lines that are typed, until the end of the input.
unfoldable pub run_repl : String → String → Options → List (Moment × String) → Prompting → Ended
unfolding repl_line after_line
run_repl token session_id o [] s = exited 0 []
run_repl token session_id o ((at, line) ∷ lines) s =
    after_line (repl_line token session_id at o s (strip line)) (run_repl token session_id o lines)
