-- ===== src/Client/Legacy.antt =====
-- clients/cli/nexus_cli.py: the two header sets of `run_repl` are never confused.
use Prim.Native.String.{slice}
use project_nexus.Prelude.{◌≡◌, refl, not, ◌||◌, Option, none, some, String, ◌==◌, if_both}
use project_nexus.Py.Text.{str_truthy, strip, starts_with, str_len}
use project_nexus.Client.Settings.{build_headers, given}
use project_nexus.Client.Calls.{Called, returned, raised, GenerateReply, MemberReply, ok, queued}
use project_nexus.Client.Retry.{Turn}
use project_nexus.Client.Run.{Options, Ended, exited, uncaught, never}
use project_nexus.Client.Repl.{
  Prompting, Moment, Step, go_on, leave, after_drain, member_said, member_ends, legacy_said,
  chat_line, member_line, roster_line, repl_line,
}

-- The headers of the legacy path are those of some session with the token of this run.
abbrev pub IsLegacy : String → Step → Type 0
IsLegacy token (go_on s out) = (sid : String) × (s.current_headers ≡ build_headers sid token)
IsLegacy token (leave e) = Unit

module _ (token : String) (s : Prompting) where
  -- what the step has to carry over
  abbrev Kept : Type 0
  Kept = (sid : String) × (s.current_headers ≡ build_headers sid token)

  after_drain-IsLegacy : (e : Ended) → Kept → IsLegacy token (after_drain s e)
  unfolding after_drain
  after_drain-IsLegacy (exited code lines) h = h
  after_drain-IsLegacy (uncaught e) h = tt
  after_drain-IsLegacy never h = tt

  member_said-IsLegacy :
      (at : Moment) (o : Options) (id : String) (c : Called MemberReply)
      → Kept
      → IsLegacy token (member_said at o s id c)
  unfolding member_said
  member_said-IsLegacy at o id (raised e) h = h
  member_said-IsLegacy at o id (returned (ok i name r)) h = h
  member_said-IsLegacy at o id (returned (queued m i p u)) h = after_drain-IsLegacy _ h

  member_ends-IsLegacy :
      (at : Moment) (o : Options) (id : String) (t : Option (Turn MemberReply))
      → Kept
      → IsLegacy token (member_ends at o s id t)
  unfolding member_ends
  member_ends-IsLegacy at o id none h = tt
  member_ends-IsLegacy at o id (some t) h = member_said-IsLegacy at o id t.outcome h

  legacy_said-IsLegacy : (c : Called GenerateReply) → Kept → IsLegacy token (legacy_said s c)
  unfolding legacy_said
  legacy_said-IsLegacy (raised e) h = h
  legacy_said-IsLegacy (returned r) h = h

  roster_line-IsLegacy : (roster : Option String) → Kept → IsLegacy token (roster_line s roster)
  unfolding roster_line
  roster_line-IsLegacy none h = h
  roster_line-IsLegacy (some roster) h = h

-- Whatever is typed and answered, a line of the interactive client leaves the legacy headers those of
-- some session id with this run's token, also in turns with a member, which have other headers.
pub repl_line-IsLegacy :
    (token session_id : String) (at : Moment) (o : Options) (s : Prompting) (line sid : String)
    → s.current_headers ≡ build_headers sid token
    → IsLegacy token (repl_line token session_id at o s line)
unfolding repl_line chat_line member_line
repl_line-IsLegacy token session_id at o s line sid e =
    let P = IsLegacy token in
    let h : Kept token s = (sid, e) in
    if_both P (not (str_truthy line)) h (
      if_both P (line == "/exit" || line == "/quit") tt (
        if_both P (line == "/help") h (
          if_both P (line == "/session") h (
            if_both P (line == "/target") h (
              if_both P (line == "/new") (at.fresh, refl)
                (if_both P (line == "/family") (roster_line-IsLegacy token s at.roster h) (
                  if_both P (starts_with "/member" line)
                    (if_both P (str_truthy (strip (slice line 7 (str_len line)))) h h)
                    (if_both P (line == "/legacy") h (
                      if_both P (given s.member_id) (member_ends-IsLegacy token s at _ _ _ h)
                        (legacy_said-IsLegacy token s _ h))))))))))
