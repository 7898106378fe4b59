-- ===== src/Hub/Tests.antt =====
-- The theorems on the hub at the household of Samples.
use project_nexus.Prelude.{
  ◌≡◌, ◌≢◌, refl, true, false, none, some, List, [], ◌∷◌, ◌++◌, String, any, ◌==◌, ne_of_test,
  if◌then◌else◌,
}
use project_nexus.Py.Text.{◌⧺◌}
use project_nexus.Py.Dict.{contains, lookup, values}
use project_nexus.Hub.Samples.{
  household, household-IsValid, kit_queue, letter, first, second, reply, entry, sessions, kit,
  world, settings, hub, request, ask, hub-IsSound,
}
use project_nexus.Hub.Sessions.Reuse.{Call, get, record_it, call_all, last_recorded, session_reused}
use project_nexus.Hub.Family.State.{
  Message, Family, ok, missing, queued_messages, get_message, enqueue, complete_message,
  set_presence, message, presence, last_asleep_at, init, started, flush, check, subscript,
  is_queued, is_presence,
}
use project_nexus.Hub.Family.Box.{without}
use project_nexus.Hub.Family.Valid.{IsValid}
use project_nexus.Hub.Family.Queue.{IsAnswered, enqueue_arrival, complete_message_answers}
use project_nexus.Hub.Family.Presence.{set_presence_effect}
use project_nexus.Hub.Family.Durable.{restart_keeps}
use project_nexus.Hub.Family.Boot.{Boots, breaks, init_valid}
use project_nexus.Hub.Sessions.Store.{Session, get_or_mint, record_turn, stored_turn, key}
use project_nexus.Hub.Sessions.Store as SessionStore
use project_nexus.Hub.Sessions.Keys.{has_colon, key_injective}
use project_nexus.Hub.Sessions.Laws.{turn_survives_restart}
use project_nexus.Hub.Turn.Types.{Hub}
use project_nexus.Hub.Turn.Pipeline.{run_turn}
use project_nexus.Hub.Turn.Effects.{TurnEffect, asked, run_turn_effect}
use project_nexus.Hub.Inbox.Drain.{drain_inbox}
use project_nexus.Hub.Inbox.Order.{DrainEffect, drain_order}
use project_nexus.Hub.Inbox.Briefing.{build_briefing}
use project_nexus.Hub.Inbox.Endpoints.{
  find_member, post_chat, accepted, Slip, get_inbox_message, slip_of,
}
use project_nexus.Hub.Stm
use project_nexus.Hub.Stm.{StmItem, add_all, newest, buffer_holds_newest}
use project_nexus.Py.Value.{end}
use project_nexus.Hub.Inbox.Chat.{IsTaken, chat-IsTaken}
use project_nexus.Hub.Inbox.Privacy.{IsOwn, inbox-IsOwn, inbox_foreign, briefing_private}
use project_nexus.Hub.Inbox.Reach.{
  IsSound, Request, generate, chat, report, serve_all, serve_all-IsSound,
}

kit_third : get_message household "kit" "msg_3" ≡ ok none
unfolding get_message check subscript contains lookup
kit_third = refl

kit_first : get_message household "kit" "msg_1" ≡ ok (some first)
unfolding get_message check subscript contains lookup
kit_first = refl

enqueue_arrival_example :
    (s' : Family) × (enqueue true "t3" "3" household "kit" letter ≡ ok (s', "msg_" ⧺ "3"))
    × IsValid s'
    × (queued_messages s' "kit"
        ≡ ok ((first ∷ second ∷ []) ++ message ("msg_" ⧺ "3") "t3" "kit" letter ∷ []))
    × ((j : String) → j ≢ "kit" → queued_messages s' j ≡ queued_messages household j)
enqueue_arrival_example =
    enqueue_arrival true "t3" "3" household "kit" letter (first ∷ second ∷ []) household-IsValid
      kit_queue kit_third

complete_message_answers_example :
    (s' : Family) × (complete_message true "t3" household "kit" "msg_1" reply ≡ ok s')
    × IsValid s'
    × (queued_messages s' "kit" ≡ ok (without "msg_1" (first ∷ second ∷ [])))
    × ((out : Message) × (get_message s' "kit" "msg_1" ≡ ok (some out))
        × IsAnswered "t3" reply first out)
    × ((j : String) → j ≢ "kit" → queued_messages s' j ≡ queued_messages household j)
complete_message_answers_example =
    complete_message_answers true "t3" household "kit" "msg_1" reply first (first ∷ second ∷ [])
      household-IsValid kit_queue kit_first

set_presence_effect_example :
    (s' : Family) × (set_presence true "t3" household "kit" "awake" ≡ ok s')
    × IsValid s'
    × (presence s' "kit" ≡ ok "awake")
    × (last_asleep_at s' "kit"
        ≡ (if "awake" == "asleep" then ok (some "t3") else last_asleep_at household "kit"))
    × ((j : String) → j ≢ "kit" → presence s' j ≡ presence household j)
    × ((j : String) → queued_messages s' j ≡ queued_messages household j)
unfolding contains is_presence
set_presence_effect_example =
    set_presence_effect true "t3" household "kit" "awake" household-IsValid refl refl

restart_keeps_example :
    (s' : Family) × (init ("kit" ∷ "nyx" ∷ []) "awake" true (flush true household).disk
      ≡ started s')
    × ((j : String) → queued_messages s' j ≡ queued_messages household j)
    × ((j k : String) → get_message s' j k ≡ get_message household j k)
    × ((j : String) → last_asleep_at s' j ≡ last_asleep_at household j)
    × ((j : String) → any (λ m. m == j) ("kit" ∷ "nyx" ∷ []) ≡ true → presence s' j ≡ ok "awake")
unfolding contains is_presence
restart_keeps_example =
    restart_keeps household ("kit" ∷ "nyx" ∷ []) "awake" household-IsValid refl (λ j. refl) refl

init_valid_example :
    Boots (is_presence "awake") (breaks true missing) (init ("kit" ∷ []) "awake" true missing)
init_valid_example = init_valid ("kit" ∷ []) "awake" true missing tt

abbrev ada : String
ada = "ada"

abbrev kit_id : String
kit_id = "kit"

key_injective_example : (ada ≡ ada) × (kit_id ≡ kit_id)
unfolding has_colon
key_injective_example = key_injective ada ada kit_id kit_id refl refl refl

abbrev later_calls : List Call
later_calls =
    record_it false "bob" "kit" 2 ∷ record_it true "ada" "kit" 9 ∷ get true "9" "bob" "kit" ∷ []

session_reused_example :
    (get_or_mint true "8"
      (call_all later_calls (get_or_mint true "7" sessions "bob" "kit").1)
      "bob"
      "kit").0
    ≡ some ("sess_7", last_recorded (key "bob" "kit") 0 later_calls)
unfolding get_or_mint lookup key
session_reused_example =
    session_reused true true "7" "8" sessions "bob" "kit" "sess_7" 0 later_calls refl

bob_ne_ada : ◌≢◌ {A = String} "bob" "ada"
bob_ne_ada = ne_of_test "bob" "ada" refl

turn_survives_restart_example :
    (get_or_mint true "7"
      (SessionStore.load (record_turn true sessions "ada" "kit" 5).disk)
      "ada"
      "kit").0
    ≡ some ("sess_1", 5)
unfolding lookup key
turn_survives_restart_example = turn_survives_restart true "7" sessions "ada" "kit" 5 entry refl

run_turn_effect_example :
    TurnEffect settings hub "sess_1" "ada" kit
      (asked world hub request "sess_1" kit)
      (run_turn world settings hub request "sess_1" "ada" kit)
run_turn_effect_example = run_turn_effect world settings hub request "sess_1" "ada" kit

drain_order_example :
    DrainEffect kit household (first ∷ second ∷ []) (drain_inbox world settings hub kit)
drain_order_example =
    drain_order world settings hub kit (first ∷ second ∷ []) household-IsValid kit_queue

abbrev requests : List Request
requests = report "kit" "awake" ∷ chat "kit" "ada" ask ∷ generate (some "s") "ada" request ∷ []

serve_all-IsSound_example : IsSound (serve_all world settings (kit ∷ []) hub requests)
serve_all-IsSound_example = serve_all-IsSound world settings (kit ∷ []) hub requests hub-IsSound

chat-IsTaken_example :
    (h' : Hub) × (post_chat world settings (kit ∷ []) hub "kit" "ada" ask
      ≡ (accepted "msg_3" "asleep", h'))
    × IsTaken world hub h' "kit" "ada" ask (first ∷ second ∷ [])
unfolding find_member presence check subscript contains lookup
chat-IsTaken_example =
    chat-IsTaken world settings hub kit "kit" "ada" ask (kit ∷ []) "asleep" (first ∷ second ∷ [])
      refl refl refl household-IsValid kit_queue kit_third

abbrev own_slip : Slip
own_slip = record {
  msg_id = "msg_1";
  member_id = "kit";
  status = "queued";
  queued_at = "t1";
  result = none;
}

inbox-IsOwn_example : IsOwn "ada" (get_message household "kit" "msg_1") own_slip
unfolding get_inbox_message find_member slip_of get_message check subscript contains lookup
inbox-IsOwn_example = inbox-IsOwn (kit ∷ []) hub "kit" "msg_1" "ada" own_slip refl

ada_ne_bob : ◌≢◌ {A = String} "ada" "bob"
ada_ne_bob = ne_of_test "ada" "bob" refl

inbox_foreign_example :
    get_inbox_message (kit ∷ []) hub "kit" "msg_1" "bob"
    ≡ get_inbox_message (kit ∷ []) hub "kit" "msg_3" "bob"
inbox_foreign_example =
    inbox_foreign (kit ∷ []) hub "kit" "msg_1" "msg_3" "bob" first kit_first ada_ne_bob kit_third

abbrev other_words : Family
other_words = record household {
  inbox =
      ("kit", ("msg_1", record first { prompt = "something else" }) ∷ ("msg_2", second) ∷ [])
      ∷ ("nyx", [])
      ∷ [];
}

briefing_private_example :
    build_briefing world 0 household "kit" ≡ build_briefing world 0 other_words "kit"
unfolding last_asleep_at queued_messages presence check subscript contains lookup is_queued values
briefing_private_example = briefing_private world 0 household other_words "kit" refl refl refl

abbrev item : String → StmItem
item text = record { id = text; text = text; embedding = []; metadata = end }

buffer_runs :
    (add_all (item "a" ∷ item "b" ∷ item "c" ∷ []) (Stm.init (some 2) 0)).buffer
    ≡ item "b" ∷ item "c" ∷ []
unfolding add_all Stm.init Stm.add
buffer_runs = refl
