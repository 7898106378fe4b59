-- ===== src/Hub/Inbox/Drain.antt =====
-- `_drain_inbox` of nodes/brainstem_4070/server.py.
use project_nexus.Prelude.{
  ℕ, ◌+◌, Bool, true, false, Option, none, some, List, [], ◌∷◌, String, if◌then◌else◌,
}
use project_nexus.Py.Text.{◌⧺◌, strip, str_truthy}
use project_nexus.Hub.Family.State
use project_nexus.Hub.Family.State.{
  Family, Message, Answer, Outcome, ok, unknown_member, value_error, key_error,
}
use project_nexus.Hub.Turn.Types.{World, Settings, Hub, Member, Briefing, drain}
use project_nexus.Hub.Turn.Pipeline.{
  Ask, Generated, LiveResult, generated, down, turn, os_error, live_member_turn,
}
use project_nexus.Hub.Inbox.Briefing.{build_briefing, spoken_briefing, sink_probe}

-- How a drain ends: the snapshot is through, the cortex was down, or a call raised.
pub data End : Type 0 where
  finished cortex_down raised : End

pub record Drained : Type 0 where
  pub answered : ℕ
  pub ending : End

-- briefing_block + (f"\n\n{msg_system}" if msg_system else "")
unfoldable pub briefed_system : Option String → Option String → Option String
briefed_system none system = system
briefed_system (some block) none = some block
briefed_system (some block) (some system) =
    some (if str_truthy system then block ⧺ "\n\n" ⧺ system else block)

unfoldable pub ask_of : Option String → Message → Ask
unfolding briefed_system
ask_of block msg = record {
  prompt = msg.prompt;
  system = briefed_system block msg.system;
  max_tokens = msg.max_tokens;
  temperature = msg.temperature;
}

unfoldable pub answer_of : String → Generated → Answer
answer_of session_id g = record {
  text = g.text;
  model = g.model;
  session_id = session_id;
  turn_idx = g.turn_idx;
  memory_written = g.memory_written;
}

-- One round of the loop: it goes on, or it ends the loop.
pub data Round : Type 0 where
  go_on : Hub → Round
  stop : End → Hub → Round

is_some : Option String → Bool
is_some none = false
is_some (some block) = true

-- after `complete_message`: the metric record, and on
unfoldable pub file_answer : World → Member → Option String → Message → Hub → Outcome Family → Round
unfolding is_some sink_probe
file_answer w member block msg h (ok family) = go_on (
    sink_probe w
      (drain (record {
        member_id = member.id;
        msg_id = msg.msg_id;
        briefing_attached = is_some block;
        token_name = msg.person;
      }))
      (record h { family = family; moment = h.moment + 1 }))
file_answer w member block msg h unknown_member = stop raised h
file_answer w member block msg h value_error = stop raised h
file_answer w member block msg h key_error = stop raised h

unfoldable pub after_turn : World → Member → Option String → Message → LiveResult × Hub → Round
unfolding answer_of file_answer
after_turn w member block msg (os_error, h) = stop raised h
after_turn w member block msg (turn session_id (down d), h) = stop cortex_down h
after_turn w member block msg (turn session_id (generated g), h) =
    file_answer w member block msg h (
      State.complete_message (w.inbox_disk h.moment) (w.now h.moment) h.family member.id msg.msg_id
        (answer_of session_id g))

unfoldable pub drain_round : World → Settings → Member → Option String → Message → Hub → Round
unfolding ask_of after_turn
drain_round w settings member block msg h =
    after_turn w member block msg
      (live_member_turn w settings h member msg.person (ask_of block msg))

-- answered += 1
unfoldable pub one_more : Drained × Hub → Drained × Hub
one_more (d, h) = (record d { answered = d.answered + 1 }, h)

-- The loop over the snapshot of the queue; the briefing rides on the first turn only.
unfoldable pub drain_loop :
    World → Settings → Member → Option String → List Message → Hub → Drained × Hub
unfolding drain_round one_more
drain_loop w settings member block [] h = (record { answered = 0; ending = finished }, h)
drain_loop w settings member block (msg ∷ rest) h =
    elim (drain_round w settings member block msg h) [
      | go_on h' ↦ one_more (drain_loop w settings member none rest h')
      | stop ending h' ↦ (record { answered = 0; ending = ending }, h')
    ]

unfoldable pub oriented : String → String
oriented block =
    "You just woke up. "
    ⧺ strip block
    ⧺ "\nAnswer the queued messages in order; this context is for orientation, not something to recite."

-- the spoken briefing, or the data digest where there is none
unfoldable pub block_of : World → Briefing → Option String → String
unfolding oriented
block_of w b none =
    oriented ("Wake-up briefing (data digest; every fact traces to hub state):\n" ⧺ w.dumps b)
block_of w b (some spoken) = oriented spoken

-- what follows `_build_briefing`
unfoldable pub briefed_loop :
    World → Settings → Hub → Member → List Message → Outcome Briefing → Drained × Hub
unfolding block_of spoken_briefing
briefed_loop w settings h member q (ok b) =
    let (spoken, h') = spoken_briefing w settings (record h { moment = h.moment + 1 }) b in
    drain_loop w settings member (some (block_of w b spoken)) q h'
briefed_loop w settings h member q unknown_member = (record { answered = 0; ending = raised }, h)
briefed_loop w settings h member q value_error = (record { answered = 0; ending = raised }, h)
briefed_loop w settings h member q key_error = (record { answered = 0; ending = raised }, h)

-- The drain over the snapshot `queued_now`, with the briefing if the member takes it.
unfoldable pub drain_snapshot :
    World → Settings → Hub → Member → Outcome (List Message) → Drained × Hub
unfolding briefed_loop
drain_snapshot w settings h member (ok []) = drain_loop w settings member none [] h
drain_snapshot w settings h member (ok (m ∷ ms)) =
    if member.briefing_on_wake
    then briefed_loop w settings h member (m ∷ ms) (build_briefing w h.moment h.family member.id)
    else drain_loop w settings member none (m ∷ ms) h
drain_snapshot w settings h member unknown_member = (record { answered = 0; ending = raised }, h)
drain_snapshot w settings h member value_error = (record { answered = 0; ending = raised }, h)
drain_snapshot w settings h member key_error = (record { answered = 0; ending = raised }, h)

unfoldable pub drain_inbox : World → Settings → Hub → Member → Drained × Hub
unfolding drain_snapshot
drain_inbox w settings h member =
    drain_snapshot w settings h member (State.queued_messages h.family member.id)
