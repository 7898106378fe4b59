-- ===== src/Hub/Inbox/Numbering.antt =====
-- The drain keeps the turn counters in step with the rows.
use project_nexus.Prelude.{
  ◌+◌, Option, none, some, List, [], ◌∷◌, String, Option-cases, if_both, inl, inr,
}
use project_nexus.Hub.Family.State.{
  Family, Message, Outcome, ok, unknown_member, value_error, key_error, complete_message,
  queued_messages,
}
use project_nexus.Hub.Turn.Types.{
  World, Settings, Hub, Member, Briefing, Reply, completion, cortex_error,
}
use project_nexus.Hub.Turn.Counter.{Numbered, live_member_turn-Numbered}
use project_nexus.Hub.Turn.Pipeline.{LiveResult, generated, down, turn, os_error}
use project_nexus.Hub.Inbox.Briefing.{build_briefing, spoken_briefing, spoken_from}
use project_nexus.Hub.Inbox.Drain.{
  Drained, Round, go_on, stop, ask_of, answer_of, file_answer, after_turn, drain_round, drain_loop,
  one_more, briefed_loop, block_of, drain_snapshot, drain_inbox,
}

hub_of : Round → Hub
hub_of (go_on h) = h
hub_of (stop ending h) = h

file-Numbered :
    (w : World) (member : Member) (block : Option String) (msg : Message) (h : Hub)
    (out : Outcome Family)
    → Numbered h
    → Numbered (hub_of (file_answer w member block msg h out))
unfolding file_answer hub_of
file-Numbered w member block msg h (ok f) n = n
file-Numbered w member block msg h unknown_member n = n
file-Numbered w member block msg h value_error n = n
file-Numbered w member block msg h key_error n = n

after_turn-Numbered :
    (w : World) (member : Member) (block : Option String) (msg : Message) (r : LiveResult × Hub)
    → Numbered r.1
    → Numbered (hub_of (after_turn w member block msg r))
unfolding after_turn hub_of
after_turn-Numbered w member block msg (os_error, h) n = n
after_turn-Numbered w member block msg (turn sid (down d), h) n = n
after_turn-Numbered w member block msg (turn sid (generated g), h) n =
    file-Numbered w member block msg h
      (complete_message (w.inbox_disk h.moment) (w.now h.moment) h.family member.id msg.msg_id
        (answer_of sid g))
      n

round-Numbered :
    (w : World) (s : Settings) (member : Member) (block : Option String) (msg : Message) (h : Hub)
    → Numbered h
    → Numbered (hub_of (drain_round w s member block msg h))
unfolding drain_round
round-Numbered w s member block msg h n =
    after_turn-Numbered w member block msg _
      (live_member_turn-Numbered w s h member msg.person (ask_of block msg) n)

loop-Numbered :
    (w : World) (s : Settings) (member : Member) (block : Option String) (q : List Message)
    (h : Hub)
    → Numbered h
    → Numbered (drain_loop w s member block q h).1
unfolding drain_loop
loop-Numbered w s member block [] h n = n
loop-Numbered w s member block (msg ∷ rest) h n =
    go (drain_round w s member block msg h) (round-Numbered w s member block msg h n)
      (loop-Numbered w s member none rest)
  where
    go :
        (round : Round)
        → Numbered (hub_of round)
        → ((h' : Hub) → Numbered h' → Numbered (drain_loop w s member none rest h').1)
        → Numbered (
            let r : Drained × Hub = elim round [
              | go_on h' ↦ one_more (drain_loop w s member none rest h')
              | stop ending h' ↦ (record { answered = 0; ending = ending }, h')
            ] in
            r.1)
    go (go_on h') k ih = unfold one_more hub_of in ih h' k
    go (stop ending h') k ih = unfold hub_of in k

spoken-Numbered :
    (w : World) (s : Settings) (h : Hub) (b : Briefing)
    → Numbered h
    → Numbered (spoken_briefing w s h b).1
unfolding spoken_briefing
spoken-Numbered w s h b n = elim (Option-cases s.concierge) [
  | inl e ↦ rw e n
  | inr (c, e) ↦ rw e (from (record h { moment = h.moment + 1 }) _ n)
]
  where
    from : (h : Hub) (reply : Reply) → Numbered h → Numbered (spoken_from w h b reply).1
    from h (cortex_error text) n = n
    from h (completion c) n = n

briefed-Numbered :
    (w : World) (s : Settings) (h : Hub) (member : Member) (q : List Message)
    (out : Outcome Briefing)
    → Numbered h
    → Numbered (briefed_loop w s h member q out).1
unfolding briefed_loop
briefed-Numbered w s h member q (ok b) n =
    let h1 : Hub = record h { moment = h.moment + 1 } in
    loop-Numbered w s member (some (block_of w b (spoken_briefing w s h1 b).0)) q
      (spoken_briefing w s h1 b).1 (spoken-Numbered w s h1 b n)
briefed-Numbered w s h member q unknown_member n = n
briefed-Numbered w s h member q value_error n = n
briefed-Numbered w s h member q key_error n = n

snapshot-Numbered :
    (w : World) (s : Settings) (h : Hub) (member : Member) (out : Outcome (List Message))
    → Numbered h
    → Numbered (drain_snapshot w s h member out).1
unfolding drain_snapshot
snapshot-Numbered w s h member (ok []) n = loop-Numbered w s member none [] h n
snapshot-Numbered w s h member (ok (m ∷ ms)) n =
    if_both {A = Drained × Hub} (λ r. Numbered r.1) member.briefing_on_wake
      (briefed-Numbered w s h member (m ∷ ms) (build_briefing w h.moment h.family member.id) n)
      (loop-Numbered w s member none (m ∷ ms) h n)
snapshot-Numbered w s h member unknown_member n = n
snapshot-Numbered w s h member value_error n = n
snapshot-Numbered w s h member key_error n = n

pub drain-Numbered :
    (w : World) (s : Settings) (h : Hub) (member : Member)
    → Numbered h
    → Numbered (drain_inbox w s h member).1
unfolding drain_inbox
drain-Numbered w s h member n =
    snapshot-Numbered w s h member (queued_messages h.family member.id) n
