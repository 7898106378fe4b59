-- ===== src/Hub/Inbox/Complete.antt =====
-- A drain goes through where nothing fails: `_drain_inbox` of nodes/brainstem_4070/server.py.
use project_nexus.Prelude.{
  ℕ, ◌+◌, ◌≡◌, refl, sym, ap, ◌∙◌, true, Option, none, some, List, [], ◌∷◌, ◌++◌, String, arith,
  length, Option-cases, inl, inr, if_both, subst, append-nil,
}
use project_nexus.Py.Dict.{Dict, lookup, contains}
use project_nexus.Hub.Family.State.{
  Family, Message, ok, queued_messages, presence, last_asleep_at, subscript,
}
use project_nexus.Hub.Family.Valid.{IsValid, lookup-none_absurd}
use project_nexus.Hub.Sessions.Store
use project_nexus.Hub.Sessions.Store.{Sessions}
use project_nexus.Hub.Family.Queue.{complete_oldest, queued_messages_inv}
use project_nexus.Hub.Turn.Types.{
  World, Settings, Hub, Member, Briefing, Reply, completion, Completion, GenerateRequest,
}
use project_nexus.Hub.Turn.Pipeline.{
  Ask, LiveResult, TurnResult, Generated, generated, turn, down, os_error, live_member_turn,
  on_session, run_turn, conclude, settle,
}
use project_nexus.Hub.Turn.Effects.{family-live_member_turn}
use project_nexus.Hub.Inbox.Briefing.{build_briefing, spoken_briefing}
use project_nexus.Hub.Inbox.Drain.{
  finished, Drained, ask_of, answer_of, go_on, file_answer, after_turn, drain_round, drain_loop,
  one_more, drain_snapshot, drain_inbox, briefed_loop, block_of,
}
use project_nexus.Hub.Inbox.Order.{
  DrainEffect, drain_order, RoundEffect, round_effect, family-spoken, Through,
}

-- The cortex completes every request, and the disk takes every write of the session store.
pub record Serves (w : World) : Type 0 where
  pub completes :
      (t : ℕ) (system : Option String) (req : GenerateRequest)
      → (c : Completion) × (w.cortex t system req ≡ completion c)
  pub persists : (t : ℕ) → w.session_disk t ≡ true

minted :
    (hex : String) (s : Sessions) (person member_id : String)
    → (p : String × ℕ) × ((Store.get_or_mint true hex s person member_id).0 ≡ some p)
unfolding Store.get_or_mint
minted hex s person member_id =
    elim (Option-cases (lookup (Store.key person member_id) s.sessions)) [
      | inl e ↦ rw (e, Store.get_or_mint) (_, refl)
      | inr (entry, e) ↦ rw (e, Store.get_or_mint) (_, refl)
    ]

-- A turn that the cortex answered.
abbrev IsAnswered : LiveResult → Type 0
IsAnswered r = (session_id : String) × (g : Generated) × (r ≡ turn session_id (generated g))

concluded :
    (w : World) (s : Settings) (h : Hub) (prompt session_id person : String) (member : Member)
    (ids : List String) (reply : Reply) (c : Completion)
    → reply ≡ completion c
    → (g : Generated) × ((conclude w s h prompt session_id person member ids reply).0 ≡ generated g)
unfolding conclude
concluded w s h prompt session_id person member ids reply c e = rw e (_, refl)

settled :
    (w : World) (person : String) (member : Member) (session_id : String) (r : TurnResult × Hub)
    (g : Generated)
    → r.0 ≡ generated g
    → IsAnswered (settle w person member session_id r).0
unfolding settle
settled w person member session_id (generated g', h) g e = (session_id, g', refl)
settled w person member session_id (down d, h) g e = absurd (ground arith)

on_session-IsAnswered :
    (w : World) (s : Settings) (member : Member) (person : String) (ask : Ask)
    (got : Option (String × ℕ) × Sessions) (p : String × ℕ) (h : Hub)
    → Serves w
    → got.0 ≡ some p
    → IsAnswered (on_session w s member person ask got h).0
unfolding on_session run_turn
on_session-IsAnswered w s member person ask (none, sessions) p h serves e = absurd (ground arith)
on_session-IsAnswered w s member person ask (some (sid, stored), sessions) p h serves e =
    let answered = serves.completes _ _ _ in
    let (g, done) = concluded w s _ _ sid person member _ _ answered.0 answered.1 in
    settled w person member sid _ g done

live-IsAnswered :
    (w : World) (s : Settings) (h : Hub) (member : Member) (person : String) (ask : Ask)
    → Serves w
    → IsAnswered (live_member_turn w s h member person ask).0
unfolding live_member_turn
live-IsAnswered w s h member person ask serves =
    let (p, e) = minted (w.hex h.moment) h.sessions person member.id in
    on_session-IsAnswered w s member person ask _ p h serves (
      ap (λ b. (Store.get_or_mint b (w.hex h.moment) h.sessions person member.id).0)
        (serves.persists h.moment)
      ∙ e)

turn_goes :
    (w : World) (member : Member) (block : Option String) (msg : Message) (rest : List Message)
    (r : LiveResult × Hub)
    → IsValid r.1.family
    → queued_messages r.1.family member.id ≡ ok (msg ∷ rest)
    → IsAnswered r.0
    → (h' : Hub) × (after_turn w member block msg r ≡ go_on h')
unfolding after_turn file_answer
turn_goes w member block msg rest (os_error, h) v q a = absurd (ground arith)
turn_goes w member block msg rest (turn sid (down d), h) v q a = absurd (ground arith)
turn_goes w member block msg rest (turn sid (generated g), h) v q a =
    let (s', done, valid, left, others) =
      complete_oldest (w.inbox_disk h.moment) (w.now h.moment) h.family member.id (answer_of sid g)
        msg rest v q in
    rw done (_, refl)

round_goes :
    (w : World) (s : Settings) (member : Member) (block : Option String) (msg : Message)
    (rest : List Message) (h : Hub)
    → Serves w
    → IsValid h.family
    → queued_messages h.family member.id ≡ ok (msg ∷ rest)
    → (h' : Hub) × (drain_round w s member block msg h ≡ go_on h')
unfolding drain_round
round_goes w s member block msg rest h serves v q =
    let same = family-live_member_turn w s h member msg.person (ask_of block msg) in
    turn_goes w member block msg rest _ (rw same v) (rw same q)
      (live-IsAnswered w s h member msg.person (ask_of block msg) serves)

loop_finished :
    (w : World) (s : Settings) (member : Member) (block : Option String) (q : List Message)
    (h : Hub)
    → Serves w
    → IsValid h.family
    → queued_messages h.family member.id ≡ ok q
    → (drain_loop w s member block q h).0.ending ≡ finished
unfolding drain_loop one_more
loop_finished w s member block [] h serves v e = refl
loop_finished w s member block (msg ∷ rest) h serves v e =
    let (h', goes) = round_goes w s member block msg rest h serves v e in
    let effect =
      subst (RoundEffect member h.family rest) goes
        (round_effect w s member block msg rest h v e) in
    rw (goes, drain_loop) (loop_finished w s member none rest h' serves effect.0 effect.1)

there :
    {V : Type 0} (k : String) (d : Dict V) → contains k d ≡ true → (v : V) × (lookup k d ≡ some v)
there k d h = elim (Option-cases (lookup k d)) [
  | inl e ↦ absurd (lookup-none_absurd k d h e)
  | inr (v, e) ↦ (v, e)
]

slept :
    (s : Family) (i : String)
    → IsValid s
    → contains i s.presences ≡ true
    → (since : Option String) × (last_asleep_at s i ≡ ok since)
unfolding last_asleep_at
slept s i v here =
    let (entry, e) = there i s.log (v.has_log i ∙ here) in rw (here, e, subscript) (_, refl)

present :
    (s : Family) (i : String) → contains i s.presences ≡ true → (p : String) × (presence s i ≡ ok p)
unfolding presence
present s i here = let (p, e) = there i s.presences here in rw (here, e, subscript) (_, refl)

-- a member with a queue has a briefing
has_briefing :
    (w : World) (t : ℕ) (s : Family) (i : String) (q : List Message)
    → IsValid s
    → queued_messages s i ≡ ok q
    → (b : Briefing) × (build_briefing w t s i ≡ ok b)
unfolding build_briefing
has_briefing w t s i q v e =
    let (box, here, found, b, same) = queued_messages_inv s i q v e in
    let (since, asleep) = slept s i v here in
    let (p, awake) = present s i here in rw (asleep, e, awake) (_, refl)

briefed_finished :
    (w : World) (s : Settings) (h : Hub) (member : Member) (q : List Message) (b : Briefing)
    → Serves w
    → IsValid h.family
    → queued_messages h.family member.id ≡ ok q
    → (briefed_loop w s h member q (ok b)).0.ending ≡ finished
unfolding briefed_loop
briefed_finished w s h member q b serves v e =
    let h1 : Hub = record h { moment = h.moment + 1 } in
    let h2 : Hub = (spoken_briefing w s h1 b).1 in
    let same = family-spoken w s h1 b in
    loop_finished w s member (some (block_of w b (spoken_briefing w s h1 b).0)) q h2 serves
      (rw same v) (rw same e)

snapshot_finished :
    (w : World) (s : Settings) (h : Hub) (member : Member) (q : List Message)
    → Serves w
    → IsValid h.family
    → queued_messages h.family member.id ≡ ok q
    → (drain_snapshot w s h member (ok q)).0.ending ≡ finished
unfolding drain_snapshot
snapshot_finished w s h member [] serves v e = loop_finished w s member none [] h serves v e
snapshot_finished w s h member (m ∷ ms) serves v e =
    let (b, made) = has_briefing w h.moment h.family member.id (m ∷ ms) v e in
    if_both (λ (r : Drained × Hub). r.0.ending ≡ finished) member.briefing_on_wake
      (rw made (briefed_finished w s h member (m ∷ ms) b serves v e))
      (loop_finished w s member none (m ∷ ms) h serves v e)

inbox_finished :
    (w : World) (s : Settings) (h : Hub) (member : Member) (q : List Message)
    → Serves w
    → IsValid h.family
    → queued_messages h.family member.id ≡ ok q
    → (drain_inbox w s h member).0.ending ≡ finished
unfolding drain_inbox
inbox_finished w s h member q serves v e = rw e (snapshot_finished w s h member q serves v e)

emptied :
    (member : Member) (s : Family) (q : List Message) (r : Drained × Hub)
    → r.0.ending ≡ finished
    → DrainEffect member s q r
    → (r.0.answered ≡ length q) × (queued_messages r.1.family member.id ≡ ok [])
emptied member s q r e d =
    let gone : d.left ≡ [] = subst (λ ending. Through ending d.left) e d.through in
    (
      d.count ∙ ap length (sym (d.split ∙ ap (λ l. d.done ++ l) gone ∙ append-nil d.done)),
      d.queue ∙ ap ok gone,
    )

-- Where the cortex completes every request and the session store's writes reach the disk, a drain
-- goes through: it answers every queued message and leaves the queue empty.
pub drain_complete :
    (w : World) (s : Settings) (h : Hub) (member : Member) (q : List Message)
    → Serves w
    → IsValid h.family
    → queued_messages h.family member.id ≡ ok q
    → ((drain_inbox w s h member).0.ending ≡ finished)
      × ((drain_inbox w s h member).0.answered ≡ length q)
      × (queued_messages (drain_inbox w s h member).1.family member.id ≡ ok [])
drain_complete w s h member q serves v e =
    let through = inbox_finished w s h member q serves v e in
    let (all, empty) = emptied member h.family q _ through (drain_order w s h member q v e) in
    (through, all, empty)
