-- ===== src/Hub/Inbox/Order.antt =====
-- The drain answers the queue in arrival order, and what it does not answer stays queued.
use project_nexus.Prelude.{
  ◌+◌, ◌≡◌, ◌≢◌, refl, ap, ◌∙◌, sym, Option, none, some, List, [], ◌∷◌, ◌++◌, String, arith, subst,
  length, Option-cases, if_both, inl, inr,
}
use project_nexus.Hub.Family.State.{
  Family, Message, Outcome, ok, queued_messages, unknown_member, value_error, key_error,
}
use project_nexus.Hub.Family.Valid.{IsValid}
use project_nexus.Hub.Family.Queue.{complete_oldest}
use project_nexus.Hub.Turn.Types.{
  World, Settings, Hub, Member, Probe, Briefing, Reply, completion, cortex_error,
}
use project_nexus.Hub.Turn.Pipeline.{LiveResult, generated, down, turn, os_error, live_member_turn}
use project_nexus.Hub.Turn.Effects.{family-live_member_turn}
use project_nexus.Hub.Inbox.Briefing.{build_briefing, spoken_briefing, sink_probe, spoken_from}
use project_nexus.Hub.Inbox.Drain.{
  End, finished, cortex_down, raised, Drained, ask_of, answer_of, Round, go_on, stop, file_answer,
  after_turn, drain_round, drain_loop, one_more, drain_snapshot, drain_inbox, briefed_loop,
  block_of,
}

-- What a round may do to the queue of the member, with `msg` at its head: answer that message, or
-- leave the queue as it is and end the drain.
abbrev pub RoundEffect : Member → Family → List Message → Round → Type 0
RoundEffect member s rest (go_on h) =
    IsValid h.family
    × (queued_messages h.family member.id ≡ ok rest)
    × ((j : String) → j ≢ member.id → queued_messages h.family j ≡ queued_messages s j)
RoundEffect member s rest (stop ending h) = (h.family ≡ s) × (ending ≢ finished)

file_effect :
    (w : World) (member : Member) (block : Option String) (msg : Message) (rest : List Message)
    (h : Hub) (s' : Family)
    → IsValid s'
    → queued_messages s' member.id ≡ ok rest
    → ((j : String) → j ≢ member.id → queued_messages s' j ≡ queued_messages h.family j)
    → RoundEffect member h.family rest (file_answer w member block msg h (ok s'))
unfolding file_answer
file_effect w member block msg rest h s' v q o = (v, q, o)

after_turn_effect :
    (w : World) (member : Member) (block : Option String) (msg : Message) (rest : List Message)
    (r : LiveResult × Hub)
    → IsValid r.1.family
    → queued_messages r.1.family member.id ≡ ok (msg ∷ rest)
    → RoundEffect member r.1.family rest (after_turn w member block msg r)
unfolding after_turn
after_turn_effect w member block msg rest (os_error, h) v q = (refl, λ e. cc)
after_turn_effect w member block msg rest (turn sid (down d), h) v q = (refl, λ e. cc)
after_turn_effect w member block msg rest (turn sid (generated g), h) v q =
    let (s', done, valid, left, others) =
      complete_oldest (w.inbox_disk h.moment) (w.now h.moment) h.family member.id (answer_of sid g)
        msg rest v q in
    rw done (file_effect w member block msg rest h s' valid left others)

pub round_effect :
    (w : World) (s : Settings) (member : Member) (block : Option String) (msg : Message)
    (rest : List Message) (h : Hub)
    → IsValid h.family
    → queued_messages h.family member.id ≡ ok (msg ∷ rest)
    → RoundEffect member h.family rest (drain_round w s member block msg h)
unfolding drain_round
round_effect w s member block msg rest h v q =
    let r = live_member_turn w s h member msg.person (ask_of block msg) in
    let same = family-live_member_turn w s h member msg.person (ask_of block msg) in
    subst (λ f. RoundEffect member f rest (after_turn w member block msg r)) same
      (after_turn_effect w member block msg rest r (rw same v) (rw same q))

-- A drain that went through leaves nothing.
abbrev pub Through : End → List Message → Type 0
Through finished left = left ≡ []
Through cortex_down left = Unit
Through raised left = Unit

-- A drain of the queue `q`: it answers a prefix of it, and the rest is the queue after it.
pub record DrainEffect (member : Member) (s : Family) (q : List Message) (r : Drained × Hub)
    : Type 0 where
  pub done : List Message
  pub left : List Message
  pub split : q ≡ done ++ left
  pub count : r.0.answered ≡ length done
  pub valid : IsValid r.1.family
  pub queue : queued_messages r.1.family member.id ≡ ok left
  pub others : (j : String) → j ≢ member.id → queued_messages r.1.family j ≡ queued_messages s j
  pub through : Through r.0.ending left

cut_short : (ending : End) (q : List Message) → ending ≢ finished → Through ending q
cut_short finished q ne = absurd (ne refl)
cut_short cortex_down q ne = tt
cut_short raised q ne = tt

stopped :
    (member : Member) (s : Family) (q : List Message) (ending : End) (h : Hub)
    → IsValid s
    → queued_messages s member.id ≡ ok q
    → h.family ≡ s
    → Through ending q
    → DrainEffect member s q (record { answered = 0; ending = ending }, h)
stopped member s q ending h v e same done = record {
  done = [];
  left = q;
  split = refl;
  count = refl;
  valid = rw same v;
  queue = rw same e;
  others = λ j ne. ap (λ f. queued_messages f j) same;
  through = done;
}

counted :
    (member : Member) (s s' : Family) (msg : Message) (rest : List Message) (r : Drained × Hub)
    → ((j : String) → j ≢ member.id → queued_messages s' j ≡ queued_messages s j)
    → DrainEffect member s' rest r
    → DrainEffect member s (msg ∷ rest) (one_more r)
unfolding one_more
counted member s s' msg rest r o d = record {
  done = msg ∷ d.done;
  left = d.left;
  split = ap (◌∷◌ msg) d.split;
  count = omega (arith, d.count);
  valid = d.valid;
  queue = d.queue;
  others = λ j ne. d.others j ne ∙ o j ne;
  through = d.through;
}

drain_loop_effect :
    (w : World) (s : Settings) (member : Member) (block : Option String) (q : List Message)
    (h : Hub)
    → IsValid h.family
    → queued_messages h.family member.id ≡ ok q
    → DrainEffect member h.family q (drain_loop w s member block q h)
unfolding drain_loop
drain_loop_effect w s member block [] h v e = stopped member h.family [] finished h v e refl refl
drain_loop_effect w s member block (msg ∷ rest) h v e =
    go (drain_round w s member block msg h) (round_effect w s member block msg rest h v e)
      (drain_loop_effect w s member none rest)
  where
    go :
        (round : Round)
        → RoundEffect member h.family rest round
        → ((h' : Hub)
            → IsValid h'.family
            → queued_messages h'.family member.id ≡ ok rest
            → DrainEffect member h'.family rest (drain_loop w s member none rest h'))
        → DrainEffect member h.family (msg ∷ rest) (elim round [
          | go_on h' ↦ one_more (drain_loop w s member none rest h')
          | stop ending h' ↦ (record { answered = 0; ending = ending }, h')
        ])
    go (go_on h') (valid, left, others) ih =
        counted member h.family h'.family msg rest _ others (ih h' valid left)
    go (stop ending h') (same, unfinished) ih =
        stopped member h.family (msg ∷ rest) ending h' v e same (cut_short ending _ unfinished)

family-sink_probe : (w : World) (p : Probe) (h : Hub) → (sink_probe w p h).family ≡ h.family
unfolding sink_probe
family-sink_probe w p h = refl

family-spoken_from :
    (w : World) (h : Hub) (b : Briefing) (reply : Reply)
    → (spoken_from w h b reply).1.family ≡ h.family
unfolding spoken_from sink_probe
family-spoken_from w h b (cortex_error text) = refl
family-spoken_from w h b (completion c) = refl

pub family-spoken :
    (w : World) (s : Settings) (h : Hub) (b : Briefing)
    → (spoken_briefing w s h b).1.family ≡ h.family
unfolding spoken_briefing
family-spoken w s h b = elim (Option-cases s.concierge) [
  | inl e ↦ rw e
  | inr (c, e) ↦ rw e (family-spoken_from w (record h { moment = h.moment + 1 }) b _)
]

briefed_effect :
    (w : World) (s : Settings) (h : Hub) (member : Member) (q : List Message)
    (out : Outcome Briefing)
    → IsValid h.family
    → queued_messages h.family member.id ≡ ok q
    → DrainEffect member h.family q (briefed_loop w s h member q out)
unfolding briefed_loop
briefed_effect w s h member q (ok b) v e =
    let h1 : Hub = record h { moment = h.moment + 1 } in
    let h2 : Hub = (spoken_briefing w s h1 b).1 in
    let same = family-spoken w s h1 b in
    subst
      (λ f.
        DrainEffect member f q
          (drain_loop w s member (some (block_of w b (spoken_briefing w s h1 b).0)) q h2))
      same (drain_loop_effect w s member _ q h2 (rw same v) (rw same e))
briefed_effect w s h member q unknown_member v e = stopped member h.family q raised h v e refl tt
briefed_effect w s h member q value_error v e = stopped member h.family q raised h v e refl tt
briefed_effect w s h member q key_error v e = stopped member h.family q raised h v e refl tt

snapshot_effect :
    (w : World) (s : Settings) (h : Hub) (member : Member) (q : List Message)
    → IsValid h.family
    → queued_messages h.family member.id ≡ ok q
    → DrainEffect member h.family q (drain_snapshot w s h member (ok q))
unfolding drain_snapshot
snapshot_effect w s h member [] v e = drain_loop_effect w s member none [] h v e
snapshot_effect w s h member (m ∷ ms) v e =
    if_both (DrainEffect member h.family (m ∷ ms)) member.briefing_on_wake
      (briefed_effect w s h member (m ∷ ms) (build_briefing w h.moment h.family member.id) v e)
      (drain_loop_effect w s member none (m ∷ ms) h v e)

-- A drain answers a prefix of the queue, oldest first, and returns its length; exactly the rest is
-- queued afterwards, in the same order, whether the drain went through, met a cortex that was down, or
-- was cut short by an exception. A drain that went through has answered everything. The other
-- members' queues and the invariant stay.
pub drain_order :
    (w : World) (s : Settings) (h : Hub) (member : Member) (q : List Message)
    → IsValid h.family
    → queued_messages h.family member.id ≡ ok q
    → DrainEffect member h.family q (drain_inbox w s h member)
unfolding drain_inbox
drain_order w s h member q v e =
    subst (λ o. DrainEffect member h.family q (drain_snapshot w s h member o)) (sym e)
      (snapshot_effect w s h member q v e)
