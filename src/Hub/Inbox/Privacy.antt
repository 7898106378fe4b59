-- ===== src/Hub/Inbox/Privacy.antt =====
-- What the inbox endpoint and the briefing give away, and to whom.
use project_nexus.Prelude.{
  ℕ, ◌≡◌, ◌≢◌, refl, ap, ◌∙◌, sym, Bool, true, false, Option, none, some, List, [], ◌∷◌, String,
  map, ◌==◌, Option-cases, inl, inr, if◌then◌else◌, eq_of_test, test_of_ne,
}
use project_nexus.Hub.Family.State.{
  Family, Message, Outcome, ok, unknown_member, value_error, key_error, get_message,
  queued_messages, presence, last_asleep_at, ◌>>=◌,
}
use project_nexus.Hub.Turn.Types.{World, Hub, Member, Briefing, Custody}
use project_nexus.Hub.Inbox.Briefing.{
  custody_of, window, timeline_error, cutoff_of, since_source_of, build_briefing,
}
use project_nexus.Hub.Inbox.Endpoints.{
  Response, Slip, success, not_found, server_error, find_member, slip_of, get_inbox_message,
}

-- A reply to `person` shows a message of the inbox that this person sent, as it is stored.
pub record IsOwn (person : String) (out : Outcome (Option Message)) (slip : Slip) : Type 0 where
  pub msg : Message
  pub stored : out ≡ ok (some msg)
  pub sender : msg.person ≡ person
  pub msg_id : slip.msg_id ≡ msg.msg_id
  pub status : slip.status ≡ msg.status
  pub result : slip.result ≡ msg.result

success_injective : {x y : Slip} → ◌≡◌ {A = Response Slip} (success x) (success y) → x ≡ y
success_injective e = cc

not_found_ne : {x : Slip} → ◌≢◌ {A = Response Slip} not_found (success x)
not_found_ne e = cc

server_error_ne : {x : Slip} → ◌≢◌ {A = Response Slip} server_error (success x)
server_error_ne e = cc

shown :
    (own : Bool) (x slip : Slip)
    → (if own then success x else not_found) ≡ success slip
    → (own ≡ true) × (x ≡ slip)
shown true x slip e = (refl, success_injective e)
shown false x slip e = absurd (not_found_ne e)

slip-IsOwn :
    (person : String) (out : Outcome (Option Message)) (slip : Slip)
    → slip_of person out ≡ success slip
    → IsOwn person out slip
unfolding slip_of
slip-IsOwn person (ok none) slip e = absurd (not_found_ne e)
slip-IsOwn person (ok (some m)) slip e =
    let (own, same) = shown (m.person == person) _ slip e in
    record {
      msg = m;
      stored = refl;
      sender = eq_of_test m.person person own;
      msg_id = sym (ap (λ x. x.msg_id) same);
      status = sym (ap (λ x. x.status) same);
      result = sym (ap (λ x. x.result) same);
    }
slip-IsOwn person unknown_member slip e = absurd (server_error_ne e)
slip-IsOwn person value_error slip e = absurd (server_error_ne e)
slip-IsOwn person key_error slip e = absurd (server_error_ne e)

-- Whoever reads a message through the inbox endpoint is its sender, and sees the stored message.
pub inbox-IsOwn :
    (members : List Member) (h : Hub) (m k person : String) (slip : Slip)
    → get_inbox_message members h m k person ≡ success slip
    → IsOwn person (get_message h.family m k) slip
unfolding get_inbox_message
inbox-IsOwn members h m k person slip = elim (Option-cases (find_member members m)) [
  | inl e ↦ rw (e, get_inbox_message) (λ r. absurd (not_found_ne r))
  | inr (member, e) ↦ rw (e, get_inbox_message) (slip-IsOwn person (get_message h.family m k) slip)
]

slip_foreign :
    (person : String) (msg : Message)
    → msg.person ≢ person
    → slip_of person (ok (some msg)) ≡ slip_of person (ok none)
unfolding slip_of
slip_foreign person msg foreign = rw (test_of_ne msg.person person foreign)

-- Asking for somebody else's message gets the same answer, for every registry, as asking for a message
-- that does not exist.
pub inbox_foreign :
    (members : List Member) (h : Hub) (m k j person : String) (msg : Message)
    → get_message h.family m k ≡ ok (some msg)
    → msg.person ≢ person
    → get_message h.family m j ≡ ok none
    → get_inbox_message members h m k person ≡ get_inbox_message members h m j person
unfolding get_inbox_message
inbox_foreign members h m k j person msg there foreign away =
    elim (Option-cases (find_member members m)) [
      | inl e ↦ rw (e, get_inbox_message) refl
      | inr (member, e) ↦
          rw (e, get_inbox_message)
            (ap (slip_of person) there
              ∙ slip_foreign person msg foreign
              ∙ sym (ap (slip_of person) away))
    ]

-- What a briefing takes of a queue: for each message its id, its sender and when it came.
abbrev pub custody : Outcome (List Message) → Outcome (List Custody)
custody queued = queued >>= λ q. ok (map custody_of q)

-- A briefing from the custody data alone.
briefing_from :
    World
    → ℕ
    → String
    → Outcome (Option String)
    → Outcome (List Custody)
    → Outcome String
    → Outcome Briefing
briefing_from w t m asleep queued present = do
  asleep_since ← asleep
  custody ← queued
  presence ← present
  let cutoff = cutoff_of asleep_since (w.day_before t)
  let timeline = w.memory_timeline t 200
  ok (record {
    member_id = m;
    generated_at = w.now t;
    presence = presence;
    since = cutoff;
    since_source = since_source_of asleep_since;
    queued_messages = custody;
    household_events = window cutoff timeline;
    household_events_error = timeline_error timeline;
  })

by_outcome :
    (w : World) (t : ℕ) (m : String) (a : Outcome (Option String)) (q : Outcome (List Message))
    (p : Outcome String)
    → (a >>= λ x. q >>= λ y. p >>= λ z. ok (record {
      member_id = m;
      generated_at = w.now t;
      presence = z;
      since = cutoff_of x (w.day_before t);
      since_source = since_source_of x;
      queued_messages = map custody_of y;
      household_events = window (cutoff_of x (w.day_before t)) (w.memory_timeline t 200);
      household_events_error = timeline_error (w.memory_timeline t 200);
    }))
      ≡ briefing_from w t m a (custody q) p
unfolding briefing_from
by_outcome w t m (ok x) (ok y) p = refl
by_outcome w t m (ok x) unknown_member p = refl
by_outcome w t m (ok x) value_error p = refl
by_outcome w t m (ok x) key_error p = refl
by_outcome w t m unknown_member q p = refl
by_outcome w t m value_error q p = refl
by_outcome w t m key_error q p = refl

briefing_of_custody :
    (w : World) (t : ℕ) (f : Family) (m : String)
    → build_briefing w t f m
      ≡ briefing_from w t m (last_asleep_at f m) (custody (queued_messages f m)) (presence f m)
unfolding build_briefing
briefing_of_custody w t f m =
    by_outcome w t m (last_asleep_at f m) (queued_messages f m) (presence f m)

-- The id, the sender and the date of each message of a queue, and no more.
abbrev pub outline : List Message → List (String × String × String)
outline [] = []
outline (m ∷ q) = (m.msg_id, m.person, m.queued_at) ∷ outline q

-- the custody data made of those
custody_from : List (String × String × String) → List Custody
custody_from [] = []
custody_from ((msg_id, person, queued_at) ∷ o) =
    record { msg_id = msg_id; person = person; queued_at = queued_at } ∷ custody_from o

custody-outline : (q : List Message) → map custody_of q ≡ custody_from (outline q)
unfolding custody_of custody_from
custody-outline [] = refl
custody-outline (m ∷ q) = ap (◌∷◌ (custody_of m)) (custody-outline q)

abbrev pub outlines : Outcome (List Message) → Outcome (List (String × String × String))
outlines queued = queued >>= λ q. ok (outline q)

custody-outlines :
    (queued : Outcome (List Message))
    → custody queued ≡ (outlines queued >>= λ o. ok (custody_from o))
custody-outlines (ok q) = ap ok (custody-outline q)
custody-outlines unknown_member = refl
custody-outlines value_error = refl
custody-outlines key_error = refl

-- Two hubs that agree on when a member fell asleep, on its presence, and on the ids, senders and dates
-- of its queue brief it alike: no content of a queued message, and nothing of another member's inbox,
-- enters a briefing.
pub briefing_private :
    (w : World) (t : ℕ) (s s' : Family) (m : String)
    → last_asleep_at s m ≡ last_asleep_at s' m
    → outlines (queued_messages s m) ≡ outlines (queued_messages s' m)
    → presence s m ≡ presence s' m
    → build_briefing w t s m ≡ build_briefing w t s' m
briefing_private w t s s' m asleep queued present =
    let same =
      custody-outlines (queued_messages s m)
      ∙ ap (λ o. o >>= λ l. ok (custody_from l)) queued
      ∙ sym (custody-outlines (queued_messages s' m)) in
    rw (briefing_of_custody w t s m, briefing_of_custody w t s' m, asleep, same, present)
