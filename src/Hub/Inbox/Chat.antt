-- ===== src/Hub/Inbox/Chat.antt =====
-- What POST /members/{member_id}/chat does with a message, by the member's presence.
use project_nexus.Prelude.{
  false_ne_true, ◌+◌, ◌≡◌, ◌≢◌, refl, true, false, ◌||◌, none, some, List, [], ◌∷◌, ◌++◌, String,
  ◌==◌, ap, ◌∙◌, subst, eq_of_test, Bool-cases, inl, inr,
}
use project_nexus.Py.Text.{◌⧺◌}
use project_nexus.Hub.Family.State.{Message, ok, queued_messages, get_message, message, presence}
use project_nexus.Hub.Family.Valid.{IsValid}
use project_nexus.Hub.Family.Queue.{enqueue_arrival, enqueue_frame}
use project_nexus.Hub.Turn.Types.{World, Settings, Hub, Member}
use project_nexus.Hub.Turn.Pipeline.{Ask}
use project_nexus.Hub.Inbox.Endpoints.{
  accepted, find_member, queue_response, letter_of, by_presence, post_chat,
}

-- The record of a question that `person` asked the member `m` at `now`.
abbrev pub queued_record : String → String → String → String → Ask → Message
queued_record hex now m person ask = record {
  msg_id = "msg_" ⧺ hex;
  member_id = m;
  person = person;
  prompt = ask.prompt;
  system = ask.system;
  max_tokens = ask.max_tokens;
  temperature = ask.temperature;
  status = "queued";
  queued_at = now;
  result = none;
  answered_at = none;
}

-- A message that was taken into the queue: it stands at the end of the member's queue with the sender's
-- name and question, and nothing of the hub has changed but that queue, the file that keeps it, and the
-- count of moments.
pub record IsTaken (w : World) (h h' : Hub) (m person : String) (ask : Ask) (q : List Message)
    : Type 0 where
  pub valid : IsValid h'.family
  pub queue :
      queued_messages h'.family m
      ≡ ok (q ++ queued_record (w.hex h.moment) (w.now h.moment) m person ask ∷ [])
  pub others : (j : String) → j ≢ m → queued_messages h'.family j ≡ queued_messages h.family j
  pub sessions : h'.sessions ≡ h.sessions
  pub turns : h'.turns ≡ h.turns
  pub rows : h'.rows ≡ h.rows
  pub recent : h'.recent ≡ h.recent
  pub sink : h'.sink ≡ h.sink
  pub presences : h'.family.presences ≡ h.family.presences
  pub log : h'.family.log ≡ h.family.log

module _ (w : World) (s : Settings) (h : Hub) (member : Member) (m person : String)
    (ask : Ask) where
  not_waking : (p : String) → (p == "asleep" || p == "busy") ≡ true → (p == "waking") ≡ false
  not_waking p away = elim (Bool-cases (p == "waking")) [
    | inl waking ↦ absurd (
        false_ne_true
          (subst (λ x. (x == "asleep" || x == "busy") ≡ true) (eq_of_test p "waking" waking) away))
    | inr other ↦ other
  ]

  taken :
      (p : String) (q : List Message)
      → (p == "asleep" || p == "busy") ≡ true
      → IsValid h.family
      → queued_messages h.family m ≡ ok q
      → get_message h.family m ("msg_" ⧺ w.hex h.moment) ≡ ok none
      → (h' : Hub) × (by_presence w s h member m person ask (ok p)
          ≡ (accepted ("msg_" ⧺ w.hex h.moment) p, h'))
        × IsTaken w h h' m person ask q
  unfolding by_presence queue_response letter_of message
  taken p q away v e new =
      let (s', done, valid, queue, others) =
        enqueue_arrival (w.inbox_disk h.moment) (w.now h.moment) (w.hex h.moment) h.family m
          (letter_of person ask) q v e new in
      let kept =
        enqueue_frame (w.inbox_disk h.moment) (w.now h.moment) (w.hex h.moment) h.family m
          (letter_of person ask) v s' _ done in
      (
        record h { family = s'; moment = h.moment + 1 },
        rw (not_waking p away, away, done),
        record {
          valid = valid;
          queue = queue;
          others = others;
          sessions = refl;
          turns = refl;
          rows = refl;
          recent = refl;
          sink = refl;
          presences = kept.0;
          log = kept.1;
        },
      )

  at_presence :
      (members : List Member) (p : String)
      → find_member members m ≡ some member
      → presence h.family m ≡ ok p
      → post_chat w s members h m person ask ≡ by_presence w s h member m person ask (ok p)
  unfolding post_chat
  at_presence members p registered there =
      rw (registered, post_chat) (ap (by_presence w s h member m person ask) there)

  -- A message to a registered member that is asleep or busy is taken: the sender gets the id of a new
  -- message, which then stands at the end of the member's queue with the sender's name and question; the
  -- other queues, the presences and their log, the sessions, the counters, the rows and the metric
  -- records stay. The uuid must not name a message already.
  pub chat-IsTaken :
      (members : List Member) (p : String) (q : List Message)
      → find_member members m ≡ some member
      → presence h.family m ≡ ok p
      → (p == "asleep" || p == "busy") ≡ true
      → IsValid h.family
      → queued_messages h.family m ≡ ok q
      → get_message h.family m ("msg_" ⧺ w.hex h.moment) ≡ ok none
      → (h' : Hub) × (post_chat w s members h m person ask
          ≡ (accepted ("msg_" ⧺ w.hex h.moment) p, h'))
        × IsTaken w h h' m person ask q
  chat-IsTaken members p q registered there away v e new =
      let (h', done, is_taken) = taken p q away v e new in
      (h', at_presence members p registered there ∙ done, is_taken)
