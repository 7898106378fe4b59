-- ===== src/Hub/Family/Queue.antt =====
-- The inbox as a queue: arrival order, answering, and what other members see.
use project_nexus.Prelude.{
  ◌≡◌, ◌⊎◌, subst, ◌≢◌, refl, ap, ◌∙◌, Bool, true, false, none, some, List, [], ◌∷◌, ◌++◌, String,
  eq_refl, sym, test_of_ne, Bool-cases, inl, inr,
}
use project_nexus.Py.Text.{◌⧺◌}
use project_nexus.Py.Dict.{
  Dict, lookup, insert, contains, lookup-insert, lookup-insert_self, not_contains_of_lookup,
}
use project_nexus.Hub.Family.State.{
  Family, Message, Letter, Answer, Outcome, ok, unknown_member, subscript, flush, enqueue,
  complete_message, answered, message, queued_messages, get_message, is_queued,
}
use project_nexus.Hub.Family.Box.{
  IsBox, insert-IsBox, queue, without, queue-insert, queue-answered, queue_head, IsBox-msg_id,
}
use project_nexus.Hub.Family.Valid.{
  IsValid, flush-IsValid, inbox-IsValid, inbox-flush, presences-flush, log-flush, inbox_of,
  enqueue_ok, complete_ok,
}

ok_injective {ℓ} : {A : Type ℓ} {x y : A} → ◌≡◌ {A = Outcome A} (ok x) (ok y) → x ≡ y
ok_injective e = cc

unknown_ne_ok {ℓ} : {A : Type ℓ} {x : A} → ◌≢◌ {A = Outcome A} unknown_member (ok x)
unknown_ne_ok e = cc

queued_messages_unknown :
    (s : Family) (m : String)
    → contains m s.presences ≡ false
    → queued_messages s m ≡ unknown_member
unfolding queued_messages
queued_messages_unknown s m away = rw away

msg_id-message : (k now m : String) (letter : Letter) → (message k now m letter).msg_id ≡ k
unfolding message
msg_id-message k now m letter = refl

is_queued-message : (k now m : String) (letter : Letter) → is_queued (message k now m letter) ≡ true
unfolding message is_queued
is_queued-message k now m letter = refl

-- The queue of a member, read off its inbox.
pub queued_messages_ok :
    (s : Family) (m : String) (box : Dict Message)
    → contains m s.presences ≡ true
    → lookup m s.inbox ≡ some box
    → queued_messages s m ≡ ok (queue box)
unfolding queued_messages
queued_messages_ok s m box here e = rw (here, e, subscript)

get_message_ok :
    (s : Family) (m k : String) (box : Dict Message)
    → contains m s.presences ≡ true
    → lookup m s.inbox ≡ some box
    → get_message s m k ≡ ok (lookup k box)
unfolding get_message
get_message_ok s m k box here e = rw (here, e, subscript)

-- A member that has a queue is known, and its queue is that of a box.
pub queued_messages_inv :
    (s : Family) (m : String) (q : List Message)
    → IsValid s
    → queued_messages s m ≡ ok q
    → (box : Dict Message) × (contains m s.presences ≡ true)
      × (lookup m s.inbox ≡ some box)
      × IsBox box
      × (queue box ≡ q)
queued_messages_inv s m q h e = elim (Bool-cases (contains m s.presences)) [
  | inl here ↦
      let (box, found, b) = inbox_of s m h here in
      (box, here, found, b, ok_injective (sym (queued_messages_ok s m box here found) ∙ e))
  | inr away ↦ absurd (unknown_ne_ok (sym (queued_messages_unknown s m away) ∙ e))
]

-- A state in which one member's inbox is replaced.
abbrev put_box : Bool → Family → String → Dict Message → Family
put_box writes s m box = flush writes (record s { inbox = insert m box s.inbox })

module _ (writes : Bool) (s : Family) (m : String) (box : Dict Message) where
  queued-put_self :
      contains m s.presences ≡ true → queued_messages (put_box writes s m box) m ≡ ok (queue box)
  queued-put_self here =
      queued_messages_ok _ m box (rw presences-flush here)
        (rw inbox-flush (rw (lookup-insert, eq_refl)))

  queued-put_ne :
      (j : String) → j ≢ m → queued_messages (put_box writes s m box) j ≡ queued_messages s j
  unfolding queued_messages
  queued-put_ne j ne =
      rw (presences-flush, inbox-flush, subscript, lookup-insert, test_of_ne m j (λ e. ne (sym e)))

-- A message to a known member goes to the end of that member's queue under a fresh id; the queues of
-- the other members and the invariant stay.
pub enqueue_arrival :
    (writes : Bool) (now hex : String) (s : Family) (m : String) (letter : Letter)
    (q : List Message)
    → IsValid s
    → queued_messages s m ≡ ok q
    → get_message s m ("msg_" ⧺ hex) ≡ ok none
    → (s' : Family) × (enqueue writes now hex s m letter ≡ ok (s', "msg_" ⧺ hex))
      × IsValid s'
      × (queued_messages s' m ≡ ok (q ++ message ("msg_" ⧺ hex) now m letter ∷ []))
      × ((j : String) → j ≢ m → queued_messages s' j ≡ queued_messages s j)
enqueue_arrival writes now hex s m letter q h e new =
    let (box, here, found, b, is_q) = queued_messages_inv s m q h e in
    let k = "msg_" ⧺ hex in
    let msg = message k now m letter in
    let absent =
      not_contains_of_lookup k box
        (ok_injective (sym (get_message_ok s m k box here found) ∙ new)) in
    (
      put_box writes s m (insert k msg box),
      enqueue_ok writes now hex s m letter box here found,
      flush-IsValid writes _
          (inbox-IsValid s m _ h here (insert-IsBox k msg box (msg_id-message k now m letter) b)),
      queued-put_self writes s m _ here
          ∙ ap ok (
              queue-insert k msg box absent (is_queued-message k now m letter)
              ∙ ap (λ l. l ++ msg ∷ []) is_q),
      queued-put_ne writes s m _,
    )

put_box-IsValid :
    (writes : Bool) (s : Family) (m : String) (box : Dict Message)
    → IsValid s
    → contains m s.presences ≡ true
    → IsBox box
    → IsValid (put_box writes s m box)
put_box-IsValid writes s m box h here b = flush-IsValid writes _ (inbox-IsValid s m box h here b)

get_message-put_self :
    (writes : Bool) (s : Family) (m k : String) (box : Dict Message)
    → contains m s.presences ≡ true
    → get_message (put_box writes s m box) m k ≡ ok (lookup k box)
get_message-put_self writes s m k box here =
    get_message_ok _ m k box (rw presences-flush here)
      (rw inbox-flush (rw (lookup-insert, eq_refl)))

-- `out` is `msg` with the reply `r`, which was given at `now`.
pub record IsAnswered (now : String) (r : Answer) (msg out : Message) : Type 0 where
  pub status : out.status ≡ "answered"
  pub result : out.result ≡ some r
  pub answered_at : out.answered_at ≡ some now
  pub msg_id : out.msg_id ≡ msg.msg_id
  pub member_id : out.member_id ≡ msg.member_id
  pub person : out.person ≡ msg.person
  pub prompt : out.prompt ≡ msg.prompt
  pub system : out.system ≡ msg.system
  pub max_tokens : out.max_tokens ≡ msg.max_tokens
  pub temperature : out.temperature ≡ msg.temperature
  pub queued_at : out.queued_at ≡ msg.queued_at

answered-IsAnswered :
    (now : String) (r : Answer) (msg : Message) → IsAnswered now r msg (answered now r msg)
unfolding answered
answered-IsAnswered now r msg = record {
  status = refl;
  result = refl;
  answered_at = refl;
  msg_id = refl;
  member_id = refl;
  person = refl;
  prompt = refl;
  system = refl;
  max_tokens = refl;
  temperature = refl;
  queued_at = refl;
}

-- Answering a message that is in a member's inbox takes it, and nothing else, out of the queue; the
-- sender then finds it with status answered, the reply and the time, and else as it was; the other
-- queues and the invariant stay.
pub complete_message_answers :
    (writes : Bool) (now : String) (s : Family) (m k : String) (r : Answer) (msg : Message)
    (q : List Message)
    → IsValid s
    → queued_messages s m ≡ ok q
    → get_message s m k ≡ ok (some msg)
    → (s' : Family) × (complete_message writes now s m k r ≡ ok s')
      × IsValid s'
      × (queued_messages s' m ≡ ok (without k q))
      × ((out : Message) × (get_message s' m k ≡ ok (some out)) × IsAnswered now r msg out)
      × ((j : String) → j ≢ m → queued_messages s' j ≡ queued_messages s j)
complete_message_answers writes now s m k r msg q h e got =
    let (box, here, found, b, is_q) = queued_messages_inv s m q h e in
    let at_k = ok_injective (sym (get_message_ok s m k box here found) ∙ got) in
    let msg' = answered now r msg in
    (
      put_box writes s m (insert k msg' box),
      complete_ok writes now s m k r box msg here found at_k,
      put_box-IsValid writes s m _ h here
          (insert-IsBox k msg' box (IsBox-msg_id k now r msg box b at_k) b),
      queued-put_self writes s m _ here
          ∙ ap ok (queue-answered k now r msg box b at_k ∙ ap (without k) is_q),
      (
        msg',
        get_message-put_self writes s m k _ here ∙ ap ok (lookup-insert_self k msg' box),
        answered-IsAnswered now r msg,
      ),
      queued-put_ne writes s m _,
    )

-- Answering the oldest message leaves the rest of the queue, in order.
pub complete_oldest :
    (writes : Bool) (now : String) (s : Family) (m : String) (r : Answer) (msg : Message)
    (rest : List Message)
    → IsValid s
    → queued_messages s m ≡ ok (msg ∷ rest)
    → (s' : Family) × (complete_message writes now s m msg.msg_id r ≡ ok s')
      × IsValid s'
      × (queued_messages s' m ≡ ok rest)
      × ((j : String) → j ≢ m → queued_messages s' j ≡ queued_messages s j)
complete_oldest writes now s m r msg rest h e =
    let (box, here, found, b, is_q) = queued_messages_inv s m (msg ∷ rest) h e in
    let (at_head, tail) = queue_head msg rest box b is_q in
    let (s', done, valid, left, _, others) =
      complete_message_answers writes now s m msg.msg_id r msg (msg ∷ rest) h e
        (get_message_ok s m msg.msg_id box here found ∙ ap ok at_head) in
    (s', done, valid, left ∙ ap ok tail, others)

enqueue_unknown :
    (writes : Bool) (now hex : String) (s : Family) (m : String) (letter : Letter)
    → contains m s.presences ≡ false
    → enqueue writes now hex s m letter ≡ unknown_member
unfolding enqueue
enqueue_unknown writes now hex s m letter away = rw away

-- An accepted message keeps the invariant, also under an id that is not fresh.
pub enqueue_keeps :
    (writes : Bool) (now hex : String) (s : Family) (m : String) (letter : Letter)
    → IsValid s
    → (s' : Family) (k : String) → enqueue writes now hex s m letter ≡ ok (s', k)
    → IsValid s'
enqueue_keeps writes now hex s m letter h s' k e = elim (Bool-cases (contains m s.presences)) [
  | inl here ↦
      let (box, found, b) = inbox_of s m h here in
      let id = "msg_" ⧺ hex in
      let made = ok_injective (sym (enqueue_ok writes now hex s m letter box here found) ∙ e) in
      subst IsValid (ap (λ r. r.0) made) (
        put_box-IsValid writes s m _ h here
          (insert-IsBox id (message id now m letter) box (msg_id-message id now m letter) b))
  | inr away ↦ absurd (unknown_ne_ok (sym (enqueue_unknown writes now hex s m letter away) ∙ e))
]

-- An accepted message changes no presence and no presence log.
pub enqueue_frame :
    (writes : Bool) (now hex : String) (s : Family) (m : String) (letter : Letter)
    → IsValid s
    → (s' : Family) (k : String) → enqueue writes now hex s m letter ≡ ok (s', k)
    → (s'.presences ≡ s.presences) × (s'.log ≡ s.log)
enqueue_frame writes now hex s m letter h s' k e = elim (Bool-cases (contains m s.presences)) [
  | inl here ↦
      let (box, found, b) = inbox_of s m h here in
      let made = ok_injective (sym (enqueue_ok writes now hex s m letter box here found) ∙ e) in
      subst (λ x. (x.presences ≡ s.presences) × (x.log ≡ s.log)) (ap (λ r. r.0) made)
        (presences-flush writes _, log-flush writes _)
  | inr away ↦ absurd (unknown_ne_ok (sym (enqueue_unknown writes now hex s m letter away) ∙ e))
]

-- The queue of any id is a list, or the member is unknown.
pub queue_or_unknown :
    (s : Family) (m : String)
    → IsValid s
    → ((q : List Message) × (queued_messages s m ≡ ok q)) ⊎ (queued_messages s m ≡ unknown_member)
queue_or_unknown s m h = elim (Bool-cases (contains m s.presences)) [
  | inl here ↦
      let (box, found, b) = inbox_of s m h here in
      inl (queue box, queued_messages_ok s m box here found)
  | inr away ↦ inr (queued_messages_unknown s m away)
]
