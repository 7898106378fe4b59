-- ===== src/Hub/Family/Box.antt =====
-- One member's inbox: the dict from message ids to messages, and the messages that wait in it.
use project_nexus.Prelude.{
  ◌≡◌, refl, ap, true, false, not, some, List, [], ◌∷◌, ◌++◌, String, arith, eq_iff, eq_refl, some,
  filter, filter-append, ◌==◌,
}
use project_nexus.Py.Dict.{
  Dict, lookup, insert, contains, values, contains_of_lookup, contains-insert, insert_fresh,
}
use project_nexus.Hub.Family.State.{Message, Answer, is_queued, answered}

-- The ids in the dict are the messages' own, and no id stands twice.
abbrev pub IsBox : Dict Message → Type 0
IsBox [] = Unit
IsBox ((k, m) ∷ box) = (m.msg_id ≡ k) × (contains k box ≡ false) × IsBox box

abbrev pub queue : Dict Message → List Message
queue box = filter is_queued (values box)

-- the messages but those with the id
abbrev pub without : String → List Message → List Message
without k = filter (λ m. not (m.msg_id == k))

pub insert-IsBox :
    (k : String) (m : Message) (box : Dict Message)
    → m.msg_id ≡ k
    → IsBox box
    → IsBox (insert k m box)
unfolding insert contains
insert-IsBox k m [] e h = (e, refl, tt)
insert-IsBox k m ((j, n) ∷ box) e h =
    ground (arith, eq_iff j k, eq_iff k j, contains-insert k j m box, insert-IsBox k m box e h.2)

values-append : (box box' : Dict Message) → values (box ++ box') ≡ values box ++ values box'
unfolding values
values-append [] box' = refl
values-append ((k, m) ∷ box) box' = ap (◌∷◌ m) (values-append box box')

-- A new message goes to the end of the queue.
pub queue-insert :
    (k : String) (m : Message) (box : Dict Message)
    → contains k box ≡ false
    → is_queued m ≡ true
    → queue (insert k m box) ≡ queue box ++ m ∷ []
unfolding values
queue-insert k m box new q = rw (insert_fresh k m box new, values-append, filter-append, q)

without_absent :
    (k : String) (box : Dict Message)
    → IsBox box
    → contains k box ≡ false
    → without k (queue box) ≡ queue box
unfolding values contains
without_absent k [] h e = refl
without_absent k ((j, n) ∷ box) h e =
    ground (arith, without_absent k box h.2, eq_iff n.msg_id k, eq_iff j k)

-- Answering a message takes it, and no other, out of the queue.
pub queue-answered :
    (k now : String) (r : Answer) (m : Message) (box : Dict Message)
    → IsBox box
    → lookup k box ≡ some m
    → queue (insert k (answered now r m) box) ≡ without k (queue box)
unfolding values insert lookup answered is_queued
queue-answered k now r m [] h e = ground arith
queue-answered k now r m ((j, n) ∷ box) h e = ground (
  arith,
  eq_iff j k,
  eq_iff n.msg_id k,
  without_absent k box h.2,
  queue-answered k now r m box h.2,
)

-- The message at the head of the queue is found under its id, and no other message has that id.
pub queue_head :
    (m : Message) (rest : List Message) (box : Dict Message)
    → IsBox box
    → queue box ≡ m ∷ rest
    → (lookup m.msg_id box ≡ some m) × (without m.msg_id (m ∷ rest) ≡ rest)
unfolding values lookup contains
queue_head m rest [] h e = ground arith
queue_head m rest ((j, n) ∷ box) h e = ground (
  arith,
  eq_refl m.msg_id,
  eq_iff j m.msg_id,
  without_absent j box h.2,
  contains_of_lookup m.msg_id m box,
  queue_head m rest box h.2,
)

pub IsBox-msg_id :
    (k now : String) (r : Answer) (m : Message) (box : Dict Message)
    → IsBox box
    → lookup k box ≡ some m
    → (answered now r m).msg_id ≡ k
unfolding lookup answered
IsBox-msg_id k now r m [] h e = ground arith
IsBox-msg_id k now r m ((j, n) ∷ box) h e =
    ground (arith, eq_iff j k, IsBox-msg_id k now r m box h.2)
