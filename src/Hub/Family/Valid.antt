-- ===== src/Hub/Family/Valid.antt =====
-- The invariant of `FamilyState`, which every method keeps.
use project_nexus.Prelude.{
  ◌≡◌, ◌∙◌, Bool, true, none, some, [], ◌∷◌, String, arith, Option-cases, inl, inr,
}
use project_nexus.Py.Text.{◌⧺◌}
use project_nexus.Py.Dict.{
  Dict, lookup, insert, contains, lookup-insert, contains-insert_present, IsDistinct,
  insert-IsDistinct,
}
use project_nexus.Hub.Family.State.{
  Family, Message, Letter, Answer, ◌>>=◌, ok, is_presence, flush, stamp, subscript, enter_presence,
  set_presence, enqueue, complete_message, answered, message,
}
use project_nexus.Hub.Family.Box.{IsBox}

pub lookup-none_absurd :
    {V : Type 0} (k : String) (d : Dict V) → contains k d ≡ true → lookup k d ≡ none → ⊥
unfolding contains lookup
lookup-none_absurd k [] h e = ground arith
lookup-none_absurd k ((j, v) ∷ d) h e = ground (arith, lookup-none_absurd k d)

-- Every member has an inbox and a log entry, presences are known states, inboxes are boxes.
pub record IsValid (s : Family) : Type 0 where
  pub has_inbox : (m : String) → contains m s.inbox ≡ contains m s.presences
  pub has_log : (m : String) → contains m s.log ≡ contains m s.presences
  pub known : (m p : String) → lookup m s.presences ≡ some p → is_presence p ≡ true
  pub inbox_keys : IsDistinct s.inbox
  pub log_keys : IsDistinct s.log
  pub boxes : (m : String) (box : Dict Message) → lookup m s.inbox ≡ some box → IsBox box

module _ (writes : Bool) (s : Family) where
  pub inbox-flush : (flush writes s).inbox ≡ s.inbox
  unfolding flush
  inbox-flush = ground arith

  pub log-flush : (flush writes s).log ≡ s.log
  unfolding flush
  log-flush = ground arith

  pub presences-flush : (flush writes s).presences ≡ s.presences
  unfolding flush
  presences-flush = ground arith

  pub durable-flush : (flush writes s).durable ≡ s.durable
  unfolding flush
  durable-flush = ground arith

  pub flush-IsValid : IsValid s → IsValid (flush writes s)
  flush-IsValid h = record {
    has_inbox = λ m. rw (inbox-flush, presences-flush) (h.has_inbox m);
    has_log = λ m. rw (log-flush, presences-flush) (h.has_log m);
    known = λ m p. rw presences-flush (h.known m p);
    inbox_keys = rw inbox-flush h.inbox_keys;
    log_keys = rw log-flush h.log_keys;
    boxes = λ m box. rw inbox-flush (h.boxes m box);
  }

-- Replacing a member's inbox by a box keeps the invariant.
pub inbox-IsValid :
    (s : Family) (m : String) (box : Dict Message)
    → IsValid s
    → contains m s.presences ≡ true
    → IsBox box
    → IsValid (record s { inbox = insert m box s.inbox })
inbox-IsValid s m box h here b = record {
  has_inbox =
      λ j. rw (contains-insert_present m box s.inbox j (h.has_inbox m ∙ here)) (h.has_inbox j);
  has_log = h.has_log;
  known = h.known;
  inbox_keys = insert-IsDistinct m box s.inbox h.inbox_keys;
  log_keys = h.log_keys;
  boxes = λ j x e. ground (arith, lookup-insert m j box s.inbox, h.boxes j x);
}

-- Replacing a member's presence by a known state and its log entry keeps the invariant.
presence-IsValid :
    (s : Family) (m p : String) (entry : Dict String)
    → IsValid s
    → contains m s.presences ≡ true
    → is_presence p ≡ true
    → IsValid (record s { presences = insert m p s.presences; log = insert m entry s.log })
presence-IsValid s m p entry h here known = record {
  has_inbox = λ j. rw (contains-insert_present m p s.presences j here) (h.has_inbox j);
  has_log = λ j.
      rw
        (
          contains-insert_present m p s.presences j here,
          contains-insert_present m entry s.log j (h.has_log m ∙ here),
        )
        (h.has_log j);
  known = λ j q e. ground (arith, lookup-insert m j p s.presences, h.known j q);
  inbox_keys = h.inbox_keys;
  log_keys = insert-IsDistinct m entry s.log h.log_keys;
  boxes = h.boxes;
}

-- Entering a known state keeps the invariant.
pub enter_presence-IsValid :
    (writes : Bool) (now : String) (s : Family) (m p : String) (entry : Dict String)
    → IsValid s
    → contains m s.presences ≡ true
    → is_presence p ≡ true
    → IsValid (enter_presence writes now s m p entry)
unfolding enter_presence
enter_presence-IsValid writes now s m p entry h here known =
    flush-IsValid writes _ (presence-IsValid s m p (stamp p now entry) h here known)

-- A member that is present has an inbox, and it is a box.
pub inbox_of :
    (s : Family) (m : String)
    → IsValid s
    → contains m s.presences ≡ true
    → (box : Dict Message) × (lookup m s.inbox ≡ some box) × IsBox box
inbox_of s m h here = elim (Option-cases (lookup m s.inbox)) [
  | inl e ↦ absurd (lookup-none_absurd m s.inbox (h.has_inbox m ∙ here) e)
  | inr (box, e) ↦ (box, e, h.boxes m box e)
]

pub log_of :
    (s : Family) (m : String)
    → IsValid s
    → contains m s.presences ≡ true
    → (entry : Dict String) × (lookup m s.log ≡ some entry)
log_of s m h here = elim (Option-cases (lookup m s.log)) [
  | inl e ↦ absurd (lookup-none_absurd m s.log (h.has_log m ∙ here) e)
  | inr r ↦ r
]

pub set_presence_ok :
    (writes : Bool) (now : String) (s : Family) (m p : String) (entry : Dict String)
    → contains m s.presences ≡ true
    → is_presence p ≡ true
    → lookup m s.log ≡ some entry
    → set_presence writes now s m p ≡ ok (enter_presence writes now s m p entry)
unfolding set_presence
set_presence_ok writes now s m p entry here known e = rw (here, known, e, subscript)

pub enqueue_ok :
    (writes : Bool) (now hex : String) (s : Family) (m : String) (letter : Letter)
    (box : Dict Message)
    → contains m s.presences ≡ true
    → lookup m s.inbox ≡ some box
    → enqueue writes now hex s m letter
      ≡ ok (
        flush writes (record s {
          inbox =
              insert m (insert ("msg_" ⧺ hex) (message ("msg_" ⧺ hex) now m letter) box) s.inbox;
        }),
        "msg_" ⧺ hex,
      )
unfolding enqueue
enqueue_ok writes now hex s m letter box here e = rw (here, e, subscript)

pub complete_ok :
    (writes : Bool) (now : String) (s : Family) (m k : String) (r : Answer) (box : Dict Message)
    (msg : Message)
    → contains m s.presences ≡ true
    → lookup m s.inbox ≡ some box
    → lookup k box ≡ some msg
    → complete_message writes now s m k r
      ≡ ok
          (flush writes (record s { inbox = insert m (insert k (answered now r msg) box) s.inbox }))
unfolding complete_message
complete_ok writes now s m k r box msg here e f = rw (here, e, subscript, ◌>>=◌, f)
