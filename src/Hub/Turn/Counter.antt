-- ===== src/Hub/Turn/Counter.antt =====
-- The turn counters: the rows of a session carry consecutive indices, and the counter is the next.
use project_nexus.Prelude.{
  ℕ, ◌+◌, ◌≡◌, refl, false, Option, none, some, List, [], ◌∷◌, String, arith, eq_iff, eq_refl, ◌==◌,
  if◌then◌else◌, Bool-cases, inl, inr,
}
use project_nexus.Py.Dict.{Dict, insert, contains, lookup-insert, contains-insert}
use project_nexus.Hub.Turn.Types.{
  GenerateRequest, Reply, completion, cortex_error, Memory, Metric, Member, World, Settings, Hub,
}
use project_nexus.Hub.Sessions.Store.{Sessions}
use project_nexus.Hub.Turn.Context.{or_default}
use project_nexus.Hub.Turn.Pipeline.{
  TurnResult, turn_of, memory_of, measure, remember, conclude, run_turn, seed, generated, down, Ask,
  live_member_turn, on_session, settle, request_of, metric_ok, metric_failed,
}

-- The indices of a session's rows, newest first.
abbrev pub indices : String → List Memory → List ℕ
indices sid [] = []
indices sid (r ∷ rows) =
    if r.session_id == sid then r.turn_idx ∷ indices sid rows else indices sid rows

-- Going back from the counter the indices fall by one: none is missing and none stands twice.
abbrev pub Countdown : ℕ → List ℕ → Type 0
Countdown n [] = Unit
Countdown n (i ∷ is) = (n ≡ i + 1) × Countdown i is

pub record IsNumbered (turns : Dict ℕ) (rows : List Memory) : Type 0 where
  pub counted : (sid : String) → Countdown (turn_of turns sid) (indices sid rows)
  pub unseen : (sid : String) → contains sid turns ≡ false → indices sid rows ≡ []

pub turn_of-insert :
    (k j : String) (n : ℕ) (turns : Dict ℕ)
    → turn_of (insert k n turns) j ≡ (if k == j then n else turn_of turns j)
unfolding turn_of or_default
turn_of-insert k j n turns = rw lookup-insert (ground arith)

-- Reading a counter enters it and changes no counter.
touch-IsNumbered :
    (sid : String) (turns : Dict ℕ) (rows : List Memory)
    → IsNumbered turns rows
    → IsNumbered (insert sid (turn_of turns sid) turns) rows
touch-IsNumbered sid turns rows h = record {
  counted = λ j.
      rw (turn_of-insert sid j (turn_of turns sid) turns)
        (ground (arith, eq_iff sid j, h.counted j));
  unseen = λ j e. ground (arith, contains-insert sid j (turn_of turns sid) turns, h.unseen j);
}

-- A row that carries the counter, and the counter after it.
write-IsNumbered :
    (row : Memory) (turns : Dict ℕ) (rows : List Memory)
    → row.turn_idx ≡ turn_of turns row.session_id
    → IsNumbered turns rows
    → IsNumbered (insert row.session_id (row.turn_idx + 1) turns) (row ∷ rows)
write-IsNumbered row turns rows e h = record {
  counted = λ j. rw turn_of-insert (ground (arith, eq_iff row.session_id j, h.counted j));
  unseen =
      λ j e. ground (arith, contains-insert row.session_id j (row.turn_idx + 1) turns, h.unseen j);
}

-- A session that has no counter yet may start anywhere.
seed-IsNumbered :
    (sid : String) (n : ℕ) (turns : Dict ℕ) (rows : List Memory)
    → IsNumbered turns rows
    → IsNumbered (seed sid n turns) rows
unfolding seed
seed-IsNumbered sid n turns rows h = elim (Bool-cases (contains sid turns)) [
  | inl seen ↦ rw seen h
  | inr new ↦ rw new (record {
    counted = λ j. rw turn_of-insert (ground (arith, eq_iff sid j, h.counted j, h.unseen j));
    unseen = λ j e. ground (arith, contains-insert sid j n turns, h.unseen j);
  })
]

abbrev pub Numbered : Hub → Type 0
Numbered h = IsNumbered h.turns h.rows

remember-Numbered :
    (w : World) (h : Hub) (row : Memory)
    → row.turn_idx ≡ turn_of h.turns row.session_id
    → Numbered h
    → Numbered (remember w h row).1
unfolding remember
remember-Numbered w h row e n = elim (Bool-cases (w.memory_write h.moment row)) [
  | inl written ↦ rw written (
      write-IsNumbered row (insert row.session_id row.turn_idx h.turns) h.rows
        (rw turn_of-insert (ground (arith, eq_refl row.session_id))) touched)
  | inr failed ↦ rw failed touched
]
  where
    touched : IsNumbered (insert row.session_id row.turn_idx h.turns) h.rows
    touched = rw e (touch-IsNumbered row.session_id h.turns h.rows n)

measure-Numbered :
    (w : World) (s : Settings) (m : Metric) (h : Hub) → Numbered h → Numbered (measure w s m h)
unfolding measure
measure-Numbered w s m h n = n

conclude-Numbered :
    (w : World) (s : Settings) (h : Hub) (prompt sid person : String) (member : Member)
    (ids : List String) (reply : Reply)
    → Numbered h
    → Numbered (conclude w s h prompt sid person member ids reply).1
unfolding conclude
conclude-Numbered w s h prompt sid person member ids (cortex_error text) n =
    measure-Numbered w s (metric_failed sid person member ids text)
      (record h { turns = insert sid (turn_of h.turns sid) h.turns })
      (touch-IsNumbered sid h.turns h.rows n)
conclude-Numbered w s h prompt sid person member ids (completion c) n =
    let row = memory_of w h.moment sid prompt person member (turn_of h.turns sid) c in
    measure-Numbered w s
      (metric_ok sid person member ids c (turn_of h.turns sid) (remember w h row).0)
      (remember w h row).1 (remember-Numbered w h row refl n)

-- A turn keeps the numbering, whatever the embedder and the cortex answer.
pub run_turn-Numbered :
    (w : World) (s : Settings) (h : Hub) (req : GenerateRequest) (sid person : String)
    (member : Member)
    → Numbered h
    → Numbered (run_turn w s h req sid person member).1
unfolding run_turn
run_turn-Numbered w s h req sid person member n =
    conclude-Numbered w s (record h { moment = h.moment + 2 }) req.prompt sid person member _ _ n

settle-Numbered :
    (w : World) (person : String) (member : Member) (sid : String) (r : TurnResult × Hub)
    → Numbered r.1
    → Numbered (settle w person member sid r).1
unfolding settle
settle-Numbered w person member sid (down d, h) n = n
settle-Numbered w person member sid (generated g, h) n = n

on_session-Numbered :
    (w : World) (s : Settings) (member : Member) (person : String) (ask : Ask)
    (minted : Option (String × ℕ) × Sessions) (h : Hub)
    → Numbered h
    → Numbered (on_session w s member person ask minted h).1
unfolding on_session
on_session-Numbered w s member person ask (none, sessions) h n = n
on_session-Numbered w s member person ask (some (sid, stored), sessions) h n =
    settle-Numbered w person member sid _ (
      run_turn-Numbered w s
        (record h { moment = h.moment + 1; sessions = sessions; turns = seed sid stored h.turns })
        (request_of member ask) sid person member (seed-IsNumbered sid stored h.turns h.rows n))

-- A live turn with a member keeps the numbering, also when its session cannot be persisted.
pub live_member_turn-Numbered :
    (w : World) (s : Settings) (h : Hub) (member : Member) (person : String) (ask : Ask)
    → Numbered h
    → Numbered (live_member_turn w s h member person ask).1
unfolding live_member_turn
live_member_turn-Numbered w s h member person ask n =
    on_session-Numbered w s member person ask _ h n
