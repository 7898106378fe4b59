-- ===== src/Client/Poll.antt =====
-- clients/cli/nexus_cli.py: `poll_inbox`.
use project_nexus.Prelude.{ℕ, zero, suc, ◌+◌, ◌-◌, Bool, List, [], ◌∷◌, ◌==◌, leb, if◌then◌else◌}
use project_nexus.Client.Calls.{Called, returned, raised, Message}
use project_nexus.Client.Errors.{CallError}
use project_nexus.Client.Settings.{or_default}

-- What the loop sees in its `k`-th round: the message's state, and after it the time since the start.
pub record Inbox : Type 0 where
  pub status_of : ℕ → Called Message
  pub elapsed : ℕ → ℕ

-- `out_of_fuel` is no way that the program ends.
pub data Polled : Type 0 where
  answer : Message → Polled
  still_queued : Polled
  failed : CallError → Polled
  out_of_fuel : Polled

-- How the polling ends, after how many rounds, and the sleeps between them.
pub record Polling : Type 0 where
  pub ending : Polled
  pub rounds : ℕ
  pub sleeps : List ℕ

abbrev pub stop : Polled → ℕ → Polling
stop e k = record { ending = e; rounds = k + 1; sleeps = [] }

abbrev pub sleep : ℕ → Polling → Polling
sleep s p = record p { sleeps = s ∷ p.sleeps }

abbrev pub min : ℕ → ℕ → ℕ
min a b = if leb a b then a else b

-- record.get("status") == "answered"
abbrev pub is_answered : Message → Bool
is_answered m = or_default m.status "" == "answered"

unfoldable pub poll_round : ℕ → ℕ → ℕ → ℕ → Called Message → Polling → Polling
poll_round interval max_wait k elapsed (raised e) rest = stop (failed e) k
poll_round interval max_wait k elapsed (returned m) rest =
    if is_answered m
    then stop (answer m) k
    else if leb max_wait elapsed
    then stop still_queued k
    else sleep (min interval (max_wait - elapsed)) rest

unfoldable pub poll_loop : Inbox → ℕ → ℕ → ℕ → ℕ → Polling
unfolding poll_round
poll_loop inbox interval max_wait zero k = record { ending = out_of_fuel; rounds = k; sleeps = [] }
poll_loop inbox interval max_wait (suc fuel) k =
    poll_round interval max_wait k (inbox.elapsed k) (inbox.status_of k)
      (poll_loop inbox interval max_wait fuel (k + 1))

unfoldable pub poll_inbox : Inbox → ℕ → ℕ → Polling
unfolding poll_loop
poll_inbox inbox interval max_wait = poll_loop inbox interval max_wait (suc max_wait) 0
