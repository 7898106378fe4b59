-- ===== src/Client/Exits.antt =====
-- clients/cli/nexus_cli.py: that the polling ends, and with which exit codes the commands do.
use project_nexus.Prelude.{
  ap, ℕ, zero, suc, ◌+◌, ◌-◌, ◌<◌, ◌≤◌, ◌≡◌, ◌≢◌, refl, subst, ◌⊎◌, inl, inr, true, false, String,
  length, All, leb, nat_eq, nat_eq_iff, Bool-cases, if_known, arith, Option, none, some, ◌==◌,
  eq_of_test, ne_of_test, none_ne_some, some_injective, false_ne_true,
}
use project_nexus.Client.Calls.{Called, returned, raised, Message}
use project_nexus.Client.Settings.{or_default}
use project_nexus.Client.Poll.{
  Inbox, Polled, Polling, answer, still_queued, failed, out_of_fuel, is_answered, min, stop, sleep,
  poll_round, poll_loop, poll_inbox,
}
use project_nexus.Client.Run.{Ended, exited, uncaught, never}

-- A sleep takes time.
abbrev pub Advances : (ℕ → ℕ) → Type 0
Advances elapsed = (k : ℕ) → elapsed k < elapsed (k + 1)

-- What the ending says of the last round.
abbrev pub Ends : Inbox → ℕ → ℕ → Polled → Type 0
Ends inbox max_wait last (answer m) =
    (inbox.status_of last ≡ returned m) × (m.status ≡ some "answered")
Ends inbox max_wait last still_queued =
    (m : Message) × (inbox.status_of last ≡ returned m)
    × (m.status ≢ some "answered")
    × (max_wait ≤ inbox.elapsed last)
Ends inbox max_wait last (failed e) = inbox.status_of last ≡ raised e
Ends inbox max_wait last out_of_fuel = ⊥

pub record IsWaiting (inbox : Inbox) (max_wait k : ℕ) : Type 0 where
  pub message : Message
  pub read : inbox.status_of k ≡ returned message
  pub unanswered : message.status ≢ some "answered"
  pub in_time : inbox.elapsed k < max_wait

pub record IsPoll (inbox : Inbox) (interval max_wait first last : ℕ) (p : Polling) : Type 0 where
  pub counted : p.rounds ≡ last + 1
  pub slept_before : length p.sleeps + first ≡ last
  pub short : All (λ s. s ≤ interval) p.sleeps
  -- every round before the last one read a message without an answer, before `max_wait`
  pub waiting : (j : ℕ) → first ≤ j → j < last → IsWaiting inbox max_wait j
  pub ends : Ends inbox max_wait last p.ending

status_answered :
    (status : Option String)
    → (or_default status "" == "answered") ≡ true
    → status ≡ some "answered"
status_answered none h = absurd (false_ne_true h)
status_answered (some t) h = ap some (eq_of_test t "answered" h)

status_unanswered :
    (status : Option String)
    → (or_default status "" == "answered") ≡ false
    → status ≢ some "answered"
status_unanswered none h e = none_ne_some e
status_unanswered (some t) h e = ne_of_test t "answered" h (some_injective e)

min-le : (a b : ℕ) → min a b ≤ a
min-le a b = ground arith

module _ (inbox : Inbox) (interval max_wait : ℕ) where
  one_round :
      (k : ℕ) (e : Polled) → Ends inbox max_wait k e → IsPoll inbox interval max_wait k k (stop e k)
  one_round k e h = record {
    counted = refl;
    slept_before = omega arith;
    short = tt;
    waiting = λ j le lt. absurd (omega (arith, le, lt));
    ends = h;
  }

  one_sleep :
      (k last s : ℕ) (p : Polling)
      → s ≤ interval
      → IsWaiting inbox max_wait k
      → IsPoll inbox interval max_wait (k + 1) last p
      → IsPoll inbox interval max_wait k last (sleep s p)
  one_sleep k last s p le now r = record {
    counted = r.counted;
    slept_before = omega (arith, r.slept_before);
    short = (le, r.short);
    waiting = λ j above below. elim (Bool-cases (nat_eq k j)) [
      | inl same ↦ subst (IsWaiting inbox max_wait) ((nat_eq_iff k j).0 same) now
      | inr other ↦ r.waiting j (ground arith) below
    ];
    ends = r.ends;
  }

  poll_round-IsPoll :
      (k : ℕ) (c : Called Message) (rest : Polling)
      → inbox.status_of k ≡ c
      → (inbox.elapsed k < max_wait → (last : ℕ) × IsPoll inbox interval max_wait (k + 1) last rest)
      → (last : ℕ) × IsPoll inbox interval max_wait k last
          (poll_round interval max_wait k (inbox.elapsed k) c rest)
  unfolding poll_round
  poll_round-IsPoll k (raised e) rest eq h = (k, one_round k (failed e) eq)
  poll_round-IsPoll k (returned m) rest eq h =
      if_known (λ p. (last : ℕ) × IsPoll inbox interval max_wait k last p) (is_answered m)
        (λ t. (k, one_round k (answer m) (eq, status_answered m.status t)))
        (λ f.
          if_known (λ p. (last : ℕ) × IsPoll inbox interval max_wait k last p)
            (leb max_wait (inbox.elapsed k))
            (λ t. (k, one_round k still_queued (m, eq, status_unanswered m.status f, ground arith)))
            (λ g.
              let lt : inbox.elapsed k < max_wait = ground arith in
              let more = h lt in
              (
                more.0,
                one_sleep k more.0 _ rest (min-le interval (max_wait - inbox.elapsed k))
                    (record {
                      message = m;
                      read = eq;
                      unanswered = status_unanswered m.status f;
                      in_time = lt;
                    })
                    more.1,
              )))

  loop-IsPoll :
      (fuel k : ℕ)
      → Advances inbox.elapsed
      → max_wait ≤ inbox.elapsed k + fuel
      → (last : ℕ) × IsPoll inbox interval max_wait k last
          (poll_loop inbox interval max_wait (suc fuel) k)
  unfolding poll_loop
  loop-IsPoll zero k adv h =
      poll_round-IsPoll k (inbox.status_of k) _ refl (λ lt. absurd (omega (arith, h, lt)))
  loop-IsPoll (suc fuel) k adv h =
      poll_round-IsPoll k (inbox.status_of k) _ refl
        (λ lt. loop-IsPoll fuel (k + 1) adv (omega (arith, h, adv k)))

-- The polling ends where sleeping takes time: with the first message that has the status answered, with
-- the first error, or, where the message has another status in a round that ends at or after `max_wait`,
-- without an answer. Every round before the last one read a message without an answer and ended before
-- `max_wait`; between two rounds the client slept once, at most for the interval.
pub poll_inbox-IsPoll :
    (inbox : Inbox) (interval max_wait : ℕ)
    → Advances inbox.elapsed
    → (last : ℕ) × IsPoll inbox interval max_wait 0 last (poll_inbox inbox interval max_wait)
unfolding poll_inbox
poll_inbox-IsPoll inbox interval max_wait adv =
    loop-IsPoll inbox interval max_wait max_wait 0 adv (omega arith)

-- an exit code of 0 or 1, with what is printed
abbrev pub Exits : Ended → Type 0
Exits (exited code lines) = (code ≡ 0) ⊎ (code ≡ 1)
Exits (uncaught e) = ⊥
Exits never = ⊥
