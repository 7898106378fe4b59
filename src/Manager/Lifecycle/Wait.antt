-- ===== src/Manager/Lifecycle/Wait.antt =====
-- `_wait_healthy` of nodes/model_manager_4090/manager.py: the loop that polls the server.
use project_nexus.Prelude.{
  ℕ, zero, suc, ◌+◌, ◌<◌, ◌≤◌, ◌≡◌, refl, Bool, true, false, Option, none, some, ltb, arith,
  if◌then◌else◌, if_known, ltb→lt, inl, inr, subst, nat_eq, nat_eq_iff, Bool-cases,
}
use project_nexus.Prelude.Int.{ℤ}

-- What the loop sees in its `k`-th round: the monotonic clock at its head, the exit code that
-- `process.poll` reports, and whether /health answers 200.
pub record Host : Type 0 where
  pub clock : ℕ → ℕ
  pub poll : ℕ → Option ℤ
  pub healthy : ℕ → Bool

-- How the wait ends, and after how many rounds; `out_of_fuel` is no way that the program ends.
pub data Waited : Type 0 where
  ready : ℕ → Waited
  exited : ℤ → Waited
  timed_out : Waited
  out_of_fuel : Waited

unfoldable pub after_poll : Option ℤ → Bool → ℕ → Waited → Waited
after_poll (some code) healthy k rest = exited code
after_poll none healthy k rest = if healthy then ready k else rest

unfoldable pub wait_loop : Host → ℕ → ℕ → ℕ → Waited
unfolding after_poll
wait_loop host deadline zero k = out_of_fuel
wait_loop host deadline (suc fuel) k =
    let rest = wait_loop host deadline fuel (k + 1) in
    if ltb (host.clock k) deadline
    then after_poll (host.poll k) (host.healthy k) k rest
    else timed_out

-- The clock is read for the deadline before the first round.
unfoldable pub wait_healthy : Host → ℕ → ℕ → Waited
unfolding wait_loop
wait_healthy host start timeout = wait_loop host (start + timeout) (suc timeout) 0

-- The sleep between two rounds takes time.
abbrev pub Advances : Host → Type 0
Advances host = (k : ℕ) → host.clock k < host.clock (k + 1)

-- A round after which the wait goes on: it began before the deadline, the process lived, and the
-- server did not answer.
pub record IsWaiting (host : Host) (deadline k : ℕ) : Type 0 where
  pub in_time : host.clock k < deadline
  pub alive : host.poll k ≡ none
  pub silent : host.healthy k ≡ false

-- all rounds before the `k`-th one
abbrev pub Waiting : Host → ℕ → ℕ → Type 0
Waiting host deadline k = (j : ℕ) → j < k → IsWaiting host deadline j

-- What each answer of `wait_healthy` says of the last round and of all rounds before it.
abbrev pub Explained : Host → ℕ → Waited → Type 0
Explained host deadline (ready k) =
    Waiting host deadline k
    × (host.clock k < deadline)
    × (host.poll k ≡ none)
    × (host.healthy k ≡ true)
Explained host deadline (exited code) =
    (k : ℕ) × Waiting host deadline k × (host.clock k < deadline) × (host.poll k ≡ some code)
Explained host deadline timed_out = (k : ℕ) × Waiting host deadline k × (deadline ≤ host.clock k)
Explained host deadline out_of_fuel = ⊥

Waiting-suc :
    (host : Host) (deadline k : ℕ)
    → Waiting host deadline k
    → IsWaiting host deadline k
    → Waiting host deadline (k + 1)
Waiting-suc host deadline k before now j lt = elim (Bool-cases (nat_eq k j)) [
  | inl same ↦ subst (IsWaiting host deadline) ((nat_eq_iff k j).0 same) now
  | inr other ↦ before j (ground arith)
]

poll-Explained :
    (host : Host) (deadline k : ℕ) (code : Option ℤ) (healthy : Bool) (rest : Waited)
    → Waiting host deadline k
    → host.clock k < deadline
    → host.poll k ≡ code
    → host.healthy k ≡ healthy
    → (Waiting host deadline (k + 1) → Explained host deadline rest)
    → Explained host deadline (after_poll code healthy k rest)
unfolding after_poll
poll-Explained host deadline k (some code) healthy rest before t p h e = (k, before, t, p)
poll-Explained host deadline k none true rest before t p h e = (before, t, p, h)
poll-Explained host deadline k none false rest before t p h e =
    e (Waiting-suc host deadline k before (record { in_time = t; alive = p; silent = h }))

-- the fuel that is left outlasts the time that is left
loop-Explained :
    (host : Host) (deadline fuel k : ℕ)
    → Advances host
    → Waiting host deadline k
    → deadline ≤ host.clock k + fuel
    → Explained host deadline (wait_loop host deadline (suc fuel) k)
unfolding wait_loop
loop-Explained host deadline zero k adv before h =
    if_known (Explained host deadline) (ltb (host.clock k) deadline)
      (λ t. absurd (ground (arith, ltb→lt (host.clock k) deadline t)))
      (λ t. (k, before, ground arith))
loop-Explained host deadline (suc fuel) k adv before h =
    if_known (Explained host deadline) (ltb (host.clock k) deadline)
      (λ t.
        poll-Explained host deadline k (host.poll k) (host.healthy k) _ before
          (ltb→lt (host.clock k) deadline t) refl refl
          (λ more. loop-Explained host deadline fuel (k + 1) adv more (omega (arith, adv k, h))))
      (λ t. (k, before, ground arith))

-- The wait ends where the clock advances from round to round. It is ready in the first round in which
-- the server answers, reports the process's exit in the first round that sees one, and times out in the
-- first round at or after the deadline; every round before began before the deadline, with the process
-- alive and the server silent.
pub wait_ends :
    (host : Host) (start timeout : ℕ)
    → Advances host
    → start ≤ host.clock 0
    → Explained host (start + timeout) (wait_healthy host start timeout)
unfolding wait_healthy
wait_ends host start timeout adv h =
    loop-Explained host (start + timeout) timeout 0 adv (λ j lt. absurd (omega (arith, lt)))
      (omega (arith, h))
