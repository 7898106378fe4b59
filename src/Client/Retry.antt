-- ===== src/Client/Retry.antt =====
-- clients/cli/nexus_cli.py: the retries of `_call_member_with_retry` and
-- `_call_with_cortex_down_retry`. The `k`-th call of a turn is answered by `calls k`.
use project_nexus.Prelude.{
  ℕ, zero, suc, ◌+◌, Option, none, some, List, [], ◌∷◌, ltb, leb, if◌then◌else◌,
}
use project_nexus.Prelude.Int.{ℤ, pos, negsuc, is_zero}
use project_nexus.Client.Calls.{Called, returned, raised}
use project_nexus.Client.Errors.{brainstem_error, cortex_down, member_loading}

abbrev pub max_member_loading_retries : ℕ
max_member_loading_retries = 3

abbrev pub member_loading_wait_cap : ℕ
member_loading_wait_cap = 60

abbrev pub cortex_down_wait_cap : ℕ
cortex_down_wait_cap = 30

abbrev pub clamp : ℤ → ℕ → ℕ
clamp (negsuc n) cap = 1
clamp (pos n) cap = if leb n cap then (if leb n 1 then 1 else n) else cap

-- max(1, min(int(seconds or 5), cap))
unfoldable pub wait_seconds : ℤ → ℕ → ℕ
wait_seconds seconds cap = clamp (if is_zero seconds then pos 5 else seconds) cap

-- How the calls of a turn ended: the last call's outcome, how many calls were made, and how many
-- seconds were slept before each of them but the first.
pub record Turn (A : Type 0) : Type 0 where
  pub outcome : Called A
  pub calls : ℕ
  pub waits : List ℕ

abbrev pub last_call : {A : Type 0} → Called A → ℕ → Turn A
last_call outcome k = record { outcome = outcome; calls = k + 1; waits = [] }

abbrev pub slept : {A : Type 0} → ℕ → Option (Turn A) → Option (Turn A)
slept s none = none
slept s (some t) = some (record t { waits = s ∷ t.waits })

-- One round of the `while True` of _call_member_with_retry: what its call number `k` was answered,
-- the call after it, the value of `attempt`, and the rest of the loop.
unfoldable pub after_call :
    {A : Type 0} → ℕ → ℕ → Called A → Called A → Option (Turn A) → Option (Turn A)
unfolding wait_seconds
after_call attempt k (returned a) next rest = some (last_call (returned a) k)
after_call attempt k (raised (brainstem_error msg)) next rest =
    some (last_call (raised (brainstem_error msg)) k)
after_call attempt k (raised (member_loading msg seconds error_code)) next rest =
    if ltb max_member_loading_retries (attempt + 1)
    then some (last_call (raised (member_loading msg seconds error_code)) k)
    else slept (wait_seconds seconds member_loading_wait_cap) rest
after_call attempt k (raised (cortex_down msg seconds error_code)) next rest =
    slept (wait_seconds seconds cortex_down_wait_cap) (some (last_call next (k + 1)))

-- `none` is the loop out of fuel.
unfoldable pub member_loop : {A : Type 0} → (ℕ → Called A) → ℕ → ℕ → ℕ → Option (Turn A)
unfolding after_call
member_loop calls zero attempt k = none
member_loop calls (suc fuel) attempt k =
    after_call attempt k (calls k) (calls (k + 1)) (member_loop calls fuel (attempt + 1) (k + 1))

unfoldable pub call_member_with_retry : {A : Type 0} → (ℕ → Called A) → Option (Turn A)
unfolding member_loop
call_member_with_retry calls = member_loop calls 4 0 0

unfoldable pub after_generate : {A : Type 0} → Called A → Called A → Turn A
unfolding wait_seconds
after_generate (raised (cortex_down msg seconds error_code)) next = record {
  outcome = next;
  calls = 2;
  waits = wait_seconds seconds cortex_down_wait_cap ∷ [];
}
after_generate (raised (brainstem_error msg)) next = last_call (raised (brainstem_error msg)) 0
after_generate (raised (member_loading msg seconds error_code)) next =
    last_call (raised (member_loading msg seconds error_code)) 0
after_generate (returned a) next = last_call (returned a) 0

unfoldable pub call_with_cortex_down_retry : {A : Type 0} → (ℕ → Called A) → Turn A
unfolding after_generate
call_with_cortex_down_retry calls = after_generate (calls 0) (calls 1)
