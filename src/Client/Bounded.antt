-- ===== src/Client/Bounded.antt =====
-- clients/cli/nexus_cli.py: how long the retries go on, and what ends them.
use project_nexus.Prelude.{
  ℕ, zero, suc, ◌+◌, ◌<◌, ◌≤◌, ◌≡◌, refl, sym, ap, subst, ◌∙◌, ◌⊎◌, inl, inr, Bool, true, false,
  ◌||◌, Option, none, some, ◌∷◌, length, All, ltb, nat_eq, nat_eq_iff, Bool-cases, if_known,
  false_ne_true, arith,
}
use project_nexus.Prelude.Int.{ℤ, pos, negsuc}
use project_nexus.Client.Calls.{Called, returned, raised}
use project_nexus.Client.Errors.{brainstem_error, cortex_down, member_loading}
use project_nexus.Client.Retry.{
  Turn, wait_seconds, after_call, member_loop, call_member_with_retry, last_call, slept,
}

abbrev pub is_loading : {A : Type 0} → Called A → Bool
is_loading (returned a) = false
is_loading (raised (brainstem_error msg)) = false
is_loading (raised (cortex_down msg seconds error_code)) = false
is_loading (raised (member_loading msg seconds error_code)) = true

abbrev pub is_down : {A : Type 0} → Called A → Bool
is_down (returned a) = false
is_down (raised (brainstem_error msg)) = false
is_down (raised (cortex_down msg seconds error_code)) = true
is_down (raised (member_loading msg seconds error_code)) = false

-- between one second and a minute
abbrev pub IsWait : ℕ → Type 0
IsWait w = (1 ≤ w) × (w ≤ 60)

-- The calls from the `first`-th to the `last`-th make the turn.
pub record IsRun {A : Type 0} (calls : ℕ → Called A) (first last : ℕ) (t : Turn A) : Type 0 where
  pub counted : t.calls ≡ last + 1
  pub few : last ≤ 4
  pub is_last : t.outcome ≡ calls last
  pub slept_before : length t.waits + first ≡ last
  pub waits_bounded : All IsWait t.waits
  -- every call before the last one found the member loading or the cortex down
  pub retried : (j : ℕ) → first ≤ j → j < last → (is_loading (calls j) || is_down (calls j)) ≡ true
  -- the turn ends on a loading member after three retries, or right after a cortex that was down
  pub patient :
      is_loading (calls last) ≡ true
      → (last ≡ 3) ⊎ ((j : ℕ) × (last ≡ j + 1) × (is_down (calls j) ≡ true))

abbrev pub Found : {A : Type 0} → (ℕ → Called A) → ℕ → Option (Turn A) → Type 0
Found {A = A} calls first o = (t : Turn A) × (last : ℕ) × (o ≡ some t) × IsRun calls first last t

wait_seconds-IsWait :
    (seconds : ℤ) (cap : ℕ) → 5 ≤ cap → cap ≤ 60 → IsWait (wait_seconds seconds cap)
unfolding wait_seconds
wait_seconds-IsWait (pos zero) cap h k = (ground arith, ground arith)
wait_seconds-IsWait (pos (suc n)) cap h k = (ground arith, ground arith)
wait_seconds-IsWait (negsuc n) cap h k = (omega arith, omega (arith, h, k))

short-IsWait : (seconds : ℤ) → IsWait (wait_seconds seconds 30)
short-IsWait seconds = wait_seconds-IsWait seconds 30 (omega arith) (omega arith)

module _ {A : Type 0} (calls : ℕ → Called A) where
  -- the turn ends with this call
  one_call :
      (k : ℕ) (c : Called A)
      → k ≤ 4
      → c ≡ calls k
      → (is_loading c ≡ true → k ≡ 3)
      → Found calls k (some (last_call c k))
  one_call k c few e h = (
    last_call c k,
    k,
    refl,
    record {
      counted = refl;
      few = few;
      is_last = e;
      slept_before = omega arith;
      waits_bounded = tt;
      retried = λ j le lt. absurd (omega (arith, le, lt));
      patient = λ l. inl (h (ap is_loading e ∙ l));
    },
  )

  -- a call that is tried again
  one_more :
      (k w : ℕ) (o : Option (Turn A))
      → (is_loading (calls k) || is_down (calls k)) ≡ true
      → IsWait w
      → Found calls (k + 1) o
      → Found calls k (slept w o)
  one_more k w o busy bound (t, last, e, r) = (
    record t { waits = w ∷ t.waits },
    last,
    ap (slept w) e,
    record {
      counted = r.counted;
      few = r.few;
      is_last = r.is_last;
      slept_before = omega (arith, r.slept_before);
      waits_bounded = (bound, r.waits_bounded);
      retried = λ j le lt. elim (Bool-cases (nat_eq k j)) [
        | inl same ↦
            subst (λ n. (is_loading (calls n) || is_down (calls n)) ≡ true)
              ((nat_eq_iff k j).0 same) busy
        | inr other ↦ r.retried j (ground arith) lt
      ];
      patient = r.patient;
    },
  )

  -- the call after a cortex that was down
  after_down :
      (k : ℕ)
      → k < 4
      → is_down (calls k) ≡ true
      → Found calls (k + 1) (some (last_call (calls (k + 1)) (k + 1)))
  after_down k lt down = (
    last_call (calls (k + 1)) (k + 1),
    k + 1,
    refl,
    record {
      counted = refl;
      few = omega (arith, lt);
      is_last = refl;
      slept_before = omega arith;
      waits_bounded = tt;
      retried = λ j le less. absurd (omega (arith, le, less));
      patient = λ l. inr (k, refl, down);
    },
  )

  after_call-IsRun :
      (k : ℕ) (c : Called A) (rest : Option (Turn A))
      → k ≤ 3
      → c ≡ calls k
      → (k < 3 → Found calls (k + 1) rest)
      → Found calls k (after_call k k c (calls (k + 1)) rest)
  unfolding after_call
  after_call-IsRun k (returned a) rest le e h =
      one_call k _ (omega (arith, le)) e (λ l. absurd (false_ne_true l))
  after_call-IsRun k (raised (brainstem_error msg)) rest le e h =
      one_call k _ (omega (arith, le)) e (λ l. absurd (false_ne_true l))
  after_call-IsRun k (raised (cortex_down msg seconds error_code)) rest le e h =
      one_more k (wait_seconds seconds 30) (some (last_call (calls (k + 1)) (k + 1)))
        (ap (λ c. is_loading c || is_down c) (sym e)) (short-IsWait seconds)
        (after_down k (omega (arith, le)) (ap is_down (sym e)))
  after_call-IsRun k (raised (member_loading msg seconds error_code)) rest le e h =
      if_known (Found calls k) (ltb 3 (k + 1))
        (λ t. one_call k _ (omega (arith, le)) e (λ l. ground (arith, le, t)))
        (λ f.
          one_more k (wait_seconds seconds 60) rest (ap (λ c. is_loading c || is_down c) (sym e))
            (wait_seconds-IsWait seconds 60 (omega arith) (omega arith))
            (h (ground (arith, le, f))))

  loop-IsRun : (fuel k : ℕ) → k + suc fuel ≡ 4 → Found calls k (member_loop calls (suc fuel) k k)
  unfolding member_loop
  loop-IsRun zero k h =
      after_call-IsRun k (calls k) none (omega (arith, h)) refl
        (λ lt. absurd (omega (arith, h, lt)))
  loop-IsRun (suc fuel) k h =
      after_call-IsRun k (calls k) _ (omega (arith, h)) refl
        (λ lt. loop-IsRun fuel (k + 1) (omega (arith, h)))

-- A turn with a family member ends, whatever its calls are answered: after at most five calls, with
-- the outcome of the last of them. Before every call but the first the client sleeps between one
-- second and a minute, and only because the call before found the member loading or the cortex down.
-- It gives up on a loading member after three retries, or where the cortex was down just before.
pub call_member_with_retry-IsRun :
    {A : Type 0} (calls : ℕ → Called A) → Found calls 0 (call_member_with_retry calls)
unfolding call_member_with_retry
call_member_with_retry-IsRun calls = loop-IsRun calls 3 0 (omega arith)
