-- ===== src/Hub/Sessions/Reuse.antt =====
-- nodes/brainstem_4070/sessions.py: about sequences of calls of the session store.
use project_nexus.Prelude.{
  ℕ, ◌≡◌, refl, sym, ap, ap₂, ◌∙◌, subst, Bool, true, false, Option, none, some, List, [], ◌∷◌,
  String, ◌==◌, if◌then◌else◌, Option-cases, Bool-cases, inl, inr, eq_of_test, none_ne_some,
  some_injective,
}
use project_nexus.Py.Dict.{lookup}
use project_nexus.Hub.Sessions.Store.{
  Session, Sessions, key, stored_turn, mint, get_or_mint, record_turn,
}
use project_nexus.Hub.Sessions.Laws.{
  session_of, get_known, get_new, session-get_ne, session-record_ne, session-record_self,
  stored_turn_recorded,
}

-- A call of the store, for any pair, and whether its flush succeeds.
pub data Call : Type 0 where
  get : Bool → String → String → String → Call
  record_it : Bool → String → String → ℕ → Call

unfoldable pub call : Call → Sessions → Sessions
call (get w hex p m) s = (get_or_mint w hex s p m).1
call (record_it w p m n) s = record_turn w s p m n

unfoldable pub call_all : List Call → Sessions → Sessions
unfolding call
call_all [] s = s
call_all (c ∷ cs) s = call_all cs (call c s)

-- The counter that the calls record last under the key `k`, or `n`.
abbrev pub last_recorded : String → ℕ → List Call → ℕ
last_recorded k n [] = n
last_recorded k n (get w hex p m ∷ cs) = last_recorded k n cs
last_recorded k n (record_it w p m i ∷ cs) = last_recorded k (if key p m == k then i else n) cs

-- The session of the pair has this id and this counter.
abbrev Has : String → String → String → ℕ → Sessions → Type 0
Has p m sid n s =
    (entry : Session) × (session_of s p m ≡ some entry)
    × (entry.session_id ≡ sid)
    × (stored_turn entry ≡ n)

-- what the store holds under one key it holds under an equal one
session_of-key :
    (p m p' m' : String) (s : Sessions)
    → (key p' m' == key p m) ≡ true
    → session_of s p' m' ≡ session_of s p m
session_of-key p m p' m' s same =
    ap (λ k. lookup k s.sessions) (eq_of_test (key p' m') (key p m) same)

get-Has :
    (p m sid : String) (n : ℕ) (w : Bool) (hex p' m' : String) (s : Sessions)
    → Has p m sid n s
    → Has p m sid n (get_or_mint w hex s p' m').1
get-Has p m sid n w hex p' m' s (entry, there, id, turn) =
    elim (Bool-cases (key p' m' == key p m)) [
      | inl same ↦
          subst (Has p m sid n)
            (sym (
              ap (λ r. r.1)
                (get_known w hex s p' m' entry (session_of-key p m p' m' s same ∙ there))))
            (entry, there, id, turn)
      | inr other ↦ (entry, session-get_ne w hex s p' m' p m other ∙ there, id, turn)
    ]

record-Has :
    (p m sid : String) (n : ℕ) (w : Bool) (p' m' : String) (i : ℕ) (s : Sessions)
    → Has p m sid n s
    → Has p m sid (if key p' m' == key p m then i else n) (record_turn w s p' m' i)
record-Has p m sid n w p' m' i s (entry, there, id, turn) =
    elim (Bool-cases (key p' m' == key p m)) [
      | inl same ↦ rw same (
        record entry { turn_idx = some i },
        sym (session_of-key p m p' m' (record_turn w s p' m' i) same)
            ∙ session-record_self w s p' m' i entry (session_of-key p m p' m' s same ∙ there),
        id,
        stored_turn_recorded entry i,
      )
      | inr other ↦ rw other (entry, session-record_ne w s p' m' p m i other ∙ there, id, turn)
    ]

all-Has :
    (p m sid : String) (cs : List Call) (n : ℕ) (s : Sessions)
    → Has p m sid n s
    → Has p m sid (last_recorded (key p m) n cs) (call_all cs s)
unfolding call_all
all-Has p m sid [] n s h = h
all-Has p m sid (get w hex p' m' ∷ cs) n s h =
    all-Has p m sid cs n _ (get-Has p m sid n w hex p' m' s h)
all-Has p m sid (record_it w p' m' i ∷ cs) n s h =
    all-Has p m sid cs (if key p' m' == key p m then i else n) _
      (record-Has p m sid n w p' m' i s h)

answer_of :
    (w : Bool) (hex : String) (p m sid : String) (n : ℕ) (s : Sessions)
    → Has p m sid n s
    → (get_or_mint w hex s p m).0 ≡ some (sid, n)
answer_of w hex p m sid n s (entry, there, id, turn) =
    ap (λ r. r.0) (get_known w hex s p m entry there) ∙ ap₂ (λ i k. some (i, k)) id turn

minted :
    (w : Bool) (id sid : String) (t n : ℕ)
    → ◌≡◌ {A = Option (String × ℕ)} (if w then some (id, t) else none) (some (sid, n))
    → (id ≡ sid) × (t ≡ n)
minted true id sid t n e = (ap (λ r. r.0) (some_injective e), ap (λ r. r.1) (some_injective e))
minted false id sid t n e = absurd (none_ne_some e)

-- the answer of the first contact is what the store holds after it
first-Has :
    (w : Bool) (hex : String) (s : Sessions) (p m sid : String) (n : ℕ)
    → (get_or_mint w hex s p m).0 ≡ some (sid, n)
    → Has p m sid n (get_or_mint w hex s p m).1
first-Has w hex s p m sid n e = elim (Option-cases (session_of s p m)) [
  | inl new ↦
      let is_minted = minted w _ sid _ n (sym (new_answer new) ∙ e) in
      (mint hex, get_new w hex s p m new, is_minted.0, is_minted.1)
  | inr (entry, old) ↦
      let known = get_known w hex s p m entry old in
      let same = some_injective (sym (ap (λ r. r.0) known) ∙ e) in
      subst (Has p m sid n) (sym (ap (λ r. r.1) known))
        (entry, old, ap (λ r. r.0) same, ap (λ r. r.1) same)
]
  where
    new_answer :
        session_of s p m ≡ none
        → (get_or_mint w hex s p m).0
          ≡ (if w then some ((mint hex).session_id, stored_turn (mint hex)) else none)
    new_answer new = unfold get_or_mint in rw (new, get_or_mint) refl

-- The session id that a pair is told once, it is told again after any calls of the store for any pairs,
-- whether or not their flushes succeed, with the counter that they recorded last for it; or the counter
-- of the first time, where they recorded none.
pub session_reused :
    (w w' : Bool) (hex hex' : String) (s : Sessions) (p m sid : String) (n : ℕ) (cs : List Call)
    → (get_or_mint w hex s p m).0 ≡ some (sid, n)
    → (get_or_mint w' hex' (call_all cs (get_or_mint w hex s p m).1) p m).0
      ≡ some (sid, last_recorded (key p m) n cs)
session_reused w w' hex hex' s p m sid n cs e =
    answer_of w' hex' p m sid _ _ (all-Has p m sid cs n _ (first-Has w hex s p m sid n e))
