-- ===== src/Hub/Sessions/Laws.antt =====
-- nodes/brainstem_4070/sessions.py: single calls of the session store, and a restart.
use project_nexus.Prelude.{
  ℕ, ◌≡◌, refl, ap, ◌∙◌, Bool, true, false, Option, none, some, [], ◌∷◌, String, arith, test_of_ne,
  ◌==◌, Option-cases, inl, inr,
}
use project_nexus.Py.Dict.{Dict, lookup, lookup-insert, lookup-insert_self}
use project_nexus.Hub.Sessions.Store.{
  Session, Sessions, key, load, well_formed, as_file, flush, stored_turn, mint, get_or_mint,
  record_turn,
}
use project_nexus.Hub.Sessions.Keys.{has_colon, key_injective}

sessions-flush : (w : Bool) (s : Sessions) → (flush w s).sessions ≡ s.sessions
unfolding flush
sessions-flush w s = ground arith

-- The stored session of a pair.
abbrev pub session_of : Sessions → String → String → Option Session
session_of s p m = lookup (key p m) s.sessions

-- A pair that has a session gets that session, with its stored counter, and nothing is written.
pub get_known :
    (w : Bool) (hex : String) (s : Sessions) (p m : String) (entry : Session)
    → session_of s p m ≡ some entry
    → get_or_mint w hex s p m ≡ (some (entry.session_id, stored_turn entry), s)
unfolding get_or_mint
get_known w hex s p m entry e = rw (e, get_or_mint)

pub get_new :
    (w : Bool) (hex : String) (s : Sessions) (p m : String)
    → session_of s p m ≡ none
    → session_of (get_or_mint w hex s p m).1 p m ≡ some (mint hex)
unfolding get_or_mint
get_new w hex s p m e = rw (e, get_or_mint) (rw sessions-flush (lookup-insert_self _ _ _))

-- Whether or not the flush succeeds, the session of a pair after a call is the one that it had, or
-- the minted one.
session-get :
    (w : Bool) (hex : String) (s : Sessions) (p m : String)
    → (entry : Session) × (session_of (get_or_mint w hex s p m).1 p m ≡ some entry)
session-get w hex s p m = elim (Option-cases (session_of s p m)) [
  | inl new ↦ (mint hex, get_new w hex s p m new)
  | inr (entry, old) ↦ (entry, ap (λ r. session_of r.1 p m) (get_known w hex s p m entry old) ∙ old)
]

pub session-record_self :
    (w : Bool) (s : Sessions) (p m : String) (n : ℕ) (entry : Session)
    → session_of s p m ≡ some entry
    → session_of (record_turn w s p m n) p m ≡ some (record entry { turn_idx = some n })
unfolding record_turn
session-record_self w s p m n entry e =
    rw (e, record_turn) (rw sessions-flush (lookup-insert_self _ _ _))

pub stored_turn_recorded :
    (entry : Session) (n : ℕ) → stored_turn (record entry { turn_idx = some n }) ≡ n
unfolding stored_turn
stored_turn_recorded entry n = refl

pub session-get_ne :
    (w : Bool) (hex : String) (s : Sessions) (p m p' m' : String)
    → (key p m == key p' m') ≡ false
    → session_of (get_or_mint w hex s p m).1 p' m' ≡ session_of s p' m'
session-get_ne w hex s p m p' m' apart = elim (Option-cases (session_of s p m)) [
  | inl new ↦
      unfold get_or_mint in rw (new, get_or_mint) (rw sessions-flush (rw (lookup-insert, apart)))
  | inr (entry, old) ↦ ap (λ r. session_of r.1 p' m') (get_known w hex s p m entry old)
]

pub session-record_ne :
    (w : Bool) (s : Sessions) (p m p' m' : String) (n : ℕ)
    → (key p m == key p' m') ≡ false
    → session_of (record_turn w s p m n) p' m' ≡ session_of s p' m'
session-record_ne w s p m p' m' n apart = elim (Option-cases (session_of s p m)) [
  | inl new ↦ unfold record_turn in rw (new, record_turn)
  | inr (entry, old) ↦
      unfold record_turn in rw (old, record_turn) (rw sessions-flush (rw (lookup-insert, apart)))
]

-- Calls about one pair leave the session of every other pair as it is, when the members' ids hold no
-- colon.
pub session_of_others :
    (w : Bool) (hex : String) (s : Sessions) (p m p' m' : String) (n : ℕ)
    → has_colon m ≡ false
    → has_colon m' ≡ false
    → ¬ ((p ≡ p') × (m ≡ m'))
    → (session_of (get_or_mint w hex s p m).1 p' m' ≡ session_of s p' m')
      × (session_of (record_turn w s p m n) p' m' ≡ session_of s p' m')
session_of_others w hex s p m p' m' n h h' ne =
    let apart = test_of_ne (key p m) (key p' m') (λ e. ne (key_injective p p' m m' h h' e)) in
    (session-get_ne w hex s p m p' m' apart, session-record_ne w s p m p' m' n apart)

well_formed-as_file : (d : Dict Session) → well_formed (as_file d) ≡ d
unfolding well_formed as_file
well_formed-as_file [] = refl
well_formed-as_file ((k, v) ∷ d) = ap (◌∷◌ (k, v)) (well_formed-as_file d)

load-flush : (s : Sessions) → (load (flush true s).disk).sessions ≡ s.sessions
unfolding load flush
load-flush s = well_formed-as_file s.sessions

-- A counter that was recorded and flushed survives a restart, with its session id.
pub turn_survives_restart :
    (w : Bool) (hex : String) (s : Sessions) (p m : String) (n : ℕ) (entry : Session)
    → session_of s p m ≡ some entry
    → (get_or_mint w hex (load (record_turn true s p m n).disk) p m).0 ≡ some (entry.session_id, n)
turn_survives_restart w hex s p m n entry e =
    let entry' : Session = record entry { turn_idx = some n } in
    ap (λ r. r.0)
      (get_known w hex (load (record_turn true s p m n).disk) p m entry'
        (restarted s p m n entry e))
    ∙ ap (λ k. some (entry.session_id, k)) (stored_turn_recorded entry n)
  where
    restarted :
        (s : Sessions) (p m : String) (n : ℕ) (entry : Session)
        → session_of s p m ≡ some entry
        → session_of (load (record_turn true s p m n).disk) p m
          ≡ some (record entry { turn_idx = some n })
    restarted s p m n entry e =
        unfold record_turn in rw (e, record_turn) (rw load-flush (lookup-insert_self _ _ _))
