-- ===== src/Manager/Lifecycle/Presence.antt =====
-- nodes/model_manager_4090/manager.py: the reports in the trace, against the loaded members.
use project_nexus.Prelude.{
  ◌≡◌, ◌⊎◌, refl, sym, ap, ◌∙◌, Bool, true, false, not, ◌&&◌, ◌||◌, inl, inr, Option, none, some,
  List, [], ◌∷◌, String, ◌==◌, arith, eq_iff, if◌then◌else◌, if_both, subst,
}
use project_nexus.Py.Dict.{Dict, insert, contains, contains-insert, IsDistinct, insert-IsDistinct}
use project_nexus.Manager.Lifecycle.Load.{
  Effect, report, spawn, terminate, kill, write_record, Manager, LoadedMember, emit, record_load,
}

-- the presence that was reported last, heard or not
unfoldable pub last_report : String → List Effect → Option String
last_report i [] = none
last_report i (report j p heard ∷ es) =
    let rest = last_report i es in if j == i then some p else rest
last_report i (e ∷ es) = last_report i es

-- the presence that the hub took last
unfoldable pub last_told : String → List Effect → Option String
last_told i [] = none
last_told i (report j p heard ∷ es) =
    let rest = last_told i es in if j == i && heard then some p else rest
last_told i (e ∷ es) = last_told i es

-- a report on `i` never reached the hub
unfoldable pub was_lost : String → List Effect → Bool
was_lost i [] = false
was_lost i (report j p heard ∷ es) = (j == i && not heard) || was_lost i es
was_lost i (e ∷ es) = was_lost i es

-- What was reported last of a member that is loaded, or is not.
abbrev pub Agrees : Bool → Option String → Type 0
Agrees true told = told ≡ some "awake"
Agrees false told = (told ≡ none) ⊎ (told ≡ some "asleep")

told_if :
    (here heard lost : Bool) (p : String) (r t : Option String)
    → (t ≡ r) ⊎ (lost ≡ true)
    → ((if here && heard then some p else t) ≡ (if here then some p else r))
      ⊎ (((here && not heard) || lost) ≡ true)
told_if true true lost p r t h = inl refl
told_if true false lost p r t h = inr refl
told_if false heard lost p r t h = h

-- The hub has the last report on a member, or a report on it was lost.
pub heard_or_lost :
    (i : String) (es : List Effect) → (last_told i es ≡ last_report i es) ⊎ (was_lost i es ≡ true)
unfolding last_told last_report was_lost
heard_or_lost i [] = inl refl
heard_or_lost i (report j p heard ∷ es) =
    told_if (j == i) heard (was_lost i es) p _ _ (heard_or_lost i es)
heard_or_lost i (spawn command ∷ es) = heard_or_lost i es
heard_or_lost i (terminate pid ∷ es) = heard_or_lost i es
heard_or_lost i (kill pid ∷ es) = heard_or_lost i es
heard_or_lost i (write_record j ok ∷ es) = heard_or_lost i es

pub record IsSound (m : Manager) : Type 0 where
  pub distinct : IsDistinct m.loaded
  pub agrees : (i : String) → Agrees (contains i m.loaded) (last_report i m.effects)

-- What the manager reported is in step with what is loaded, and so is what the hub knows of a member
-- none of whose reports was lost.
pub record IsInStep (m : Manager) : Type 0 where
  pub reported : IsSound m
  pub heard :
      (i : String)
      → Agrees (contains i m.loaded) (last_told i m.effects) ⊎ (was_lost i m.effects ≡ true)

pub sound-IsInStep : (m : Manager) → IsSound m → IsInStep m
sound-IsInStep m s = record {
  reported = s;
  heard = λ i. elim (heard_or_lost i m.effects) [
    | inl same ↦ inl (subst (Agrees (contains i m.loaded)) (sym same) (s.agrees i))
    | inr lost ↦ inr lost
  ];
}

-- `m'` differs from `m` in what is loaded and reported of `i`.
pub record Moved (i : String) (b : Bool) (p : String) (m m' : Manager) : Type 0 where
  pub distinct : IsDistinct m.loaded → IsDistinct m'.loaded
  pub loaded :
      (j : String)
      → IsDistinct m.loaded
      → contains j m'.loaded ≡ (if i == j then b else contains j m.loaded)
  pub told :
      (j : String) → last_report j m'.effects ≡ (if i == j then some p else last_report j m.effects)

Agrees-if :
    (t b c : Bool) (p : String) (r : Option String)
    → Agrees b (some p)
    → Agrees c r
    → Agrees (if t then b else c) (if t then some p else r)
Agrees-if true b c p r h k = h
Agrees-if false b c p r h k = k

pub Moved-IsSound :
    (i : String) (b : Bool) (p : String) (m m' : Manager)
    → Agrees b (some p)
    → Moved i b p m m'
    → IsSound m
    → IsSound m'
Moved-IsSound i b p m m' h v s = record {
  distinct = v.distinct s.distinct;
  agrees = λ j. rw (v.loaded j s.distinct, v.told j) (Agrees-if (i == j) b _ p _ h (s.agrees j));
}

-- what holds with a metric record and without one
pub recorded :
    (P : Manager → Type 0) (i : String) (ok : Bool) (m : Manager)
    → P m
    → P (emit (write_record i ok) m)
    → P (record_load i ok m)
unfolding record_load
recorded P i ok m h k = if_both P m.config.has_sink k h

-- `n` is the state during a load of `i` that began in `m`.
pub record Waking (i : String) (m n : Manager) : Type 0 where
  pub same : n.loaded ≡ m.loaded
  pub told :
      (j : String)
      → last_report j n.effects ≡ (if i == j then some "waking" else last_report j m.effects)

overwritten :
    (t : Bool) (p q : String) (r s : Option String)
    → r ≡ (if t then some q else s)
    → (if t then some p else r) ≡ (if t then some p else s)
overwritten true p q r s h = refl
overwritten false p q r s h = h

not_loaded :
    (i j : String) (loaded : Dict LoadedMember)
    → contains i loaded ≡ false
    → contains j loaded ≡ (if i == j then false else contains j loaded)
not_loaded i j loaded h = ground (arith, eq_iff i j)

pub Moved-asleep :
    (i : String) (m n : Manager)
    → contains i m.loaded ≡ false
    → Waking i m n
    → (heard : Bool) → Moved i false "asleep" m (emit (report i "asleep" heard) n)
unfolding emit last_report
Moved-asleep i m n out w heard = record {
  distinct = λ h. subst IsDistinct (sym w.same) h;
  loaded = λ j h. ap (contains j) w.same ∙ not_loaded i j m.loaded out;
  told = λ j. overwritten (i == j) "asleep" "waking" _ _ (w.told j);
}

or_if : (t b c : Bool) → b ≡ c → (t || b) ≡ (if t then true else c)
or_if true b c h = refl
or_if false b c h = h

pub Moved-awake :
    (i : String) (e : LoadedMember) (m n : Manager)
    → Waking i m n
    → (heard : Bool)
    → Moved i true "awake" m
        (emit (report i "awake" heard) (record n { loaded = insert i e n.loaded }))
unfolding emit last_report
Moved-awake i e m n w heard = record {
  distinct = λ h. insert-IsDistinct i e n.loaded (subst IsDistinct (sym w.same) h);
  loaded = λ j h. contains-insert i j e n.loaded ∙ or_if (i == j) _ _ (ap (contains j) w.same);
  told = λ j. overwritten (i == j) "awake" "waking" _ _ (w.told j);
}

pub Waking-emit :
    (i : String) (m n : Manager) (e : Effect)
    → ((j : String) → last_report j (e ∷ n.effects) ≡ last_report j n.effects)
    → Waking i m n
    → Waking i m (emit e n)
unfolding emit
Waking-emit i m n e silent w = record { same = w.same; told = λ j. silent j ∙ w.told j }
