-- ===== src/Manager/Lifecycle/Sound.antt =====
-- nodes/model_manager_4090/manager.py: about the presence that loads and unloads report.
use project_nexus.Prelude.{
  ◌≡◌, inr, refl, sym, ap, ◌∙◌, ℕ, Bool, true, false, Option, none, some, List, [], ◌∷◌, String,
  ◌==◌, if◌then◌else◌, subst,
}
use project_nexus.Py.Dict.{
  lookup, insert, erase, contains, contains-erase, erase-IsDistinct, IsDistinct,
  not_contains_of_lookup, lookup-insert_self, lookup-insert_self,
}
use project_nexus.Registry.Types.{FamilyMember}
use project_nexus.Manager.Tiering.{Tiers, Stage, staged_from, not_found, checksum_failed, io_failed}
use project_nexus.Manager.Lifecycle.Wait.{Waited, ready, exited, timed_out, out_of_fuel}
use project_nexus.Manager.Lifecycle.Load.{
  report, terminate, write_record, Manager, LoadedMember, Load, entry, raised, LoadError,
  process_exited, load_timeout, never, binary_not_found, os_error, Boot, Spawned, started,
  no_binary, spawn_failed, emit, loaded_member, fail_load, finish_load, after_wait, after_spawn,
  after_stage, load_new, load_or, load, stop_process, unload_entry, unload,
}
use project_nexus.Manager.Lifecycle.Presence.{
  last_report, IsSound, IsInStep, sound-IsInStep, Waking, Moved-IsSound, Moved-asleep, Moved-awake,
  Waking-emit, recorded,
}

-- What a load answers: the entry that is loaded, or an error and no entry.
abbrev pub Answers : String → Load → Manager → Type 0
Answers i (entry e) m = lookup i m.loaded ≡ some e
Answers i (raised error) m = lookup i m.loaded ≡ none

pub record IsDone (i : String) (r : Load × Manager) : Type 0 where
  pub sound : IsSound r.1
  pub answers : Answers i r.0 r.1

module _ (i : String) (m : Manager) (sound : IsSound m) (new : lookup i m.loaded ≡ none) where
  out : contains i m.loaded ≡ false
  out = not_contains_of_lookup i m.loaded new

  fail_load-IsDone :
      (boot : Boot) (error : LoadError) (n : Manager)
      → Waking i m n
      → IsDone i (fail_load boot i error n)
  unfolding fail_load emit last_report
  fail_load-IsDone boot error n w =
      let heard = boot.hears "asleep" in
      let v =
        Moved-IsSound i false "asleep" m _ (inr refl) (Moved-asleep i m n out w heard) sound in
      let none_there = ap (lookup i) w.same ∙ new in
      recorded (λ r. IsDone i (raised error, r)) i false (emit (report i "asleep" heard) n)
        (record { sound = v; answers = none_there })
        (record {
          sound = record { distinct = v.distinct; agrees = v.agrees };
          answers = none_there;
        })

  finish_load-IsDone :
      (boot : Boot) (path : String) (pid now : ℕ) (n : Manager)
      → Waking i m n
      → IsDone i (finish_load boot i path pid now n)
  unfolding finish_load emit last_report
  finish_load-IsDone boot path pid now n w =
      let heard = boot.hears "awake" in
      let e = loaded_member i path pid now n.config in
      recorded
        (λ r.
          IsDone i
            (entry e, emit (report i "awake" heard) (record r { loaded = insert i e r.loaded })))
        i true n
        (record {
          sound = Moved-IsSound i true "awake" m _ refl (Moved-awake i e m n w heard) sound;
          answers = lookup-insert_self i e n.loaded;
        })
        (record {
          sound =
              Moved-IsSound i true "awake" m _ refl
                (Moved-awake i e m _ (Waking-emit i m n (write_record i true) (λ j. refl) w) heard)
                sound;
          answers = lookup-insert_self i e n.loaded;
        })

  after_wait-IsDone :
      (boot : Boot) (path : String) (pid now : ℕ) (waited : Waited) (n : Manager)
      → Waking i m n
      → IsDone i (after_wait boot i path pid now waited n)
  unfolding after_wait last_report
  after_wait-IsDone boot path pid now (ready k) n w = finish_load-IsDone boot path pid now n w
  after_wait-IsDone boot path pid now (exited code) n w = fail_load-IsDone boot process_exited n w
  after_wait-IsDone boot path pid now timed_out n w =
      fail_load-IsDone boot load_timeout _ (Waking-emit i m n (terminate pid) (λ j. refl) w)
  after_wait-IsDone boot path pid now out_of_fuel n w = fail_load-IsDone boot never n w

module _ (boot : Boot) (member : FamilyMember) (m : Manager) (sound : IsSound m)
    (new : lookup member.id m.loaded ≡ none) where
  after_spawn-IsDone :
      (path : String) (spawned : Spawned) (n : Manager)
      → Waking member.id m n
      → IsDone member.id (after_spawn boot member path spawned n)
  unfolding after_spawn
  after_spawn-IsDone path (started pid) n w =
      after_wait-IsDone member.id m sound new boot path pid boot.now _ n w
  after_spawn-IsDone path no_binary n w =
      fail_load-IsDone member.id m sound new boot binary_not_found n w
  after_spawn-IsDone path spawn_failed n w =
      fail_load-IsDone member.id m sound new boot os_error n w

  -- `n` is `m` with the tiers after the staging
  after_stage-IsDone :
      (stage : Stage) (tiers : Tiers)
      → IsDone member.id (after_stage boot member stage (record m { tiers = tiers }))
  unfolding after_stage emit last_report
  after_stage-IsDone (staged_from tier) tiers =
      after_spawn-IsDone _ boot.spawned _ (record { same = refl; told = λ j. refl })
  after_stage-IsDone not_found tiers = record {
    sound = record { distinct = sound.distinct; agrees = sound.agrees };
    answers = new;
  }
  after_stage-IsDone checksum_failed tiers = record {
    sound = record { distinct = sound.distinct; agrees = sound.agrees };
    answers = new;
  }
  after_stage-IsDone io_failed tiers = record {
    sound = record { distinct = sound.distinct; agrees = sound.agrees };
    answers = new;
  }

load_or-IsDone :
    (sha256 : String → String) (boot : Boot) (member : FamilyMember) (e : Option LoadedMember)
    (m : Manager)
    → IsSound m
    → lookup member.id m.loaded ≡ e
    → IsDone member.id (load_or sha256 boot member e m)
unfolding load_or load_new
load_or-IsDone sha256 boot member (some e) m s h = record { sound = s; answers = h }
load_or-IsDone sha256 boot member none m s h = after_stage-IsDone boot member m s h _ _

-- Whatever the disks, the process, the server and the clock do, and whether or not the hub can be
-- reached, a load answers with the entry that is loaded, or raises and leaves the member out; and where
-- the presence that the manager reported last was awake for the loaded members, and asleep or none for
-- the others, it still is.
pub load-IsDone :
    (sha256 : String → String) (boot : Boot) (member : FamilyMember) (m : Manager)
    → IsSound m
    → IsDone member.id (load sha256 boot member m)
unfolding load
load-IsDone sha256 boot member m s =
    load_or-IsDone sha256 boot member (lookup member.id m.loaded) m s refl

-- `n` is `m` without the entry of `i`
unloaded-IsSound :
    (i : String) (m n : Manager)
    → IsSound m
    → n.loaded ≡ erase i m.loaded
    → ((j : String) → last_report j n.effects ≡ last_report j m.effects)
    → (heard : Bool) → IsSound (emit (report i "asleep" heard) n)
unfolding emit last_report
unloaded-IsSound i m n s same silent heard =
    Moved-IsSound i false "asleep" m _ (inr refl)
      (record {
        distinct = λ h. subst IsDistinct (sym same) (erase-IsDistinct i m.loaded h);
        loaded = λ j h. ap (contains j) same ∙ contains-erase i j m.loaded h;
        told = λ j. ap (λ r. if i == j then some "asleep" else r) (silent j);
      })
      s

unload_entry-IsSound :
    (stops heard : Bool) (i : String) (e : Option LoadedMember) (m : Manager)
    → IsSound m
    → IsSound (unload_entry stops heard i e m).1
unfolding unload_entry stop_process emit last_report
unload_entry-IsSound stops heard i none m s = s
unload_entry-IsSound true heard i (some e) m s = unloaded-IsSound i m _ s refl (λ j. refl) heard
unload_entry-IsSound false heard i (some e) m s = unloaded-IsSound i m _ s refl (λ j. refl) heard

-- What is asked of the manager, with what the surroundings do.
pub data Command : Type 0 where
  load_it : Boot → FamilyMember → Command
  unload_it : Bool → Bool → String → Command

unfoldable pub obey : (String → String) → Command → Manager → Manager
obey sha256 (load_it boot member) m = (load sha256 boot member m).1
obey sha256 (unload_it stops heard i) m = (unload stops heard i m).1

unfoldable pub obey_all : (String → String) → List Command → Manager → Manager
unfolding obey
obey_all sha256 [] m = m
obey_all sha256 (c ∷ cs) m = obey_all sha256 cs (obey sha256 c m)

obey-IsSound :
    (sha256 : String → String) (c : Command) (m : Manager) → IsSound m → IsSound (obey sha256 c m)
unfolding obey unload
obey-IsSound sha256 (load_it boot member) m s = (load-IsDone sha256 boot member m s).sound
obey-IsSound sha256 (unload_it stops heard i) m s =
    unload_entry-IsSound stops heard i (lookup i m.loaded) m s

obey_all-IsSound :
    (sha256 : String → String) (cs : List Command) (m : Manager)
    → IsSound m
    → IsSound (obey_all sha256 cs m)
unfolding obey_all
obey_all-IsSound sha256 [] m s = s
obey_all-IsSound sha256 (c ∷ cs) m s =
    obey_all-IsSound sha256 cs (obey sha256 c m) (obey-IsSound sha256 c m s)

-- Through any sequence of loads and unloads, with whatever failures, the manager reported last that a
-- loaded member is awake, and of every other member nothing or that it is asleep; and that is also what
-- the hub was told last of each member, unless a report on this member did not reach it.
pub obey_all-IsInStep :
    (sha256 : String → String) (cs : List Command) (m : Manager)
    → IsSound m
    → IsInStep (obey_all sha256 cs m)
obey_all-IsInStep sha256 cs m s = sound-IsInStep _ (obey_all-IsSound sha256 cs m s)
