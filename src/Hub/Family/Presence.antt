-- ===== src/Hub/Family/Presence.antt =====
-- Presence transitions: what `set_presence` changes and what it leaves alone.
use project_nexus.Prelude.{
  ◌≡◌, ◌≢◌, ap, ◌∙◌, sym, Bool, true, false, some, String, arith, test_of_ne, ◌==◌, if◌then◌else◌,
}
use project_nexus.Py.Dict.{
  Dict, lookup, contains, lookup-insert, lookup-insert_self, contains-insert_present,
}
use project_nexus.Hub.Family.State.{
  Family, ok, unknown_member, value_error, is_presence, subscript, stamp, enter_presence,
  set_presence, queued_messages, presence, last_asleep_at,
}
use project_nexus.Hub.Family.Valid.{
  IsValid, inbox-flush, presences-flush, log-flush, log_of, set_presence_ok, enter_presence-IsValid,
}

lookup-stamp :
    (p now : String) (entry : Dict String)
    → lookup "last_asleep_at" (stamp p now entry)
      ≡ (if p == "asleep" then some now else lookup "last_asleep_at" entry)
unfolding stamp
lookup-stamp p now entry = ground (
  arith,
  lookup-insert "last_asleep_at" "last_asleep_at" now entry,
  lookup-insert "last_awake_at" "last_asleep_at" now entry,
)

last_asleep_before :
    (p now : String) (s : Family) (m : String) (entry : Dict String)
    → contains m s.presences ≡ true
    → lookup m s.log ≡ some entry
    → ok (if p == "asleep" then some now else lookup "last_asleep_at" entry)
      ≡ (if p == "asleep" then ok (some now) else last_asleep_at s m)
unfolding last_asleep_at
last_asleep_before p now s m entry here found = rw (here, found, subscript) (ground arith)

module _ (writes : Bool) (now : String) (s : Family) (m p : String) (entry : Dict String) where
  presence-enter :
      contains m s.presences ≡ true → presence (enter_presence writes now s m p entry) m ≡ ok p
  unfolding presence enter_presence
  presence-enter here = rw (
    presences-flush,
    contains-insert_present m p s.presences m here,
    here,
    lookup-insert_self,
    subscript,
  )

  presence-enter_ne :
      contains m s.presences ≡ true
      → (j : String) → j ≢ m
      → presence (enter_presence writes now s m p entry) j ≡ presence s j
  unfolding presence enter_presence
  presence-enter_ne here j ne = rw (
    presences-flush,
    contains-insert_present m p s.presences j here,
    subscript,
    lookup-insert,
    test_of_ne m j (λ e. ne (sym e)),
  )

  queued-enter :
      contains m s.presences ≡ true
      → (j : String)
      → queued_messages (enter_presence writes now s m p entry) j ≡ queued_messages s j
  unfolding queued_messages enter_presence
  queued-enter here j =
      rw (presences-flush, inbox-flush, contains-insert_present m p s.presences j here)

  last_asleep-enter :
      contains m s.presences ≡ true
      → last_asleep_at (enter_presence writes now s m p entry) m
        ≡ ok (if p == "asleep" then some now else lookup "last_asleep_at" entry)
  unfolding last_asleep_at enter_presence
  last_asleep-enter here =
      rw
        (
          presences-flush,
          log-flush,
          contains-insert_present m p s.presences m here,
          here,
          subscript,
          lookup-insert_self,
        )
        (ap ok (lookup-stamp p now entry))

-- After a report of a known state the member has that state, falling asleep is dated and no other
-- report changes that date; no other member's presence and nobody's queue changes.
pub set_presence_effect :
    (writes : Bool) (now : String) (s : Family) (m p : String)
    → IsValid s
    → contains m s.presences ≡ true
    → is_presence p ≡ true
    → (s' : Family) × (set_presence writes now s m p ≡ ok s')
      × IsValid s'
      × (presence s' m ≡ ok p)
      × (last_asleep_at s' m ≡ (if p == "asleep" then ok (some now) else last_asleep_at s m))
      × ((j : String) → j ≢ m → presence s' j ≡ presence s j)
      × ((j : String) → queued_messages s' j ≡ queued_messages s j)
set_presence_effect writes now s m p h here known =
    let (entry, found) = log_of s m h here in
    (
      enter_presence writes now s m p entry,
      set_presence_ok writes now s m p entry here known found,
      enter_presence-IsValid writes now s m p entry h here known,
      presence-enter writes now s m p entry here,
      last_asleep-enter writes now s m p entry here ∙ last_asleep_before p now s m entry here found,
      presence-enter_ne writes now s m p entry here,
      queued-enter writes now s m p entry here,
    )

-- A report about an unknown member and a report of an unknown state are refused.
pub set_presence_refusals :
    (writes : Bool) (now : String) (s : Family) (m p : String)
    → (contains m s.presences ≡ false → set_presence writes now s m p ≡ unknown_member)
      × (contains m s.presences ≡ true
          → is_presence p ≡ false
          → set_presence writes now s m p ≡ value_error)
unfolding set_presence
set_presence_refusals writes now s m p = ((λ away. rw away), (λ here bad. rw (here, bad)))
