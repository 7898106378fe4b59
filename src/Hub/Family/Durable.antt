-- ===== src/Hub/Family/Durable.antt =====
-- Restarts: what `_flush_locked` wrote, `__init__` reads back.
use project_nexus.Prelude.{
  ◌≡◌, refl, ◌∙◌, sym, Bool, true, false, ◌||◌, Option, none, some, List, [], ◌∷◌, String, arith,
  eq_iff, any, ◌==◌, if◌then◌else◌,
}
use project_nexus.Py.Dict.{
  Dict, lookup, insert, contains, lookup-insert, contains-insert, lookup_of_not_contains,
  IsDistinct, contains-insert_present,
}
use project_nexus.Hub.Family.State.{
  Family, ok, v2, is_presence, subscript, flush, boot, init, started, load_raises, add_keys,
  overlay, as_stored, queued_messages, presence, last_asleep_at, get_message,
}
use project_nexus.Hub.Family.Valid.{IsValid}

or_false : (b : Bool) → (b || false) ≡ b
or_false true = refl
or_false false = refl

-- What a lookup finds after the file's map is laid over the fresh one.
abbrev laid {ℓ} : {V : Type ℓ} → Option V → Option V → Option V
laid none old = old
laid (some v) old = some v

lookup-overlay :
    {V : Type 0} (j : String) (d base : Dict V)
    → IsDistinct d
    → lookup j (overlay (as_stored d) base)
      ≡ (if contains j base then laid (lookup j d) (lookup j base) else none)
unfolding overlay as_stored lookup
lookup-overlay j [] base h = ground (arith, lookup_of_not_contains j base)
lookup-overlay j ((k, v) ∷ d) base h = ground (
  arith,
  eq_iff k j,
  lookup-insert k j v base,
  contains-insert_present k v base j,
  lookup_of_not_contains k d h.0,
  lookup_of_not_contains j base,
  lookup-overlay j d base h.1,
  lookup-overlay j d (insert k v base) h.1,
)

contains-overlay :
    {V : Type 0} (j : String) (d base : Dict V)
    → contains j (overlay (as_stored d) base) ≡ contains j base
unfolding overlay as_stored
contains-overlay j [] base = refl
contains-overlay j ((k, v) ∷ d) base = ground (
  arith,
  contains-insert_present k v base j,
  contains-overlay j d base,
  contains-overlay j d (insert k v base),
)

contains-add_keys :
    {V : Type 0} (j : String) (v : V) (ms : List String) (d : Dict V)
    → contains j (add_keys v ms d) ≡ (any (λ m. m == j) ms || contains j d)
unfolding add_keys
contains-add_keys j v [] d = refl
contains-add_keys j v (m ∷ ms) d =
    ground (arith, contains-insert m j v d, contains-add_keys j v ms (insert m v d))

lookup-add_keys :
    {V : Type 0} (j : String) (v : V) (ms : List String) (d : Dict V)
    → lookup j (add_keys v ms d) ≡ (if any (λ m. m == j) ms then some v else lookup j d)
unfolding add_keys
lookup-add_keys j v [] d = refl
lookup-add_keys j v (m ∷ ms) d =
    ground (arith, lookup-insert m j v d, lookup-add_keys j v ms (insert m v d))

-- The registry names exactly the members of the state.
abbrev pub IsRoster : List String → Family → Type 0
IsRoster members s = (j : String) → contains j s.presences ≡ any (λ m. m == j) members

found_or_absent :
    {V : Type 0} (j : String) (d : Dict V) (old : Option V)
    → (if contains j d then laid (lookup j d) old else none) ≡ lookup j d
unfolding contains lookup
found_or_absent j [] old = refl
found_or_absent j ((k, v) ∷ d) old = ground (arith, found_or_absent j d old)

contains-fresh :
    {V : Type 0} (j : String) (empty : V) (members : List String)
    → contains j (add_keys empty members []) ≡ any (λ m. m == j) members
unfolding contains
contains-fresh j empty members = contains-add_keys j empty members [] ∙ or_false _

-- A map that was flushed reads back, when it has exactly the members' keys.
lookup-restored :
    {V : Type 0} (j : String) (d : Dict V) (empty : V) (members : List String)
    → IsDistinct d
    → contains j d ≡ any (λ m. m == j) members
    → lookup j (overlay (as_stored d) (add_keys empty members [])) ≡ lookup j d
lookup-restored j d empty members h roster =
    rw (lookup-overlay j d _ h, contains-fresh, ← roster) (found_or_absent j d _)

module _ (s s' : Family) (j : String)
    (known : contains j s.presences ≡ contains j s'.presences) where
  queued_ext : lookup j s.inbox ≡ lookup j s'.inbox → queued_messages s j ≡ queued_messages s' j
  unfolding queued_messages
  queued_ext e = rw (known, subscript, e)

  get_message_ext :
      (k : String) → lookup j s.inbox ≡ lookup j s'.inbox → get_message s j k ≡ get_message s' j k
  unfolding get_message
  get_message_ext k e = rw (known, subscript, e)

  last_asleep_ext : lookup j s.log ≡ lookup j s'.log → last_asleep_at s j ≡ last_asleep_at s' j
  unfolding last_asleep_at
  last_asleep_ext e = rw (known, subscript, e)

disk-flush :
    (s : Family)
    → s.durable ≡ true
    → (flush true s).disk ≡ v2 (some (as_stored s.inbox)) (some (as_stored s.log))
unfolding flush
disk-flush s d = ground arith

-- A restart: the disk takes the last write, and the hub boots over the file with the same registry
-- and any known default presence. Every member's queue, every message and the time it last fell
-- asleep are what they were, and everybody has the default presence.
pub restart_keeps :
    (s : Family) (members : List String) (p : String)
    → IsValid s
    → s.durable ≡ true
    → IsRoster members s
    → is_presence p ≡ true
    → (s' : Family) × (init members p true (flush true s).disk ≡ started s')
      × ((j : String) → queued_messages s' j ≡ queued_messages s j)
      × ((j k : String) → get_message s' j k ≡ get_message s j k)
      × ((j : String) → last_asleep_at s' j ≡ last_asleep_at s j)
      × ((j : String) → any (λ m. m == j) members ≡ true → presence s' j ≡ ok p)
restart_keeps s members p h d roster known = (
  boot members p true (flush true s).disk,
  starts,
  (λ j. queued_ext _ s j (boots_known j) (boots_inbox j)),
  (λ j k. get_message_ext _ s j (boots_known j) k (boots_inbox j)),
  (λ j. last_asleep_ext _ s j (boots_known j) (boots_log j)),
  (λ j member. boot_presence j member),
)
  where
    starts :
        init members p true (flush true s).disk ≡ started (boot members p true (flush true s).disk)
    starts = unfold init load_raises in rw (known, disk-flush s d) refl

    boots_known :
        (j : String)
        → contains j (boot members p true (flush true s).disk).presences ≡ contains j s.presences
    boots_known j = unfold boot in (contains-fresh j p members ∙ sym (roster j))

    boots_inbox :
        (j : String) → lookup j (boot members p true (flush true s).disk).inbox ≡ lookup j s.inbox
    boots_inbox j = rw (disk-flush s d) (
        unfold boot in lookup-restored j s.inbox [] members h.inbox_keys (h.has_inbox j ∙ roster j))

    boots_log :
        (j : String) → lookup j (boot members p true (flush true s).disk).log ≡ lookup j s.log
    boots_log j =
        rw (disk-flush s d)
          (unfold boot in lookup-restored j s.log [] members h.log_keys (h.has_log j ∙ roster j))

    boot_presence :
        (j : String)
        → any (λ m. m == j) members ≡ true
        → presence (boot members p true (flush true s).disk) j ≡ ok p
    boot_presence j member =
        unfold boot presence in rw (contains-fresh, member, subscript, lookup-add_keys, member)
