-- ===== src/Hub/Family/Boot.antt =====
-- `__init__` and `_load` establish the invariant, whatever a well-formed file holds.
use project_nexus.Prelude.{
  ◌≡◌, refl, ap, ◌∙◌, sym, Bool, true, false, not, ◌&&◌, false_ne_true, Option, none, some, List,
  [], ◌∷◌, String, arith, ◌==◌, ◌||◌, Bool-cases, inl, inr, if◌then◌else◌,
}
use project_nexus.Py.Dict.{
  Dict, lookup, insert, contains, lookup-insert, contains-insert, IsDistinct, insert-IsDistinct,
  contains-insert_present,
}
use project_nexus.Hub.Family.State.{
  Family, Message, Stored, Inbox, PresenceLog, missing, unreadable, not_a_dict, not_utf8, bad_maps,
  v1, v2, Start, started, refused, stopped, load_raises, is_presence, load, fresh, boot, init,
  add_keys, overlay, overlay_opt,
}
use project_nexus.Hub.Family.Box.{IsBox}
use project_nexus.Hub.Family.Valid.{IsValid}

-- The inboxes in a file's map are boxes.
abbrev pub HoldsBoxes : Dict (Option (Dict Message)) → Type 0
HoldsBoxes [] = Unit
HoldsBoxes ((k, none) ∷ raw) = HoldsBoxes raw
HoldsBoxes ((k, some box) ∷ raw) = IsBox box × HoldsBoxes raw

abbrev pub IsFile : Stored → Type 0
IsFile (v1 raw) = HoldsBoxes raw
IsFile (v2 none log) = Unit
IsFile (v2 (some raw) log) = HoldsBoxes raw
IsFile _ = Unit

abbrev AllBoxes : Inbox → Type 0
AllBoxes inbox = (j : String) (box : Dict Message) → lookup j inbox ≡ some box → IsBox box

insert-AllBoxes :
    (k : String) (box : Dict Message) (d : Inbox)
    → IsBox box
    → AllBoxes d
    → AllBoxes (insert k box d)
insert-AllBoxes k box d b h j x e = ground (arith, lookup-insert k j box d, h j x)

module _ {V : Type 0} where
  add_keys-IsDistinct :
      (v : V) (ms : List String) (d : Dict V) → IsDistinct d → IsDistinct (add_keys v ms d)
  unfolding add_keys
  add_keys-IsDistinct v [] d h = h
  add_keys-IsDistinct v (m ∷ ms) d h =
      add_keys-IsDistinct v ms (insert m v d) (insert-IsDistinct m v d h)

  -- one step of the overlay
  lay : String → V → Dict V → Dict V
  lay k v d = if contains k d then insert k v d else d

  lay-IsDistinct : (k : String) (v : V) (d : Dict V) → IsDistinct d → IsDistinct (lay k v d)
  unfolding lay
  lay-IsDistinct k v d h = ground (arith, insert-IsDistinct k v d)

  contains-lay : (k j : String) (v : V) (d : Dict V) → contains j (lay k v d) ≡ contains j d
  unfolding lay
  contains-lay k j v d = ground (arith, contains-insert_present k v d j)

  overlay-IsDistinct :
      (raw : Dict (Option V)) (d : Dict V) → IsDistinct d → IsDistinct (overlay raw d)
  unfolding overlay lay
  overlay-IsDistinct [] d h = h
  overlay-IsDistinct ((k, none) ∷ raw) d h = overlay-IsDistinct raw d h
  overlay-IsDistinct ((k, some v) ∷ raw) d h =
      overlay-IsDistinct raw (lay k v d) (lay-IsDistinct k v d h)

  contains-overlay :
      (j : String) (raw : Dict (Option V)) (d : Dict V) → contains j (overlay raw d) ≡ contains j d
  unfolding overlay lay
  contains-overlay j [] d = refl
  contains-overlay j ((k, none) ∷ raw) d = contains-overlay j raw d
  contains-overlay j ((k, some v) ∷ raw) d =
      contains-overlay j raw (lay k v d) ∙ contains-lay k j v d

  contains-add_keys :
      {W : Type 0} (j : String) (v : V) (w : W) (ms : List String) (d : Dict V) (d' : Dict W)
      → contains j d ≡ contains j d'
      → contains j (add_keys v ms d) ≡ contains j (add_keys w ms d')
  unfolding add_keys
  contains-add_keys j v w [] d d' h = h
  contains-add_keys j v w (m ∷ ms) d d' h =
      contains-add_keys j v w ms (insert m v d) (insert m w d')
        (contains-insert m j v d ∙ ap (λ b. m == j || b) h ∙ sym (contains-insert m j w d'))

lay-AllBoxes :
    (k : String) (box : Dict Message) (d : Inbox) → IsBox box → AllBoxes d → AllBoxes (lay k box d)
unfolding lay
lay-AllBoxes k box d b h = elim (Bool-cases (contains k d)) [
  | inl e ↦ rw e (insert-AllBoxes k box d b h)
  | inr e ↦ rw e h
]

overlay-AllBoxes :
    (raw : Dict (Option (Dict Message))) (d : Inbox)
    → HoldsBoxes raw
    → AllBoxes d
    → AllBoxes (overlay raw d)
unfolding overlay lay
overlay-AllBoxes [] d g h = h
overlay-AllBoxes ((k, none) ∷ raw) d g h = overlay-AllBoxes raw d g h
overlay-AllBoxes ((k, some box) ∷ raw) d g h =
    overlay-AllBoxes raw (lay k box d) g.1 (lay-AllBoxes k box d g.0 h)

nil-AllBoxes : AllBoxes []
unfolding lookup
nil-AllBoxes j box e = ground arith

fresh-AllBoxes : (ms : List String) (d : Inbox) → AllBoxes d → AllBoxes (add_keys [] ms d)
unfolding add_keys
fresh-AllBoxes [] d h = h
fresh-AllBoxes (m ∷ ms) d h = fresh-AllBoxes ms (insert m [] d) (insert-AllBoxes m [] d tt h)

add_keys-known :
    (p : String) (ms : List String) (d : Dict String)
    → is_presence p ≡ true
    → ((j q : String) → lookup j d ≡ some q → is_presence q ≡ true)
    → (j q : String) → lookup j (add_keys p ms d) ≡ some q
    → is_presence q ≡ true
unfolding add_keys
add_keys-known p [] d known h = h
add_keys-known p (m ∷ ms) d known h =
    add_keys-known p ms (insert m p d) known (λ j q e. ground (arith, lookup-insert m j p d, h j q))

-- What `_load` leaves: the keys of the fresh maps, no key twice, and boxes.
record IsLoaded (members : List String) (maps : Inbox × PresenceLog) : Type 0 where
  inbox : (j : String) → contains j maps.0 ≡ contains j (fresh members).0
  log : (j : String) → contains j maps.1 ≡ contains j (fresh members).1
  inbox_keys : IsDistinct maps.0
  log_keys : IsDistinct maps.1
  boxes : AllBoxes maps.0

fresh-IsLoaded : (members : List String) → IsLoaded members (fresh members)
unfolding fresh
fresh-IsLoaded members = record {
  inbox = λ j. refl;
  log = λ j. refl;
  inbox_keys = add_keys-IsDistinct [] members [] tt;
  log_keys = add_keys-IsDistinct [] members [] tt;
  boxes = fresh-AllBoxes members [] nil-AllBoxes;
}

load_inbox :
    (members : List String) (raw : Dict (Option (Dict Message))) (maps : Inbox × PresenceLog)
    → HoldsBoxes raw
    → IsLoaded members maps
    → IsLoaded members (overlay raw maps.0, maps.1)
load_inbox members raw maps g h = record {
  inbox = λ j. contains-overlay j raw maps.0 ∙ h.inbox j;
  log = h.log;
  inbox_keys = overlay-IsDistinct raw maps.0 h.inbox_keys;
  log_keys = h.log_keys;
  boxes = overlay-AllBoxes raw maps.0 g h.boxes;
}

load_log :
    (members : List String) (raw : Dict (Option (Dict String))) (maps : Inbox × PresenceLog)
    → IsLoaded members maps
    → IsLoaded members (maps.0, overlay raw maps.1)
load_log members raw maps h = record {
  inbox = h.inbox;
  log = λ j. contains-overlay j raw maps.1 ∙ h.log j;
  inbox_keys = h.inbox_keys;
  log_keys = overlay-IsDistinct raw maps.1 h.log_keys;
  boxes = h.boxes;
}

load-IsLoaded :
    (members : List String) (disk : Stored)
    → IsFile disk
    → IsLoaded members (load disk (fresh members))
unfolding load overlay_opt
load-IsLoaded members (v1 raw) g = load_inbox members raw (fresh members) g (fresh-IsLoaded members)
load-IsLoaded members (v2 none none) g = fresh-IsLoaded members
load-IsLoaded members (v2 none (some log)) g =
    load_log members log (fresh members) (fresh-IsLoaded members)
load-IsLoaded members (v2 (some raw) none) g =
    load_inbox members raw (fresh members) g (fresh-IsLoaded members)
load-IsLoaded members (v2 (some raw) (some log)) g =
    load_log members log (overlay raw (fresh members).0, (fresh members).1)
      (load_inbox members raw (fresh members) g (fresh-IsLoaded members))
load-IsLoaded members missing g = fresh-IsLoaded members
load-IsLoaded members unreadable g = fresh-IsLoaded members
load-IsLoaded members not_a_dict g = fresh-IsLoaded members
load-IsLoaded members not_utf8 g = fresh-IsLoaded members
load-IsLoaded members bad_maps g = fresh-IsLoaded members

nil-known : (j q : String) → lookup j [] ≡ some q → is_presence q ≡ true
unfolding lookup
nil-known j q e = ground arith

contains-nil : (V W : Type 0) (j : String) → contains {V = V} j [] ≡ contains {V = W} j []
unfolding contains
contains-nil V W j = refl

IsValid-of_loaded :
    (members : List String) (p : String) (durable : Bool) (disk : Stored)
    (maps : Inbox × PresenceLog)
    → is_presence p ≡ true
    → IsLoaded members maps
    → IsValid (record {
      presences = add_keys p members [];
      inbox = maps.0;
      log = maps.1;
      durable = durable;
      disk = disk;
    })
IsValid-of_loaded members p durable disk maps known h = record {
  has_inbox = λ j. h.inbox j ∙ fresh_known j;
  has_log = λ j. h.log j ∙ fresh_logged j;
  known = add_keys-known p members [] known nil-known;
  inbox_keys = h.inbox_keys;
  log_keys = h.log_keys;
  boxes = h.boxes;
}
  where
    fresh_known : (j : String) → contains j (fresh members).0 ≡ contains j (add_keys p members [])
    fresh_known j = unfold fresh in contains-add_keys j [] p members [] [] (contains-nil _ _ j)

    fresh_logged : (j : String) → contains j (fresh members).1 ≡ contains j (add_keys p members [])
    fresh_logged j = unfold fresh in contains-add_keys j [] p members [] [] (contains-nil _ _ j)

boot-IsValid :
    (members : List String) (p : String) (durable : Bool) (disk : Stored)
    → IsFile disk
    → is_presence p ≡ true
    → IsValid (boot members p durable disk)
unfolding boot
boot-IsValid members p durable disk g known =
    IsValid-of_loaded members p durable disk _ known (loaded durable)
  where
    loaded : (d : Bool) → IsLoaded members (if d then load disk (fresh members) else fresh members)
    loaded true = load-IsLoaded members disk g
    loaded false = fresh-IsLoaded members

-- A file that stops a start which reads it.
abbrev pub breaks : Bool → Stored → Bool
breaks durable not_utf8 = durable
breaks durable bad_maps = durable
breaks durable disk = false

-- A start of the hub, by whether its default presence is known and whether its file stops it.
abbrev pub Boots : Bool → Bool → Start → Type 0
Boots true false r = (s : Family) × (r ≡ started s) × IsValid s
Boots true true r = r ≡ stopped
Boots false broken r = r ≡ refused

raises-breaks :
    (durable : Bool) (disk : Stored) → (durable && load_raises disk) ≡ breaks durable disk
unfolding load_raises
raises-breaks durable (v1 raw) = ground arith
raises-breaks durable (v2 raw log) = ground arith
raises-breaks durable missing = ground arith
raises-breaks durable unreadable = ground arith
raises-breaks durable not_a_dict = ground arith
raises-breaks durable not_utf8 = ground arith
raises-breaks durable bad_maps = ground arith

by_tests :
    (known raises broken : Bool) (s : Family)
    → raises ≡ broken
    → (known ≡ true → IsValid s)
    → Boots known broken (if not known then refused else if raises then stopped else started s)
by_tests false raises broken s e v = refl
by_tests true true true s e v = refl
by_tests true false false s e v = (s, refl, v refl)
by_tests true true false s e v = absurd (false_ne_true (sym e))
by_tests true false true s e v = absurd (false_ne_true e)

-- A start of the hub is refused where its default presence is no known state. Else it stops with an
-- exception where it has a store whose file is not UTF-8, or has a version and a truthy inbox or presence
-- log that is no dict; and in every other case (no store, a file that is missing, no JSON or no dict, of
-- either version, with unknown members) it starts in a valid state, as long as the inboxes in the file
-- are keyed by their messages' ids.
pub init_valid :
    (members : List String) (p : String) (durable : Bool) (disk : Stored)
    → IsFile disk
    → Boots (is_presence p) (breaks durable disk) (init members p durable disk)
unfolding init
init_valid members p durable disk g =
    by_tests (is_presence p) (durable && load_raises disk) (breaks durable disk)
      (boot members p durable disk) (raises-breaks durable disk)
      (λ known. boot-IsValid members p durable disk g known)
