-- ===== src/Manager/Tiering.antt =====
-- nodes/model_manager_4090/tiering.py: the weights files on the three storage tiers.
use project_nexus.Prelude.{
  ℕ, ◌+◌, Bool, true, false, not, ◌&&◌, ◌||◌, Option, none, some, List, [], ◌∷◌, String, ◌==◌,
  nat_eq, leb, any, if◌then◌else◌,
}
use project_nexus.Py.Text.{◌⧺◌}
use project_nexus.Py.Dict.{Dict, lookup, insert, erase}

-- A regular file; `content` is its bytes, `atime` when it was last read.
pub record WeightsFile : Type 0 where
  pub size : ℕ
  pub atime : ℕ
  pub content : String

-- The directories, by file name, in the order of `iterdir`.
pub record Tiers : Type 0 where
  pub hot : Dict WeightsFile
  pub warm : Dict WeightsFile
  pub cold : Dict WeightsFile

pub data Tier : Type 0 where
  hot warm cold : Tier

unfoldable pub in_cold : Option WeightsFile → Option (Tier × WeightsFile)
in_cold none = none
in_cold (some f) = some (cold, f)

unfoldable pub in_warm : Option WeightsFile → Option WeightsFile → Option (Tier × WeightsFile)
unfolding in_cold
in_warm none c = in_cold c
in_warm (some f) c = some (warm, f)

unfoldable pub hottest :
    Option WeightsFile → Option WeightsFile → Option WeightsFile → Option (Tier × WeightsFile)
unfolding in_warm
hottest none w c = in_warm w c
hottest (some f) w c = some (hot, f)

-- The hottest copy.
unfoldable pub find_weights : String → Tiers → Option (Tier × WeightsFile)
unfolding hottest
find_weights filename tiers =
    hottest (lookup filename tiers.hot) (lookup filename tiers.warm) (lookup filename tiers.cold)

pub data Stage : Type 0 where
  staged_from : Option Tier → Stage
  not_found checksum_failed io_failed : Stage

-- What the disk does to a copy: an `OSError` before the digests are compared (a full disk, an unreadable
-- file), with what it leaves under the `.staging` name, if anything; or the file that was written, and
-- whether the operation that follows, `os.replace` or `unlink`, succeeds.
pub data Copying : Type 0 where
  broke : Option WeightsFile → Copying
  wrote : WeightsFile → Bool → Copying

-- os.replace(staging, hot_path)
unfoldable pub replace_staging :
    Bool → String → WeightsFile → Tiers → Dict WeightsFile → Tier → Stage × Tiers
replace_staging true filename copied tiers written tier = (
  staged_from (some tier),
  record tiers { hot = insert filename copied (erase (filename ⧺ ".staging") written) },
)
replace_staging false filename copied tiers written tier =
    (io_failed, record tiers { hot = written })

-- staging.unlink(missing_ok=True), and the IOError of the checksum
unfoldable pub discard_staging : Bool → String → Tiers → Dict WeightsFile → Stage × Tiers
discard_staging true filename tiers written =
    (checksum_failed, record tiers { hot = erase (filename ⧺ ".staging") written })
discard_staging false filename tiers written = (io_failed, record tiers { hot = written })

-- The copy under the `.staging` name, checked against the source and renamed.
unfoldable pub stage_copy :
    (String → String) → Copying → String → Tiers → Tier → WeightsFile → Stage × Tiers
unfolding replace_staging discard_staging
stage_copy sha256 (broke none) filename tiers tier source = (io_failed, tiers)
stage_copy sha256 (broke (some partial)) filename tiers tier source =
    (io_failed, record tiers { hot = insert (filename ⧺ ".staging") partial tiers.hot })
stage_copy sha256 (wrote copied ok) filename tiers tier source =
    let written = insert (filename ⧺ ".staging") copied tiers.hot in
    if sha256 copied.content == sha256 source.content
    then replace_staging ok filename copied tiers written tier
    else discard_staging ok filename tiers written

unfoldable pub stage_located :
    (String → String) → Copying → String → Tiers → Option (Tier × WeightsFile) → Stage × Tiers
unfolding stage_copy
stage_located sha256 copied filename tiers none = (not_found, tiers)
stage_located sha256 copied filename tiers (some (hot, f)) = (staged_from none, tiers)
stage_located sha256 copied filename tiers (some (warm, f)) =
    stage_copy sha256 copied filename tiers warm f
stage_located sha256 copied filename tiers (some (cold, f)) =
    stage_copy sha256 copied filename tiers cold f

unfoldable pub ensure_hot : (String → String) → Copying → String → Tiers → Stage × Tiers
unfolding stage_located find_weights
ensure_hot sha256 copied filename tiers =
    stage_located sha256 copied filename tiers (find_weights filename tiers)

-- s.endswith(suffix)
unfoldable pub ends_with : String → String → Bool
ends_with suffix String.[] = suffix == String.[]
ends_with suffix (String.◌∷◌ c s) = suffix == String.◌∷◌ c s || ends_with suffix s

unfoldable pub same_size : WeightsFile → Option WeightsFile → Bool
same_size f none = false
same_size f (some other) = nat_eq other.size f.size

unfoldable pub has_lower_copy : Tiers → String → WeightsFile → Bool
unfolding same_size
has_lower_copy tiers name f =
    same_size f (lookup name tiers.warm) || same_size f (lookup name tiers.cold)

unfoldable pub is_candidate : Tiers → List String → String → WeightsFile → Bool
unfolding has_lower_copy ends_with
is_candidate tiers pinned name f =
    not (any (λ p. p == name) pinned || ends_with ".staging" name) && has_lower_copy tiers name f

unfoldable pub candidates_of : Tiers → List String → Dict WeightsFile → Dict WeightsFile
unfolding is_candidate
candidates_of tiers pinned [] = []
candidates_of tiers pinned ((name, f) ∷ files) =
    let rest = candidates_of tiers pinned files in
    if is_candidate tiers pinned name f then (name, f) ∷ rest else rest

-- candidates.sort(key=st_atime), which is stable
unfoldable pub sort_in : String → WeightsFile → Dict WeightsFile → Dict WeightsFile
sort_in name f [] = (name, f) ∷ []
sort_in name f ((other, g) ∷ files) =
    let rest = sort_in name f files in
    if leb f.atime g.atime then (name, f) ∷ (other, g) ∷ files else (other, g) ∷ rest

unfoldable pub by_atime : Dict WeightsFile → Dict WeightsFile
unfolding sort_in
by_atime [] = []
by_atime ((name, f) ∷ files) = sort_in name f (by_atime files)

unfoldable pub evict_loop :
    ℕ → ℕ → Dict WeightsFile → Dict WeightsFile → List String × Dict WeightsFile
evict_loop needed freed [] files = ([], files)
evict_loop needed freed ((name, f) ∷ candidates) files =
    let rest = evict_loop needed (freed + f.size) candidates (erase name files) in
    if leb needed freed then ([], files) else (name ∷ rest.0, rest.1)

-- The evicted names, and the tiers after it.
unfoldable pub evict_from_hot : Tiers → ℕ → List String → List String × Tiers
unfolding evict_loop by_atime candidates_of
evict_from_hot tiers needed_bytes pinned =
    let r = evict_loop needed_bytes 0 (by_atime (candidates_of tiers pinned tiers.hot)) tiers.hot in
    (r.0, record tiers { hot = r.1 })
