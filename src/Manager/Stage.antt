-- ===== src/Manager/Stage.antt =====
-- Staging puts only verified copies under the name of a weights file.
use text.Mathlib.TextLemmas.{append_cancel_left, append-nil}
use project_nexus.Prelude.{
  ◌≡◌, ◌≢◌, ◌⊎◌, inl, inr, refl, sym, ap, ◌∙◌, true, false, Option, none, some, String, eq_of_test,
  test_of_ne, ne_of_test, ◌==◌, if_known, if◌then◌else◌,
}
use project_nexus.Py.Text.{◌⧺◌}
use project_nexus.Py.Dict.{Dict, lookup, insert, lookup-insert, lookup-insert_self}
use project_nexus.Manager.Tiering.{
  WeightsFile, Tiers, Tier, hot, warm, cold, find_weights, Stage, staged_from, not_found,
  checksum_failed, io_failed, Copying, broke, wrote, stage_copy, stage_located, ensure_hot,
}
use project_nexus.Manager.Evict.{lookup-erase}

-- What a copy to the hot tier comes to: the file that was written, with the source's digest, under the
-- file's name; or a refusal for a digest that differs, or an `OSError`, and both leave what was under
-- that name.
abbrev pub Copied :
    (String → String) → Copying → String → Tiers → Tier → WeightsFile → Stage × Tiers → Type 0
Copied sha256 copying filename tiers tier source r =
    ((f : WeightsFile) × (copying ≡ wrote f true)
      × (r.0 ≡ staged_from (some tier))
      × (sha256 f.content ≡ sha256 source.content)
      × (lookup filename r.1.hot ≡ some f))
    ⊎ ((((r.0 ≡ checksum_failed)
            × ((f : WeightsFile) × (copying ≡ wrote f true)
                × (sha256 f.content ≢ sha256 source.content)))
          ⊎ (r.0 ≡ io_failed))
        × (lookup filename r.1.hot ≡ lookup filename tiers.hot))

-- The three ways of `ensure_hot`, by where the hottest copy is.
abbrev pub Staging :
    (String → String)
    → Copying
    → String
    → Tiers
    → Option (Tier × WeightsFile)
    → Stage × Tiers
    → Type 0
Staging sha256 copied filename tiers none r = r ≡ (not_found, tiers)
Staging sha256 copied filename tiers (some (hot, f)) r = r ≡ (staged_from none, tiers)
Staging sha256 copied filename tiers (some (warm, f)) r =
    Copied sha256 copied filename tiers warm f r
Staging sha256 copied filename tiers (some (cold, f)) r =
    Copied sha256 copied filename tiers cold f r

staging_apart : (filename : String) → (filename ⧺ ".staging" == filename) ≡ false
staging_apart filename = test_of_ne (filename ⧺ ".staging") filename (λ e.
    ne_of_test ".staging" "" refl
      (append_cancel_left filename ".staging" "" (e ∙ sym (append-nil filename))))

-- a file under the `.staging` name is not under the file's name
kept_beside :
    (filename : String) (f : WeightsFile) (files : Dict WeightsFile)
    → lookup filename (insert (filename ⧺ ".staging") f files) ≡ lookup filename files
kept_beside filename f files =
    lookup-insert (filename ⧺ ".staging") filename f files
    ∙ ap (λ b. if b then some f else lookup filename files) (staging_apart filename)

copy-Copied :
    (sha256 : String → String) (copying : Copying) (filename : String) (tiers : Tiers) (tier : Tier)
    (f : WeightsFile)
    → Copied sha256 copying filename tiers tier f (stage_copy sha256 copying filename tiers tier f)
unfolding stage_copy
copy-Copied sha256 (broke none) filename tiers tier f = inr (inr refl, refl)
copy-Copied sha256 (broke (some partial)) filename tiers tier f =
    inr (inr refl, kept_beside filename partial tiers.hot)
copy-Copied sha256 (wrote copied true) filename tiers tier f =
    if_known {A = Stage × Tiers} (Copied sha256 (wrote copied true) filename tiers tier f)
      (sha256 copied.content == sha256 f.content)
      (λ same. inl (copied, refl, refl, eq_of_test _ _ same, lookup-insert_self filename copied _))
      (λ differ. inr (
        inl (refl, (copied, refl, ne_of_test _ _ differ)),
        lookup-erase (filename ⧺ ".staging") filename
              (insert (filename ⧺ ".staging") copied tiers.hot) (staging_apart filename)
            ∙ kept_beside filename copied tiers.hot,
      ))
copy-Copied sha256 (wrote copied false) filename tiers tier f =
    if_known {A = Stage × Tiers} (Copied sha256 (wrote copied false) filename tiers tier f)
      (sha256 copied.content == sha256 f.content)
      (λ same. inr (inr refl, kept_beside filename copied tiers.hot))
      (λ differ. inr (inr refl, kept_beside filename copied tiers.hot))

located :
    (sha256 : String → String) (copied : Copying) (filename : String) (tiers : Tiers)
    (found : Option (Tier × WeightsFile))
    → Staging sha256 copied filename tiers found (stage_located sha256 copied filename tiers found)
unfolding stage_located
located sha256 copied filename tiers none = refl
located sha256 copied filename tiers (some (hot, f)) = refl
located sha256 copied filename tiers (some (warm, f)) =
    copy-Copied sha256 copied filename tiers warm f
located sha256 copied filename tiers (some (cold, f)) =
    copy-Copied sha256 copied filename tiers cold f

-- Staging fails without a change where no tier has the file, and changes nothing where the hot tier has
-- it. Else either the hot tier has, under the file's name, what was written, with the digest of the
-- hottest copy; or the digests differ, or the disk fails, and what the hot tier had under the file's
-- name is as before, whatever a broken copy wrote.
pub ensure_hot_verified :
    (sha256 : String → String) (copied : Copying) (filename : String) (tiers : Tiers)
    → Staging sha256 copied filename tiers
        (find_weights filename tiers)
        (ensure_hot sha256 copied filename tiers)
unfolding ensure_hot
ensure_hot_verified sha256 copied filename tiers =
    located sha256 copied filename tiers (find_weights filename tiers)
