-- ===== src/Manager/Tests.antt =====
-- An eviction from a hot tier of two files, one of which has a copy.
use project_nexus.Prelude.{true, ◌≡◌, refl, [], ◌∷◌}
use project_nexus.Py.Dict.{contains}
use project_nexus.Manager.Tiering.{
  WeightsFile, Tiers, wrote, evict_from_hot, find_weights, ensure_hot,
}
use project_nexus.Manager.Stage.{Staging, ensure_hot_verified}
use project_nexus.Manager.Evict.{Kept, evict_keeps_copies}

abbrev weights : WeightsFile
weights = record { size = 10; atime = 3; content = "w" }

abbrev tiers : Tiers
tiers = record {
  hot = ("a.gguf", weights) ∷ ("b.gguf", weights) ∷ [];
  warm = ("a.gguf", weights) ∷ ("c.gguf", weights) ∷ [];
  cold = [];
}

evict_keeps_copies_example :
    Kept tiers [] tiers.hot (evict_from_hot tiers 5 []).1.hot "a.gguf"
    × ((evict_from_hot tiers 5 []).1.warm ≡ tiers.warm)
    × ((evict_from_hot tiers 5 []).1.cold ≡ tiers.cold)
unfolding contains
evict_keeps_copies_example = evict_keeps_copies tiers 5 [] "a.gguf" (refl, (refl, tt))

ensure_hot_verified_example :
    Staging
      (λ s. s)
      (wrote weights true)
      "c.gguf"
      tiers
      (find_weights "c.gguf" tiers)
      (ensure_hot (λ s. s) (wrote weights true) "c.gguf" tiers)
ensure_hot_verified_example = ensure_hot_verified (λ s. s) (wrote weights true) "c.gguf" tiers
