-- ===== src/Hub/Inbox/Tests.antt =====
-- The drain at the household of Samples.
use project_nexus.Prelude.{◌≡◌, refl, [], ◌∷◌, length}
use project_nexus.Hub.Samples.{
  household-IsValid, kit_queue, first, second, kit, world, settings, hub,
}
use project_nexus.Hub.Family.State.{ok, queued_messages}
use project_nexus.Hub.Inbox.Drain.{finished, drain_inbox}
use project_nexus.Hub.Inbox.Complete.{Serves, drain_complete}

world-Serves : Serves world
world-Serves = record { completes = λ t system req. (_, refl); persists = λ t. refl }

drain_complete_example :
    ((drain_inbox world settings hub kit).0.ending ≡ finished)
    × ((drain_inbox world settings hub kit).0.answered ≡ length (first ∷ second ∷ []))
    × (queued_messages (drain_inbox world settings hub kit).1.family "kit" ≡ ok [])
drain_complete_example =
    drain_complete world settings hub kit (first ∷ second ∷ []) world-Serves household-IsValid
      kit_queue
