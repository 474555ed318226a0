-- ===== src/Kini/Setup.antt =====
-- kini setup remotes, cmd/exp/kini/kini/kini_setup_remotes.go, with the manager of the configuration.
use cluster_api_provider_inc.Prelude.{String, ◌≡◌, ◌⊎◌}
use cluster_api_provider_inc.Action.{Action}
use cluster_api_provider_inc.Action.Steps.{Gives}
use cluster_api_provider_inc.Kini.{LocalConfig, Manager, commit}

module _ {W : Type 0} (save : String → LocalConfig → Action W (Unit {0})) where
  -- Commit of a manager, of which only the world is used any more.
  abbrev committing : Manager → Action W (Unit {0})
  committing m w = ((commit save (m, w)).0, (commit save (m, w)).1.1)

  -- Either the configuration is the one on disk, and nothing was called, or it was saved.
  abbrev pub IsSaved : String → LocalConfig → LocalConfig → W → W → Type 0
  IsSaved path disk final w v = ((final ≡ disk) × (w ≡ v)) ⊎ Gives (save path final) w tt v
