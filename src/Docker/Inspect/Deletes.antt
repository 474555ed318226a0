-- ===== src/Docker/Inspect/Deletes.antt =====
-- The instances that docker rm deletes.
use cluster_api_provider_inc.Prelude.{String, ◌≡◌, refl, List, [], ◌∷◌, ◌++◌}
use cluster_api_provider_inc.Text.{◌<>◌, quote}
use cluster_api_provider_inc.Errors.{GoError, ok, err, wrapf}
use cluster_api_provider_inc.Action.{◌>>=◌}
use cluster_api_provider_inc.Client.{Client}
use cluster_api_provider_inc.Client.Stop.{wait_for_delete_instance}
use cluster_api_provider_inc.Docker.{Environment}
use cluster_api_provider_inc.Docker.Inspect.{delete_each}

module _ {W Op : Type 0} (env : Environment W Op) (c : Client W Op) where
  -- Deleting the instances in turn leads from one world to another.
  abbrev pub Deletes : List String → W → W → Type 0
  Deletes [] w w' = w ≡ w'
  Deletes (name ∷ names) w w' =
      (v : W) × (wait_for_delete_instance c name w ≡ (ok tt, v)) × Deletes names v w'

  -- docker rm deletes the instances in the order of its arguments; at the first that fails it stops
  -- with an error that names it, and the instances behind it are left alone.
  pub delete_each-stops :
      (before : List String) (bad : String) (after : List String) (w w' v : W) (e : GoError)
      → Deletes before w w'
      → wait_for_delete_instance c bad w' ≡ (err e, v)
      → delete_each env c (before ++ bad ∷ after) w
        ≡ (err (wrapf ("failed to delete instance " <> quote bad <> ": ") e ""), v)
  unfolding delete_each ◌>>=◌
  delete_each-stops [] bad after w w' v e d f = rw d (rw f refl)
  delete_each-stops (name ∷ before) bad after w w' v e d f =
      rw (d.1) (delete_each-stops before bad after d.0 w' v e d.2 f)
