-- ===== src/Machine/Normal/Waiting.antt =====
-- When reconcileNormal waits for the cluster or for the bootstrap data.
use cluster_api_provider_inc.Prelude.{
  String, ◌≡◌, ◌&&◌, if◌then◌else◌, ◌⊎◌, inl, inr, refl, Bool, true, false, not, Option, none, some,
  arith,
}
use cluster_api_provider_inc.Errors.{Result, ok}
use cluster_api_provider_inc.Action.{◌>>=◌, pure}
use cluster_api_provider_inc.Api.{Cluster, LxcCluster, Machine, LxcMachine}
use cluster_api_provider_inc.Api.Conditions.{Condition, condition_false, info}
use cluster_api_provider_inc.Machine.{Reconciler, mark}
use cluster_api_provider_inc.Machine.Normal.{
  Outcome, waiting_for_data, provision, provision_or_check, reconcile_normal,
}

module _ {W Op C : Type 0} (r : Reconciler W Op C) (cluster : Cluster) (lxc_cluster : LxcCluster C)
    (machine : Machine) where
  -- The machine is only marked, with a condition that is false, and there is nothing to retry.
  abbrev pub IsWaiting : LxcMachine C → W → Result (Outcome C) × W → Type 0
  IsWaiting m w o = (c : Condition) × (c.status ≡ false) × (o ≡ (ok (mark r c m, ok 0), w))

  waiting_for_data-IsWaiting :
      (m : LxcMachine C) (w : W)
      → IsWaiting m w (ok (waiting_for_data r cluster lxc_cluster machine m), w)
  unfolding waiting_for_data
  waiting_for_data-IsWaiting m w = by_case (not machine.control_plane && not cluster.initialized)
    where
      by_case :
          (b : Bool)
          → IsWaiting m w (
            ok (
                if b
                then (mark r (condition_false "WaitingForControlPlaneAvailable" info "") m, ok 0)
                else (mark r (condition_false "WaitingForBootstrapData" info "") m, ok 0)),
            w,
          )
      by_case true = (condition_false "WaitingForControlPlaneAvailable" info "", refl, refl)
      by_case false = (condition_false "WaitingForBootstrapData" info "", refl, refl)

  provision_or_check_waits :
      (m : LxcMachine C) (w : W) (id : Option String)
      → id ≡ none
      → machine.data_secret_name ≡ none
      → IsWaiting m w (provision_or_check r cluster lxc_cluster machine m id w)
  unfolding provision ◌>>=◌
  provision_or_check_waits m w none h e = rw e (waiting_for_data-IsWaiting m w)
  provision_or_check_waits m w (some i) h e = absurd (ground arith)

  -- As long as the cluster's infrastructure is not ready, or a machine without a provider ID has no
  -- bootstrap data, reconcileNormal calls nothing, asks for no retry and leaves the machine as it
  -- is, but for a condition that is false.
  pub reconcile_normal_waits :
      (m : LxcMachine C) (w : W)
      → (cluster.infrastructure_ready ≡ false)
        ⊎ ((m.spec.provider_id ≡ none) × (machine.data_secret_name ≡ none))
      → IsWaiting m w (reconcile_normal r cluster lxc_cluster machine m w)
  unfolding reconcile_normal provision ◌>>=◌
  reconcile_normal_waits m w h = by_case cluster.infrastructure_ready h
    where
      by_case :
          (b : Bool)
          → (b ≡ false) ⊎ ((m.spec.provider_id ≡ none) × (machine.data_secret_name ≡ none))
          → IsWaiting m w (
              (if not b
                  then pure
                      (mark r (condition_false "WaitingForClusterInfrastructure" info "") m, ok 0)
                  else provision_or_check r cluster lxc_cluster machine m m.spec.provider_id)
                w)
      by_case false h = (condition_false "WaitingForClusterInfrastructure" info "", refl, refl)
      by_case true (inl e) = absurd (ground arith)
      by_case true (inr (hi, hs)) = provision_or_check_waits m w m.spec.provider_id hi hs
