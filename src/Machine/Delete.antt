-- ===== src/Machine/Delete.antt =====
-- reconcileDelete of internal/controller/lxcmachine/controller_delete.go. The object comes back
-- beside the result.
pub mod Finalizer
use cluster_api_provider_inc.Prelude.{
  String, Bool, true, false, not, ◌&&◌, List, [], ◌∷◌, ◌==◌, if◌then◌else◌,
}
use cluster_api_provider_inc.Errors.{Result, ok, err, wrapf}
use cluster_api_provider_inc.Action.{Action, ◌>>=◌, pure, attempt}
use cluster_api_provider_inc.Api.{Cluster, LxcCluster, Machine, LxcMachine}
use cluster_api_provider_inc.Api.Conditions.{condition_false, info}
use cluster_api_provider_inc.Balancer.{manager_for_cluster}
use cluster_api_provider_inc.Balancer.Actions.{reconfigure}
use cluster_api_provider_inc.Client.Stop.{wait_for_delete_instance}
use cluster_api_provider_inc.Machine.{Reconciler, machine_finalizer, mark, patch_lxc_machine}

module _ {W Op C : Type 0} (r : Reconciler W Op C) (cluster : Cluster) (lxc_cluster : LxcCluster C)
    (machine : Machine) where
  abbrev pub without_finalizer : LxcMachine C → LxcMachine C
  without_finalizer m = record m { finalizers = r.finalizers.remove machine_finalizer m.finalizers }

  abbrev pub rebalanced :
      LxcMachine C → Result (Unit {0}) → Action W (LxcMachine C × Result (Unit {0}))
  rebalanced m (err e) = pure (
    m,
    err (wrapf "failed to reconfigure load balancer after removing control plane node: " e ""),
  )
  rebalanced m (ok u) = pure (without_finalizer m, ok tt)

  abbrev pub deleted :
      LxcMachine C → Result (Unit {0}) → Action W (LxcMachine C × Result (Unit {0}))
  deleted m (err e) = pure (m, err (wrapf "failed to delete the instance: " e ""))
  deleted m (ok u) =
      if machine.control_plane && not cluster.deleted
      then (do
        b ←
            attempt
              (reconfigure r.client r.templates (manager_for_cluster r.digest cluster lxc_cluster))
        rebalanced m b)
      else pure (without_finalizer m, ok tt)

  abbrev pub patched :
      LxcMachine C → Result (Unit {0}) → Action W (LxcMachine C × Result (Unit {0}))
  patched m (err e) = pure (m, err (wrapf "failed to patch LXCMachine: " e ""))
  patched m (ok u) = do d ← attempt (wait_for_delete_instance r.client m.name); deleted m d

  abbrev pub helped : LxcMachine C → Result (Unit {0}) → Action W (LxcMachine C × Result (Unit {0}))
  helped m (err e) = pure (m, err e)
  helped m (ok u) = do
    let m' = mark r (condition_false "Deleting" info "") m
    p ← attempt (patch_lxc_machine r m')
    patched m' p

  -- reconcileDelete
  unfoldable pub reconcile_delete : LxcMachine C → Action W (LxcMachine C × Result (Unit {0}))
  unfolding reconfigure manager_for_cluster wait_for_delete_instance patch_lxc_machine
  reconcile_delete m = do h ← attempt r.new_patch_helper; helped m h
