-- ===== src/Machine/Delete/Finalizer.antt =====
-- When reconcileDelete lets go of an LXCMachine.
use cluster_api_provider_inc.Prelude.{◌≡◌, ◌⊎◌, inl, inr, refl, true, false, not, ◌&&◌, any, ◌==◌}
use cluster_api_provider_inc.Errors.{Result, ok, err, wrapf, succeeds}
use cluster_api_provider_inc.Action.{◌>>=◌, pure, attempt}
use cluster_api_provider_inc.Action.Ensures.{Ensures, Ensures-pure, Ensures-bind, Ensures-if}
use cluster_api_provider_inc.Api.{Cluster, LxcCluster, Machine, LxcMachine}
use cluster_api_provider_inc.Api.Conditions.{condition_false, info}
use cluster_api_provider_inc.Client.Stop.{wait_for_delete_instance}
use cluster_api_provider_inc.Machine.{patch_lxc_machine, Reconciler, machine_finalizer, mark}
use cluster_api_provider_inc.Machine.Delete.{
  without_finalizer, rebalanced, deleted, patched, helped, reconcile_delete,
}
use cluster_api_provider_inc.Balancer.{manager_for_cluster}
use cluster_api_provider_inc.Balancer.Actions.{reconfigure}

module _ {W Op C : Type 0} (r : Reconciler W Op C) (cluster : Cluster) (lxc_cluster : LxcCluster C)
    (machine : Machine) where
  -- The machine was let go, its instance having been deleted from `w` on, or it keeps its finalizers.
  abbrev pub IsSettled : W → LxcMachine C → LxcMachine C × Result (Unit {0}) → Type 0
  IsSettled w m o =
      ((succeeds o.1 ≡ true)
        × (any (λ x. x == machine_finalizer) o.0.finalizers ≡ false)
        × ((wait_for_delete_instance r.client m.name w).0 ≡ ok tt))
      ⊎ ((succeeds o.1 ≡ false) × (o.0.finalizers ≡ m.finalizers))

  rebalanced-IsSettled :
      (m : LxcMachine C) (b : Result (Unit {0})) (w : W)
      → (wait_for_delete_instance r.client m.name w).0 ≡ ok tt
      → Ensures (IsSettled w m) (rebalanced r cluster lxc_cluster machine m b)
  rebalanced-IsSettled m (err e) w h = Ensures-pure _ (inr (refl, refl))
  rebalanced-IsSettled m (ok u) w h =
      Ensures-pure _ (inl (refl, r.finalizers.any-remove machine_finalizer m.finalizers, h))

  deleted-IsSettled :
      (m : LxcMachine C) (d : Result (Unit {0})) (w : W)
      → (wait_for_delete_instance r.client m.name w).0 ≡ d
      → Ensures (IsSettled w m) (deleted r cluster lxc_cluster machine m d)
  deleted-IsSettled m (err e) w h = Ensures-pure _ (inr (refl, refl))
  deleted-IsSettled m (ok u) w h =
      Ensures-if (machine.control_plane && not cluster.deleted)
        (do
          b ←
              attempt (
                reconfigure r.client r.templates (manager_for_cluster r.digest cluster lxc_cluster))
          rebalanced r cluster lxc_cluster machine m b)
        (pure (without_finalizer r cluster lxc_cluster machine m, ok tt))
        (λ _. Ensures-bind _ _ λ b. rebalanced-IsSettled m b w h)
        (λ _.
          Ensures-pure _ (inl (refl, r.finalizers.any-remove machine_finalizer m.finalizers, h)))

  patched-IsSettled :
      (m : LxcMachine C) (p : Result (Unit {0})) (w : W) (o : LxcMachine C × Result (Unit {0}))
      → (patched r cluster lxc_cluster machine m p w).0 ≡ ok o
      → IsSettled w m o
  unfolding ◌>>=◌
  patched-IsSettled m (err x) w o e =
      let kept : Ensures (IsSettled w m)
          (pure (m, err (wrapf "failed to patch LXCMachine: " x ""))) =
        Ensures-pure _ (inr (refl, refl)) in
      kept.at w o e
  patched-IsSettled m (ok u) w o e =
      let answer = wait_for_delete_instance r.client m.name w in
      (deleted-IsSettled m answer.0 w refl).at answer.1 o e

  -- The machine that is patched before its instance is deleted, and the world behind that patch.
  abbrev pub marked : LxcMachine C → LxcMachine C
  marked m = mark r (condition_false "Deleting" info "") m

  abbrev pub patched_world : LxcMachine C → W → W
  patched_world m w = (patch_lxc_machine r (marked m) (r.new_patch_helper w).1).1

  helped-IsSettled :
      (m : LxcMachine C) (h : Result (Unit {0})) (w : W) (o : LxcMachine C × Result (Unit {0}))
      → (helped r cluster lxc_cluster machine m h w).0 ≡ ok o
      → IsSettled (patch_lxc_machine r (marked m) w).1 m o
  unfolding ◌>>=◌
  helped-IsSettled m (err x) w o e =
      let kept : Ensures (IsSettled (patch_lxc_machine r (marked m) w).1 m) (pure (m, err x)) =
        Ensures-pure _ (inr (refl, refl)) in
      kept.at w o e
  helped-IsSettled m (ok u) w o e =
      let answer = patch_lxc_machine r (marked m) w in
      patched-IsSettled (marked m) answer.0 answer.1 o e

  -- When reconcileDelete reports success, the machine's finalizer is gone, and the call of
  -- WaitForDeleteInstance behind the first patch has succeeded for the machine's instance; with an
  -- error, the finalizers are as before.
  pub reconcile_delete_settles :
      (m : LxcMachine C) (w : W) (o : LxcMachine C × Result (Unit {0}))
      → (reconcile_delete r cluster lxc_cluster machine m w).0 ≡ ok o
      → IsSettled (patched_world m w) m o
  unfolding reconcile_delete ◌>>=◌
  reconcile_delete_settles m w o e =
      helped-IsSettled m (r.new_patch_helper w).0 (r.new_patch_helper w).1 o e
