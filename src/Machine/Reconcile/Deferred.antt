-- ===== src/Machine/Reconcile/Deferred.antt =====
-- The deferred patch at the end of Reconcile.
use cluster_api_provider_inc.Prelude.{ℕ, String, ◌≡◌, refl, ap, ◌∙◌, true, false, some, List, ◌&&◌}
use cluster_api_provider_inc.Errors.{Result, ok, err, succeeds}
use cluster_api_provider_inc.Action.{◌>>=◌, pure, continue}
use cluster_api_provider_inc.Action.Steps.{bind-step, attempt-step, wrapping-step}
use cluster_api_provider_inc.Api.{
  Cluster, Machine, LxcCluster, LxcMachine, get_lxc_secret_namespaced_name,
}
use cluster_api_provider_inc.Client.{Client}
use cluster_api_provider_inc.Machine.{Reconciler, patch_lxc_machine}
use cluster_api_provider_inc.Machine.Reconcile.{
  Environment, finish, dispatch, with_reference, reconcile,
}

module _ {W Op C : Type 0} (e : Environment W Op C) (r : Reconciler W Op C) where
  finish_patches :
      (m : LxcMachine C) (result : Result ℕ) (w : W)
      → ((finish e r (m, result) w).1 ≡ (patch_lxc_machine r m w).1)
        × (succeeds (finish e r (m, result) w).0
            ≡ (succeeds result && succeeds (patch_lxc_machine r m w).0))
  unfolding ◌>>=◌
  finish_patches m (err x) w = (refl, refl)
  finish_patches m (ok requeue) w = by_case (patch_lxc_machine r m w)
    where
      by_case :
          (p : Result (Unit {0}) × W)
          → ((continue p.0 (λ u. pure requeue) p.1).1 ≡ p.1)
            × (succeeds (continue p.0 (λ u. pure requeue) p.1).0 ≡ (true && succeeds p.0))
      by_case (ok u, v) = (refl, refl)
      by_case (err y, v) = (refl, refl)

module _ {W Op C : Type 0} (e : Environment W Op C) where
  -- Reconcile patches the object that came back from reconcileNormal or reconcileDelete, after an
  -- error of theirs too, and does nothing behind the patch; it succeeds exactly when both the
  -- reconciliation and the patch did. This is a call that gets to the reconciliation: the objects are
  -- there, the cluster is not paused, the client is connected and the finalizer is there already.
  pub reconcile_patches :
      (m m' : LxcMachine C) (machine : Machine) (cluster : Cluster) (lxc_cluster : LxcCluster C)
      (name : String) (secret : List (String × String)) (client : Client W Op) (result : Result ℕ)
      (w w1 w2 w3 w4 w5 w6 w7 w8 w9 w10 w11 : W)
      → e.get_object w ≡ (ok (some m), w1)
      → e.add_owners m w1 ≡ (ok tt, w2)
      → e.get_owner_machine m w2 ≡ (ok (some machine), w3)
      → e.get_cluster machine w3 ≡ (ok (some cluster), w4)
      → e.ensure_paused_condition cluster m w4 ≡ (ok false, w5)
      → cluster.infrastructure_ref ≡ some name
      → e.get_lxc_cluster m.namespace name w5 ≡ (ok lxc_cluster, w6)
      → e.get_secret (get_lxc_secret_namespaced_name lxc_cluster) w6 ≡ (ok secret, w7)
      → e.connect secret w7 ≡ (ok client, w8)
      → e.ensure_finalizer m w8 ≡ (ok false, w9)
      → (e.reconciler client).new_patch_helper w9 ≡ (ok tt, w10)
      → dispatch e (e.reconciler client) cluster lxc_cluster machine m w10 ≡ (ok (m', result), w11)
      → ((reconcile e w).1 ≡ (patch_lxc_machine (e.reconciler client) m' w11).1)
        × (succeeds (reconcile e w).0
            ≡ (succeeds result && succeeds (patch_lxc_machine (e.reconciler client) m' w11).0))
  unfolding reconcile
  reconcile_patches m m' machine cluster lxc_cluster name secret client result w w1 w2 w3 w4 w5 w6
        w7 w8 w9 w10 w11 h h1 h2 h3 h4 hr h5 h6 h7 h8 h9 h10 =
      let r = e.reconciler client in
      let run : reconcile e w ≡ finish e r (m', result) w11 =
        bind-step _ _ w w1 (some m) h
        ∙ bind-step _ _ w1 w2 tt h1
        ∙ bind-step _ _ w2 w3 (some machine) h2
        ∙ bind-step _ _ w3 w4 (some cluster) h3
        ∙ bind-step _ _ w4 w5 false h4
        ∙ ap (λ o. with_reference e m machine cluster o w5) hr
        ∙ bind-step _ _ w5 w6 (ok lxc_cluster) (attempt-step _ w5 w6 (ok lxc_cluster) h5)
        ∙ bind-step _ _ w6 w7 secret (wrapping-step _ _ w6 w7 secret h6)
        ∙ bind-step _ _ w7 w8 client (wrapping-step _ _ w7 w8 client h7)
        ∙ bind-step _ _ w8 w9 false h8
        ∙ bind-step _ _ w9 w10 tt h9
        ∙ bind-step _ _ w10 w11 (m', result) h10 in
      let (world, success) = finish_patches e r m' result w11 in
      (ap (λ x. x.1) run ∙ world, ap (λ x. succeeds x.0) run ∙ success)
