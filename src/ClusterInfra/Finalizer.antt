-- ===== src/ClusterInfra/Finalizer.antt =====
-- When reconcileDelete lets go of an LXCCluster.
use cluster_api_provider_inc.Prelude.{
  String, ◌≡◌, ◌⊎◌, inl, inr, refl, false, List, [], ◌∷◌, any, ◌==◌,
}
use cluster_api_provider_inc.Errors.{
  GoError, Result, ok, err, wrapf, wrap, succeeds, wrap-ok, wrap-err,
}
use cluster_api_provider_inc.Action.{◌>>=◌, pure}
use cluster_api_provider_inc.Action.Ensures.{Ensures, Ensures-pure}
use cluster_api_provider_inc.Api.{Cluster, LxcCluster}
use cluster_api_provider_inc.Api.Conditions.{condition_false, info}
use cluster_api_provider_inc.Balancer.{manager_for_cluster}
use cluster_api_provider_inc.Balancer.Actions.{delete}
use cluster_api_provider_inc.Client.{Client}
use cluster_api_provider_inc.ClusterInfra.{
  patch_lxc_cluster, Reconciler, Outcome, cluster_finalizer, mark, machines_listed,
  balancer_deleted, patched, helped, reconcile_delete,
}

module _ {W Op C : Type 0} (r : Reconciler W Op C) (client : Client W Op) (cluster : Cluster)
    (c : LxcCluster C) where
  -- The cluster that is patched before its load balancer is deleted.
  abbrev pub marked : LxcCluster C
  marked = mark r (condition_false "Deleting" info "") c

  -- Delete of the load balancer and the list of machines, from the world `w` on.
  abbrev pub deletion : W → Result (Unit {0}) × W
  deletion w = delete client (manager_for_cluster r.digest cluster marked) w

  abbrev pub machines_left : W → Result (List String)
  machines_left w = (r.list_machines cluster (deletion w).1).0

  -- The cluster was let go; or it waits, with its finalizers, for its machines; or there is an
  -- error, and it keeps its finalizers.
  abbrev pub IsSettled : W → Outcome C → Type 0
  IsSettled w o =
      ((o.1 ≡ ok 0)
        × (any (λ x. x == cluster_finalizer) o.0.finalizers ≡ false)
        × ((deletion w).0 ≡ ok tt)
        × ((machines_left w ≡ ok []) ⊎ (succeeds (machines_left w) ≡ false)))
      ⊎ (((o.1 ≡ ok 5)
            × (o.0.finalizers ≡ c.finalizers)
            × ((deletion w).0 ≡ ok tt)
            × (m : String) × (ms : List String) × (machines_left w ≡ ok (m ∷ ms)))
          ⊎ ((succeeds o.1 ≡ false) × (o.0.finalizers ≡ c.finalizers)))

  machines_listed-IsSettled :
      (machines : Result (List String)) (w : W)
      → wrap "failed to list machines: " (machines_left w) ≡ machines
      → (deletion w).0 ≡ ok tt
      → IsSettled w (machines_listed r marked machines)
  machines_listed-IsSettled (ok (m ∷ ms)) w e d = inr (inl (refl, refl, d, m, ms, wrap-ok _ _ _ e))
  machines_listed-IsSettled (ok []) w e d =
      inl (refl, r.finalizers.any-remove cluster_finalizer c.finalizers, d, inl (wrap-ok _ _ _ e))
  machines_listed-IsSettled (err x) w e d =
      inl (refl, r.finalizers.any-remove cluster_finalizer c.finalizers, d, inr (wrap-err _ _ _ e))

  -- An outcome that keeps the finalizers, with an error.
  kept :
      (w v : W) (x : GoError) (n : LxcCluster C) (o : Outcome C)
      → n.finalizers ≡ c.finalizers
      → (pure (n, err x) v).0 ≡ ok o
      → IsSettled w o
  kept w v x n o same e =
      let ensured : Ensures {W = W} (IsSettled w) (pure (n, err x)) =
        Ensures-pure _ (inr (inr (refl, same))) in
      ensured.at v o e

  balancer_deleted-IsSettled :
      (d : Result (Unit {0})) (w : W) (o : Outcome C)
      → (deletion w).0 ≡ d
      → (balancer_deleted r cluster marked d (deletion w).1).0 ≡ ok o
      → IsSettled w o
  unfolding ◌>>=◌
  balancer_deleted-IsSettled (err x) w o h e =
      kept w (deletion w).1 (wrapf "failed to delete the load balancer instance: " x "") marked o
        refl e
  balancer_deleted-IsSettled (ok u) w o h e =
      let listed = wrap "failed to list machines: " (machines_left w) in
      let ensured : Ensures {W = W} (IsSettled w) (pure (machines_listed r marked listed)) =
        Ensures-pure _ (machines_listed-IsSettled listed w refl h) in
      ensured.at (deletion w).1 o e

  patched-IsSettled :
      (p : Result (Unit {0})) (w : W) (o : Outcome C)
      → (patched r client cluster marked p w).0 ≡ ok o
      → IsSettled w o
  unfolding ◌>>=◌
  patched-IsSettled (err x) w o e =
      kept w w (wrapf "failed to patch LXCCluster: " x "") marked o refl e
  patched-IsSettled (ok u) w o e = balancer_deleted-IsSettled (deletion w).0 w o refl e

  helped-IsSettled :
      (h : Result (Unit {0})) (w : W) (o : Outcome C)
      → (helped r client cluster c h w).0 ≡ ok o
      → IsSettled (patch_lxc_cluster r marked w).1 o
  unfolding ◌>>=◌
  helped-IsSettled (err x) w o e = kept (patch_lxc_cluster r marked w).1 w x c o refl e
  helped-IsSettled (ok u) w o e =
      let answer = patch_lxc_cluster r marked w in patched-IsSettled answer.0 answer.1 o e

  -- reconcileDelete ends in one of three ways. It reports success only when Delete of the load
  -- balancer, behind the first patch, has succeeded and the list of machines is empty or has
  -- failed, and the finalizer is gone; when Delete has succeeded and the list has a machine, it
  -- asks to be called again in 5 seconds, and keeps the finalizers; with an error, it keeps them
  -- too.
  pub reconcile_delete_lets_go :
      (w : W) (o : Outcome C)
      → (reconcile_delete r client cluster c w).0 ≡ ok o
      → IsSettled (patch_lxc_cluster r marked (r.new_patch_helper c w).1).1 o
  unfolding reconcile_delete ◌>>=◌
  reconcile_delete_lets_go w o e =
      helped-IsSettled (r.new_patch_helper c w).0 (r.new_patch_helper c w).1 o e
