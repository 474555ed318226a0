-- ===== src/ClusterInfra.antt =====
-- The LXCCluster controller, internal/controller/lxccluster: controller.go, controller_normal.go,
-- controller_delete.go and controller_util.go, with GetMachinesForCluster of internal/utils.
pub mod Endpoint
pub mod Finalizer
use cluster_api_provider_inc.Prelude.{
  ℕ, String, Bool, true, false, not, ◌&&◌, Option, none, some, List, [], ◌∷◌, any, is_empty, ◌==◌,
  if◌then◌else◌, nat_eq,
}
use cluster_api_provider_inc.Text.{◌<>◌}
use cluster_api_provider_inc.Errors.{
  GoError, Result, ok, err, errorf, wrapf, wrap, error_text, is_terminal_error,
}
use cluster_api_provider_inc.Action.{Action, ◌>>=◌, ◌>>◌, pure, lift, attempt, wrapping}
use cluster_api_provider_inc.Api.{Cluster, LxcCluster, get_lxc_secret_namespaced_name}
use cluster_api_provider_inc.Api.Conditions.{
  ConditionLibrary, Condition, condition_true, condition_false, error, warning, info,
}
use cluster_api_provider_inc.Balancer.{Templates, Manager, manager_for_cluster}
use cluster_api_provider_inc.Balancer.Actions.{create, delete}
use cluster_api_provider_inc.Client.{Client}
use cluster_api_provider_inc.Machine.{has_infra_condition_error}
use cluster_api_provider_inc.Api.Finalizers.{FinalizerLibrary}

abbrev pub cluster_finalizer : String
cluster_finalizer = "lxccluster.infrastructure.cluster.x-k8s.io"

abbrev pub load_balancer_available : String
load_balancer_available = "LoadBalancerAvailable"

-- What the controller works with. Of the Kubernetes client: reading the LXCCluster (`none` for not
-- found), its owner Cluster (`none` for nil), the secret, finalizers.EnsureFinalizer and
-- paused.EnsurePausedCondition (whether they changed the object or it is paused), patch.NewHelper,
-- the patch, and the list of the cluster's machines. `connect` is lxc.New with the configuration
-- from the secret.
pub record Reconciler (W Op C : Type 0) : Type 0 where
  pub library : ConditionLibrary C
  pub finalizers : FinalizerLibrary
  pub digest : String → String
  pub get_object : Action W (Option (LxcCluster C))
  pub get_owner_cluster : LxcCluster C → Action W (Option Cluster)
  pub get_secret : String × String → Action W (List (String × String))
  pub connect : List (String × String) → Action W (Client W Op)
  pub ensure_finalizer : LxcCluster C → Action W Bool
  pub ensure_paused_condition : Cluster → LxcCluster C → Action W Bool
  pub new_patch_helper : LxcCluster C → Action W (Unit {0})
  pub patch : LxcCluster C → Action W (Unit {0})
  pub list_machines : Cluster → Action W (List String)

-- The object, and the error or RequeueAfter in seconds, 0 for none.
abbrev pub Outcome : Type 0 → Type 0
Outcome C = LxcCluster C × Result ℕ

-- lbIPs[0], where the failure stands for the panic of the index
abbrev pub head_or_panic : List String → Result String
head_or_panic [] = err (errorf "panic: index out of range [0] with length 0")
head_or_panic (a ∷ addrs) = ok a

module _ {W Op C : Type 0} (r : Reconciler W Op C) where
  abbrev pub mark : Condition → LxcCluster C → LxcCluster C
  mark k c = record c { conditions = r.library.mark load_balancer_available k c.conditions }

  -- patchLXCCluster
  unfoldable pub patch_lxc_cluster : LxcCluster C → Action W (Unit {0})
  unfolding has_infra_condition_error
  patch_lxc_cluster c = r.patch (record c {
    conditions =
        r.library.set_summary load_balancer_available
          (not c.deleted
            && not (
                has_infra_condition_error load_balancer_available (r.library.entries c.conditions)))
          c.conditions;
  })

  -- Surface the control plane endpoint.
  abbrev pub with_host : LxcCluster C → String → LxcCluster C
  with_host c host = record c { spec = record c.spec { endpoint_host = host } }

  abbrev pub with_port : LxcCluster C → LxcCluster C
  with_port c =
      if nat_eq c.spec.endpoint_port 0
      then record c { spec = record c.spec { endpoint_port = 6443 } }
      else c

  abbrev pub with_first : LxcCluster C → Result String → Result (LxcCluster C)
  with_first c (ok host) = ok (with_port (with_host c host))
  with_first c (err e) = err e

  unfoldable pub surface_endpoint : LxcCluster C → List String → Result (LxcCluster C)
  surface_endpoint c addrs =
      if c.spec.endpoint_host == "" then with_first c (head_or_panic addrs) else ok (with_port c)

  abbrev pub surfaced : LxcCluster C → Result (LxcCluster C) → Outcome C
  surfaced c (ok c') = (mark condition_true (record c' { ready = true }), ok 0)
  surfaced c (err e) = (c, err e)

  abbrev pub created : LxcCluster C → Result (List String) → Outcome C
  created c (err e) =
      if is_terminal_error e
      then (
        mark
            (condition_false "LoadBalancerProvisioningAbortedReason" error (
              "The cluster load balancer could not be provisioned. The error was: "
              <> error_text e))
            c,
        ok 0,
      )
      else (mark (condition_false "LoadBalancerProvisioningFailed" warning (error_text e)) c, err e)
  created c (ok addrs) = surfaced c (surface_endpoint c addrs)

  -- reconcileNormal
  unfoldable pub reconcile_normal : Client W Op → Cluster → LxcCluster C → Action W (Outcome C)
  unfolding surface_endpoint is_terminal_error error_text create manager_for_cluster
  reconcile_normal client cluster c = do
    addrs ← attempt (create client (manager_for_cluster r.digest cluster c))
    pure (created c addrs)

  -- The end of reconcileDelete, behind the list of machines.
  abbrev pub machines_listed : LxcCluster C → Result (List String) → Outcome C
  machines_listed c (ok (m ∷ machines)) = (c, ok 5)
  machines_listed c _ =
      (record c { finalizers = r.finalizers.remove cluster_finalizer c.finalizers }, ok 0)

  abbrev pub balancer_deleted : Cluster → LxcCluster C → Result (Unit {0}) → Action W (Outcome C)
  balancer_deleted cluster c (err e) =
      pure (c, err (wrapf "failed to delete the load balancer instance: " e ""))
  balancer_deleted cluster c (ok u) = do
    machines ← attempt (wrapping "failed to list machines: " (r.list_machines cluster))
    pure (machines_listed c machines)

  abbrev pub patched :
      Client W Op → Cluster → LxcCluster C → Result (Unit {0}) → Action W (Outcome C)
  patched client cluster c (err e) = pure (c, err (wrapf "failed to patch LXCCluster: " e ""))
  patched client cluster c (ok u) = do
    d ← attempt (delete client (manager_for_cluster r.digest cluster c))
    balancer_deleted cluster c d

  abbrev pub helped :
      Client W Op → Cluster → LxcCluster C → Result (Unit {0}) → Action W (Outcome C)
  helped client cluster c (err e) = pure (c, err e)
  helped client cluster c (ok u) = do
    let c' = mark (condition_false "Deleting" info "") c
    p ← attempt (patch_lxc_cluster c')
    patched client cluster c' p

  -- reconcileDelete
  unfoldable pub reconcile_delete : Client W Op → Cluster → LxcCluster C → Action W (Outcome C)
  unfolding delete manager_for_cluster patch_lxc_cluster
  reconcile_delete client cluster c = do
    h ← attempt (r.new_patch_helper c)
    helped client cluster c h

  -- The deferred patch: its error is returned only where there is no other.
  abbrev pub finish : Outcome C → Action W ℕ
  finish (c, ok requeue) = do patch_lxc_cluster c; pure requeue
  finish (c, err e) = do attempt (patch_lxc_cluster c); lift (err e)

  -- Reconcile behind the two calls that may end it early.
  abbrev pub reconcile_ready : Client W Op → Cluster → LxcCluster C → Action W ℕ
  reconcile_ready client cluster c = do
    r.new_patch_helper c
    o ← (if c.deleted then reconcile_delete client cluster c else reconcile_normal client cluster c)
    finish o

  abbrev pub reconcile_owned : LxcCluster C → Option Cluster → Action W ℕ
  reconcile_owned c none = pure 0
  reconcile_owned c (some cluster) = do
    secret ←
        wrapping "failed to fetch LXC credentials: "
          (r.get_secret (get_lxc_secret_namespaced_name c))
    client ← wrapping "failed to create incus client: " (r.connect secret)
    added ← r.ensure_finalizer c
    if added then pure 0 else do
      paused ← r.ensure_paused_condition cluster c
      if paused then pure 0 else reconcile_ready client cluster c

  abbrev pub reconcile_found : Option (LxcCluster C) → Action W ℕ
  reconcile_found none = pure 0
  reconcile_found (some c) = do owner ← r.get_owner_cluster c; reconcile_owned c owner

  -- Reconcile; RequeueAfter in seconds
  unfoldable pub reconcile : Action W ℕ
  unfolding reconcile_normal reconcile_delete patch_lxc_cluster get_lxc_secret_namespaced_name
  reconcile = do o ← r.get_object; reconcile_found o
