-- ===== src/Machine/Reconcile.antt =====
-- Reconcile and LXCClusterToLXCMachines of internal/controller/lxcmachine/controller.go.
pub mod Deferred
use cluster_api_provider_inc.Prelude.{
  ℕ, String, Bool, Option, none, some, List, [], ◌∷◌, ◌==◌, if◌then◌else◌,
}
use cluster_api_provider_inc.Errors.{Result, ok, err}
use cluster_api_provider_inc.Action.{Action, ◌>>=◌, ◌>>◌, pure, lift, attempt, wrapping}
use cluster_api_provider_inc.Api.{
  Cluster, Machine, LxcCluster, LxcMachine, get_lxc_secret_namespaced_name,
}
use cluster_api_provider_inc.Client.{Client}
use cluster_api_provider_inc.Machine.{Reconciler, patch_lxc_machine}
use cluster_api_provider_inc.Machine.Normal.{Outcome, reconcile_normal}
use cluster_api_provider_inc.Machine.Delete.{reconcile_delete}

-- The Kubernetes calls of Reconcile before the object is worked on; `none` stands for an object
-- that is not found or a nil owner. `owners` is utillog.AddOwners; `reconciler` builds the rest of
-- the environment from the client that lxc.New returns for the secret.
pub record Environment (W Op C : Type 0) : Type 0 where
  pub get_object : Action W (Option (LxcMachine C))
  pub add_owners : LxcMachine C → Action W (Unit {0})
  pub get_owner_machine : LxcMachine C → Action W (Option Machine)
  pub get_cluster : Machine → Action W (Option Cluster)
  pub ensure_paused_condition : Cluster → LxcMachine C → Action W Bool
  pub get_lxc_cluster : String → String → Action W (LxcCluster C)
  pub get_secret : String × String → Action W (List (String × String))
  pub connect : List (String × String) → Action W (Client W Op)
  pub ensure_finalizer : LxcMachine C → Action W Bool
  pub reconciler : Client W Op → Reconciler W Op C

module _ {W Op C : Type 0} (e : Environment W Op C) where
  -- The deferred patch: its error is returned only where there is no other.
  abbrev pub finish : Reconciler W Op C → Outcome C → Action W ℕ
  finish r (m, ok requeue) = do patch_lxc_machine r m; pure requeue
  finish r (m, err x) = do attempt (patch_lxc_machine r m); lift (err x)

  abbrev pub no_requeue : {A : Type 0} → A × Result (Unit {0}) → A × Result ℕ
  no_requeue (m, ok u) = (m, ok 0)
  no_requeue (m, err x) = (m, err x)

  abbrev pub dispatch :
      Reconciler W Op C → Cluster → LxcCluster C → Machine → LxcMachine C → Action W (Outcome C)
  dispatch r cluster lxc_cluster machine m =
      if m.deleted
      then (do o ← reconcile_delete r cluster lxc_cluster machine m; pure (no_requeue o))
      else reconcile_normal r cluster lxc_cluster machine m

  abbrev pub with_cluster : LxcMachine C → Machine → Cluster → Result (LxcCluster C) → Action W ℕ
  with_cluster m machine cluster (err x) = pure 0
  with_cluster m machine cluster (ok lxc_cluster) = do
    secret ←
        wrapping "failed to fetch LXC credentials: "
          (e.get_secret (get_lxc_secret_namespaced_name lxc_cluster))
    client ← wrapping "failed to create incus client: " (e.connect secret)
    added ← e.ensure_finalizer m
    if added then pure 0 else do
      (e.reconciler client).new_patch_helper
      o ← dispatch (e.reconciler client) cluster lxc_cluster machine m
      finish (e.reconciler client) o

  abbrev pub with_reference : LxcMachine C → Machine → Cluster → Option String → Action W ℕ
  with_reference m machine cluster none = pure 0
  with_reference m machine cluster (some name) = do
    l ← attempt (e.get_lxc_cluster m.namespace name)
    with_cluster m machine cluster l

  abbrev pub with_owner : LxcMachine C → Machine → Option Cluster → Action W ℕ
  with_owner m machine none = pure 0
  with_owner m machine (some cluster) = do
    paused ← e.ensure_paused_condition cluster m
    if paused then pure 0 else with_reference m machine cluster cluster.infrastructure_ref

  abbrev pub with_machine : LxcMachine C → Option Machine → Action W ℕ
  with_machine m none = pure 0
  with_machine m (some machine) = do cluster ← e.get_cluster machine; with_owner m machine cluster

  abbrev pub with_object : Option (LxcMachine C) → Action W ℕ
  with_object none = pure 0
  with_object (some m) = do e.add_owners m; machine ← e.get_owner_machine m; with_machine m machine

  -- Reconcile; RequeueAfter in seconds
  unfoldable pub reconcile : Action W ℕ
  unfolding reconcile_normal reconcile_delete patch_lxc_machine get_lxc_secret_namespaced_name
  reconcile = do o ← e.get_object; with_object o

-- The request for a machine, from its namespace and the name in its infrastructureRef.
abbrev add_request : String × String → List (String × String) → List (String × String)
add_request (namespace, name) rest = if name == "" then rest else (namespace, name) ∷ rest

-- The loop of LXCClusterToLXCMachines.
unfoldable pub machine_requests : List (String × String) → List (String × String)
machine_requests [] = []
machine_requests (m ∷ machines) = add_request m (machine_requests machines)

abbrev listed : Result (List (String × String)) → List (String × String)
listed (ok machines) = machine_requests machines
listed (err x) = []

abbrev for_owner :
    (Cluster → Result (List (String × String))) → Result (Option Cluster) → List (String × String)
for_owner machines (ok (some cluster)) = listed (machines cluster)
for_owner machines (ok none) = []
for_owner machines (err x) = []

-- LXCClusterToLXCMachines: the owner of the LXCCluster (`none` for nil) and the machines of a
-- cluster are what the Kubernetes client answers.
unfoldable pub lxc_cluster_to_lxc_machines :
    Result (Option Cluster) → (Cluster → Result (List (String × String))) → List (String × String)
unfolding machine_requests
lxc_cluster_to_lxc_machines owner machines = for_owner machines owner
