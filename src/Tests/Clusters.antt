-- ===== src/Tests/Clusters.antt =====
-- Runs of the LXCCluster controller and of the load balancers.
use cluster_api_provider_inc.Prelude.{
  ◌⊎◌, String, ◌≡◌, ◌≢◌, inl, refl, true, is_some, List, [], ◌∷◌, Any,
}
use cluster_api_provider_inc.Action.{◌>>=◌}
use cluster_api_provider_inc.Maps.{lookup, get}
use cluster_api_provider_inc.Errors.{GoError, ok, is_terminal_error}
use cluster_api_provider_inc.Api.{LxcCluster}
use cluster_api_provider_inc.Incus.Addresses.{parse_host_addresses}
use cluster_api_provider_inc.Client.{Client, supports_network_load_balancers}
use cluster_api_provider_inc.Client.Launching.{wait_for_launch_instance}
use cluster_api_provider_inc.Client.Launching.Laws.{wait_for_launch_instance_address}
use cluster_api_provider_inc.Client.Stop.{wait_for_delete_instance}
use cluster_api_provider_inc.Client.Stop.Laws.{IsDeleted, wait_for_delete_instance-IsDeleted}
use cluster_api_provider_inc.Launch.{no_options}
use cluster_api_provider_inc.Balancer.{OvnManager, external, ConfigData, manager_for_cluster}
use cluster_api_provider_inc.Balancer.Actions.{is_foreign, create, cluster_configuration}
use cluster_api_provider_inc.Balancer.Laws.{create_not_empty, IsOwned, IsCreated, create_ovn_adopts}
use cluster_api_provider_inc.Balancer.Laws.Listed.{IsBackend}
use cluster_api_provider_inc.Balancer.Laws.Backends.{
  IsLabelled, cluster_configuration_sound, cluster_configuration_complete,
}
use cluster_api_provider_inc.ClusterInfra.{
  patch_lxc_cluster, Outcome, reconcile_normal, reconcile_delete,
}
use cluster_api_provider_inc.ClusterInfra.Endpoint.{
  IsServing, IsCreateFailure, reconcile_normal_created, reconcile_normal-create_error,
}
use cluster_api_provider_inc.ClusterInfra.Finalizer.{IsSettled, reconcile_delete_lets_go}
use cluster_api_provider_inc.Tests.Fixtures.{
  Log, Conditions, value_or, error_of, running, control_plane_instance, server, client_of, client,
  cluster_reconciler,
}
use cluster_api_provider_inc.Tests.Objects.{cluster, lxc_cluster}

reconcile_normal_created_example :
    (o : Outcome Conditions) × (reconcile_normal
        (cluster_reconciler [])
        (client (ok running))
        cluster
        lxc_cluster
        []
      ≡ (ok o, []))
    × IsServing (cluster_reconciler []) lxc_cluster ("10.0.0.1" ∷ []) o
unfolding create manager_for_cluster ◌>>=◌
reconcile_normal_created_example =
    reconcile_normal_created (cluster_reconciler []) (client (ok running)) cluster lxc_cluster [] []
      ("10.0.0.1" ∷ []) refl

-- The same cluster without the address that an external load balancer needs.
abbrev unaddressed : LxcCluster Conditions
unaddressed = record lxc_cluster { spec = record lxc_cluster.spec { endpoint_host = "" } }

abbrev no_address : GoError
unfolding create manager_for_cluster ◌>>=◌
no_address =
    error_of (create (client (ok running)) (manager_for_cluster (λ s. s) cluster unaddressed) []).0

reconcile_normal-create_error_example :
    (o : Outcome Conditions) × (reconcile_normal
        (cluster_reconciler [])
        (client (ok running))
        cluster
        unaddressed
        []
      ≡ (ok o, []))
    × IsCreateFailure (cluster_reconciler []) unaddressed (is_terminal_error no_address) o
unfolding create manager_for_cluster ◌>>=◌
reconcile_normal-create_error_example =
    reconcile_normal-create_error (cluster_reconciler []) (client (ok running)) cluster unaddressed
      [] [] no_address refl

abbrev waiting_outcome : Outcome Conditions
unfolding reconcile_delete ◌>>=◌
waiting_outcome =
    value_or (lxc_cluster, ok 1)
      (reconcile_delete (cluster_reconciler ("m0" ∷ [])) (client (ok running)) cluster lxc_cluster
        []).0

-- The cluster still has a machine.
waiting_requeue : waiting_outcome.1 ≡ ok 5
unfolding reconcile_delete ◌>>=◌
waiting_requeue = refl

reconcile_delete_lets_go_example :
    IsSettled
      (cluster_reconciler ("m0" ∷ []))
      (client (ok running))
      cluster
      lxc_cluster
      ("patch" ∷ "new_patch_helper" ∷ [])
      waiting_outcome
unfolding reconcile_delete patch_lxc_cluster ◌>>=◌
reconcile_delete_lets_go_example =
    reconcile_delete_lets_go (cluster_reconciler ("m0" ∷ [])) (client (ok running)) cluster
      lxc_cluster [] waiting_outcome refl

abbrev static_addresses : List String
static_addresses = "10.0.0.9" ∷ []

create_not_empty_example : static_addresses ≢ []
unfolding create ◌>>=◌
create_not_empty_example =
    create_not_empty (client (ok running)) (external "10.0.0.9") [] static_addresses refl

-- A network load balancer that belongs to the cluster.
abbrev own : Client Log String
own =
    client_of (
      server (ok running) (ok (("user.cluster-name", "c") ∷ ("user.cluster-namespace", "ns") ∷ [])))

abbrev ovn_manager : OvnManager
ovn_manager = record {
  cluster_name = "c";
  cluster_namespace = "ns";
  network_name = "ovn";
  listen_address = "10.0.0.1";
}

abbrev own_addresses : List String
own_addresses = "10.0.0.1" ∷ []

create_ovn_adopts_example :
    (own_addresses ≡ ovn_manager.listen_address ∷ [])
    × (u : Log) × (IsOwned own ovn_manager u ("get_network_load_balancer" ∷ "get_network" ∷ [])
        ⊎ IsCreated own ovn_manager u ("get_network_load_balancer" ∷ "get_network" ∷ []))
unfolding create supports_network_load_balancers is_foreign ◌>>=◌
create_ovn_adopts_example =
    create_ovn_adopts own ovn_manager [] ("get_network_load_balancer" ∷ "get_network" ∷ [])
      own_addresses refl

abbrev configuration : ConfigData
unfolding cluster_configuration ◌>>=◌
configuration =
    value_or
      (record {
        frontend_control_plane_port = "";
        backend_control_plane_port = "";
        backend_servers = [];
        ipv6 = true;
      })
      (cluster_configuration (client (ok running)) "c" "ns" []).0

cluster_configuration_sound_example :
    Any
      (λ i.
        IsBackend "m0" (record { address = "10.0.0.2"; weight = 100 }) i × IsLabelled "c" "ns" i)
      (control_plane_instance ∷ [])
unfolding cluster_configuration lookup ◌>>=◌
cluster_configuration_sound_example =
    cluster_configuration_sound (client (ok running)) "c" "ns" [] ("get_instances_full" ∷ [])
      (control_plane_instance ∷ []) configuration "m0"
      (record { address = "10.0.0.2"; weight = 100 }) refl refl refl

cluster_configuration_complete_example : is_some (lookup "m0" configuration.backend_servers) ≡ true
unfolding cluster_configuration parse_host_addresses get ◌>>=◌
cluster_configuration_complete_example =
    cluster_configuration_complete (client (ok running)) "c" "ns" [] ("get_instances_full" ∷ [])
      (control_plane_instance ∷ []) configuration control_plane_instance "10.0.0.2" [] refl refl
      (inl refl) (refl, refl, refl) refl

abbrev running_addresses : List String
running_addresses = "10.0.0.2" ∷ []

wait_for_launch_instance_address_example : running_addresses ≢ []
unfolding wait_for_launch_instance ◌>>=◌
wait_for_launch_instance_address_example =
    wait_for_launch_instance_address (client (ok running)) "m0" no_options [] running_addresses refl

wait_for_delete_instance-IsDeleted_example : IsDeleted (client (ok running)) "m0" [] (
    "wait_context" ∷ "delete_instance" ∷ "wait_context" ∷ "update_instance_state"
    ∷ "get_instance_state" ∷ [])
unfolding wait_for_delete_instance ◌>>=◌
wait_for_delete_instance-IsDeleted_example =
    wait_for_delete_instance-IsDeleted (client (ok running)) "m0" []
      ("wait_context" ∷ "delete_instance" ∷ "wait_context" ∷ "update_instance_state"
        ∷ "get_instance_state" ∷ [])
      refl
