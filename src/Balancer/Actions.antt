-- ===== src/Balancer/Actions.antt =====
-- The methods of the load balancer managers that talk to the Incus server.
use cluster_api_provider_inc.Prelude.{
  String, Bool, not, ◌||◌, List, [], ◌∷◌, ◌++◌, map, ◌==◌, if◌then◌else◌,
}
use cluster_api_provider_inc.Text.{◌<>◌, quote, contains}
use cluster_api_provider_inc.Maps.{GoMap, get}
use cluster_api_provider_inc.Errors.{
  Result, ok, err, errorf, wrapf, terminal_error, error_text, wrap, wrap_terminal,
}
use cluster_api_provider_inc.Action.{Action, ◌>>=◌, ◌>>◌, pure, lift, attempt, wrapping}
use cluster_api_provider_inc.Images.{single}
use cluster_api_provider_inc.Launch.{
  LaunchOptions, with_profiles, with_flavor, with_config, with_image, FileArgs,
}
use cluster_api_provider_inc.Instances.{haproxy_lxc_launch_options, haproxy_oci_launch_options}
use cluster_api_provider_inc.Incus.{BalancerPut}
use cluster_api_provider_inc.Client.{
  Client, server_of, with_target, supports_instance_oci, supports_network_load_balancers,
  run_command,
}
use cluster_api_provider_inc.Client.Filters.{InstanceFilter, with_config_filter, list_instances}
use cluster_api_provider_inc.Client.Launching.{wait_for_launch_instance}
use cluster_api_provider_inc.Client.Stop.{wait_for_delete_instance}
use cluster_api_provider_inc.Balancer.{
  InstanceManager, OvnManager, Manager, lxc, oci, ovn, external, kube_vip, ConfigData, config_data,
  Templates, render_haproxy_configuration,
}

-- filterClusterControlPlaneInstances
unfoldable pub filter_cluster_control_plane_instances : String → String → InstanceFilter
unfolding with_config_filter
filter_cluster_control_plane_instances cluster_name cluster_namespace = with_config_filter (
    ("user.cluster-name", cluster_name)
    ∷ ("user.cluster-namespace", cluster_namespace)
    ∷ ("user.cluster-role", "control-plane")
    ∷ [])

-- The launch options of Create, from those of the image.
unfoldable pub balancer_launch_options : InstanceManager → LaunchOptions → LaunchOptions
unfolding with_profiles with_flavor with_config with_image
balancer_launch_options l o =
    with_image
      (single (record {
        protocol = l.spec.image.protocol;
        server = l.spec.image.server;
        alias = l.spec.image.name;
        fingerprint = l.spec.image.fingerprint;
      }))
      (with_config
        (("user.cluster-name", l.cluster_name)
          ∷ ("user.cluster-namespace", l.cluster_namespace)
          ∷ ("user.cluster-role", "loadbalancer")
          ∷ [])
        (with_flavor l.spec.flavor (with_profiles l.spec.profiles o)))

abbrev pub owner_config : OvnManager → GoMap String
owner_config l =
    ("user.cluster-name", l.cluster_name) ∷ ("user.cluster-namespace", l.cluster_namespace) ∷ []

-- Whether a network load balancer belongs to another cluster.
unfoldable pub is_foreign : OvnManager → GoMap String → Bool
unfolding get
is_foreign l config =
    not (get config "user.cluster-name" == l.cluster_name)
    || not (get config "user.cluster-namespace" == l.cluster_namespace)

-- The network load balancer with the backends of the configuration.
unfoldable pub ovn_config : OvnManager → ConfigData → BalancerPut
ovn_config l config = record {
  config =
      owner_config l
      ++ (("healthcheck", "true")
          ∷ ("healthcheck.interval", "5")
          ∷ ("healthcheck.timeout", "5")
          ∷ ("healthcheck.failure_count", "3")
          ∷ ("healthcheck.success_count", "2")
          ∷ []);
  backends =
      map
        (λ b. record {
          name = b.0;
          target_port = config.backend_control_plane_port;
          target_address = b.1.address;
        })
        config.backend_servers;
  ports =
      record {
        listen_port = config.frontend_control_plane_port;
        protocol = "tcp";
        target_backend = map (λ b. b.0) config.backend_servers;
      }
      ∷ [];
}

abbrev haproxy_file : String → FileArgs
haproxy_file content = record {
  content = content;
  kind = "file";
  write_mode = "overwrite";
  mode = 0o440;
  uid = 0;
  gid = 0;
}

module _ {W Op : Type 0} (c : Client W Op) where
  -- The call of WaitForLaunchInstance in both instance managers.
  unfoldable pub launch_balancer : InstanceManager → LaunchOptions → Action W (List String)
  unfolding balancer_launch_options with_target
  launch_balancer l o =
      wrapping "failed to create load balancer instance: " (
        wait_for_launch_instance (with_target l.spec.target c) l.name (balancer_launch_options l o))

  -- What (*managerOVN).Create does with the answer of GetNetworkLoadBalancer.
  unfoldable pub ovn_create_found : OvnManager → Result (GoMap String) → Action W (List String)
  unfolding is_foreign contains error_text
  ovn_create_found l (ok config) =
      if is_foreign l config
      then lift (
          err (
            terminal_error (
              errorf (
                "conflict: a LoadBalancer with IP " <> l.listen_address
                <> " already exists without the required keys user.cluster-name=" <> l.cluster_name
                <> " and user.cluster-namespace=" <> l.cluster_namespace))))
      else pure (l.listen_address ∷ [])
  ovn_create_found l (err e) =
      if not (contains "Network load balancer not found" (error_text e))
      then lift (err (wrapf "failed to GetNetworkLoadBalancer: " e ""))
      else do
        wrapping "failed to CreateNetworkLoadBalancer: " (
            (server_of c).create_network_load_balancer l.network_name l.listen_address
              (owner_config l))
        pure (l.listen_address ∷ [])

  -- (*managerOVN).Create
  unfoldable pub ovn_create : OvnManager → Action W (List String)
  unfolding ovn_create_found
  ovn_create l =
      if l.network_name == ""
      then lift (
          err (
            terminal_error (
              errorf
                "network load balancer cannot be provisioned as .spec.loadBalancer.ovn.networkName is not specified")))
      else do
        lift (
            wrap "server does not support network load balancers: "
              (supports_network_load_balancers c))
        n ← attempt ((server_of c).get_network l.network_name)
        lift (wrap_terminal ("failed to check network " <> quote l.network_name <> ": ") n)
        found ← attempt ((server_of c).get_network_load_balancer l.network_name l.listen_address)
        ovn_create_found l found

  abbrev pub static_address : String → String → Action W (List String)
  static_address kind address =
      if address == ""
      then lift (
          err (
            terminal_error
              (errorf ("using " <> kind <> " load balancer but no address is configured"))))
      else pure (address ∷ [])

  -- Create, of each implementation of Manager
  unfoldable pub create : Manager → Action W (List String)
  unfolding launch_balancer ovn_create supports_instance_oci haproxy_lxc_launch_options
      haproxy_oci_launch_options
  create (lxc l) = launch_balancer l haproxy_lxc_launch_options
  create (oci l) = do
    lift (wrap "server does not support OCI containers: " (supports_instance_oci c))
    launch_balancer l haproxy_oci_launch_options
  create (ovn l) = ovn_create l
  create (external address) = static_address "external" address
  create (kube_vip l) = static_address "KubeVIP" l.address

  abbrev delete_result : Result (Unit {0}) → Result (Unit {0})
  delete_result (ok u) = ok u
  delete_result (err e) =
      if not (contains "not found" (error_text e))
      then err (wrapf "failed to DeleteNetworkLoadBalancer: " e "")
      else ok tt

  -- Delete, of each implementation of Manager
  unfoldable pub delete : Manager → Action W (Unit {0})
  unfolding contains error_text wait_for_delete_instance
  delete (lxc l) =
      wrapping "failed to delete load balancer instance: " (wait_for_delete_instance c l.name)
  delete (oci l) =
      wrapping "failed to delete load balancer instance: " (wait_for_delete_instance c l.name)
  delete (ovn l) = do
    r ← attempt ((server_of c).delete_network_load_balancer l.network_name l.listen_address)
    lift (delete_result r)
  delete (external address) = pure tt
  delete (kube_vip l) = pure tt

  -- getLoadBalancerConfiguration
  unfoldable pub get_load_balancer_configuration : List InstanceFilter → Action W ConfigData
  unfolding config_data list_instances
  get_load_balancer_configuration filters = do
    instances ←
        wrapping "failed to retrieve cluster control plane instances: " (list_instances c filters)
    pure (config_data instances)

  -- The configuration of a cluster's control plane, as every Reconfigure asks for it.
  unfoldable pub cluster_configuration : String → String → Action W ConfigData
  unfolding get_load_balancer_configuration filter_cluster_control_plane_instances
  cluster_configuration cluster_name cluster_namespace =
      wrapping "failed to build load balancer configuration: " (
        get_load_balancer_configuration
          (filter_cluster_control_plane_instances cluster_name cluster_namespace ∷ []))

  -- Reconfigure of managerLXC and managerOCI, with the path of the file, the command that reloads
  -- it and the text of that command's failure.
  unfoldable pub reconfigure_haproxy :
      Templates → InstanceManager → String → List String → String → Action W (Unit {0})
  unfolding cluster_configuration render_haproxy_configuration run_command
  reconfigure_haproxy t l path command failure = do
    config ← cluster_configuration l.cluster_name l.cluster_namespace
    let template =
        if not (l.custom_haproxy_config_template == "")
        then l.custom_haproxy_config_template
        else t.default_haproxy_template
    cfg ← lift (
        wrap "failed to render load balancer config: "
          (render_haproxy_configuration t config template))
    wrapping "failed to write haproxy config: "
        ((server_of c).create_instance_file l.name path (haproxy_file cfg))
    wrapping failure (run_command c l.name command)

  -- Reconfigure, of each implementation of Manager
  unfoldable pub reconfigure : Templates → Manager → Action W (Unit {0})
  unfolding reconfigure_haproxy cluster_configuration ovn_config
  reconfigure t (lxc l) =
      reconfigure_haproxy t l "/etc/haproxy/haproxy.cfg"
        ("systemctl" ∷ "reload" ∷ "haproxy.service" ∷ []) "failed to reload haproxy service: "
  reconfigure t (oci l) =
      reconfigure_haproxy t l "/usr/local/etc/haproxy/haproxy.cfg"
        ("kill" ∷ "--signal" ∷ "SIGUSR2" ∷ "1" ∷ []) "failed to send SIGUSR2 to haproxy pids: "
  reconfigure t (ovn l) = do
    config ← cluster_configuration l.cluster_name l.cluster_namespace
    wrapping "failed to UpdateNetworkLoadBalancer: " (
        (server_of c).update_network_load_balancer l.network_name l.listen_address
          (ovn_config l config))
  reconfigure t (external address) = pure tt
  reconfigure t (kube_vip l) = pure tt
