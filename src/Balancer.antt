-- ===== src/Balancer.antt =====
-- The load balancer managers of internal/loadbalancer: manager.go, manager_lxc.go, manager_oci.go,
-- manager_ovn.go, manager_external.go, manager_kube_vip.go and util.go.
pub mod Actions
pub mod Inspect
pub mod Laws
use cluster_api_provider_inc.Prelude.{
  ℕ, String, Bool, true, false, not, Option, none, some, List, [], ◌∷◌, ◌==◌, if◌then◌else◌,
}
use cluster_api_provider_inc.Maps.{GoMap, insert}
use cluster_api_provider_inc.Errors.{Result, ok, wrap, wrap_terminal, ◌>>=◌, ◌>>◌}
use cluster_api_provider_inc.Api.{
  Cluster, LxcCluster, BalancerMachineSpec, BalancerInstance, BalancerKubeVip, ClusterLoadBalancer,
  get_load_balancer_instance_name,
}
use cluster_api_provider_inc.Incus.{Instance}
use cluster_api_provider_inc.Incus.Addresses.{parse_host_addresses}

-- managerLXC and managerOCI; the Incus client is an argument of the methods instead of a field.
pub record InstanceManager : Type 0 where
  pub cluster_name : String
  pub cluster_namespace : String
  pub name : String
  pub spec : BalancerMachineSpec
  pub custom_haproxy_config_template : String

-- managerOVN
pub record OvnManager : Type 0 where
  pub cluster_name : String
  pub cluster_namespace : String
  pub network_name : String
  pub listen_address : String

-- managerKubeVIP
pub record KubeVipManager : Type 0 where
  pub cluster_name : String
  pub cluster_namespace : String
  pub address : String
  pub interface_name : String
  pub kubeconfig_path : String
  pub manifest_path : String
  pub image : String

-- The implementations of the interface Manager. `external` has the address of managerExternal.
pub data Manager : Type 0 where
  lxc : InstanceManager → Manager
  oci : InstanceManager → Manager
  ovn : OvnManager → Manager
  external : String → Manager
  kube_vip : KubeVipManager → Manager

module _ {C : Type 0} (digest : String → String) (cluster : Cluster) (c : LxcCluster C) where
  abbrev instance_manager : BalancerInstance → InstanceManager
  instance_manager b = record {
    cluster_name = cluster.name;
    cluster_namespace = cluster.namespace;
    name = get_load_balancer_instance_name digest c;
    spec = b.instance_spec;
    custom_haproxy_config_template = b.custom_haproxy_config_template;
  }

  abbrev kube_vip_manager : BalancerKubeVip → KubeVipManager
  kube_vip_manager k = record {
    cluster_name = cluster.name;
    cluster_namespace = cluster.namespace;
    address = c.spec.endpoint_host;
    interface_name = k.interface;
    kubeconfig_path = k.kubeconfig_path;
    manifest_path = k.manifest_path;
    image = k.image;
  }

  -- The cases of the switch behind the instances, in its order.
  abbrev select_network : Option String → Option (Unit {0}) → Option BalancerKubeVip → Manager
  select_network (some network) e k = ovn (record {
    cluster_name = cluster.name;
    cluster_namespace = cluster.namespace;
    network_name = network;
    listen_address = c.spec.endpoint_host;
  })
  select_network none (some u) k = external c.spec.endpoint_host
  select_network none none (some k) = kube_vip (kube_vip_manager k)
  select_network none none none = external c.spec.endpoint_host

  abbrev select : Option BalancerInstance → Option BalancerInstance → ClusterLoadBalancer → Manager
  select (some b) o lb = lxc (instance_manager b)
  select none (some b) lb = oci (instance_manager b)
  select none none lb = select_network lb.ovn lb.external lb.kube_vip

  -- ManagerForCluster
  unfoldable pub manager_for_cluster : Manager
  unfolding get_load_balancer_instance_name
  manager_for_cluster =
      select c.spec.load_balancer.lxc c.spec.load_balancer.oci c.spec.load_balancer

-- backendServer
pub record BackendServer : Type 0 where
  pub address : String
  pub weight : ℕ

-- configData
pub record ConfigData : Type 0 where
  pub frontend_control_plane_port : String
  pub backend_control_plane_port : String
  pub backend_servers : GoMap BackendServer
  pub ipv6 : Bool

-- kubeVIPTemplateInput
pub record KubeVipInput : Type 0 where
  pub interface : String
  pub address : String
  pub image : String
  pub kubeconfig_path : String

-- text/template with the program's two kinds of data, and the two default templates.
pub record Templates : Type 0 where
  pub parse : String → Result (Unit {0})
  pub execute_haproxy : String → ConfigData → Result String
  pub execute_kube_vip : String → KubeVipInput → Result String
  pub default_haproxy_template : String
  pub default_kube_vip_template : String

-- renderHaproxyConfiguration
unfoldable pub render_haproxy_configuration : Templates → ConfigData → String → Result String
render_haproxy_configuration t config template = do
  wrap "failed to parse config template: " (t.parse template)
  wrap "error executing config template: " (t.execute_haproxy template config)

-- renderKubeVIPConfiguration
unfoldable pub render_kube_vip_configuration : Templates → KubeVipInput → Result String
render_kube_vip_configuration t input = do
  wrap "failed to parse config template: " (t.parse t.default_kube_vip_template)
  wrap "error executing config template: " (t.execute_kube_vip t.default_kube_vip_template input)

abbrev pub first_address : String → List String → GoMap BackendServer → GoMap BackendServer
first_address name [] servers = servers
first_address name (a ∷ addrs) servers = insert name (record { address = a; weight = 100 }) servers

-- The loop of getLoadBalancerConfiguration.
unfoldable pub backend_servers : List Instance → GoMap BackendServer → GoMap BackendServer
unfolding insert parse_host_addresses
backend_servers [] servers = servers
backend_servers (i ∷ instances) servers =
    backend_servers instances (first_address i.name (parse_host_addresses i.state) servers)

-- The rest of getLoadBalancerConfiguration.
unfoldable pub config_data : List Instance → ConfigData
unfolding backend_servers
config_data instances = record {
  frontend_control_plane_port = "6443";
  backend_control_plane_port = "6443";
  backend_servers = backend_servers instances [];
  ipv6 = false;
}

-- getManifestPath, getImage, getKubeconfigPath
unfoldable pub get_manifest_path : KubeVipManager → String
get_manifest_path l =
    if not (l.manifest_path == "")
    then l.manifest_path
    else "/etc/kubernetes/manifests/kube-vip.yaml"

unfoldable pub get_image : KubeVipManager → String
get_image l = if not (l.image == "") then l.image else "ghcr.io/kube-vip/kube-vip:v0.6.4"

unfoldable pub get_kubeconfig_path : KubeVipManager → Bool → String
get_kubeconfig_path l initialized =
    if not (l.kubeconfig_path == "")
    then l.kubeconfig_path
    else if not initialized
    then "/etc/kubernetes/super-admin.conf"
    else "/etc/kubernetes/admin.conf"

-- ControlPlaneInstanceTemplates
unfoldable pub control_plane_instance_templates : Templates → Manager → Bool → Result (GoMap String)
unfolding get_manifest_path get_image get_kubeconfig_path render_kube_vip_configuration
control_plane_instance_templates t (kube_vip l) initialized = do
  b ← wrap_terminal "failed to generate KubeVIP config file: " (
      render_kube_vip_configuration t (record {
        interface = l.interface_name;
        address = l.address;
        image = get_image l;
        kubeconfig_path = get_kubeconfig_path l initialized;
      }))
  ok ((get_manifest_path l, b) ∷ [])
control_plane_instance_templates t _ initialized = ok []
