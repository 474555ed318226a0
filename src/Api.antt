-- ===== src/Api.antt =====
-- The objects of api/v1alpha2 and the parts of Cluster API's objects that the program reads.
pub mod Devices
pub mod Conditions
pub mod Finalizers
use cluster_api_provider_inc.Prelude.{
  ℕ, String, Bool, ◌&&◌, Option, none, some, List, is_some, ◌==◌,
}
use cluster_api_provider_inc.Text.{◌<>◌}
use cluster_api_provider_inc.Maps.{GoMap}

-- LXCMachineImageSource
pub record ImageSource : Type 0 where
  pub name : String
  pub fingerprint : String
  pub server : String
  pub protocol : String

-- (*LXCMachineImageSource).IsZero, of a source that is not nil
unfoldable pub is_zero : ImageSource → Bool
is_zero s = s.name == "" && s.fingerprint == "" && s.server == "" && s.protocol == ""

-- LXCMachineSpec
pub record LxcMachineSpec : Type 0 where
  pub provider_id : Option String
  pub instance_type : String
  pub flavor : String
  pub profiles : List String
  pub devices : List String
  pub config : GoMap String
  pub image : ImageSource
  pub target : String

-- clusterv1.MachineAddress
pub record MachineAddress : Type 0 where
  pub kind : String
  pub address : String

-- LXCMachine, with its metadata and status. `conditions` is in the representation of Cluster API's
-- conditions library.
pub record LxcMachine (C : Type 0) : Type 0 where
  pub name : String
  pub namespace : String
  pub deleted : Bool
  pub finalizers : List String
  pub spec : LxcMachineSpec
  pub ready : Bool
  pub load_balancer_configured : Bool
  pub addresses : List MachineAddress
  pub conditions : C

-- LXCLoadBalancerMachineSpec
pub record BalancerMachineSpec : Type 0 where
  pub flavor : String
  pub profiles : List String
  pub image : ImageSource
  pub target : String

-- LXCLoadBalancerInstance
pub record BalancerInstance : Type 0 where
  pub instance_spec : BalancerMachineSpec
  pub custom_haproxy_config_template : String

-- LXCLoadBalancerKubeVIP
pub record BalancerKubeVip : Type 0 where
  pub interface : String
  pub image : String
  pub kubeconfig_path : String
  pub manifest_path : String

-- LXCClusterLoadBalancer: at most one field is set, which the code does not rely on. The settings
-- of `ovn` are its network name, and `external` has none.
pub record ClusterLoadBalancer : Type 0 where
  pub lxc : Option BalancerInstance
  pub oci : Option BalancerInstance
  pub ovn : Option String
  pub external : Option (Unit {0})
  pub kube_vip : Option BalancerKubeVip

-- LXCClusterSpec
pub record LxcClusterSpec : Type 0 where
  pub endpoint_host : String
  pub endpoint_port : ℕ
  pub secret_name : String
  pub load_balancer : ClusterLoadBalancer
  pub unprivileged : Bool
  pub skip_default_kubeadm_profile : Bool

-- LXCCluster, with its metadata and status
pub record LxcCluster (C : Type 0) : Type 0 where
  pub name : String
  pub namespace : String
  pub deleted : Bool
  pub finalizers : List String
  pub spec : LxcClusterSpec
  pub ready : Bool
  pub conditions : C

-- What the program reads of a clusterv1.Cluster. `infrastructure_ref` is the name in
-- spec.infrastructureRef; `initialized` is whether ControlPlaneInitialized is true; `pod_cidrs` is
-- spec.clusterNetwork.pods.cidrBlocks, `none` where a pointer on the way is nil.
pub record Cluster : Type 0 where
  pub name : String
  pub namespace : String
  pub deleted : Bool
  pub infrastructure_ref : Option String
  pub infrastructure_ready : Bool
  pub initialized : Bool
  pub pod_cidrs : Option (List String)

-- What the program reads of a clusterv1.Machine. `control_plane` is what
-- util.IsControlPlaneMachine says of it.
pub record Machine : Type 0 where
  pub name : String
  pub control_plane : Bool
  pub version : Option String
  pub data_secret_name : Option String

module _ {C : Type 0} where
  -- GetInstanceName
  unfoldable pub get_instance_name : LxcMachine C → String
  get_instance_name m = m.name

  -- GetExpectedProviderID
  unfoldable pub get_expected_provider_id : LxcMachine C → String
  unfolding get_instance_name
  get_expected_provider_id m = "lxc:///" <> get_instance_name m

  -- GetLoadBalancerInstanceName; `digest` is the hex text of the SHA-256 of a text, cut to 5.
  unfoldable pub get_load_balancer_instance_name : (String → String) → LxcCluster C → String
  get_load_balancer_instance_name digest c = c.name <> "-" <> digest c.namespace <> "-lb"

  -- GetLXCSecretNamespacedName: namespace and name
  unfoldable pub get_lxc_secret_namespaced_name : LxcCluster C → String × String
  get_lxc_secret_namespaced_name c = (c.namespace, c.spec.secret_name)

abbrev first_or_empty : Option (List String) → String
first_or_empty none = ""
first_or_empty (some List.[]) = ""
first_or_empty (some (List.◌∷◌ b bs)) = b

-- ClusterFirstPodNetworkCIDR of internal/utils/pod_cidr.go
unfoldable pub first_pod_network_cidr : Cluster → String
first_pod_network_cidr c = first_or_empty c.pod_cidrs
