-- ===== src/Incus.antt =====
-- The Incus API client library, which is not part of the repository: the values that it exchanges
-- and the calls that the program makes of it, as an interface over a world `W` that they change and
-- a type `Op` of handles on operations in progress.
pub mod Addresses
use cluster_api_provider_inc.Prelude.{ℕ, String, Bool, Option, List}
use cluster_api_provider_inc.Maps.{GoMap}
use cluster_api_provider_inc.Action.{Action}
use cluster_api_provider_inc.Launch.{FileArgs}

-- api.InstanceStateNetworkAddress
pub record Address : Type 0 where
  pub family : String
  pub address : String
  pub netmask : String
  pub scope : String

-- api.InstanceStateNetwork
pub record Network : Type 0 where
  pub kind : String
  pub host_name : String
  pub addresses : List Address

-- api.InstanceState; the networks are the values of a map, in the order of an iteration
pub record InstanceState : Type 0 where
  pub status : String
  pub pid : ℕ
  pub networks : List Network

-- api.InstanceFull
pub record Instance : Type 0 where
  pub name : String
  pub kind : String
  pub config : GoMap String
  pub devices : GoMap (GoMap String)
  pub state : Option InstanceState

-- api.Operation; `instances` is Resources["instances"]
pub record Operation : Type 0 where
  pub id : String
  pub class : String
  pub description : String
  pub instances : List String

-- api.InstanceSource
pub record InstanceSource : Type 0 where
  pub kind : String
  pub protocol : String
  pub server : String
  pub alias : String
  pub fingerprint : String

-- api.InstancesPost
pub record InstancesPost : Type 0 where
  pub name : String
  pub source : InstanceSource
  pub kind : String
  pub instance_type : String
  pub config : GoMap String
  pub devices : GoMap (GoMap String)
  pub profiles : List String

-- api.InstanceStatePut
pub record StatePut : Type 0 where
  pub action : String
  pub force : Bool

-- api.ImageMetadataTemplate
pub record Template : Type 0 where
  pub when : List String
  pub create_only : Bool
  pub template : String

-- api.NetworkLoadBalancerBackend
pub record Backend : Type 0 where
  pub name : String
  pub target_port : String
  pub target_address : String

-- api.NetworkLoadBalancerPort
pub record Port : Type 0 where
  pub listen_port : String
  pub protocol : String
  pub target_backend : List String

-- api.NetworkLoadBalancerPut
pub record BalancerPut : Type 0 where
  pub config : GoMap String
  pub backends : List Backend
  pub ports : List Port

-- api.ImageSource, embedded in api.ImagesPostSource
pub record ImageSource : Type 0 where
  pub alias : String
  pub protocol : String
  pub server : String

-- api.ImagesPostSource; `fingerprint` and `name` are "" where they are not set
pub record ImagesPostSource : Type 0 where
  pub image : ImageSource
  pub kind : String
  pub fingerprint : String
  pub name : String

-- api.ImagesPost; times are in seconds
pub record ImagesPost : Type 0 where
  pub source : ImagesPostSource
  pub properties : GoMap String
  pub is_public : Bool
  pub expires_at : Option ℕ
  pub aliases : List String

-- What is read of api.ImageAliasesEntry
pub record ImageAlias : Type 0 where
  pub target : String
  pub kind : String

-- What the program reads of api.Instance: its type, and when it was last used.
pub record InstanceInfo : Type 0 where
  pub kind : String
  pub last_used_at : ℕ

-- The calls of incus.InstanceServer, and of incus.Operation where they take a handle.
pub record InstanceServer (W Op : Type 0) : Type 0 where
  pub get_instance_state : String → Action W InstanceState
  pub get_instance_full : String → Action W Instance
  pub get_instances_full : Action W (List Instance)
  pub get_operations : Action W (List Operation)
  pub raw_operation : String → Action W Op
  pub wait_context : Op → Action W (Unit {0})
  pub create_instance : InstancesPost → Action W Op
  pub update_instance_state : String → StatePut → Action W Op
  pub delete_instance : String → Action W Op
  pub get_instance_metadata : String → Action W (GoMap Template)
  pub create_instance_template_file : String → String → String → Action W (Unit {0})
  pub update_instance_metadata : String → GoMap Template → Action W (Unit {0})
  pub create_instance_file : String → String → FileArgs → Action W (Unit {0})
  pub get_instance_file : String → String → Action W FileArgs
  pub exec_instance : String → List String → Action W Op
  pub exit_status : Op → Action W ℕ
  pub get_instance : String → Action W InstanceInfo
  pub get_image_alias : String → Action W ImageAlias
  pub get_image_created_at : String → Action W ℕ
  pub delete_image_alias : String → Action W (Unit {0})
  pub create_image : ImagesPost → Action W Op
  pub get_network : String → Action W (Unit {0})
  pub get_network_load_balancer : String → String → Action W (GoMap String)
  pub create_network_load_balancer : String → String → GoMap String → Action W (Unit {0})
  pub update_network_load_balancer : String → String → BalancerPut → Action W (Unit {0})
  pub delete_network_load_balancer : String → String → Action W (Unit {0})

-- What the program reads of api.Server
pub record ServerInfo : Type 0 where
  pub server : String
  pub api_extensions : List String
  pub driver : String
  pub architectures : List String
  pub clustered : Bool
