-- ===== src/Tests/Fixtures.antt =====
-- A small world for the tests: servers that answer every call from a table and write down its name.
use cluster_api_provider_inc.Prelude.{String, true, false, none, some, List, [], ◌∷◌}
use cluster_api_provider_inc.Maps.{GoMap}
use cluster_api_provider_inc.Errors.{GoError, Result, ok, err, errorf}
use cluster_api_provider_inc.Action.{Action}
use cluster_api_provider_inc.Api.Conditions.{Condition, map_conditions}
use cluster_api_provider_inc.Api.Finalizers.{list_finalizers}
use cluster_api_provider_inc.Images.Check.{Registry}
use cluster_api_provider_inc.Incus.{InstanceState, Instance, InstanceServer}
use cluster_api_provider_inc.Client.{Client}
use cluster_api_provider_inc.Instances.{Profile, Static}
use cluster_api_provider_inc.Balancer.{Templates}
use cluster_api_provider_inc.Machine.{Reconciler}
use cluster_api_provider_inc.ClusterInfra

-- The world is the list of the calls, the latest first.
abbrev pub Log : Type 0
Log = List String

abbrev pub answer : {A : Type 0} → String → Result A → Action Log A
answer call r w = (r, call ∷ w)

abbrev pub value_or : {A : Type 0} → A → Result A → A
value_or d (ok a) = a
value_or d (err e) = d

abbrev pub error_of : {A : Type 0} → Result A → GoError
error_of (ok a) = errorf ""
error_of (err e) = e

abbrev pub not_found : GoError
not_found = errorf "Instance not found"

abbrev pub running : InstanceState
running = record {
  status = "Running";
  pid = 42;
  networks =
      record {
        kind = "broadcast";
        host_name = "veth0";
        addresses =
            record { family = "inet"; address = "10.0.0.2"; netmask = "24"; scope = "global" } ∷ [];
      }
      ∷ [];
}

abbrev pub control_plane_instance : Instance
control_plane_instance = record {
  name = "m0";
  kind = "container";
  config =
      ("user.cluster-name", "c")
      ∷ ("user.cluster-namespace", "ns")
      ∷ ("user.cluster-role", "control-plane")
      ∷ [];
  devices = [];
  state = some running;
}

-- A server with the given answers for the state of an instance and for a network load balancer.
abbrev pub server : Result InstanceState → Result (GoMap String) → InstanceServer Log String
server state balancer = record {
  get_instance_state = λ n. answer "get_instance_state" state;
  get_instance_full = λ n. answer "get_instance_full" (ok control_plane_instance);
  get_instances_full = answer "get_instances_full" (ok (control_plane_instance ∷ []));
  get_operations = answer "get_operations" (ok []);
  raw_operation = λ i. answer "raw_operation" (ok i);
  wait_context = λ op. answer "wait_context" (ok tt);
  create_instance = λ p. answer "create_instance" (ok "create");
  update_instance_state = λ n p. answer "update_instance_state" (ok "update");
  delete_instance = λ n. answer "delete_instance" (ok "delete");
  get_instance_metadata = λ n. answer "get_instance_metadata" (ok []);
  create_instance_template_file = λ n t c. answer "create_instance_template_file" (ok tt);
  update_instance_metadata = λ n m. answer "update_instance_metadata" (ok tt);
  create_instance_file = λ n p f. answer "create_instance_file" (ok tt);
  get_instance_file = λ n p. answer "get_instance_file" (err (errorf "not found"));
  exec_instance = λ n c. answer "exec_instance" (ok "exec");
  exit_status = λ op. answer "exit_status" (ok 0);
  get_instance =
      λ n. answer "get_instance" (ok (record { kind = "container"; last_used_at = 100 }));
  get_image_alias =
      λ n. answer "get_image_alias" (ok (record { target = "target"; kind = "virtual-machine" }));
  get_image_created_at = λ n. answer "get_image_created_at" (ok 90);
  delete_image_alias = λ n. answer "delete_image_alias" (ok tt);
  create_image = λ p. answer "create_image" (ok "image");
  get_network = λ n. answer "get_network" (ok tt);
  get_network_load_balancer = λ n a. answer "get_network_load_balancer" balancer;
  create_network_load_balancer = λ n a c. answer "create_network_load_balancer" (ok tt);
  update_network_load_balancer = λ n a p. answer "update_network_load_balancer" (ok tt);
  delete_network_load_balancer = λ n a. answer "delete_network_load_balancer" (ok tt);
}

abbrev pub client_of : InstanceServer Log String → Client Log String
client_of s = record {
  servers = λ target. s;
  target = "";
  info = record {
    server = "incus";
    api_extensions = "network_load_balancer" ∷ "network_load_balancer_health_check" ∷ [];
    driver = "lxc | qemu";
    architectures = "x86_64" ∷ "i686" ∷ [];
    clustered = false;
  };
  polls = 3;
}

abbrev pub client : Result InstanceState → Client Log String
client state = client_of (server state (ok []))

-- Image servers that have every image, or none.
abbrev pub registry : Result (Unit {0}) → Registry Log
registry found = record {
  connect_simple_streams = λ s. answer "connect_simple_streams" (ok tt);
  get_image_alias_type = λ s t a. answer "get_image_alias_type" found;
  head = λ i b. answer "head" found;
}

abbrev profile : Profile
profile = record { config = []; devices = [] }

abbrev static : Static
static = record {
  default_kubeadm = profile;
  default_kubeadm_unprivileged = profile;
  default_lxd_kubeadm_unprivileged = profile;
  default_kind = profile;
  default_kind_unprivileged = profile;
  install_kubeadm_script = "";
  cloud_init_meta_data_template = "";
  cloud_init_user_data_template = "";
  cloud_init_launch_service_template = "";
  kind_cloud_init_script = "";
  kind_default_storage_manifest = "";
  kube_flannel_manifest = "";
}

abbrev templates : Templates
templates = record {
  parse = λ t. ok tt;
  execute_haproxy = λ t c. ok "haproxy";
  execute_kube_vip = λ t c. ok "kube-vip";
  default_haproxy_template = "";
  default_kube_vip_template = "";
}

abbrev pub Conditions : Type 0
Conditions = GoMap Condition

abbrev pub machine_reconciler : Result InstanceState → Reconciler Log String Conditions
machine_reconciler state = record {
  library = map_conditions;
  finalizers = list_finalizers;
  client = client state;
  registry = registry (ok tt);
  static = static;
  codec = record {
    unmarshal_strict = λ s. err (errorf "no cloud-config");
    marshal_json = λ c. ok "{}";
  };
  templates = templates;
  digest = λ s. s;
  parse_bool = λ s. ok true;
  get_secret_value = λ ns n. answer "get_secret_value" (ok (some "#cloud-config"));
  new_patch_helper = answer "new_patch_helper" (ok tt);
  patch = λ m. answer "patch" (ok tt);
}

abbrev pub cluster_reconciler : List String → ClusterInfra.Reconciler Log String Conditions
cluster_reconciler machines = record {
  library = map_conditions;
  finalizers = list_finalizers;
  digest = λ s. s;
  get_object = answer "get_object" (ok none);
  get_owner_cluster = λ c. answer "get_owner_cluster" (ok none);
  get_secret = λ n. answer "get_secret" (ok []);
  connect = λ s. answer "connect" (ok (client (ok running)));
  ensure_finalizer = λ c. answer "ensure_finalizer" (ok false);
  ensure_paused_condition = λ cluster c. answer "ensure_paused_condition" (ok false);
  new_patch_helper = λ c. answer "new_patch_helper" (ok tt);
  patch = λ c. answer "patch" (ok tt);
  list_machines = λ c. answer "list_machines" (ok machines);
}
