-- ===== src/Tests/Objects.antt =====
-- The objects of one cluster.
use cluster_api_provider_inc.Prelude.{String, true, false, Option, none, some, [], ◌∷◌}
use cluster_api_provider_inc.Api.{ImageSource, LxcMachine, LxcCluster, Cluster, Machine}
use cluster_api_provider_inc.Tests.Fixtures.{Conditions}

abbrev no_image : ImageSource
no_image = record { name = ""; fingerprint = ""; server = ""; protocol = "" }

abbrev pub cluster : Cluster
cluster = record {
  name = "c";
  namespace = "ns";
  deleted = false;
  infrastructure_ref = some "c";
  infrastructure_ready = true;
  initialized = true;
  pod_cidrs = none;
}

-- A cluster with an endpoint of its own choice.
abbrev pub lxc_cluster : LxcCluster Conditions
lxc_cluster = record {
  name = "c";
  namespace = "ns";
  deleted = false;
  finalizers = "lxccluster.infrastructure.cluster.x-k8s.io" ∷ [];
  spec = record {
    endpoint_host = "10.0.0.1";
    endpoint_port = 0;
    secret_name = "secret";
    load_balancer = record {
      lxc = none;
      oci = none;
      ovn = none;
      external = some tt;
      kube_vip = none;
    };
    unprivileged = false;
    skip_default_kubeadm_profile = false;
  };
  ready = false;
  conditions = [];
}

abbrev pub machine : Option String → Machine
machine version = record {
  name = "m0";
  control_plane = false;
  version = version;
  data_secret_name = some "bootstrap";
}

abbrev pub lxc_machine : Option String → LxcMachine Conditions
lxc_machine id = record {
  name = "m0";
  namespace = "ns";
  deleted = false;
  finalizers = "lxcmachine.infrastructure.cluster.x-k8s.io" ∷ [];
  spec = record {
    provider_id = id;
    instance_type = "";
    flavor = "";
    profiles = [];
    devices = [];
    config = ("user.cluster-name", "other") ∷ ("key", "value") ∷ [];
    image = no_image;
    target = "";
  };
  ready = false;
  load_balancer_configured = false;
  addresses = [];
  conditions = [];
}
