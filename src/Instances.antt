-- ===== src/Instances.antt =====
-- The launch options of internal/instances (haproxy.go, kubeadm.go, kind.go), the profiles of
-- internal/static/profiles.go and cloud-init manifests of internal/cloudinit/cloudinit.go.
use cluster_api_provider_inc.Prelude.{
  String, Bool, not, ◌&&◌, Option, none, some, List, [], ◌∷◌, ◌==◌, if◌then◌else◌,
}
use cluster_api_provider_inc.Text.{◌<>◌, cut_prefix, replace_all}
use cluster_api_provider_inc.Maps.{GoMap}
use cluster_api_provider_inc.Errors.{Result, ok, err, errorf, wrap, wrap_terminal, ◌>>=◌}
use cluster_api_provider_inc.Images.{
  no_fingerprint, single, capn_image, kindest_node_image, container, lxd, oci, simplestreams,
  default_simplestreams_server,
}
use cluster_api_provider_inc.Launch.{
  LaunchOptions, no_options, with_instance_templates, with_create_files, with_symlinks,
  with_replacements, with_devices, with_config, with_image, with_instance_type,
}

-- api.ProfilePut
pub record Profile : Type 0 where
  pub config : GoMap String
  pub devices : GoMap (GoMap String)

-- What is embedded from files: the profiles and the scripts of internal/static.
pub record Static : Type 0 where
  pub default_kubeadm : Profile
  pub default_kubeadm_unprivileged : Profile
  pub default_lxd_kubeadm_unprivileged : Profile
  pub default_kind : Profile
  pub default_kind_unprivileged : Profile
  pub install_kubeadm_script : String
  pub cloud_init_meta_data_template : String
  pub cloud_init_user_data_template : String
  pub cloud_init_launch_service_template : String
  pub kind_cloud_init_script : String
  pub kind_default_storage_manifest : String
  pub kube_flannel_manifest : String

-- cloudinit.File and cloudinit.CloudConfig
pub record File : Type 0 where
  pub path : String
  pub owner : String
  pub permissions : String
  pub content : String

pub record CloudConfig : Type 0 where
  pub write_files : List File
  pub run_commands : List String

-- The YAML and JSON libraries: strict decoding of a cloud-config, and its encoding.
pub record Codec : Type 0 where
  pub unmarshal_strict : String → Result CloudConfig
  pub marshal_json : CloudConfig → Result String

-- DefaultKubeadmProfile
unfoldable pub default_kubeadm_profile : Static → Bool → String → Profile
default_kubeadm_profile static privileged server_name =
    if privileged
    then static.default_kubeadm
    else if server_name == lxd
    then static.default_lxd_kubeadm_unprivileged
    else static.default_kubeadm_unprivileged

-- DefaultKindProfile
unfoldable pub default_kind_profile : Static → Bool → Profile
default_kind_profile static privileged =
    if privileged then static.default_kind else static.default_kind_unprivileged

-- HaproxyLXCLaunchOptions
unfoldable pub haproxy_lxc_launch_options : LaunchOptions
unfolding with_image with_instance_type
haproxy_lxc_launch_options =
    with_image (single (no_fingerprint simplestreams default_simplestreams_server "haproxy"))
      (with_instance_type container no_options)

-- HaproxyOCILaunchOptions
unfoldable pub haproxy_oci_launch_options : LaunchOptions
unfolding with_image with_instance_type with_symlinks with_config with_create_files
haproxy_oci_launch_options = with_create_files (("/etc/environment", "") ∷ []) (
    with_config (("oci.entrypoint", "/init -W -db -f /usr/local/etc/haproxy/haproxy.cfg") ∷ []) (
      with_symlinks (("/init", "/usr/sbin/haproxy") ∷ []) (
        with_image
          (single (
            no_fingerprint oci "https://ghcr.io"
              "lxc/cluster-api-provider-incus/haproxy:v20230606-42a2262b"))
          (with_instance_type container no_options))))

-- KubeadmLaunchOptionsInput
pub record KubeadmInput : Type 0 where
  pub kubernetes_version : String
  pub instance_type : String
  pub privileged : Bool
  pub skip_profile : Bool
  pub skip_install_kubeadm_script : Bool
  pub server_name : String
  pub cloud_init : String

-- The three conditional steps of KubeadmLaunchOptions.
unfoldable pub kubeadm_script : Static → KubeadmInput → LaunchOptions → LaunchOptions
unfolding with_instance_templates
kubeadm_script static input o =
    if not input.skip_install_kubeadm_script
    then with_instance_templates
        (("/opt/cluster-api/install-kubeadm.sh", static.install_kubeadm_script) ∷ []) o
    else o

unfoldable pub kubeadm_cloud_init : KubeadmInput → LaunchOptions → LaunchOptions
unfolding with_config
kubeadm_cloud_init input o =
    if not (input.cloud_init == "")
    then with_config (("cloud-init.user-data", input.cloud_init) ∷ []) o
    else o

unfoldable pub apply_profile : Profile → LaunchOptions → LaunchOptions
unfolding with_config with_devices
apply_profile profile o = with_devices profile.devices (with_config profile.config o)

unfoldable pub kubeadm_profile : Static → KubeadmInput → LaunchOptions → LaunchOptions
unfolding apply_profile default_kubeadm_profile
kubeadm_profile static input o =
    if input.instance_type == container && not input.skip_profile
    then apply_profile (default_kubeadm_profile static input.privileged input.server_name) o
    else o

-- KubeadmLaunchOptions
unfoldable pub kubeadm_launch_options : Static → KubeadmInput → LaunchOptions
unfolding kubeadm_script kubeadm_cloud_init kubeadm_profile with_image with_instance_type capn_image
kubeadm_launch_options static input = kubeadm_profile static input (
    kubeadm_cloud_init input (
      kubeadm_script static input (
        with_image (single (capn_image ("kubeadm/" <> input.kubernetes_version)))
          (with_instance_type input.instance_type no_options))))

-- The first cut of cloudinit.Parse, with the replacer of one pair applied behind a jinja header.
abbrev drop_jinja : (String → String) → String → Option String → String
drop_jinja replace raw none = raw
drop_jinja replace raw (some rest) = replace rest

abbrev parse_body : Codec → Option String → Result CloudConfig
parse_body codec none = err (errorf "missing required header #cloud-config")
parse_body codec (some raw) = wrap "failed parsing cloud-config YAML: " (codec.unmarshal_strict raw)

-- cloudinit.Parse
unfoldable pub parse_cloud_init : Codec → String → (String → String) → Result CloudConfig
unfolding cut_prefix
parse_cloud_init codec raw replace =
    parse_body codec (
      cut_prefix "#cloud-config\n" (drop_jinja replace raw (cut_prefix "## template: jinja\n" raw)))

-- KindLaunchOptionsInput
pub record KindInput : Type 0 where
  pub kubernetes_version : String
  pub privileged : Bool
  pub skip_profile : Bool
  pub pod_network_cidr : String
  pub cloud_init : String
  pub cloud_init_apt_install : Bool

-- The options that every kindest/node instance has.
unfoldable pub kind_base : KindInput → LaunchOptions
unfolding with_instance_type with_image kindest_node_image with_replacements with_symlinks
kind_base input = with_symlinks (("/init", "/usr/local/bin/entrypoint") ∷ []) (
    with_replacements
      ((
        "/usr/local/bin/entrypoint",
        (">/etc/resolv.conf", ">/etc/local-resolv.conf")
            ∷ (
              "${KIND_EXPERIMENTAL_CONTAINERD_SNAPSHOTTER:-}",
              "${KIND_EXPERIMENTAL_CONTAINERD_SNAPSHOTTER:-overlayfs}",
            )
            ∷ [],
      )
        ∷ [])
      (with_image (single (kindest_node_image input.kubernetes_version))
        (with_instance_type container no_options)))

-- The files that run cloud-init in the instance.
unfoldable pub kind_cloud_init_files : Static → KindInput → LaunchOptions → LaunchOptions
unfolding with_config with_instance_templates with_symlinks
kind_cloud_init_files static input o =
    with_symlinks
      ((
        "/etc/systemd/system/multi-user.target.wants/cloud-init-launch.service",
        "/etc/systemd/system/cloud-init-launch.service",
      )
        ∷ [])
      (with_instance_templates
        (("/var/lib/cloud/seed/nocloud-net/meta-data", static.cloud_init_meta_data_template)
          ∷ ("/var/lib/cloud/seed/nocloud-net/user-data", static.cloud_init_user_data_template)
          ∷ (
            "/etc/systemd/system/cloud-init-launch.service",
            static.cloud_init_launch_service_template,
          )
          ∷ ("/hack/cloud-init.py", static.kind_cloud_init_script)
          ∷ [])
        (with_config (("cloud-init.user-data", input.cloud_init) ∷ []) o))

-- The manifest as JSON, for an instance that runs cloud-init by a script.
unfoldable pub kind_cloud_init_json : Codec → KindInput → LaunchOptions → Result LaunchOptions
unfolding parse_cloud_init with_instance_templates replace_all
kind_cloud_init_json codec input o =
    if not input.cloud_init_apt_install
    then (do
      config ←
          wrap_terminal
            "failed to parse instance cloud-config, please report this bug to https://github.com/lxc/cluster-api-provider-incus/issues: "
            (parse_cloud_init codec input.cloud_init
              (replace_all "{{ v1.local_hostname }}" "{{ container.name }}"))
      json ←
          wrap_terminal
            "failed to generate JSON cloud-config for instance, please report this bug to github.com/lxc/cluster-api-provider-incus/issues: "
            (codec.marshal_json config)
      ok (with_instance_templates (("/hack/cloud-init.json", json) ∷ []) o))
    else ok o

unfoldable pub kind_cloud_init : Static → Codec → KindInput → LaunchOptions → Result LaunchOptions
unfolding kind_cloud_init_files kind_cloud_init_json
kind_cloud_init static codec input o =
    if not (input.cloud_init == "")
    then kind_cloud_init_json codec input (kind_cloud_init_files static input o)
    else ok o

unfoldable pub kind_pod_network : KindInput → LaunchOptions → LaunchOptions
unfolding with_replacements
kind_pod_network input o =
    if not (input.pod_network_cidr == "")
    then with_replacements
        (("/kind/manifests/default-cni.yaml", ("{{ .PodSubnet }}", input.pod_network_cidr) ∷ [])
          ∷ [])
        o
    else o

unfoldable pub kind_profile : Static → KindInput → LaunchOptions → LaunchOptions
unfolding apply_profile default_kind_profile
kind_profile static input o =
    if not input.skip_profile
    then apply_profile (default_kind_profile static input.privileged) o
    else o

-- KindLaunchOptions
unfoldable pub kind_launch_options : Static → Codec → KindInput → Result LaunchOptions
unfolding kind_base kind_cloud_init kind_pod_network kind_profile
kind_launch_options static codec input = do
  o ← kind_cloud_init static codec input (kind_base input)
  ok (kind_profile static input (kind_pod_network input o))
