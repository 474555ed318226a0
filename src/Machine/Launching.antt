-- ===== src/Machine/Launching.antt =====
-- launchInstance of controller_util_launch.go and launchKindInstance of
-- controller_util_launch_kind.go.
pub mod Config
pub mod Bootstrap
use cluster_api_provider_inc.Prelude.{
  String, Bool, true, false, not, Option, none, some, List, [], ◌∷◌, ◌==◌, if◌then◌else◌,
}
use cluster_api_provider_inc.Text.{◌<>◌, quote, contains, replace_all}
use cluster_api_provider_inc.Maps.{GoMap, lookup}
use cluster_api_provider_inc.Errors.{
  GoError, Result, ok, err, errorf, wrapf, terminal_error, is_terminal_error, wrap, wrap_terminal,
}
use cluster_api_provider_inc.Action.{Action, ◌>>=◌, ◌>>◌, pure, lift, attempt}
use cluster_api_provider_inc.Api.{
  ImageSource, is_zero, Cluster, LxcCluster, Machine, LxcMachine, get_instance_name,
  first_pod_network_cidr,
}
use cluster_api_provider_inc.Api.Devices.{DeviceMap, to_map}
use cluster_api_provider_inc.Images.{
  Image, ImageFamily, single, parse_image, capn_image, kindest_node_image, container,
}
use cluster_api_provider_inc.Images.Check.{check}
use cluster_api_provider_inc.Launch.{
  LaunchOptions, with_flavor, with_profiles, with_devices, with_config, with_image,
  with_instance_templates,
}
use cluster_api_provider_inc.Instances.{kubeadm_launch_options, kind_launch_options}
use cluster_api_provider_inc.Balancer.{manager_for_cluster, control_plane_instance_templates}
use cluster_api_provider_inc.Client.{Client, with_target, get_server_name, supports_instance_oci}
use cluster_api_provider_inc.Client.Launching.{wait_for_launch_instance}
use cluster_api_provider_inc.Machine.{Reconciler}

-- The version, or "" where the pointer is nil.
abbrev pub version_or_empty : Option String → String
version_or_empty none = ""
version_or_empty (some v) = v

abbrev pub role_of : Machine → String
role_of machine = if machine.control_plane then "control-plane" else "worker"

-- The image name with VERSION replaced.
unfoldable pub resolve_name : Machine → String → Result String
unfolding contains replace_all
resolve_name machine name =
    let version = version_or_empty machine.version in
    if contains "VERSION" name
    then (if version == ""
        then err (
            terminal_error (
              errorf (
                "image name "
                <> quote name
                <> " contains VERSION but Machine "
                <> quote machine.name
                <> " does not have a Kubernetes version")))
        else ok (replace_all "VERSION" version name))
    else ok name

-- The lxc.Image of an image source.
unfoldable pub image_of : ImageSource → Image
image_of s = record {
  protocol = s.protocol;
  server = s.server;
  fingerprint = s.fingerprint;
  alias = s.name;
}

abbrev parsed_or : Image → Option ImageFamily → ImageFamily
parsed_or i none = single i
parsed_or i (some f) = f

-- The error of a default image that is not available: the text is put around a terminal one.
unfoldable pub default_image_error : String → GoError → GoError
unfolding is_terminal_error
default_image_error before e =
    if is_terminal_error e
    then wrapf before e
        ". Please consider using a different Kubernetes version, or build your own base image and set the image source on the LXCMachineTemplate resource"
    else e

abbrev checked : String → Image → Result (Unit {0}) → Result ImageFamily
checked before i (ok u) = ok (single i)
checked before i (err e) = err (default_image_error before e)

-- The labels that the provider sets on every instance.
unfoldable pub provider_config : Cluster → Machine → GoMap String
provider_config cluster machine =
    ("user.cluster-name", cluster.name)
    ∷ ("user.cluster-namespace", cluster.namespace)
    ∷ ("user.machine-name", machine.name)
    ∷ ("user.cluster-role", role_of machine)
    ∷ []

-- What both functions add to the launch options.
unfoldable pub customize :
    {C : Type 0}
    → Cluster
    → Machine
    → LxcMachine C
    → DeviceMap
    → ImageFamily
    → LaunchOptions
    → LaunchOptions
unfolding with_flavor with_profiles with_devices with_config with_image provider_config
customize cluster machine m devices image o = with_image image (
    with_config (provider_config cluster machine) (
      with_config m.spec.config
        (with_devices devices (with_profiles m.spec.profiles (with_flavor m.spec.flavor o)))))

module _ {W Op C : Type 0} (r : Reconciler W Op C) (cluster : Cluster) (lxc_cluster : LxcCluster C)
    (machine : Machine) (m : LxcMachine C) where
  -- The choice of an image, with the default image, the instance type that it is checked for, and
  -- the text around a terminal error of that check.
  unfoldable pub choose_image : ImageSource → Image → String → String → Action W ImageFamily
  unfolding image_of is_zero parse_image default_image_error check
  choose_image s default instance_type before =
      if not (s.name == "")
      then (do
        f ← lift (wrap ("failed to parse image " <> quote s.name <> ": ") (parse_image s.name))
        pure (parsed_or (image_of s) f))
      else if is_zero s
      then (if version_or_empty machine.version == ""
          then lift (
              err (
                terminal_error (
                  errorf (
                    "no image source specified on LXCMachineTemplate and Machine "
                    <> quote machine.name
                    <> " does not have a Kubernetes version"))))
          else do
            a ← attempt (check r.registry default instance_type)
            lift (checked before default a))
      else pure (single (image_of s))

  abbrev pub templated : LaunchOptions → Result (GoMap String) → Result LaunchOptions
  templated o (ok files) = ok (with_instance_templates files o)
  templated o (err e) = err (wrapf "failed to generate load balancer configuration files: " e "")

  -- The instance templates of the load balancer manager, for a control plane machine.
  unfoldable pub apply_balancer_templates : LaunchOptions → Result LaunchOptions
  unfolding control_plane_instance_templates manager_for_cluster with_instance_templates
  apply_balancer_templates o =
      if machine.control_plane
      then templated o (
          control_plane_instance_templates r.templates
            (manager_for_cluster r.digest cluster lxc_cluster) cluster.initialized)
      else ok o

  abbrev devices_of : Result DeviceMap
  devices_of = wrap_terminal "invalid .spec.devices on LXCMachine: " (to_map m.spec.devices)

  abbrev launch : LaunchOptions → Action W (List String)
  launch o = wait_for_launch_instance (with_target m.spec.target r.client) (get_instance_name m) o

  abbrev instance_type_of : String
  instance_type_of = if m.spec.instance_type == "" then container else m.spec.instance_type

  -- The first half of launchInstance, up to the templates of the load balancer.
  unfoldable pub kubeadm_options : String → Action W LaunchOptions
  unfolding resolve_name choose_image customize kubeadm_launch_options to_map capn_image
  kubeadm_options cloud_init = do
    devices ← lift devices_of
    name ← lift (resolve_name machine m.spec.image.name)
    let version = version_or_empty machine.version
    image ←
        choose_image (record m.spec.image { name = name }) (capn_image ("kubeadm/" <> version))
          instance_type_of
          ("image not specified and default simplestreams server does not provide images for Kubernetes version "
            <> quote version
            <> ". The error was: ")
    pure (
        customize cluster machine m devices image (
          kubeadm_launch_options r.static (record {
            kubernetes_version = version;
            instance_type = instance_type_of;
            privileged = not lxc_cluster.spec.unprivileged;
            skip_profile = lxc_cluster.spec.skip_default_kubeadm_profile;
            skip_install_kubeadm_script = false;
            server_name = get_server_name r.client;
            cloud_init = cloud_init;
          })))

  abbrev apt_install : Option String → Result Bool
  apt_install none = ok false
  apt_install (some v) =
      wrap_terminal
        ("failed to parse user.capn.x-kind-apt-install-cloud-init=" <> quote v <> " as boolean: ")
        (r.parse_bool v)

  -- The first half of launchKindInstance.
  unfoldable pub kind_options : String → Action W LaunchOptions
  unfolding resolve_name choose_image customize kind_launch_options to_map kindest_node_image
      supports_instance_oci first_pod_network_cidr lookup
  kind_options cloud_init = do
    lift (
        wrap_terminal "cannot launch kind instance as OCI containers are not supported: "
          (supports_instance_oci r.client))
    devices ← lift devices_of
    name ← lift (resolve_name machine m.spec.image.name)
    let version = version_or_empty machine.version
    image ←
        choose_image (record m.spec.image { name = name }) (kindest_node_image version) container
          ("image not specified and could not find kindest/node:" <> version
            <> " image on DockerHub. The error was: ")
    apt ← lift (apt_install (lookup "user.capn.x-kind-apt-install-cloud-init" m.spec.config))
    o ← lift (
        wrap "failed to generate kind instance launch options: " (
          kind_launch_options r.static r.codec (record {
            kubernetes_version = version;
            privileged = not lxc_cluster.spec.unprivileged;
            skip_profile = lxc_cluster.spec.skip_default_kubeadm_profile;
            pod_network_cidr = first_pod_network_cidr cluster;
            cloud_init = cloud_init;
            cloud_init_apt_install = apt;
          })))
    pure (customize cluster machine m devices image o)

  -- What launchInstance, or launchKindInstance for the instance type kind, launches with.
  unfoldable pub launch_options : String → Action W LaunchOptions
  unfolding kubeadm_options kind_options apply_balancer_templates
  launch_options cloud_init = do
    o ←
        (if m.spec.instance_type == "kind"
          then kind_options cloud_init
          else kubeadm_options cloud_init)
    lift (apply_balancer_templates o)

  -- launchInstance, with launchKindInstance
  unfoldable pub launch_instance : String → Action W (List String)
  unfolding launch_options wait_for_launch_instance with_target
  launch_instance cloud_init = do o ← launch_options cloud_init; launch o
