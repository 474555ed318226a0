-- ===== src/Docker/Run/Options.antt =====
-- docker run: the launch options for an image and for the flags, docker_run.go.
use cluster_api_provider_inc.Prelude.{String, Bool, true, false, [], ◌∷◌, if◌then◌else◌}
use cluster_api_provider_inc.Text.{◌<>◌, quote, contains}
use cluster_api_provider_inc.Maps.{GoMap}
use cluster_api_provider_inc.Errors.{Result, ok, errorf, err, ◌>>=◌}
use cluster_api_provider_inc.Images.{single, container}
use cluster_api_provider_inc.Instances.{
  Static, Codec, haproxy_oci_launch_options, kubeadm_launch_options, kind_launch_options,
}
use cluster_api_provider_inc.Launch
use cluster_api_provider_inc.Launch.{
  LaunchOptions, no_options, with_config, with_image, with_devices, with_instance_templates,
  with_append_to_files,
}
use cluster_api_provider_inc.OciImage.{OciImage, alias, tag, oci_source}
use cluster_api_provider_inc.Docker.Run.{
  RunFlags, environment_lines, prefixed, volume_devices, tmpfs_devices, unix_devices,
}

-- The options of a node in OCI mode.
unfoldable pub kind_node_options : Static → Codec → Bool → Bool → OciImage → Result LaunchOptions
unfolding kind_launch_options with_image Launch.with_unix_socket oci_source
kind_node_options static codec privileged socket image = do
  o ← kind_launch_options static codec (record {
    kubernetes_version = "";
    privileged = privileged;
    skip_profile = false;
    pod_network_cidr = "";
    cloud_init = "";
    cloud_init_apt_install = false;
  })
  ok (Launch.with_unix_socket socket (with_image (single (oci_source image)) o))

-- The options of a node in LXC mode, which ignores the digest.
unfoldable pub lxc_node_options : Static → Bool → Bool → String → OciImage → LaunchOptions
unfolding kubeadm_launch_options with_instance_templates Launch.with_unix_socket tag
lxc_node_options static privileged socket server_name image = Launch.with_unix_socket socket (
    with_instance_templates
      (("/etc/sysconfig/kubelet", "KUBELET_EXTRA_ARGS='--cgroup-root='")
        ∷ ("/kind/product_name", "kind")
        ∷ ("/kind/product_uuid", "kind")
        ∷ ("/kind/version", tag image)
        ∷ ("/kind/manifests/default-storage.yaml", static.kind_default_storage_manifest)
        ∷ ("/kind/manifests/default-cni.yaml", static.kube_flannel_manifest)
        ∷ [])
      (kubeadm_launch_options static (record {
        kubernetes_version = tag image;
        instance_type = container;
        privileged = privileged;
        skip_profile = false;
        skip_install_kubeadm_script = true;
        server_name = server_name;
        cloud_init = "";
      })))

-- launchOptionsForImage, once it is known whether kind instances are to be launched
unfoldable pub options_for_mode :
    Static → Codec → Bool → Bool → String → String → OciImage → Bool → Result LaunchOptions
unfolding contains alias kind_node_options lxc_node_options with_config with_image oci_source
    haproxy_oci_launch_options
options_for_mode static codec privileged socket server_name raw_image image kind =
    if contains "kindest/haproxy" (alias image)
    then (if kind
        then ok (with_image (single (oci_source image)) haproxy_oci_launch_options)
        else err
            (errorf ("haproxy instances (" <> quote raw_image <> ") not supported in LXC mode")))
    else if contains "kindest/base" (alias image)
    then (if kind
        then ok (
            with_image (single (oci_source image))
              (with_config (("oci.entrypoint", "sleep infinity") ∷ []) no_options))
        else err (
            errorf
              ("kindest/base instances (" <> quote raw_image <> ") not supported in LXC mode")))
    else if kind
    then kind_node_options static codec privileged socket image
    else ok (lxc_node_options static privileged socket server_name image)

-- What the flags add to the options of the image.
unfoldable pub apply_flags :
    RunFlags → (String → String) → Bool → GoMap (GoMap String) → LaunchOptions → LaunchOptions
unfolding with_config with_devices with_append_to_files prefixed environment_lines volume_devices
    tmpfs_devices unix_devices
apply_flags flags getenv tmpfs_supported proxies o =
    with_append_to_files
      (("/etc/environment", "\n# added by kini\n" <> environment_lines getenv flags.environment)
        ∷ [])
      (with_devices (unix_devices 0 flags.devices) (
        with_devices (if tmpfs_supported then tmpfs_devices 0 flags.tmpfs else []) (
          with_devices (volume_devices 0 flags.volumes) (
            with_devices proxies (
              with_config (prefixed "linux.sysctl." flags.sysctl)
                (with_config (prefixed "user." flags.labels) o))))))
