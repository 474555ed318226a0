-- ===== src/Docker/Run/Launching.antt =====
-- docker run: the command, docker_run.go.
use cluster_api_provider_inc.Prelude.{String}
use cluster_api_provider_inc.Text.{◌<>◌, quote}
use cluster_api_provider_inc.Errors.{Result, succeeds}
use cluster_api_provider_inc.Action.{Action, ◌>>=◌, ◌>>◌, lift, wrapping, pure}
use cluster_api_provider_inc.Instances.{Static, Codec}
use cluster_api_provider_inc.Launch.{LaunchOptions}
use cluster_api_provider_inc.Client.{get_server_name, supports_container_disk_tmpfs}
use cluster_api_provider_inc.Client.Launching.{wait_for_launch_instance}
use cluster_api_provider_inc.OciImage.{Reference, parse_oci_image}
use cluster_api_provider_inc.Docker.{Environment, privileged, kind_instances, with_unix_socket}
use cluster_api_provider_inc.Docker.Run.{RunFlags, proxy_devices}
use cluster_api_provider_inc.Docker.Run.Options.{options_for_mode, apply_flags}

module _ {W Op : Type 0} (env : Environment W Op) (parse_reference : String → Result Reference)
    (static : Static) (codec : Codec) where
  -- launchOptionsForImage
  unfoldable pub launch_options_for_image : String → String → Action W LaunchOptions
  unfolding parse_oci_image kind_instances options_for_mode privileged with_unix_socket
  launch_options_for_image raw_image server_name = do
    image ←
        wrapping ("failed to parse " <> quote raw_image <> ": ")
          (lift (parse_oci_image parse_reference raw_image))
    kind ← kind_instances env
    lift (
        options_for_mode static codec (privileged env) (with_unix_socket env) server_name raw_image
          image kind)

  -- docker run IMAGE
  unfoldable pub docker_run : RunFlags → String → Action W (Unit {0})
  unfolding launch_options_for_image proxy_devices apply_flags supports_container_disk_tmpfs
      get_server_name wait_for_launch_instance
  docker_run flags raw_image = do
    c ← wrapping "failed to initialize client: " env.client
    proxies ← lift (proxy_devices 0 flags.publish_ports)
    o ←
        wrapping "failed to generate launch options: "
          (launch_options_for_image raw_image (get_server_name c))
    wait_for_launch_instance c flags.name
        (apply_flags flags env.getenv (succeeds (supports_container_disk_tmpfs c)) proxies o)
    pure tt
