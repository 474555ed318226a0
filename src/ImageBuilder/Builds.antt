-- ===== src/ImageBuilder/Builds.antt =====
-- The stages of image-builder kubeadm and image-builder haproxy, and their runs,
-- cmd/exp/image-builder/cmd/cmd_kubeadm.go and cmd_haproxy.go.
use cluster_api_provider_inc.Prelude.{ℕ, String, true, false, some, Option, List, [], ◌∷◌}
use cluster_api_provider_inc.Text.{◌<>◌, quote}
use cluster_api_provider_inc.Errors.{Result}
use cluster_api_provider_inc.Action.{Action, ◌>>=◌, ◌>>◌, lift, wrapping}
use cluster_api_provider_inc.Images.{ImageFamily, single, container, parse_image}
use cluster_api_provider_inc.Client.{Client}
use cluster_api_provider_inc.Config.{Local, from_local}
use cluster_api_provider_inc.Config.Connect.{Connector, new}
use cluster_api_provider_inc.ImageBuilder.{
  BuildAction, Pool, chain, launch_instance, stop_instance, delete_instance, exec_instance,
  copy_instance_file,
}
use cluster_api_provider_inc.ImageBuilder.Publish.{Clock, PublishImageInfo, publish_image}
use cluster_api_provider_inc.ImageBuilder.Export.{ExportFiles, export_image}
use cluster_api_provider_inc.ImageBuilder.Stages.{Stage, run}
use cluster_api_provider_inc.ImageBuilder.Commands.{
  BuildFlags, base_image_info, builder_options, prepare_kubeadm, prepare_haproxy,
}

-- The scripts of internal/static.
pub record Scripts : Type 0 where
  pub install_kubeadm : String
  pub pull_images : String
  pub generate_manifest : String
  pub cleanup_instance : String
  pub validate_kubeadm_image : String
  pub install_haproxy : String

-- What the actions are given, the library semver, and the wait for a duration or the context's end.
pub record Builder (W Op Conn : Type 0) : Type 0 where
  pub local_files : Local W
  pub connector : Connector W Op Conn
  pub polls : ℕ
  pub agent_rounds : ℕ
  pub get_storage_pools : Client W Op → Action W (List Pool)
  pub create : String → Action W (Unit {0})
  pub write : String → String → Action W (Unit {0})
  pub clock : Clock W
  pub export_files : ExportFiles W
  pub wait : ℕ → Action W (Unit {0})
  pub parse_semver : String → Result (Unit {0})
  pub scripts : Scripts

module _ {W Op Conn : Type 0} (b : Builder W Op Conn) where
  abbrev launch : String → BuildFlags → String → Option ImageFamily → BuildAction W Op
  launch name flags instance_type image =
      launch_instance b.get_storage_pools b.agent_rounds name
        (builder_options instance_type flags.instance_profiles image)

  abbrev exec : String → String → List String → BuildAction W Op
  exec name script args = exec_instance name script args

  abbrev stage : String → BuildAction W Op → Stage W Op
  stage name action = record { name = name; action = action }

  -- What is published of a kubeadm image, and of a haproxy image.
  unfoldable pub kubeadm_image_info : BuildFlags → PublishImageInfo
  unfolding base_image_info
  kubeadm_image_info flags = record {
    name =
        "kubeadm "
        <> flags.kubernetes_version
        <> " "
        <> (base_image_info flags.base_image).full_name
        <> " "
        <> b.clock.architecture;
    operating_system = "kubeadm";
    release = flags.kubernetes_version;
    variant = (base_image_info flags.base_image).variant_name;
    lxc_require_cgroupv2 = true;
  }

  unfoldable pub haproxy_image_info : BuildFlags → PublishImageInfo
  unfolding base_image_info
  haproxy_image_info flags = record {
    name =
        "haproxy " <> (base_image_info flags.base_image).full_name <> " " <> b.clock.architecture;
    operating_system = "haproxy";
    release = (base_image_info flags.base_image).release_name;
    variant = (base_image_info flags.base_image).variant_name;
    lxc_require_cgroupv2 = false;
  }

  -- The last stage of kubeadm: the published image is launched and checked.
  unfoldable pub validate_image : BuildFlags → BuildAction W Op
  unfolding chain launch_instance exec_instance delete_instance builder_options
  validate_image flags = chain (
      launch flags.validation_instance_name flags flags.instance_type (
        some (
          single
            (record { fingerprint = ""; protocol = ""; server = ""; alias = flags.image_alias })))
      ∷ exec flags.validation_instance_name b.scripts.validate_kubeadm_image []
      ∷ delete_instance flags.validation_instance_name
      ∷ [])

  unfoldable pub kubeadm_stages : BuildFlags → Option ImageFamily → List (Stage W Op)
  unfolding launch_instance exec_instance copy_instance_file stop_instance publish_image
      export_image delete_instance validate_image kubeadm_image_info builder_options
  kubeadm_stages flags image =
      stage "create-instance" (launch flags.instance_name flags flags.instance_type image)
      ∷ stage "install-kubeadm"
          (exec flags.instance_name b.scripts.install_kubeadm (flags.kubernetes_version ∷ []))
      ∷ stage "pull-extra-images"
          (exec flags.instance_name b.scripts.pull_images flags.pull_extra_images)
      ∷ stage "generate-manifest" (exec flags.instance_name b.scripts.generate_manifest [])
      ∷ stage "export-manifest" (
          copy_instance_file b.create b.write flags.instance_name "/opt/manifest.txt"
            flags.output_manifest_file)
      ∷ stage "prepare-instance" (exec flags.instance_name b.scripts.cleanup_instance [])
      ∷ stage "stop-grace-period" (λ c. b.wait flags.instance_stop_grace_period)
      ∷ stage "stop-instance" (stop_instance flags.instance_name)
      ∷ stage "publish-image" (λ c.
        publish_image b.clock c flags.instance_name flags.image_alias (kubeadm_image_info flags))
      ∷ stage "export-image" (export_image b.export_files flags.image_alias flags.output_file)
      ∷ stage "delete-instance" (delete_instance flags.instance_name)
      ∷ stage "validate-image" (validate_image flags)
      ∷ []

  unfoldable pub haproxy_stages : BuildFlags → Option ImageFamily → List (Stage W Op)
  unfolding launch_instance exec_instance stop_instance publish_image export_image delete_instance
      haproxy_image_info builder_options
  haproxy_stages flags image =
      stage "create-instance" (launch flags.instance_name flags container image)
      ∷ stage "install-haproxy" (exec flags.instance_name b.scripts.install_haproxy [])
      ∷ stage "prepare-instance" (exec flags.instance_name b.scripts.cleanup_instance [])
      ∷ stage "stop-instance" (stop_instance flags.instance_name)
      ∷ stage "publish-image" (λ c.
        publish_image b.clock c flags.instance_name flags.image_alias (haproxy_image_info flags))
      ∷ stage "export-image" (export_image b.export_files flags.image_alias flags.output_file)
      ∷ stage "delete-instance" (delete_instance flags.instance_name)
      ∷ []

  -- What both commands do with their stages.
  unfoldable pub build : BuildFlags → (Option ImageFamily → List (Stage W Op)) → Action W (Unit {0})
  unfolding from_local new parse_image run
  build flags stages = do
    found ←
        wrapping "failed to read client credentials: "
          (from_local b.local_files flags.config_file flags.config_remote_name false)
    c ← wrapping "failed to create incus client: " (new b.local_files b.connector b.polls found.0)
    image ← wrapping "failed to parse base image: " (lift (parse_image flags.base_image))
    wrapping "failed to run kubeadm stages: "
        (run c flags.skip_stages flags.only_stages flags.dry_run (stages image))

  -- image-builder kubeadm
  unfoldable pub build_kubeadm : BuildFlags → Action W (Unit {0})
  unfolding prepare_kubeadm kubeadm_stages build
  build_kubeadm flags = do
    flags' ← lift (prepare_kubeadm flags)
    wrapping
        ("--kubernetes-version " <> quote flags'.kubernetes_version <> " is not valid semver: ")
        (lift (b.parse_semver flags'.kubernetes_version))
    build flags' (kubeadm_stages flags')

  -- image-builder haproxy
  unfoldable pub build_haproxy : BuildFlags → Action W (Unit {0})
  unfolding prepare_haproxy haproxy_stages build
  build_haproxy flags = do
    flags' ← lift (prepare_haproxy flags)
    build flags' (haproxy_stages flags')
