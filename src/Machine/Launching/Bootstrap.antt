-- ===== src/Machine/Launching/Bootstrap.antt =====
-- How the bootstrap data reaches a kubeadm instance.
use cluster_api_provider_inc.Prelude.{
  String, ◌≡◌, refl, ap, ◌∙◌, Bool, true, false, not, ◌&&◌, none, some, [], ◌∷◌, ◌==◌,
  if◌then◌else◌,
}
use cluster_api_provider_inc.Text.{◌<>◌}
use cluster_api_provider_inc.Maps.{lookup, or_else}
use cluster_api_provider_inc.Errors.{ok}
use cluster_api_provider_inc.Action.Ensures.{Ensures, Ensures-pure, Ensures-bind}
use cluster_api_provider_inc.Api.{Cluster, LxcCluster, Machine, LxcMachine}
use cluster_api_provider_inc.Api.Devices.{DeviceMap}
use cluster_api_provider_inc.Images.{ImageFamily, single, capn_image, container}
use cluster_api_provider_inc.Launch.{
  LaunchOptions, no_options, with_image, with_instance_type, with_config, with_devices,
}
use cluster_api_provider_inc.Launch.Laws.{lookup-merge}
use cluster_api_provider_inc.Instances.{
  Static, KubeadmInput, default_kubeadm_profile, kubeadm_script, kubeadm_cloud_init, apply_profile,
  kubeadm_profile, kubeadm_launch_options,
}
use cluster_api_provider_inc.Client.{get_server_name}
use cluster_api_provider_inc.Machine.{Reconciler}
use cluster_api_provider_inc.Machine.Launching.{
  version_or_empty, provider_config, customize, kubeadm_options,
}
use cluster_api_provider_inc.Machine.Launching.Config.{lookup-customize}

abbrev pub user_data : String
user_data = "cloud-init.user-data"

kubeadm_cloud_init-user_data :
    (input : KubeadmInput) (o : LaunchOptions)
    → (input.cloud_init == "") ≡ false
    → lookup user_data (kubeadm_cloud_init input o).config ≡ some input.cloud_init
unfolding kubeadm_cloud_init with_config lookup
kubeadm_cloud_init-user_data input o h =
    rw h (lookup-merge user_data o.config ((user_data, input.cloud_init) ∷ []))

kubeadm_profile-user_data :
    (static : Static) (input : KubeadmInput) (o : LaunchOptions)
    → lookup user_data (default_kubeadm_profile static input.privileged input.server_name).config
      ≡ none
    → lookup user_data (kubeadm_profile static input o).config ≡ lookup user_data o.config
unfolding kubeadm_profile apply_profile with_config with_devices
kubeadm_profile-user_data static input o h =
    by_case (input.instance_type == container && not input.skip_profile)
  where
    by_case :
        (b : Bool)
        → lookup user_data
            (if b
              then apply_profile
                  (default_kubeadm_profile static input.privileged input.server_name)
                  o
              else o).config
          ≡ lookup user_data o.config
    by_case true =
        lookup-merge user_data o.config
          (default_kubeadm_profile static input.privileged input.server_name).config
        ∙ ap (λ v. or_else v (lookup user_data o.config)) h
    by_case false = refl

module _ {W Op C : Type 0} (r : Reconciler W Op C) (cluster : Cluster) (lxc_cluster : LxcCluster C)
    (machine : Machine) (m : LxcMachine C) where
  -- The bootstrap data of a kubeadm machine is the instance's cloud-init.user-data, if it is not
  -- empty and neither the specification of the LXCMachine nor the default profile has that key.
  pub kubeadm_options-user_data :
      (cloud_init : String) (w : W) (o : LaunchOptions)
      → (cloud_init == "") ≡ false
      → lookup user_data m.spec.config ≡ none
      → lookup user_data
          (default_kubeadm_profile r.static
            (not lxc_cluster.spec.unprivileged)
            (get_server_name r.client)).config
        ≡ none
      → (kubeadm_options r cluster lxc_cluster machine m cloud_init w).0 ≡ ok o
      → lookup user_data o.config ≡ some cloud_init
  unfolding kubeadm_options kubeadm_launch_options provider_config lookup
  kubeadm_options-user_data cloud_init w o hc hs hp e =
      let ensured : Ensures (λ o. lookup user_data o.config ≡ some cloud_init)
          (kubeadm_options r cluster lxc_cluster machine m cloud_init) =
        Ensures-bind _ _ λ devices.
          Ensures-bind _ _
            λ name. Ensures-bind _ _ λ image. Ensures-pure _ (customized devices image) in
      ensured.at w o e
    where
      input : KubeadmInput
      input = record {
        kubernetes_version = version_or_empty machine.version;
        instance_type = if m.spec.instance_type == "" then container else m.spec.instance_type;
        privileged = not lxc_cluster.spec.unprivileged;
        skip_profile = lxc_cluster.spec.skip_default_kubeadm_profile;
        skip_install_kubeadm_script = false;
        server_name = get_server_name r.client;
        cloud_init = cloud_init;
      }

      scripted : LaunchOptions
      scripted = kubeadm_script r.static input (
          with_image (single (capn_image ("kubeadm/" <> input.kubernetes_version)))
            (with_instance_type input.instance_type no_options))

      customized :
          (devices : DeviceMap) (image : ImageFamily)
          → lookup user_data
              (customize cluster machine m devices image
                (kubeadm_launch_options r.static input)).config
            ≡ some cloud_init
      customized devices image =
          lookup-customize cluster machine m devices image (kubeadm_launch_options r.static input)
            user_data
          ∙ ap (λ v. or_else v (lookup user_data (kubeadm_launch_options r.static input).config)) hs
          ∙ kubeadm_profile-user_data r.static input (kubeadm_cloud_init input scripted) hp
          ∙ kubeadm_cloud_init-user_data input scripted hc
