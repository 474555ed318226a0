-- ===== src/Machine/Launching/Config.antt =====
-- The configuration that a machine's instance is launched with.
use cluster_api_provider_inc.Prelude.{
  String, ◌≡◌, refl, ap, ◌∙◌, Bool, true, false, not, some, ◌==◌, arith, if◌then◌else◌,
}
use cluster_api_provider_inc.Maps.{GoMap, lookup, or_else}
use cluster_api_provider_inc.Errors.{Result, ok, err}
use cluster_api_provider_inc.Action.Ensures.{
  Ensures, Ensures-pure, Ensures-lift, Ensures-bind, Ensures-if, Ensures-then,
}
use cluster_api_provider_inc.Api.{Cluster, LxcCluster, Machine, LxcMachine}
use cluster_api_provider_inc.Api.Devices.{DeviceMap}
use cluster_api_provider_inc.Images.{ImageFamily, container}
use cluster_api_provider_inc.Launch.{
  LaunchOptions, merge, is_usable, with_image, with_config, with_devices, with_profiles,
  with_flavor, with_instance_templates,
}
use cluster_api_provider_inc.Launch.Laws.{lookup-merge}
use cluster_api_provider_inc.Instances.{kubeadm_launch_options}
use cluster_api_provider_inc.Client.{get_server_name}
use cluster_api_provider_inc.Machine.{Reconciler}
use cluster_api_provider_inc.Machine.Launching.{
  version_or_empty, role_of, provider_config, customize, templated, apply_balancer_templates,
  kubeadm_options, kind_options, launch_options,
}

with_image-config : (i : ImageFamily) (o : LaunchOptions) → (with_image i o).config ≡ o.config
unfolding with_image
with_image-config i o = by_case (is_usable i)
  where
    by_case : (b : Bool) → (if b then record o { image = some i } else o).config ≡ o.config
    by_case true = refl
    by_case false = refl

-- A key of the instance's configuration has the provider's label, or else the value in the
-- LXCMachine's specification, or else the value that the profile and the bootstrap data gave.
pub lookup-customize :
    {C : Type 0} (cluster : Cluster) (machine : Machine) (m : LxcMachine C) (devices : DeviceMap)
    (image : ImageFamily) (o : LaunchOptions) (k : String)
    → lookup k (customize cluster machine m devices image o).config
      ≡ or_else
          (lookup k (provider_config cluster machine))
          (or_else (lookup k m.spec.config) (lookup k o.config))
unfolding customize with_config with_devices with_profiles with_flavor
lookup-customize cluster machine m devices image o k =
    ap (lookup k) (with_image-config image _)
    ∙ lookup-merge k (merge o.config m.spec.config) (provider_config cluster machine)
    ∙ ap (or_else (lookup k (provider_config cluster machine)))
        (lookup-merge k o.config m.spec.config)

module _ {W Op C : Type 0} (r : Reconciler W Op C) (cluster : Cluster) (lxc_cluster : LxcCluster C)
    (machine : Machine) (m : LxcMachine C) where
  -- The four labels by which the provider finds its instances.
  abbrev pub HasLabels : LaunchOptions → Type 0
  HasLabels o =
      (lookup "user.cluster-name" o.config ≡ some cluster.name)
      × (lookup "user.cluster-namespace" o.config ≡ some cluster.namespace)
      × (lookup "user.machine-name" o.config ≡ some machine.name)
      × (lookup "user.cluster-role" o.config ≡ some (role_of machine))

  customize-HasLabels :
      (devices : DeviceMap) (image : ImageFamily) (o : LaunchOptions)
      → HasLabels (customize cluster machine m devices image o)
  unfolding lookup provider_config
  customize-HasLabels devices image o = (
    lookup-customize cluster machine m devices image o "user.cluster-name",
    lookup-customize cluster machine m devices image o "user.cluster-namespace",
    lookup-customize cluster machine m devices image o "user.machine-name",
    lookup-customize cluster machine m devices image o "user.cluster-role",
  )

  kubeadm_options-HasLabels :
      (cloud_init : String)
      → Ensures HasLabels (kubeadm_options r cluster lxc_cluster machine m cloud_init)
  unfolding kubeadm_options
  kubeadm_options-HasLabels cloud_init = Ensures-bind _ _ λ devices. Ensures-bind _ _ λ name.
      Ensures-bind _ _ λ image. Ensures-pure _ (
        customize-HasLabels devices image (
          kubeadm_launch_options r.static (record {
            kubernetes_version = version_or_empty machine.version;
            instance_type = if m.spec.instance_type == "" then container else m.spec.instance_type;
            privileged = not lxc_cluster.spec.unprivileged;
            skip_profile = lxc_cluster.spec.skip_default_kubeadm_profile;
            skip_install_kubeadm_script = false;
            server_name = get_server_name r.client;
            cloud_init = cloud_init;
          })))

  kind_options-HasLabels :
      (cloud_init : String)
      → Ensures HasLabels (kind_options r cluster lxc_cluster machine m cloud_init)
  unfolding kind_options
  kind_options-HasLabels cloud_init = Ensures-bind _ _ λ _. Ensures-bind _ _ λ devices.
      Ensures-bind _ _ λ name. Ensures-bind _ _ λ image.
        Ensures-bind _ _
          λ apt. Ensures-bind _ _ λ o. Ensures-pure _ (customize-HasLabels devices image o)

  templates-HasLabels :
      (o o' : LaunchOptions)
      → HasLabels o
      → apply_balancer_templates r cluster lxc_cluster machine m o ≡ ok o'
      → HasLabels o'
  unfolding apply_balancer_templates with_instance_templates
  templates-HasLabels o o' h e =
      let same : o'.config ≡ o.config = by_case machine.control_plane _ e in rw same h
    where
      by_case :
          (b : Bool) (files : Result (GoMap String))
          → (if b then templated r cluster lxc_cluster machine m o files else ok o) ≡ ok o'
          → o'.config ≡ o.config
      by_case true (ok f) d = ground arith
      by_case true (err x) d = absurd (ground arith)
      by_case false f d = ground arith

  -- Whichever way a machine's instance is launched, and whatever the LXCMachine's specification
  -- and the profiles say, its configuration has the cluster's name and namespace, the machine's
  -- name and the machine's role, by which the provider finds the instances of a cluster.
  pub launch_options_labelled :
      (cloud_init : String) (w : W) (o : LaunchOptions)
      → (launch_options r cluster lxc_cluster machine m cloud_init w).0 ≡ ok o
      → HasLabels o
  unfolding launch_options
  launch_options_labelled cloud_init w o e =
      let ensured : Ensures HasLabels (launch_options r cluster lxc_cluster machine m cloud_init) =
        Ensures-then HasLabels _ _
          (Ensures-if (m.spec.instance_type == "kind") _ _ (λ _. kind_options-HasLabels cloud_init)
            (λ _. kubeadm_options-HasLabels cloud_init))
          (λ o h. Ensures-lift _ (λ o' e. templates-HasLabels o o' h e)) in
      ensured.at w o e
