-- ===== src/Tests/Options.antt =====
-- The options that machines are launched with, and the end of Reconcile.
use cluster_api_provider_inc.Prelude.{ℕ, true, String, ◌≡◌, refl, false, none, some, [], ◌∷◌}
use cluster_api_provider_inc.Action.{◌>>=◌}
use cluster_api_provider_inc.Errors.{Result, ok, succeeds}
use cluster_api_provider_inc.Maps.{lookup}
use cluster_api_provider_inc.Images.{single}
use cluster_api_provider_inc.Api.{LxcMachine}
use cluster_api_provider_inc.Machine.Launching.{
  launch_options, customize, provider_config, kubeadm_options,
}
use cluster_api_provider_inc.Machine.Launching.Config.{
  HasLabels, launch_options_labelled, lookup-customize,
}
use cluster_api_provider_inc.Machine.Launching.Bootstrap.{user_data, kubeadm_options-user_data}
use cluster_api_provider_inc.Machine.{patch_lxc_machine}
use cluster_api_provider_inc.Machine.Reconcile.{Environment, dispatch, reconcile}
use cluster_api_provider_inc.Machine.Normal.{reconcile_normal}
use cluster_api_provider_inc.Machine.Reconcile.Deferred.{reconcile_patches}
use cluster_api_provider_inc.Tests.Fixtures.{
  answer, client, Log, Conditions, value_or, running, machine_reconciler,
}
use cluster_api_provider_inc.Launch.{LaunchOptions, no_options}
use cluster_api_provider_inc.Tests.Objects.{cluster, lxc_cluster, machine, lxc_machine}

abbrev fresh : LxcMachine Conditions
fresh = lxc_machine none

abbrev labelled_options : LaunchOptions
unfolding launch_options ◌>>=◌
labelled_options =
    value_or no_options
      (launch_options (machine_reconciler (ok running)) cluster lxc_cluster
        (machine (some "v1.32.0")) fresh "#cloud-config" []).0

launch_options_labelled_example :
    HasLabels
      (machine_reconciler (ok running))
      cluster
      lxc_cluster
      (machine (some "v1.32.0"))
      fresh
      labelled_options
unfolding launch_options ◌>>=◌
launch_options_labelled_example =
    launch_options_labelled (machine_reconciler (ok running)) cluster lxc_cluster
      (machine (some "v1.32.0")) fresh "#cloud-config" [] labelled_options refl

lookup-customize_example :
    lookup "user.cluster-name"
      (customize cluster
        (machine none)
        fresh
        []
        (single (record { protocol = ""; server = ""; fingerprint = ""; alias = "" }))
        no_options).config
    ≡ some "c"
unfolding lookup provider_config
lookup-customize_example =
    lookup-customize cluster (machine none) fresh []
      (single (record { protocol = ""; server = ""; fingerprint = ""; alias = "" })) no_options
      "user.cluster-name"

abbrev kubeadm_run : LaunchOptions
unfolding kubeadm_options ◌>>=◌
kubeadm_run =
    value_or no_options
      (kubeadm_options (machine_reconciler (ok running)) cluster lxc_cluster
        (machine (some "v1.32.0")) fresh "#cloud-config" []).0

kubeadm_options-user_data_example : lookup user_data kubeadm_run.config ≡ some "#cloud-config"
unfolding kubeadm_options lookup ◌>>=◌
kubeadm_options-user_data_example =
    kubeadm_options-user_data (machine_reconciler (ok running)) cluster lxc_cluster
      (machine (some "v1.32.0")) fresh "#cloud-config" [] kubeadm_run refl refl refl refl

-- The objects of a machine that was provisioned before.
abbrev environment : Environment Log String Conditions
environment = record {
  get_object = answer "get_object" (ok (some (lxc_machine (some "lxc:///m0"))));
  add_owners = λ m. answer "add_owners" (ok tt);
  get_owner_machine = λ m. answer "get_owner_machine" (ok (some (machine none)));
  get_cluster = λ m. answer "get_cluster" (ok (some cluster));
  ensure_paused_condition = λ c m. answer "ensure_paused_condition" (ok false);
  get_lxc_cluster = λ ns n. answer "get_lxc_cluster" (ok lxc_cluster);
  get_secret = λ n. answer "get_secret" (ok []);
  connect = λ s. answer "connect" (ok (client (ok running)));
  ensure_finalizer = λ m. answer "ensure_finalizer" (ok false);
  reconciler = λ c. machine_reconciler (ok running);
}

abbrev reconciled : LxcMachine Conditions × Result ℕ
unfolding reconcile_normal ◌>>=◌
reconciled =
    value_or (fresh, ok 0)
      (dispatch environment (machine_reconciler (ok running)) cluster lxc_cluster (machine none)
        (lxc_machine (some "lxc:///m0")) []).0

-- The calls so far, behind each of them.
abbrev behind_get_object : Log
behind_get_object = "get_object" ∷ []

abbrev behind_add_owners : Log
behind_add_owners = "add_owners" ∷ behind_get_object

abbrev behind_get_owner_machine : Log
behind_get_owner_machine = "get_owner_machine" ∷ behind_add_owners

abbrev behind_get_cluster : Log
behind_get_cluster = "get_cluster" ∷ behind_get_owner_machine

abbrev behind_ensure_paused_condition : Log
behind_ensure_paused_condition = "ensure_paused_condition" ∷ behind_get_cluster

abbrev behind_get_lxc_cluster : Log
behind_get_lxc_cluster = "get_lxc_cluster" ∷ behind_ensure_paused_condition

abbrev behind_get_secret : Log
behind_get_secret = "get_secret" ∷ behind_get_lxc_cluster

abbrev behind_connect : Log
behind_connect = "connect" ∷ behind_get_secret

abbrev behind_ensure_finalizer : Log
behind_ensure_finalizer = "ensure_finalizer" ∷ behind_connect

abbrev behind_new_patch_helper : Log
behind_new_patch_helper = "new_patch_helper" ∷ behind_ensure_finalizer

abbrev behind_get_instance_state : Log
behind_get_instance_state = "get_instance_state" ∷ behind_new_patch_helper

reconcile_patches_example :
    ((reconcile environment []).1 ≡ "patch" ∷ behind_get_instance_state)
    × (succeeds (reconcile environment []).0 ≡ true)
unfolding patch_lxc_machine reconcile_normal ◌>>=◌
reconcile_patches_example =
    reconcile_patches environment (lxc_machine (some "lxc:///m0")) reconciled.0 (machine none)
      cluster lxc_cluster "c" [] (client (ok running)) reconciled.1 [] behind_get_object
      behind_add_owners behind_get_owner_machine behind_get_cluster behind_ensure_paused_condition
      behind_get_lxc_cluster behind_get_secret behind_connect behind_ensure_finalizer
      behind_new_patch_helper behind_get_instance_state refl refl refl refl refl refl refl refl refl
      refl refl refl
