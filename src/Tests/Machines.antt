-- ===== src/Tests/Machines.antt =====
-- Runs of the LXCMachine controller.
use cluster_api_provider_inc.Prelude.{◌≡◌, ◌⊎◌, inl, refl, false, none, some, [], ◌∷◌}
use cluster_api_provider_inc.Action.{◌>>=◌}
use cluster_api_provider_inc.Errors.{GoError, Result, ok, err}
use cluster_api_provider_inc.Api.{Cluster, LxcMachine}
use cluster_api_provider_inc.Machine.{patch_lxc_machine, get_bootstrap_data}
use cluster_api_provider_inc.Machine.Launching.{launch_instance}
use cluster_api_provider_inc.Machine.Normal.{Outcome, reconcile_normal}
use cluster_api_provider_inc.Machine.Normal.Progress.{IsProvisioned, reconcile_normal_progress}
use cluster_api_provider_inc.Machine.Normal.Launched.{IsLaunched, reconcile_normal-IsLaunched}
use cluster_api_provider_inc.Machine.Normal.Failures.{
  IsLaunchFailure, reconcile_normal_launch_error,
}
use cluster_api_provider_inc.Machine.Normal.Waiting.{IsWaiting, reconcile_normal_waits}
use cluster_api_provider_inc.Machine.Delete.{reconcile_delete}
use cluster_api_provider_inc.Machine.Delete.Finalizer.{IsSettled, reconcile_delete_settles}
use cluster_api_provider_inc.Tests.Fixtures.{
  Log, Conditions, value_or, error_of, not_found, running, machine_reconciler,
}
use cluster_api_provider_inc.Tests.Objects.{cluster, lxc_cluster, machine, lxc_machine}

abbrev fresh : LxcMachine Conditions
fresh = lxc_machine none

abbrev launched_run : Result (Outcome Conditions) × Log
unfolding reconcile_normal ◌>>=◌
launched_run =
    reconcile_normal (machine_reconciler (ok running)) cluster lxc_cluster
      (machine (some "v1.32.0")) fresh []

abbrev launched_outcome : Outcome Conditions
launched_outcome = value_or (fresh, ok 1) launched_run.0

launched_provider_id : launched_outcome.0.spec.provider_id ≡ some "lxc:///m0"
unfolding reconcile_normal ◌>>=◌
launched_provider_id = refl

reconcile_normal_progress_example :
    (launched_outcome.0.spec.provider_id ≡ none)
    ⊎ IsProvisioned
        (machine_reconciler (ok running))
        cluster
        lxc_cluster
        (machine (some "v1.32.0"))
        fresh
        launched_outcome
unfolding reconcile_normal ◌>>=◌
reconcile_normal_progress_example =
    reconcile_normal_progress (machine_reconciler (ok running)) cluster lxc_cluster
      (machine (some "v1.32.0")) fresh [] launched_outcome refl refl

-- A machine without a version and without an image: the launch is refused for good.
abbrev refusal : GoError
unfolding launch_instance ◌>>=◌
refusal =
    error_of
      (launch_instance (machine_reconciler (err not_found)) cluster lxc_cluster (machine none) fresh
        "#cloud-config" ("get_secret_value" ∷ [])).0

reconcile_normal_launch_error_example :
    (o : Outcome Conditions) × (reconcile_normal
        (machine_reconciler (err not_found))
        cluster
        lxc_cluster
        (machine none)
        fresh
        []
      ≡ (ok o, "get_secret_value" ∷ []))
    × IsLaunchFailure
        (machine_reconciler (err not_found))
        cluster
        lxc_cluster
        (machine none)
        fresh
        refusal
        o
unfolding get_bootstrap_data launch_instance ◌>>=◌
reconcile_normal_launch_error_example =
    reconcile_normal_launch_error (machine_reconciler (err not_found)) cluster lxc_cluster
      (machine none) fresh [] ("get_secret_value" ∷ []) ("get_secret_value" ∷ []) "bootstrap"
      "#cloud-config" refusal refl refl refl refl refl

abbrev early : Cluster
early = record cluster { infrastructure_ready = false }

reconcile_normal_waits_example :
    IsWaiting
      (machine_reconciler (ok running))
      early
      lxc_cluster
      (machine none)
      fresh
      []
      (reconcile_normal (machine_reconciler (ok running)) early lxc_cluster (machine none) fresh [])
reconcile_normal_waits_example =
    reconcile_normal_waits (machine_reconciler (ok running)) early lxc_cluster (machine none) fresh
      [] (inl refl)

abbrev deleted_outcome : LxcMachine Conditions × Result (Unit {0})
unfolding reconcile_delete ◌>>=◌
deleted_outcome =
    value_or (fresh, ok tt)
      (reconcile_delete (machine_reconciler (ok running)) cluster lxc_cluster (machine none) fresh
        []).0

reconcile_delete_settles_example :
    IsSettled
      (machine_reconciler (ok running))
      cluster
      lxc_cluster
      (machine none)
      ("patch" ∷ "new_patch_helper" ∷ [])
      fresh
      deleted_outcome
unfolding reconcile_delete patch_lxc_machine ◌>>=◌
reconcile_delete_settles_example =
    reconcile_delete_settles (machine_reconciler (ok running)) cluster lxc_cluster (machine none)
      fresh [] deleted_outcome refl

-- The log behind the launch of the instance.
abbrev launch_log : Log
unfolding launch_instance ◌>>=◌
launch_log =
    (launch_instance (machine_reconciler (ok running)) cluster lxc_cluster
      (machine (some "v1.32.0")) fresh "#cloud-config" ("get_secret_value" ∷ [])).1

reconcile_normal-IsLaunched_example :
    (o : Outcome Conditions) × (reconcile_normal
        (machine_reconciler (ok running))
        cluster
        lxc_cluster
        (machine (some "v1.32.0"))
        fresh
        []
      ≡ (ok o, launch_log))
    × IsLaunched
        (machine_reconciler (ok running))
        cluster
        lxc_cluster
        (machine (some "v1.32.0"))
        fresh
        ("10.0.0.2" ∷ [])
        o
unfolding get_bootstrap_data launch_instance ◌>>=◌
reconcile_normal-IsLaunched_example =
    reconcile_normal-IsLaunched (machine_reconciler (ok running)) cluster lxc_cluster
      (machine (some "v1.32.0")) fresh [] ("get_secret_value" ∷ []) launch_log launch_log
      "bootstrap" "#cloud-config" ("10.0.0.2" ∷ []) refl refl refl refl refl (inl (refl, refl))
