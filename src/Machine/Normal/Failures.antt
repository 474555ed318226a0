-- ===== src/Machine/Normal/Failures.antt =====
-- What reconcileNormal makes of a launch that fails, and of the server's answer for an instance that
-- was provisioned before.
use cluster_api_provider_inc.Prelude.{
  ◌⊎◌, String, ◌≡◌, ◌↔◌, refl, Bool, true, false, none, some, arith, if◌then◌else◌,
}
use cluster_api_provider_inc.Text.{◌<>◌, contains, has_suffix}
use cluster_api_provider_inc.Errors.{
  Result, succeeds, ok, err, GoError, wrapf, is_terminal_error, error_text,
}
use cluster_api_provider_inc.Action.{◌>>=◌}
use cluster_api_provider_inc.Api.{Cluster, LxcCluster, Machine, LxcMachine}
use cluster_api_provider_inc.Api.Conditions.{Condition, condition_false, error, warning}
use cluster_api_provider_inc.Incus.{InstanceState}
use cluster_api_provider_inc.Machine.{Reconciler, instance_provisioned, mark, get_bootstrap_data}
use cluster_api_provider_inc.Machine.Launching.{launch_instance}
use cluster_api_provider_inc.Machine.Normal.{Outcome, launch_failed, provision, reconcile_normal}

module _ {W Op C : Type 0} (r : Reconciler W Op C) (cluster : Cluster) (lxc_cluster : LxcCluster C)
    (machine : Machine) where
  mark-get :
      (c : Condition) (m : LxcMachine C)
      → r.library.get instance_provisioned (mark r c m).conditions ≡ some c
  mark-get c m = rw (r.library.get-mark instance_provisioned instance_provisioned c _)

  -- What is left of a launch that failed with `e`.
  abbrev pub IsLaunchFailure : LxcMachine C → GoError → Outcome C → Type 0
  IsLaunchFailure m e o =
      ((o.1 ≡ ok 0) ↔ (is_terminal_error e ≡ true))
      × (o.0.spec ≡ m.spec)
      × (o.0.ready ≡ m.ready)
      × (c : Condition) × (r.library.get instance_provisioned o.0.conditions ≡ some c)
      × (c.status ≡ false)

  abbrev aborted : GoError → Condition
  aborted e =
      condition_false "InstanceProvisioningAborted" error
        ("Failed to create instance spec: " <> error_text e)

  abbrev late : GoError → Condition
  late e =
      condition_false "CreatingInstance" warning
        ("Instance creation still in progress: " <> error_text e)

  abbrev failed : GoError → Condition
  failed e =
      condition_false "InstanceProvisioningFailed" warning
        ("Failed to create instance: " <> error_text e)

  launch_failed-IsLaunchFailure :
      (m : LxcMachine C) (e : GoError)
      → IsLaunchFailure m e (launch_failed r cluster lxc_cluster machine m e)
  unfolding launch_failed
  launch_failed-IsLaunchFailure m e =
      classify (is_terminal_error e) (has_suffix "context deadline exceeded" (error_text e))
    where
      classify :
          (terminal expired : Bool)
          → let o : Outcome C =
              if terminal
              then (mark r (aborted e) m, ok 0)
              else if expired
              then (mark r (late e) m, ok 10)
              else (mark r (failed e) m, err (wrapf "failed to create instance: " e "")) in
            ((o.1 ≡ ok 0) ↔ (terminal ≡ true))
            × (o.0.spec ≡ m.spec)
            × (o.0.ready ≡ m.ready)
            × (c : Condition) × (r.library.get instance_provisioned o.0.conditions ≡ some c)
            × (c.status ≡ false)
      classify true expired =
          ((λ _. refl, λ _. refl), refl, refl, aborted e, mark-get (aborted e) m, refl)
      classify false true = (
        (λ h. absurd (ground arith), λ h. absurd (ground arith)),
        refl,
        refl,
        late e,
        mark-get (late e) m,
        refl,
      )
      classify false false = (
        (λ h. absurd (ground arith), λ h. absurd (ground arith)),
        refl,
        refl,
        failed e,
        mark-get (failed e) m,
        refl,
      )

  -- A machine that is to be launched, has its bootstrap data and fails to launch stays without a
  -- provider ID and keeps the rest of its specification and its ready flag. InstanceProvisioned
  -- becomes false, and the machine is given up, with no error and no retry, exactly when the error
  -- is terminal.
  pub reconcile_normal_launch_error :
      (m : LxcMachine C) (w w1 w2 : W) (secret cloud_init : String) (e : GoError)
      → cluster.infrastructure_ready ≡ true
      → m.spec.provider_id ≡ none
      → machine.data_secret_name ≡ some secret
      → get_bootstrap_data r m.namespace secret w ≡ (ok cloud_init, w1)
      → launch_instance r cluster lxc_cluster machine m cloud_init w1 ≡ (err e, w2)
      → (o : Outcome C) × (reconcile_normal r cluster lxc_cluster machine m w ≡ (ok o, w2))
        × IsLaunchFailure m e o
  unfolding reconcile_normal provision ◌>>=◌
  reconcile_normal_launch_error m w w1 w2 secret cloud_init e hr hi hs hb hl = (
    launch_failed r cluster lxc_cluster machine m e,
    rw (hr, hi, hs, hb, hl),
    launch_failed-IsLaunchFailure m e,
  )

  -- What is known of a provisioned machine behind the server's answer for its instance.
  abbrev pub IsChecked : LxcMachine C → Result InstanceState → Outcome C → Type 0
  IsChecked m answer o =
      (o.0.spec ≡ m.spec)
      × (((o.1 ≡ ok 0)
            × (o.0.ready ≡ succeeds answer)
            × (c : Condition) × (r.library.get instance_provisioned o.0.conditions ≡ some c)
            × (c.status ≡ succeeds answer))
          ⊎ ((e : GoError) × (answer ≡ err e)
              × (contains "Instance not found" (error_text e) ≡ false)
              × (o ≡ (m, err e))))
