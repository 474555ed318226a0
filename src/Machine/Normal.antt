-- ===== src/Machine/Normal.antt =====
-- reconcileNormal of internal/controller/lxcmachine/controller_normal.go. The object that the code
-- mutates comes back beside the result, after an error too; the number of a result is RequeueAfter
-- in seconds, 0 for none.
pub mod Progress
pub mod Launched
pub mod Waiting
pub mod Failures
use cluster_api_provider_inc.Prelude.{
  ℕ, String, Bool, true, false, not, ◌&&◌, Option, none, some, List, if◌then◌else◌,
}
use cluster_api_provider_inc.Text.{◌<>◌, contains, has_suffix}
use cluster_api_provider_inc.Errors.{GoError, Result, ok, err, wrapf, error_text, is_terminal_error}
use cluster_api_provider_inc.Action.{Action, ◌>>=◌, pure, attempt}
use cluster_api_provider_inc.Api.{
  Cluster, LxcCluster, Machine, LxcMachine, get_instance_name, get_expected_provider_id,
}
use cluster_api_provider_inc.Api.Conditions.{condition_true, condition_false, error, warning, info}
use cluster_api_provider_inc.Incus.{InstanceState}
use cluster_api_provider_inc.Incus.Addresses.{parse_host_addresses}
use cluster_api_provider_inc.Client.{server_of}
use cluster_api_provider_inc.Balancer.{manager_for_cluster}
use cluster_api_provider_inc.Balancer.Actions.{reconfigure}
use cluster_api_provider_inc.Machine.{Reconciler, set_addresses, get_bootstrap_data, mark}
use cluster_api_provider_inc.Machine.Launching.{launch_instance}

abbrev pub Outcome : Type 0 → Type 0
Outcome C = LxcMachine C × Result ℕ

module _ {W Op C : Type 0} (r : Reconciler W Op C) (cluster : Cluster) (lxc_cluster : LxcCluster C)
    (machine : Machine) where
  -- The check of an instance that was provisioned before.
  unfoldable pub check_provisioned : LxcMachine C → Result InstanceState → Outcome C
  unfolding contains error_text get_instance_name set_addresses parse_host_addresses
  check_provisioned m (ok state) = (
    set_addresses (parse_host_addresses (some state))
        (mark r condition_true (record m { ready = true })),
    ok 0,
  )
  check_provisioned m (err e) =
      if contains "Instance not found" (error_text e)
      then (
        mark r
            (condition_false "InstanceDeleted" error
              ("Instance " <> get_instance_name m <> " does not exist anymore"))
            (record m { ready = false }),
        ok 0,
      )
      else (m, err e)

  -- What a failed launch leaves in the condition, and whether it is tried again.
  unfoldable pub launch_failed : LxcMachine C → GoError → Outcome C
  unfolding is_terminal_error has_suffix error_text
  launch_failed m e =
      if is_terminal_error e
      then (
        mark r
            (condition_false "InstanceProvisioningAborted" error
              ("Failed to create instance spec: " <> error_text e))
            m,
        ok 0,
      )
      else if has_suffix "context deadline exceeded" (error_text e)
      then (
        mark r
            (condition_false "CreatingInstance" warning
              ("Instance creation still in progress: " <> error_text e))
            m,
        ok 10,
      )
      else (
        mark r
            (condition_false "InstanceProvisioningFailed" warning
              ("Failed to create instance: " <> error_text e))
            m,
        err (wrapf "failed to create instance: " e ""),
      )

  -- The last two assignments.
  unfoldable pub provisioned : LxcMachine C → Outcome C
  unfolding get_expected_provider_id
  provisioned m = (
    record m {
      spec = record m.spec { provider_id = some (get_expected_provider_id m) };
      ready = true;
    },
    ok 0,
  )

  abbrev pub balanced : LxcMachine C → Result (Unit {0}) → Outcome C
  balanced m (err e) = (m, err (wrapf "failed to update loadbalancer configuration: " e ""))
  balanced m (ok u) = provisioned (record m { load_balancer_configured = true })

  -- Everything behind a launch that succeeded.
  unfoldable pub after_launch : LxcMachine C → Action W (Outcome C)
  unfolding provisioned reconfigure manager_for_cluster
  after_launch m =
      if machine.control_plane && not m.load_balancer_configured
      then (do
        b ←
            attempt
              (reconfigure r.client r.templates (manager_for_cluster r.digest cluster lxc_cluster))
        pure (balanced m b))
      else pure (provisioned m)

  abbrev pub launched : LxcMachine C → Result (List String) → Action W (Outcome C)
  launched m (err e) = pure (launch_failed m e)
  launched m (ok addrs) = after_launch (mark r condition_true (set_addresses addrs m))

  abbrev pub bootstrapped : LxcMachine C → Result String → Action W (Outcome C)
  bootstrapped m (err e) = pure (m, err (wrapf "failed to retrieve bootstrap data: " e ""))
  bootstrapped m (ok cloud_init) = do
    l ← attempt (launch_instance r cluster lxc_cluster machine m cloud_init)
    launched m l

  -- The wait for the bootstrap data.
  unfoldable pub waiting_for_data : LxcMachine C → Outcome C
  waiting_for_data m =
      if not machine.control_plane && not cluster.initialized
      then (mark r (condition_false "WaitingForControlPlaneAvailable" info "") m, ok 0)
      else (mark r (condition_false "WaitingForBootstrapData" info "") m, ok 0)

  unfoldable pub provision : LxcMachine C → Option String → Action W (Outcome C)
  unfolding waiting_for_data get_bootstrap_data launch_instance launch_failed after_launch
      set_addresses
  provision m none = pure (waiting_for_data m)
  provision m (some data_secret_name) = do
    b ← attempt (get_bootstrap_data r m.namespace data_secret_name)
    bootstrapped m b

  abbrev pub provision_or_check : LxcMachine C → Option String → Action W (Outcome C)
  provision_or_check m none = provision m machine.data_secret_name
  provision_or_check m (some id) = do
    s ← attempt ((server_of r.client).get_instance_state (get_instance_name m))
    pure (check_provisioned m s)

  -- reconcileNormal
  unfoldable pub reconcile_normal : LxcMachine C → Action W (Outcome C)
  unfolding provision check_provisioned get_instance_name
  reconcile_normal m =
      if not cluster.infrastructure_ready
      then pure (mark r (condition_false "WaitingForClusterInfrastructure" info "") m, ok 0)
      else provision_or_check m m.spec.provider_id
