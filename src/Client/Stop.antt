-- ===== src/Client/Stop.antt =====
-- WaitForStopInstance and WaitForDeleteInstance of internal/lxc/client_instances.go.
pub mod Laws
use cluster_api_provider_inc.Prelude.{String, true, nat_eq, if◌then◌else◌}
use cluster_api_provider_inc.Text.{contains}
use cluster_api_provider_inc.Errors.{Result, ok, err, wrapf, error_text}
use cluster_api_provider_inc.Action.{Action, ◌>>=◌, lift, attempt, wrapping, pure}
use cluster_api_provider_inc.Client.{Client, server_of, wait_for_operation}

module _ {W Op : Type 0} where
  unfoldable pub wait_for_stop_instance : Client W Op → String → Action W (Unit {0})
  unfolding wait_for_operation
  wait_for_stop_instance c name = do
    state ← wrapping "failed to GetInstanceState: " ((server_of c).get_instance_state name)
    if nat_eq state.pid 0
        then pure tt
        else wait_for_operation c "StopInstance"
            ((server_of c).update_instance_state name (record { action = "stop"; force = true }))

  -- What follows the stop.
  abbrev pub delete_stopped : Client W Op → String → Result (Unit {0}) → Action W (Unit {0})
  delete_stopped c name (err e) =
      if contains "Instance not found" (error_text e)
      then pure tt
      else lift (err (wrapf "failed to stop instance: " e ""))
  delete_stopped c name (ok u) =
      wait_for_operation c "DeleteInstance" ((server_of c).delete_instance name)

  unfoldable pub wait_for_delete_instance : Client W Op → String → Action W (Unit {0})
  unfolding wait_for_stop_instance contains error_text
  wait_for_delete_instance c name = do
    r ← attempt (wait_for_stop_instance c name)
    delete_stopped c name r
