-- ===== src/Client/Start.antt =====
-- WaitForStartInstance of internal/lxc/client_instances.go and waitForInstanceAddress of
-- client_instances_util.go.
use cluster_api_provider_inc.Prelude.{
  ℕ, zero, suc, String, false, some, List, [], ◌∷◌, ◌==◌, if◌then◌else◌,
}
use cluster_api_provider_inc.Errors.{err, errorf, wrapf}
use cluster_api_provider_inc.Action.{Action, ◌>>=◌, ◌>>◌, lift, wrapping, pure}
use cluster_api_provider_inc.Incus.{InstanceServer, InstanceState}
use cluster_api_provider_inc.Incus.Addresses.{parse_host_addresses}
use cluster_api_provider_inc.Client.{Client, server_of, wait_for_operation}

module _ {W : Type 0} where
  -- One poll: return the addresses if there are any, or else go on.
  abbrev pub return_or : List String → Action W (List String) → Action W (List String)
  return_or [] next = next
  return_or (a ∷ addrs) next = pure (a ∷ addrs)

module _ {W Op : Type 0} where
  -- The loop of waitForInstanceAddress; the number is how many more waits of a second there are
  -- before the context is done.
  unfoldable pub poll_address : InstanceServer W Op → ℕ → String → Action W (List String)
  unfolding parse_host_addresses
  poll_address s zero name = do
    state ← wrapping "failed to GetInstanceState: " (s.get_instance_state name)
    return_or (parse_host_addresses (some state)) (
        lift (
          err (
            wrapf "timed out waiting for instance address: " (errorf "context deadline exceeded")
              "")))
  poll_address s (suc polls) name = do
    state ← wrapping "failed to GetInstanceState: " (s.get_instance_state name)
    return_or (parse_host_addresses (some state)) (poll_address s polls name)

  unfoldable pub wait_for_instance_address : Client W Op → String → Action W (List String)
  unfolding poll_address
  wait_for_instance_address c name = poll_address (server_of c) c.polls name

  -- Start an instance that is not running.
  unfoldable pub start_unless_running : Client W Op → String → InstanceState → Action W (Unit {0})
  unfolding wait_for_operation
  start_unless_running c name state =
      if state.status == "Running"
      then pure tt
      else wrapping "failed to start instance: " (
          wait_for_operation c "StartInstance"
            ((server_of c).update_instance_state name (record { action = "start"; force = false })))

  unfoldable pub wait_for_start_instance : Client W Op → String → Action W (List String)
  unfolding start_unless_running wait_for_instance_address
  wait_for_start_instance c name = do
    state ← wrapping "failed to GetInstanceState: " ((server_of c).get_instance_state name)
    start_unless_running c name state
    wait_for_instance_address c name
