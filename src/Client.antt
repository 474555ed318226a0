-- ===== src/Client.antt =====
-- Client of internal/lxc/client.go: WithTarget, the discovery of client_discovery.go, the waiting
-- for operations of client_operations.go and RunCommand of client_run_command.go. Deadlines of
-- contexts enter as errors of the server's calls, and as the number of polls in `Client`.
pub mod Filters
pub mod Start
pub mod Stop
pub mod Launching
pub mod Pull
use cluster_api_provider_inc.Text.{split_at, ◌<>◌, quote, contains, join, decimal}
use cluster_api_provider_inc.Prelude.{
  ℕ, zero, String, Bool, true, false, not, Option, List, [], ◌∷◌, any, ◌==◌, if◌then◌else◌,
  is_empty, nat_eq,
}
use cluster_api_provider_inc.Errors.{
  Result, ok, err, GoError, errorf, wrapf, terminal_error, error_text,
}
use cluster_api_provider_inc.Action.{Action, ◌>>=◌, ◌>>◌, lift, attempt, wrapping}
use cluster_api_provider_inc.Images.{incus, lxd}
use cluster_api_provider_inc.Incus.{InstanceServer, ServerInfo}

-- `servers` has the connection that UseTarget gives for a target ("" for none), and `polls` is how
-- often an instance's address is asked for before the context of the call is done.
pub record Client (W Op : Type 0) : Type 0 where
  pub servers : String → InstanceServer W Op
  pub target : String
  pub info : ServerInfo
  pub polls : ℕ

-- The elements of `required` that are not among `supported`
unfoldable pub missing : List String → List String → List String
missing [] supported = []
missing (e ∷ required) supported =
    let rest = missing required supported in if any (λ s. s == e) supported then rest else e ∷ rest

-- The end of WaitForOperation.
unfoldable pub wait_result : String → Result (Unit {0}) → Result (Unit {0})
unfolding contains error_text
wait_result name (ok u) = ok tt
wait_result name (err e) =
    if not (contains "Operation not found" (error_text e))
    then err (wrapf ("failed to wait for " <> name <> " operation: ") e "")
    else ok tt

module _ {W Op : Type 0} where
  abbrev pub server_of : Client W Op → InstanceServer W Op
  server_of c = c.servers c.target

  -- GetServerName
  unfoldable pub get_server_name : Client W Op → String
  get_server_name c =
      if c.info.server == incus then incus else if c.info.server == lxd then lxd else "unknown"

  -- serverSupportsExtensions
  unfoldable pub supports_extensions : Client W Op → List String → Result (Unit {0})
  unfolding missing
  supports_extensions c extensions =
      let lacking = missing extensions c.info.api_extensions in
      if not (is_empty lacking)
      then err (
          terminal_error
            (errorf ("required extensions [" <> join " " lacking <> "] are not supported")))
      else ok tt

  unfoldable pub supports_instance_oci : Client W Op → Result (Unit {0})
  unfolding supports_extensions
  supports_instance_oci c = supports_extensions c ("instance_oci" ∷ "instance_oci_entrypoint" ∷ [])

  unfoldable pub supports_network_load_balancers : Client W Op → Result (Unit {0})
  unfolding supports_extensions
  supports_network_load_balancers c =
      supports_extensions c ("network_load_balancer" ∷ "network_load_balancer_health_check" ∷ [])

  unfoldable pub supports_container_disk_tmpfs : Client W Op → Result (Unit {0})
  unfolding supports_extensions
  supports_container_disk_tmpfs c = supports_extensions c ("container_disk_tmpfs" ∷ [])

  unfoldable pub supports_instance_kvm : Client W Op → Result (Unit {0})
  unfolding split_at
  supports_instance_kvm c =
      if not (any (λ d. d == "qemu") (split_at " | " c.info.driver))
      then err (
          terminal_error (
            errorf
              ("server is missing driver qemu, supported drivers are: " <> quote c.info.driver)))
      else ok tt

  unfoldable pub supports_architectures : Client W Op → List String
  supports_architectures c = c.info.architectures

  unfoldable pub supports_instance_target : Client W Op → Result (Unit {0})
  supports_instance_target c =
      if not c.info.clustered then err (errorf "server is not part of a cluster") else ok tt

  -- WithTarget: the target is ignored where the server is not clustered.
  unfoldable pub with_target : String → Client W Op → Client W Op
  with_target target c = if c.info.clustered then record c { target = target } else c

  -- WaitForOperation
  unfoldable pub wait_for_operation : Client W Op → String → Action W Op → Action W (Unit {0})
  unfolding wait_result
  wait_for_operation c name f = do
    op ← wrapping ("failed to " <> name <> ": ") f
    r ← attempt ((server_of c).wait_context op)
    lift (wait_result name r)

  -- RunCommand: `exit_status` is what the handler of the operation has stored.
  unfoldable pub run_command : Client W Op → String → List String → Action W (Unit {0})
  unfolding wait_result
  run_command c instance_name command = do
    op ← wrapping "failed to ExecInstance: " ((server_of c).exec_instance instance_name command)
    r ← attempt ((server_of c).wait_context op)
    lift (wait_result "ExecInstance" r)
    status ← (server_of c).exit_status op
    lift (
        if nat_eq status 0
        then ok tt
        else err (errorf ("command failed with exit code " <> decimal status)))
