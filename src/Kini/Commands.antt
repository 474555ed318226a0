-- ===== src/Kini/Commands.antt =====
-- How kini runs its commands in an environment where docker is kini itself: cmd/exp/kini/main.go, the
-- hooks of cmd/exp/kini/kini/root.go and cmd/exp/kini/kind/root.go, and setup activate-environment.
use cluster_api_provider_inc.Prelude.{String, Bool, true, false, ◌==◌, if◌then◌else◌}
use cluster_api_provider_inc.Text.{◌<>◌}
use cluster_api_provider_inc.Action.{Action, ◌>>=◌, ◌>>◌, pure, wrapping}
use cluster_api_provider_inc.Kini.{Process, setup_environment, cleanup}

-- The command that main runs, by the name that the binary is called by.
unfoldable pub chosen : {A : Type 0} → (kini docker kind : A) → String → A
chosen kini docker kind base =
    if base == "docker" then docker else if base == "kind" then kind else kini

module _ {W : Type 0} (p : Process W) where
  -- A command between the hooks that are set before it: cobra calls the hook behind a command only
  -- when the command has not failed.
  unfoldable pub with_environment : {A : Type 0} → String → Action W A → Action W A
  unfolding setup_environment cleanup
  with_environment failure command = do
    dir ← wrapping failure (setup_environment p true false)
    a ← command
    cleanup p dir
    pure a

  -- The commands of kini, with the command itself.
  unfoldable pub kini_command : {A : Type 0} → Action W A → Action W A
  unfolding with_environment
  kini_command command = with_environment "failed to setup environment: " command

  -- The commands of kind, behind kind's own hook.
  unfoldable pub kind_command : {A : Type 0} → Action W (Unit {0}) → Action W A → Action W A
  unfolding with_environment
  kind_command pre_run command = do
    pre_run
    with_environment "failed to configure self as docker: " command

  -- kini setup activate-environment
  unfoldable pub activate_environment :
      (String → Action W (Unit {0})) → Bool → Bool → Action W (Unit {0})
  unfolding setup_environment
  activate_environment print docker kind = do
    path ← wrapping "failed to setup environment: " (setup_environment p docker kind)
    print ("export PATH=" <> path <> ":$PATH\n")
