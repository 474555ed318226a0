-- ===== src/Docker/Exec.antt =====
-- docker exec, docker cp and docker logs: docker_exec.go, docker_cp.go and docker_logs.go.
pub mod Laws
use cluster_api_provider_inc.Prelude.{
  ℕ, String, Bool, Option, none, some, List, [], ◌∷◌, ◌++◌, ◌||◌, ◌==◌, if◌then◌else◌,
}
use cluster_api_provider_inc.Text.{◌<>◌, quote, cut}
use cluster_api_provider_inc.Text.Forms.{trim_suffix}
use cluster_api_provider_inc.Errors.{Result, ok, err, errorf}
use cluster_api_provider_inc.Action.{Action, ◌>>=◌, pure, lift, wrapping}
use cluster_api_provider_inc.Launch.{FileArgs}
use cluster_api_provider_inc.Client.{Client, server_of, run_command}
use cluster_api_provider_inc.Client.Filters.{with_config_filter}
use cluster_api_provider_inc.Balancer.{Templates, render_haproxy_configuration}
use cluster_api_provider_inc.Balancer.Actions.{get_load_balancer_configuration}
use cluster_api_provider_inc.Docker.{Environment}

-- The loop that drops the flags --privileged and -i. Without arguments the code panics, which the
-- command rules out by asking for two; the failure stands for it.
unfoldable pub drop_flags : List String → Result (String × List String)
drop_flags [] = err (errorf "panic: index out of range [0] with length 0")
drop_flags (arg ∷ []) =
    if arg == "--privileged" || arg == "-i"
    then err (errorf "instance name not specified")
    else ok (arg, [])
drop_flags (arg ∷ next ∷ args) =
    let rest = drop_flags (next ∷ args) in
    if arg == "--privileged" || arg == "-i" then rest else ok (arg, next ∷ args)

-- The destination of `cp /dev/stdin $destination`.
unfoldable pub copy_destination : List String → Option String
copy_destination (cp ∷ source ∷ destination ∷ []) =
    if cp == "cp" then (if source == "/dev/stdin" then some destination else none) else none
copy_destination command = none

-- GenerateHaproxyLoadBalancerConfiguration
unfoldable pub generate_haproxy_configuration :
    {W Op : Type 0} → Client W Op → Templates → String → Action W String
unfolding get_load_balancer_configuration render_haproxy_configuration with_config_filter
    trim_suffix
generate_haproxy_configuration c templates name = do
  config ← wrapping "failed to retrieve load balancer config: " (
      get_load_balancer_configuration c (
        with_config_filter (
          ("user.io.x-k8s.kind.cluster", trim_suffix "-external-load-balancer" name)
          ∷ ("user.io.x-k8s.kind.role", "control-plane")
          ∷ [])
        ∷ []))
  lift (render_haproxy_configuration templates config templates.default_haproxy_template)

module _ {W Op : Type 0} (env : Environment W Op) where
  -- What is written: the input, or else a configuration of its own for haproxy.
  unfoldable pub copied_content :
      Client W Op → Templates → String → String → String → Action W String
  unfolding generate_haproxy_configuration
  copied_content c templates name destination input =
      if destination == "/usr/local/etc/haproxy/haproxy.cfg"
      then wrapping "failed to generate hack haproxy configuration: "
          (generate_haproxy_configuration c templates name)
      else pure input

  abbrev file_of : String → FileArgs
  file_of content = record {
    content = content;
    kind = "file";
    write_mode = "";
    mode = 0o644;
    uid = 0;
    gid = 0;
  }

  -- Copy the standard input to a file, or run a command.
  unfoldable pub exec_on :
      Client W Op → Templates → String → List String → Option String → Action W (Unit {0})
  unfolding copied_content run_command
  exec_on c templates name command none = run_command c name command
  exec_on c templates name command (some destination) = do
    input ← wrapping "failed to read stdin: " env.stdin
    content ← copied_content c templates name destination input
    wrapping
        ("failed to create file " <> quote destination <> " on instance " <> quote name <> ": ")
        ((server_of c).create_instance_file name destination (file_of content))

  -- docker exec
  unfoldable pub docker_exec : Templates → List String → Action W (Unit {0})
  unfolding drop_flags exec_on copy_destination
  docker_exec templates args = do
    p ← lift (drop_flags args)
    c ← wrapping "failed to initialize client: " env.client
    exec_on c templates p.0 p.1 (copy_destination p.1)

  abbrev checked : String → String → Option (String × String) → Result (String × String)
  checked src dst none = err (errorf ("destination " <> quote dst <> " not supported"))
  checked src dst (some p) = ok p

  -- The checks of the arguments of docker cp.
  unfoldable pub copy_target : String → String → Result (String × String)
  unfolding cut
  copy_target src dst = elim (cut b':' src) [
    | some p ↦ err (errorf ("source " <> quote src <> " not supported"))
    | none ↦ checked src dst (cut b':' dst)
  ]

  -- docker cp SRC DST, where `stat` gives the permissions of a local file and `open` its content.
  unfoldable pub docker_cp :
      (String → Action W ℕ) → (String → Action W String) → String → String → Action W (Unit {0})
  unfolding copy_target
  docker_cp stat open_file src dst = do
    target ← lift (copy_target src dst)
    mode ← wrapping "failed to stat source: " (stat src)
    c ← wrapping "failed to initialize client: " env.client
    content ← wrapping "failed to read source: " (open_file src)
    wrapping "failed to copy file to instance: " (
        (server_of c).create_instance_file target.0 target.1
          (record { content = content; kind = ""; write_mode = ""; mode = mode; uid = 0; gid = 0 }))

  -- docker logs
  unfoldable pub docker_logs : Bool → String → Action W (Unit {0})
  unfolding run_command
  docker_logs follow name = do
    c ← wrapping "failed to initialize client: " env.client
    run_command c name
        (("journalctl" ∷ "--boot" ∷ "--no-tail" ∷ []) ++ (if follow then "--follow" ∷ [] else []))
