-- ===== src/Docker/Info.antt =====
-- docker info and docker network ls: docker_info.go and docker_network_ls.go.
use cluster_api_provider_inc.Prelude.{String, Bool, not, Option, none, some, ◌==◌, if◌then◌else◌}
use cluster_api_provider_inc.Text.{◌<>◌, quote}
use cluster_api_provider_inc.Errors.{err, errorf}
use cluster_api_provider_inc.Action.{Action, ◌>>=◌, lift, wrapping}
use cluster_api_provider_inc.Client.{Client}
use cluster_api_provider_inc.Docker.{Environment, privileged}

-- securityOptionsByFormatAndPrivileged
unfoldable pub security_options : String → Bool → Option String
security_options format privileged =
    if format == "{{json .}}"
    then some (
        if privileged
        then "{\"CgroupDriver\":\"systemd\",\"CGroupVersion\":\"2\",\"MemoryLimit\":true,\"CPUShares\":true,\"PidsLimit\":true,\"SecurityOptions\":[]}"
        else "{\"CgroupDriver\":\"systemd\",\"CGroupVersion\":\"2\",\"MemoryLimit\":true,\"CPUShares\":true,\"PidsLimit\":true,\"SecurityOptions\":[\"name=userns\",\"name=rootless\"]}")
    else if format == "'{{json .SecurityOptions}}'"
    then some (if privileged then "[]" else "[\"name=userns\",\"name=rootless\"]")
    else none

module _ {W Op : Type 0} (env : Environment W Op) where
  abbrev print_or_fail : String → Option String → Action W (Unit {0})
  print_or_fail format none = lift (err (errorf ("unknown format " <> quote format)))
  print_or_fail format (some s) = env.println s

  -- docker info, where `get_server` and `marshal` are the server's information and its YAML.
  unfoldable pub docker_info :
      {Info : Type 0}
      → (Client W Op → Action W Info)
      → (Info → Action W String)
      → String
      → Action W (Unit {0})
  unfolding security_options privileged
  docker_info get_server marshal format =
      if format == ""
      then (do
        c ← wrapping "failed to initialize client: " env.client
        info ← wrapping "failed to get server info: " (get_server c)
        yaml ← wrapping "failed to marshal YAML: " (marshal info)
        env.println yaml)
      else print_or_fail format (security_options format (privileged env))

  -- docker network ls
  unfoldable pub docker_network_ls : String → String → Action W (Unit {0})
  docker_network_ls filter format =
      if not (filter == "name=^kind$")
      then lift (err (errorf ("invalid filter " <> quote filter)))
      else if not (format == "{{.ID}}")
      then lift (err (errorf ("invalid format " <> quote format)))
      else env.println "kind"
