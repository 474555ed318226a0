-- ===== src/Docker/Inspect.antt =====
-- docker inspect, docker ps and docker rm: docker_inspect.go, docker_ps.go and docker_rm.go.
pub mod Ports
pub mod Deletes
pub mod Labels
use cluster_api_provider_inc.Action.{lift, wrapping, ◌>>=◌, ◌>>◌, pure, Action}
use cluster_api_provider_inc.Client.{server_of, Client}
use cluster_api_provider_inc.Client.Stop.{wait_for_delete_instance}
use cluster_api_provider_inc.Client.Filters.{
  list_instances, InstanceFilter, with_config_filter, with_config_keys,
}
use cluster_api_provider_inc.Prelude.{
  map, String, not, ◌||◌, Option, none, some, List, [], ◌∷◌, ◌==◌, if◌then◌else◌,
}
use cluster_api_provider_inc.Text.{◌<>◌, quote, split, cut_prefix, join}
use cluster_api_provider_inc.Maps.{GoMap, get}
use cluster_api_provider_inc.Errors.{Result, ok, err, errorf, wrapf}
use cluster_api_provider_inc.Incus.{Instance}
use cluster_api_provider_inc.Incus.Addresses.{parse_host_addresses}
use cluster_api_provider_inc.Docker.{Environment}

-- Whether an address parses, and as what: netip.ParseAddr, Is4 and Is6.
pub data AddressKind : Type 0 where
  ipv4 : AddressKind
  ipv6 : AddressKind
  invalid : AddressKind

abbrev pub endpoint_of : List String → Option (String × String)
endpoint_of (protocol ∷ host ∷ port ∷ []) = if protocol == "tcp" then some (host, port) else none
endpoint_of parts = none

-- The host and the port of a device that is a proxy to the API server, one round of the loop.
unfoldable pub api_endpoint : GoMap String → Option (String × String)
unfolding get split
api_endpoint device =
    if not (get device "type" == "proxy")
    then none
    else if not (get device "bind" == "host")
    then none
    else if not (get device "connect" == "tcp::6443")
    then none
    else endpoint_of (split b':' (get device "listen"))

-- The loop over the devices, which stops at the first.
unfoldable pub find_endpoint : GoMap (GoMap String) → Option (String × String)
unfolding api_endpoint
find_endpoint [] = none
find_endpoint ((name, device) ∷ devices) = elim (api_endpoint device) [
  | none ↦ find_endpoint devices
  | some e ↦ some e
]

-- The loop over the addresses: the last of each kind.
unfoldable pub last_addresses :
    (String → AddressKind) → List String → String × String → String × String
last_addresses parse_addr [] (v4, v6) = (v4, v6)
last_addresses parse_addr (addr ∷ addrs) (v4, v6) = elim (parse_addr addr) [
  | ipv4 ↦ last_addresses parse_addr addrs (addr, v6)
  | ipv6 ↦ last_addresses parse_addr addrs (v4, addr)
  | invalid ↦ last_addresses parse_addr addrs (v4, v6)
]

abbrev pub role_format : String
role_format = "{{ index .Config.Labels \"io.x-k8s.kind.role\"}}"

abbrev pub published_format : String
published_format = "{{ index .Config.Labels \"desktop.docker.io/ports/6443/tcp\" }}"

abbrev pub port_format : String
port_format =
    "{{ with (index (index .NetworkSettings.Ports \"6443/tcp\") 0) }}{{ printf \"%s\t%s\" .HostIp .HostPort }}{{ end }}"

abbrev pub address_format : String
address_format = "{{range .NetworkSettings.Networks}}{{.IPAddress}},{{.GlobalIPv6Address}}{{end}}"

abbrev printed : Result String → Result (Option String)
printed (ok s) = ok (some s)
printed (err e) = err (wrapf "failed to marshal YAML: " e "")

abbrev endpoint_line : Option (String × String) → Option String
endpoint_line none = none
endpoint_line (some (host, port)) = some (host <> "\t" <> port)

abbrev address_line : String × String → String
address_line (v4, v6) = v4 <> "," <> v6

-- The switch over the format; `none` where nothing is printed. The YAML library is a parameter.
unfoldable pub inspect_output :
    (Instance → Result String) → (String → AddressKind) → String → Instance → Result (Option String)
unfolding get find_endpoint last_addresses parse_host_addresses
inspect_output marshal parse_addr format i =
    if format == ""
    then printed (marshal i)
    else if format == role_format
    then ok (some (get i.config "user.io.x-k8s.kind.role"))
    else if format == published_format
    then ok none
    else if format == port_format || format == "test"
    then ok (endpoint_line (find_endpoint i.devices))
    else if format == address_format || format == "t2"
    then ok
        (some (address_line (last_addresses parse_addr (parse_host_addresses i.state) ("", ""))))
    else err (errorf ("unknown format " <> quote format))

-- The filter of docker ps.
unfoldable pub ps_filter : String → Result InstanceFilter
unfolding cut_prefix with_config_filter with_config_keys
ps_filter flag = elim (cut_prefix "label=io.x-k8s.kind.cluster=" flag) [
  | some cluster_name ↦ ok (with_config_filter (("user.io.x-k8s.kind.cluster", cluster_name) ∷ []))
  | none ↦
      if flag == "label=io.x-k8s.kind.cluster"
      then ok (with_config_keys ("user.io.x-k8s.kind.cluster" ∷ []))
      else err (errorf ("unknown filter " <> quote flag))
]

-- set.Insert, on the list of the elements
unfoldable pub insert_name : String → List String → List String
insert_name name [] = name ∷ []
insert_name name (n ∷ names) = if n == name then n ∷ names else n ∷ insert_name name names

-- The names of the clusters that the instances are labelled with.
unfoldable pub cluster_names : List Instance → List String → List String
unfolding get insert_name
cluster_names [] names = names
cluster_names (i ∷ instances) names = cluster_names instances (
    let v = get i.config "user.io.x-k8s.kind.cluster" in
    if v == "" then names else insert_name v names)

-- The lines that docker ps prints.
unfoldable pub ps_output : String → List Instance → Result (List String)
unfolding cluster_names join
ps_output format instances =
    if format == "{{.Names}}"
    then ok (map (λ i. i.name) instances)
    else if format == "{{.Label \"io.x-k8s.kind.cluster\"}}"
    then ok (join "\n" (cluster_names instances []) ∷ [])
    else err (errorf ("unknown format " <> quote format))

module _ {W Op : Type 0} (env : Environment W Op) where
  unfoldable pub print_lines : List String → Action W (Unit {0})
  print_lines [] = pure tt
  print_lines (line ∷ lines) = do env.println line; print_lines lines

  abbrev print_if_some : Option String → Action W (Unit {0})
  print_if_some none = pure tt
  print_if_some (some s) = env.println s

  -- docker inspect INSTANCE
  unfoldable pub docker_inspect :
      (Instance → Result String) → (String → AddressKind) → String → String → Action W (Unit {0})
  unfolding inspect_output
  docker_inspect marshal parse_addr format name = do
    c ← wrapping "failed to initialize client: " env.client
    i ←
        wrapping ("failed to retrieve instance " <> quote name <> ": ")
          ((server_of c).get_instance_full name)
    output ← lift (inspect_output marshal parse_addr format i)
    print_if_some output

  -- docker ps
  unfoldable pub docker_ps : String → String → Action W (Unit {0})
  unfolding ps_filter ps_output list_instances print_lines
  docker_ps filter format = do
    c ← wrapping "failed to initialize client: " env.client
    f ← lift (ps_filter filter)
    instances ← wrapping "failed to list instances: " (list_instances c (f ∷ []))
    lines ← lift (ps_output format instances)
    print_lines lines

  -- The loop of docker rm.
  unfoldable pub delete_each : Client W Op → List String → Action W (Unit {0})
  unfolding wait_for_delete_instance
  delete_each c [] = pure tt
  delete_each c (name ∷ names) = do
    wrapping ("failed to delete instance " <> quote name <> ": ") (wait_for_delete_instance c name)
    delete_each c names

  -- docker rm INSTANCE...
  unfoldable pub docker_rm : List String → Action W (Unit {0})
  unfolding delete_each
  docker_rm names = do c ← wrapping "failed to initialize client: " env.client; delete_each c names
