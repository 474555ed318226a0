-- ===== src/Docker/Run.antt =====
-- docker run: the devices and the configuration that the flags ask for, docker_run.go.
pub mod Options
pub mod Launching
use cluster_api_provider_inc.Prelude.{
  ℕ, suc, String, Bool, true, false, not, ◌||◌, List, [], ◌∷◌, map, ◌==◌, if◌then◌else◌, some, none,
  Option,
}
use cluster_api_provider_inc.Text.{◌<>◌, quote, contains, cut, split, decimal}
use cluster_api_provider_inc.Text.Forms.{to_lower, format_bool}
use cluster_api_provider_inc.Errors.{Result, ok, err, errorf, ◌>>=◌}
use cluster_api_provider_inc.Maps.{GoMap, insert}

-- The flags that are read; maps of flags in the order of an iteration.
pub record RunFlags : Type 0 where
  pub name : String
  pub environment : List String
  pub labels : GoMap String
  pub publish_ports : List String
  pub volumes : List String
  pub devices : List String
  pub tmpfs : List String
  pub sysctl : GoMap String

-- The loop over the environment, with env.Getenv.
unfoldable pub environment_lines : (String → String) → List String → String
unfolding contains
environment_lines getenv [] = ""
environment_lines getenv (v ∷ vs) =
    (if not (contains "=" v) then v <> "=" <> getenv v else v)
    <> "\n"
    <> environment_lines getenv vs

-- The keys of a map of flags, behind a prefix.
unfoldable pub prefixed : String → GoMap String → GoMap String
unfolding insert
prefixed prefix [] = []
prefixed prefix ((key, value) ∷ flags) = insert (prefix <> key) value (prefixed prefix flags)

abbrev proxy : String → String → GoMap String
proxy listen connect =
    ("type", "proxy") ∷ ("bind", "host") ∷ ("listen", listen) ∷ ("connect", connect) ∷ []

-- The switch over the number of parts of a published port.
unfoldable pub proxy_of_parts : String → String → List String → Result (GoMap String)
proxy_of_parts publish_port protocol (listen ∷ connect ∷ []) =
    ok (proxy (protocol <> "::" <> listen) (protocol <> "::" <> connect))
proxy_of_parts publish_port protocol (host ∷ listen ∷ connect ∷ []) =
    ok (proxy (protocol <> ":" <> host <> ":" <> listen) (protocol <> "::" <> connect))
proxy_of_parts publish_port protocol parts =
    err (errorf ("publish port " <> quote publish_port <> " does not specify listen and connect"))

-- The device of one published port.
unfoldable pub proxy_device : String → Result (GoMap String)
unfolding cut split to_lower proxy_of_parts
proxy_device spec = elim (cut b'/' (to_lower spec)) [
  | none ↦ err (errorf ("publish port " <> quote (to_lower spec) <> " does not specify protocol"))
  | some (publish_port, protocol) ↦ proxy_of_parts publish_port protocol (split b':' publish_port)
]

-- The loop over the published ports, from the index of the first of them.
unfoldable pub proxy_devices : ℕ → List String → Result (GoMap (GoMap String))
unfolding proxy_device decimal
proxy_devices idx [] = ok []
proxy_devices idx (spec ∷ specs) = do
  device ← proxy_device spec
  devices ← proxy_devices (suc idx) specs
  ok (("docker-proxy-" <> decimal idx, device) ∷ devices)

unfoldable pub tmpfs_devices : ℕ → List String → GoMap (GoMap String)
unfolding decimal
tmpfs_devices idx [] = []
tmpfs_devices idx (path ∷ paths) =
    ("docker-tmpfs-" <> decimal idx, ("type", "disk") ∷ ("path", path) ∷ ("source", "tmpfs:") ∷ [])
    ∷ tmpfs_devices (suc idx) paths

unfoldable pub unix_devices : ℕ → List String → GoMap (GoMap String)
unfolding decimal
unix_devices idx [] = []
unix_devices idx (device ∷ devices) =
    (
      "docker-device-" <> decimal idx,
      ("type", "unix-char") ∷ ("source", device) ∷ ("path", device) ∷ [],
    )
    ∷ unix_devices (suc idx) devices

-- hostPath, containerPath, readOnly and propagation
pub record Mount : Type 0 where
  pub host_path : String
  pub container_path : String
  pub read_only : Bool
  pub propagation : String

-- The switch over the number of parts of a volume; more than three leave every part unset.
unfoldable pub mount_of_parts : List String → Mount
unfolding contains
mount_of_parts (path ∷ []) = record {
  host_path = path;
  container_path = path;
  read_only = false;
  propagation = "";
}
mount_of_parts (host ∷ path ∷ []) = record {
  host_path = host;
  container_path = path;
  read_only = false;
  propagation = "";
}
mount_of_parts (host ∷ path ∷ options ∷ []) = record {
  host_path = host;
  container_path = path;
  read_only = contains "ro" options;
  propagation =
      if contains "rslave" options
      then "rslave"
      else if contains "rshared" options
      then "rshared"
      else "";
}
mount_of_parts parts = record {
  host_path = "";
  container_path = "";
  read_only = false;
  propagation = "";
}

unfoldable pub volume_device : String → GoMap String
unfolding split mount_of_parts
volume_device volume =
    let m = mount_of_parts (split b':' volume) in
    ("type", "disk")
    ∷ ("source", m.host_path)
    ∷ ("path", m.container_path)
    ∷ ("readonly", format_bool m.read_only)
    ∷ ("propagation", m.propagation)
    ∷ []

-- The loop over the volumes, without those that are handled out of band.
unfoldable pub volume_devices : ℕ → List String → GoMap (GoMap String)
unfolding volume_device decimal
volume_devices idx [] = []
volume_devices idx (volume ∷ volumes) =
    let rest = volume_devices (suc idx) volumes in
    if volume == "/var" || volume == "/lib/modules:/lib/modules:ro"
    then rest
    else ("docker-volume-" <> decimal idx, volume_device volume) ∷ rest
