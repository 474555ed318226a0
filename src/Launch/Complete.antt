-- ===== src/Launch/Complete.antt =====
-- (*LaunchOptions).complete of internal/lxc/launch_options_complete.go, with
-- GetDefaultUnixSocketPathFor of configuration_default.go.
use cluster_api_provider_inc.Prelude.{
  String, not, Option, none, some, [], ◌∷◌, map, is_empty, ◌==◌, if◌then◌else◌,
}
use cluster_api_provider_inc.Text.{◌<>◌, quote, cut, cut_before, join}
use cluster_api_provider_inc.Errors.{Result, ok, err, errorf, terminal_error, wrap, ◌>>=◌, ◌>>◌}
use cluster_api_provider_inc.Images.{
  Image, ImageFamily, single, image_for, incus, lxd, oci, virtual_machine,
}
use cluster_api_provider_inc.Launch.{LaunchOptions, file_action, with_devices}

abbrev pub fail_terminal : {A : Type 0} → String → Result A
fail_terminal s = err (terminal_error (errorf s))

-- The checks for virtual machines.
unfoldable pub check_virtual_machine : LaunchOptions → Result (Unit {0})
unfolding file_action
check_virtual_machine o =
    if not (o.instance_type == virtual_machine)
    then ok tt
    else if o.unix_socket
    then fail_terminal "mounting unix socket not supported for virtual-machine instances"
    else if not (is_empty o.create_files)
    then fail_terminal (
        "operations not supported for virtual-machine instances: ["
        <> join " " (map file_action o.create_files)
        <> "]")
    else if not (is_empty o.replacements)
    then fail_terminal (
        "replacements not supported for virtual-machine instances: ["
        <> join " " (map (λ r. r.0) o.replacements)
        <> "]")
    else ok tt

abbrev pub require_image : Option ImageFamily → Result ImageFamily
require_image none = fail_terminal "cannot launch instance without image"
require_image (some f) = ok f

-- `IMG[:TAG]@sha256:HASH` becomes `IMG@sha256:HASH`.
unfoldable pub strip_tag : String → String
unfolding cut cut_before
strip_tag alias = elim (cut b'@' alias) [
  | none ↦ alias
  | some (without_hash, hash) ↦ cut_before b':' without_hash <> "@" <> hash
]

unfoldable pub complete_alias : Image → Image
unfolding strip_tag
complete_alias i = if i.protocol == oci then record i { alias = strip_tag i.alias } else i

unfoldable pub get_default_unix_socket_path_for : String → Result String
get_default_unix_socket_path_for server_name =
    if server_name == lxd
    then ok "/var/snap/lxd/common/lxd/unix.socket"
    else if server_name == incus
    then ok "/var/lib/incus/unix.socket"
    else fail_terminal ("unknown default unix socket path for server " <> quote server_name)

-- The bind mount of the admin socket.
unfoldable pub mount_unix_socket : String → LaunchOptions → Result LaunchOptions
unfolding get_default_unix_socket_path_for with_devices
mount_unix_socket server_name o = do
  path ← wrap "failed to get unix socket path: " (get_default_unix_socket_path_for server_name)
  ok (
      with_devices
        ((
          "00-unix-socket",
          ("type", "disk")
              ∷ ("source", path)
              ∷ ("path", "/run-unix.socket")
              ∷ ("shift", "true")
              ∷ [],
        )
          ∷ [])
        o)

unfoldable pub complete : LaunchOptions → String → Result LaunchOptions
unfolding check_virtual_machine complete_alias mount_unix_socket image_for
complete o server_name = do
  check_virtual_machine o
  f ← require_image o.image
  image ← wrap "unsupported instance image: " (image_for f server_name)
  let o' = record o { image = some (single (complete_alias image)) }
  if o'.unix_socket then mount_unix_socket server_name o' else ok o'
