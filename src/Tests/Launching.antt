-- ===== src/Tests/Launching.antt =====
-- Launch options, devices and addresses.
use cluster_api_provider_inc.Prelude.{◌≡◌, refl, false, some, [], ◌∷◌, arith, ◌++◌}
use cluster_api_provider_inc.Text.{join, ◌<>◌, quote}
use cluster_api_provider_inc.Errors.{err, errorf, ok}
use cluster_api_provider_inc.Maps.{insert}
use cluster_api_provider_inc.Api.Devices.{device, to_map}
use cluster_api_provider_inc.Api.Devices.Roundtrip.{DeviceSpec, to_map-print, to_map_malformed}
use cluster_api_provider_inc.Images.{single, oci, virtual_machine, incus}
use cluster_api_provider_inc.Launch.{LaunchOptions, no_options}
use cluster_api_provider_inc.Launch.Complete.{strip_tag, complete}
use cluster_api_provider_inc.Launch.Laws.{
  HasSingleImage, with_tag, with_digest, complete-HasSingleImage, complete-virtual_machine,
  strip_tag-digest,
}
use cluster_api_provider_inc.Sorting.Laws.{IsSorted}
use cluster_api_provider_inc.Incus.{Network, InstanceState}
use cluster_api_provider_inc.Incus.Addresses.{parse_host_addresses}
use cluster_api_provider_inc.Incus.Addresses.Laws.{parse_host_addresses-perm}
use cluster_api_provider_inc.Tests.Fixtures.{value_or}
use mathlib.Core.List.Perm

abbrev eth0 : DeviceSpec
eth0 = record { name = "eth0"; first = ("type", "nic"); rest = ("network", "ovn") ∷ [] }

to_map-print_example :
    to_map ("eth0,type=nic,network=ovn" ∷ [])
    ≡ ok (("eth0", ("type", "nic") ∷ ("network", "ovn") ∷ []) ∷ [])
unfolding join insert device
to_map-print_example = to_map-print (eth0 ∷ []) (ground arith)

to_map_malformed_example :
    to_map (("eth0,type=nic,network=ovn" ∷ []) ++ "root" ∷ [])
    ≡ err (
        errorf (
          "device spec "
          <> quote "root"
          <> " is not using the expected \"<device>,<key>=<value>,<key2>=<value2>\" format"))
unfolding join
to_map_malformed_example = to_map_malformed (eth0 ∷ []) "root" [] (ground arith) (ground arith)

abbrev vm_options : LaunchOptions
vm_options = record no_options {
  instance_type = virtual_machine;
  image = some (
      single (record {
        protocol = oci;
        server = "https://ghcr.io";
        fingerprint = "";
        alias = "image:v1@sha256";
      }));
}

abbrev completed : LaunchOptions
unfolding complete
completed = value_or no_options (complete vm_options incus)

complete-HasSingleImage_example : HasSingleImage completed
unfolding complete
complete-HasSingleImage_example = complete-HasSingleImage vm_options completed incus refl

complete-virtual_machine_example :
    (completed.create_files ≡ []) × (completed.replacements ≡ []) × (completed.unix_socket ≡ false)
unfolding complete
complete-virtual_machine_example = complete-virtual_machine vm_options completed incus refl refl

strip_tag-digest_example :
    (strip_tag (with_digest (with_tag "kindest/node" "v1") "sha256:1") ≡ "kindest/node@sha256:1")
    × (strip_tag (with_digest "kindest/node" "sha256:1") ≡ "kindest/node@sha256:1")
    × (strip_tag (with_tag "kindest/node" "v1") ≡ "kindest/node:v1")
strip_tag-digest_example =
    strip_tag-digest "kindest/node" "v1" "sha256:1" (ground arith) (ground arith) (ground arith)

abbrev lo : Network
lo = record { kind = "loopback"; host_name = ""; addresses = [] }

abbrev veth : Network
veth = record {
  kind = "broadcast";
  host_name = "veth0";
  addresses =
      record { family = "inet"; address = "10.0.0.2"; netmask = "24"; scope = "global" } ∷ [];
}

abbrev two_networks : InstanceState
two_networks = record { status = "Running"; pid = 42; networks = lo ∷ veth ∷ [] }

parse_host_addresses-perm_example :
    (parse_host_addresses (some (record two_networks { networks = veth ∷ lo ∷ [] }))
      ≡ parse_host_addresses (some two_networks))
    × IsSorted (parse_host_addresses (some two_networks))
parse_host_addresses-perm_example =
    parse_host_addresses-perm two_networks (veth ∷ lo ∷ []) (Perm.swap veth lo [])
