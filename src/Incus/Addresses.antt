-- ===== src/Incus/Addresses.antt =====
-- ParseHostAddresses of internal/lxc/client_parse_addresses.go.
pub mod Laws
use cluster_api_provider_inc.Prelude.{
  String, Bool, not, ◌&&◌, ◌||◌, Option, none, some, List, [], ◌∷◌, ◌++◌, ◌==◌, if◌then◌else◌,
}
use cluster_api_provider_inc.Sorting.{sort}
use cluster_api_provider_inc.Incus.{Address, Network, InstanceState}

-- The switch over a network.
unfoldable pub is_host_network : Network → Bool
is_host_network n = not (n.kind == "loopback") && not (n.host_name == "")

-- The switch over an address.
unfoldable pub is_main_address : Address → Bool
is_main_address a =
    a.scope == "global"
    && not (a.family == "inet" && a.netmask == "32")
    && not (a.family == "inet6" && a.netmask == "128")

unfoldable pub main_addresses : List Address → List String
unfolding is_main_address
main_addresses [] = []
main_addresses (a ∷ addrs) =
    let rest = main_addresses addrs in if is_main_address a then a.address ∷ rest else rest

unfoldable pub collect_addresses : List Network → List String
unfolding is_host_network main_addresses
collect_addresses [] = []
collect_addresses (n ∷ networks) =
    let rest = collect_addresses networks in
    if is_host_network n then main_addresses n.addresses ++ rest else rest

unfoldable pub parse_host_addresses : Option InstanceState → List String
unfolding collect_addresses sort
parse_host_addresses none = []
parse_host_addresses (some state) = sort (collect_addresses state.networks)
