-- ===== src/Client/Filters.antt =====
-- ListInstances and its filters, internal/lxc/client_instances_list.go.
use cluster_api_provider_inc.Prelude.{
  String, Bool, true, ◌&&◌, List, [], ◌∷◌, all, is_some, ◌==◌, if◌then◌else◌,
}
use cluster_api_provider_inc.Maps.{GoMap, lookup, get}
use cluster_api_provider_inc.Action.{Action, ◌>>=◌, wrapping, pure}
use cluster_api_provider_inc.Images.{container, virtual_machine}
use cluster_api_provider_inc.Incus.{Instance}
use cluster_api_provider_inc.Client.{Client, server_of}

-- ListInstanceFilter
abbrev pub InstanceFilter : Type 0
InstanceFilter = Instance → Bool

-- WithConfig
unfoldable pub with_config_filter : GoMap String → InstanceFilter
unfolding get
with_config_filter [] i = true
with_config_filter ((k, v) ∷ kv) i = get i.config k == v && with_config_filter kv i

-- WithConfigKeys
unfoldable pub with_config_keys : List String → InstanceFilter
unfolding lookup
with_config_keys [] i = true
with_config_keys (k ∷ keys) i = is_some (lookup k i.config) && with_config_keys keys i

-- Containers
unfoldable pub containers : InstanceFilter
containers i = i.kind == container

-- VirtualMachines
unfoldable pub virtual_machines : InstanceFilter
virtual_machines i = i.kind == virtual_machine

-- The loops of ListInstances.
unfoldable pub keep : List InstanceFilter → List Instance → List Instance
keep filters [] = []
keep filters (i ∷ instances) =
    let rest = keep filters instances in if all (λ f. f i) filters then i ∷ rest else rest

-- ListInstances
unfoldable pub list_instances :
    {W Op : Type 0} → Client W Op → List InstanceFilter → Action W (List Instance)
unfolding keep
list_instances c filters = do
  instances ← wrapping "failed to GetInstancesFull: " (server_of c).get_instances_full
  pure (keep filters instances)
