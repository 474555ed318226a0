-- ===== src/Balancer/Inspect.antt =====
-- Inspect of the load balancer managers, internal/loadbalancer/manager_*.go, which end-to-end tests
-- call.
use cluster_api_provider_inc.Prelude.{String, List, [], ◌∷◌, Option, none, some}
use cluster_api_provider_inc.Text.{◌<>◌, join}
use cluster_api_provider_inc.Maps.{GoMap, insert, get}
use cluster_api_provider_inc.Errors.{Result, ok, err, errorf, wrapf, error_text}
use cluster_api_provider_inc.Action.{Action, ◌>>=◌, pure, lift, attempt}
use cluster_api_provider_inc.Incus.{Instance}
use cluster_api_provider_inc.Client.{Client, run_command}
use cluster_api_provider_inc.Client.Filters.{with_config_filter, list_instances}
use cluster_api_provider_inc.Balancer.{
  OvnManager, KubeVipManager, Manager, lxc, oci, ovn, external, kube_vip, get_manifest_path,
}

-- An object of the server in the two forms that Inspect writes: by the verb %#v and by yaml.Marshal.
pub record Shown : Type 0 where
  pub text : String
  pub yaml : Result String

-- What Inspect asks of the server. A network comes with its configuration; a file without content is
-- a nil reader; `written` is what the last command has written to its standard output and error.
pub record Inspector (W : Type 0) : Type 0 where
  pub instance : String → Action W Shown
  pub network : String → Action W (GoMap String × Shown)
  pub network_load_balancer : String → String → Action W Shown
  pub network_load_balancer_state : String → String → Action W Shown
  pub instance_file : String → String → Action W (Option (Action W String))
  pub written : Action W (String × String)

-- A result that is asked for by a command: its name, and the command.
pub record LogItem : Type 0 where
  pub name : String
  pub command : List String

abbrev marshalled : String → Result String → GoMap String → GoMap String
marshalled name (ok b) result = insert (name <> ".yaml") b result
marshalled name (err e) result =
    insert (name <> ".err") (error_text (wrapf "failed to marshal yaml: " e "")) result

-- addInfoFor, behind the call of the getter
unfoldable pub info_for : String → Result Shown → GoMap String → GoMap String
unfolding insert error_text
info_for name (ok o) result =
    marshalled name o.yaml (insert (name <> ".txt") (o.text <> "\n") result)
info_for name (err e) result =
    insert (name <> ".err") (error_text (wrapf ("failed to get " <> name <> ": ") e "")) result

abbrev command_failure : String → LogItem → Result (Unit {0}) → GoMap String → GoMap String
command_failure name item (ok u) result = result
command_failure name item (err e) result =
    insert (item.name <> ".error")
      (error_text
        (wrapf ("failed to RunCommand [" <> join " " item.command <> "] on " <> name <> ": ") e ""))
      result

abbrev read_content : Result String → GoMap String → GoMap String
read_content (ok b) result = insert "haproxy.cfg" b result
read_content (err e) result =
    insert "haproxy.cfg" (error_text (wrapf "failed to read haproxy.cfg: " e "")) result

-- The commands of managerLXC
unfoldable pub haproxy_items : List LogItem
haproxy_items =
    record { name = "ip-a.txt"; command = "ip" ∷ "a" ∷ [] }
    ∷ record { name = "ip-r.txt"; command = "ip" ∷ "r" ∷ [] }
    ∷ record { name = "ss-plnt.txt"; command = "ss" ∷ "-plnt" ∷ [] }
    ∷ record {
      name = "haproxy.service";
      command = "systemctl" ∷ "status" ∷ "--no-pager" ∷ "-l" ∷ "haproxy.service" ∷ [];
    }
    ∷ record {
      name = "haproxy.log";
      command = "journalctl" ∷ "--no-pager" ∷ "-u" ∷ "haproxy.service" ∷ [];
    }
    ∷ record { name = "haproxy.cfg"; command = "cat" ∷ "/etc/haproxy/haproxy.cfg" ∷ [] }
    ∷ []

-- The commands of managerKubeVIP for an instance
unfoldable pub kube_vip_items : KubeVipManager → String → List LogItem
unfolding get_manifest_path
kube_vip_items l name =
    record { name = name <> "/ip-a.txt"; command = "ip" ∷ "a" ∷ [] }
    ∷ record { name = name <> "/ip-r.txt"; command = "ip" ∷ "r" ∷ [] }
    ∷ record { name = name <> "/kube-vip.yaml"; command = "cat" ∷ get_manifest_path l ∷ [] }
    ∷ []

module _ {W Op : Type 0} (c : Client W Op) (s : Inspector W) where
  -- addInfoFor
  unfoldable pub add_info_for : String → Action W Shown → GoMap String → Action W (GoMap String)
  unfolding info_for
  add_info_for name getter result = do r ← attempt getter; pure (info_for name r result)

  -- The loops over the commands for one instance.
  unfoldable pub run_items : String → List LogItem → GoMap String → Action W (GoMap String)
  unfolding run_command insert error_text
  run_items name [] result = pure result
  run_items name (item ∷ items) result = do
    r ← attempt (run_command c name item.command)
    out ← s.written
    run_items name items
        (insert item.name (out.0 <> "\n" <> out.1 <> "\n") (command_failure name item r result))

  abbrev add_file : Result (Option (Action W String)) → GoMap String → Action W (GoMap String)
  add_file (err e) result =
      pure (insert "haproxy.cfg" (error_text (wrapf "failed to GetInstanceFile: " e "")) result)
  add_file (ok none) result =
      pure (insert "haproxy.cfg" "failed to GetInstanceFile: %!w(<nil>)" result)
  add_file (ok (some reader)) result = do b ← attempt reader; pure (read_content b result)

  -- What (*managerOVN).Inspect does with the answer of GetNetwork, which is nil with an error: the
  -- getter reads its configuration first, and the failure stands for the panic.
  unfoldable pub inspect_network :
      OvnManager → Result (GoMap String × Shown) → Action W (GoMap String)
  unfolding info_for add_info_for get
  inspect_network l (err e) =
      lift (err (errorf "panic: invalid memory address or nil pointer dereference"))
  inspect_network l (ok network) = do
    r ←
        add_info_for "UplinkNetwork"
          (do uplink ← s.network (get network.0 "network"); pure uplink.1)
          (info_for "Network" (ok network.1) [])
    q ←
        add_info_for "NetworkLoadBalancer" (s.network_load_balancer l.network_name l.listen_address)
          r
    add_info_for "NetworkLoadBalancerState"
        (s.network_load_balancer_state l.network_name l.listen_address) q

  -- The loop of (*managerKubeVIP).Inspect over the instances.
  unfoldable pub inspect_instances :
      KubeVipManager → List Instance → GoMap String → Action W (GoMap String)
  unfolding run_items kube_vip_items
  inspect_instances l [] result = pure result
  inspect_instances l (i ∷ instances) result = do
    r ← run_items i.name (kube_vip_items l i.name) result
    inspect_instances l instances r

  abbrev inspect_listed : KubeVipManager → Result (List Instance) → Action W (GoMap String)
  inspect_listed l (err e) = pure (("instances.err", error_text e) ∷ [])
  inspect_listed l (ok instances) = inspect_instances l instances []

  -- Inspect, of each implementation of Manager
  unfoldable pub inspect : Manager → Action W (GoMap String)
  unfolding add_info_for run_items haproxy_items inspect_network inspect_instances insert error_text
      list_instances with_config_filter
  inspect (lxc l) = do
    r ← add_info_for "Instance" (s.instance l.name) []
    run_items l.name haproxy_items r
  inspect (oci l) = do
    r ← add_info_for "Instance" (s.instance l.name) []
    file ← attempt (s.instance_file l.name "/usr/local/etc/haproxy/haproxy.cfg")
    add_file file r
  inspect (ovn l) = do network ← attempt (s.network l.network_name); inspect_network l network
  inspect (external address) = pure (("address", address) ∷ [])
  inspect (kube_vip l) = do
    instances ← attempt (
        list_instances c (
          with_config_filter (
            ("user.cluster-namespace", l.cluster_namespace)
            ∷ ("user.cluster-name", l.cluster_name)
            ∷ ("user.cluster-role", "control-plane")
            ∷ [])
          ∷ []))
    inspect_listed l instances
