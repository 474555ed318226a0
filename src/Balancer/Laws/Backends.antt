-- ===== src/Balancer/Laws/Backends.antt =====
-- The backends of a load balancer, getLoadBalancerConfiguration of internal/loadbalancer/util.go.
use cluster_api_provider_inc.Prelude.{
  String, ◌≡◌, ◌⊎◌, inl, inr, refl, ap, sym, ◌∙◌, Bool, true, false, ◌&&◌, some, is_some, List, [],
  ◌∷◌, all, Any, ◌==◌, arith, eq_iff,
}
use cluster_api_provider_inc.Maps.{lookup, get}
use cluster_api_provider_inc.Errors.{ok}
use cluster_api_provider_inc.Action.{◌>>=◌}
use cluster_api_provider_inc.Incus.{Instance}
use cluster_api_provider_inc.Incus.Addresses.{parse_host_addresses}
use cluster_api_provider_inc.Client.{Client, server_of}
use cluster_api_provider_inc.Client.Filters.{with_config_filter, keep, list_instances}
use cluster_api_provider_inc.Balancer.{BackendServer, ConfigData, config_data}
use cluster_api_provider_inc.Balancer.Actions.{
  filter_cluster_control_plane_instances, get_load_balancer_configuration, cluster_configuration,
}
use cluster_api_provider_inc.Balancer.Laws.Listed.{
  IsBackend, Any-keep, backend_servers_sound, keep-Any, backend_servers_complete,
}

abbrev pub IsLabelled : String → String → Instance → Type 0
IsLabelled cluster_name cluster_namespace i =
    (get i.config "user.cluster-name" ≡ cluster_name)
    × (get i.config "user.cluster-namespace" ≡ cluster_namespace)
    × (get i.config "user.cluster-role" ≡ "control-plane")

passed-IsLabelled :
    (cluster_name cluster_namespace : String) (i : Instance)
    → all (λ f. f i) (filter_cluster_control_plane_instances cluster_name cluster_namespace ∷ [])
      ≡ true
    → IsLabelled cluster_name cluster_namespace i
unfolding filter_cluster_control_plane_instances with_config_filter
passed-IsLabelled cluster_name cluster_namespace i h =
    let p = ands _ _ (ands _ _ h).0 in
    let q = ands _ _ p.1 in
    let r = ands _ _ q.1 in ((eq_iff _ _).0 p.0, (eq_iff _ _).0 q.0, (eq_iff _ _).0 r.0)
  where
    ands : (a b : Bool) → (a && b) ≡ true → (a ≡ true) × (b ≡ true)
    ands true true e = (refl, refl)
    ands true false e = absurd (ground arith)
    ands false b e = absurd (ground arith)

eq_true : {s t : String} → s ≡ t → (s == t) ≡ true
eq_true {s} {t} e = (eq_iff s t).1 e

Any-imply :
    (P Q : Instance → Type 0) (is : List Instance)
    → ((i : Instance) → P i → Q i)
    → Any P is
    → Any Q is
Any-imply P Q [] f h = h
Any-imply P Q (i ∷ is) f (inl p) = inl (f i p)
Any-imply P Q (i ∷ is) f (inr q) = inr (Any-imply P Q is f q)

module _ {W Op : Type 0} (c : Client W Op) where
  cluster_configuration_listed :
      (cluster_name cluster_namespace : String) (w w' : W) (instances : List Instance)
      → (server_of c).get_instances_full w ≡ (ok instances, w')
      → cluster_configuration c cluster_name cluster_namespace w ≡ (
        ok (
            config_data (
              keep
                (filter_cluster_control_plane_instances cluster_name cluster_namespace ∷ [])
                instances)),
        w',
      )
  unfolding cluster_configuration get_load_balancer_configuration list_instances ◌>>=◌
  cluster_configuration_listed cluster_name cluster_namespace w w' instances h =
      rw (h, ap (λ x. x.1) h)

  configuration_same :
      (cluster_name cluster_namespace : String) (w w' : W) (instances : List Instance)
      (config : ConfigData)
      → (server_of c).get_instances_full w ≡ (ok instances, w')
      → (cluster_configuration c cluster_name cluster_namespace w).0 ≡ ok config
      → config_data (
          keep
            (filter_cluster_control_plane_instances cluster_name cluster_namespace ∷ [])
            instances)
        ≡ config
  configuration_same cluster_name cluster_namespace w w' instances config h e =
      let both : ok (
            config_data (
              keep (filter_cluster_control_plane_instances cluster_name cluster_namespace ∷ [])
                instances))
          ≡ ok config =
        sym (
          ap (λ x. x.0)
            (cluster_configuration_listed cluster_name cluster_namespace w w' instances h))
        ∙ e in
      ground arith

  -- Every backend of a cluster's load balancer is an instance that the server lists, which carries
  -- the labels of the cluster's control plane, and the backend has that instance's name, its first
  -- host address and the weight 100.
  pub cluster_configuration_sound :
      (cluster_name cluster_namespace : String) (w w' : W) (instances : List Instance)
      (config : ConfigData) (n : String) (s : BackendServer)
      → (server_of c).get_instances_full w ≡ (ok instances, w')
      → (cluster_configuration c cluster_name cluster_namespace w).0 ≡ ok config
      → lookup n config.backend_servers ≡ some s
      → Any (λ i. IsBackend n s i × IsLabelled cluster_name cluster_namespace i) instances
  unfolding config_data lookup
  cluster_configuration_sound cluster_name cluster_namespace w w' instances config n s hi hc hl =
      from_backends (
        backend_servers_sound kept [] n s (
          ap (λ x. lookup n x.backend_servers)
            (configuration_same cluster_name cluster_namespace w w' instances config hi hc)
          ∙ hl))
    where
      kept : List Instance
      kept =
          keep (filter_cluster_control_plane_instances cluster_name cluster_namespace ∷ [])
            instances

      from_backends :
          Any (IsBackend n s) kept ⊎ (lookup n [] ≡ some s)
          → Any (λ i. IsBackend n s i × IsLabelled cluster_name cluster_namespace i) instances
      from_backends (inr e) = absurd (ground arith)
      from_backends (inl p) =
          Any-imply _ _ instances
            (λ i q. (q.0, passed-IsLabelled cluster_name cluster_namespace i q.1))
            (Any-keep (IsBackend n s) _ instances p)

  -- Every instance of the server that carries the labels of the cluster's control plane and has a
  -- host address is among the backends under its name.
  pub cluster_configuration_complete :
      (cluster_name cluster_namespace : String) (w w' : W) (instances : List Instance)
      (config : ConfigData) (i : Instance) (a : String) (rest : List String)
      → (server_of c).get_instances_full w ≡ (ok instances, w')
      → (cluster_configuration c cluster_name cluster_namespace w).0 ≡ ok config
      → Any (λ j. j ≡ i) instances
      → IsLabelled cluster_name cluster_namespace i
      → parse_host_addresses i.state ≡ a ∷ rest
      → is_some (lookup i.name config.backend_servers) ≡ true
  unfolding config_data filter_cluster_control_plane_instances with_config_filter
  cluster_configuration_complete cluster_name cluster_namespace w w' instances config i a rest hi hc
        hm (l1, l2, l3) ha =
      rw (sym (configuration_same cluster_name cluster_namespace w w' instances config hi hc)) (
        backend_servers_complete
          (keep (filter_cluster_control_plane_instances cluster_name cluster_namespace ∷ [])
            instances)
          [] i a rest ha (keep-Any _ instances i (rw (eq_true l1, eq_true l2, eq_true l3)) hm))
