-- ===== src/Balancer/Laws.antt =====
-- What Create of a load balancer returns where it succeeds.
pub mod Listed
pub mod Backends
use cluster_api_provider_inc.Action.Steps.{
  Gives, bind-Gives, lift-Gives, pure-Gives, attempt-Gives, wrapping-Gives, if-Gives,
}
use cluster_api_provider_inc.Prelude.{
  ◌⊎◌, inl, inr, sym, ◌∙◌, eq_iff, String, ◌≡◌, ◌≢◌, refl, ap, Bool, true, false, not, List, [],
  ◌∷◌, ◌==◌, arith, if◌then◌else◌,
}
use cluster_api_provider_inc.Text.{◌<>◌, contains}
use cluster_api_provider_inc.Maps.{GoMap, get}
use cluster_api_provider_inc.Errors.{
  Result, ok, err, GoError, errorf, terminal_error, error_text, is_terminal_error,
}
use cluster_api_provider_inc.Action.{Action, ◌>>=◌, pure, lift, attempt}
use cluster_api_provider_inc.Action.Ensures.{
  Ensures, Ensures-pure, Ensures-lift, Ensures-bind, Ensures-if, Ensures-wrapping,
}
use cluster_api_provider_inc.Launch.{LaunchOptions}
use cluster_api_provider_inc.Instances.{haproxy_lxc_launch_options, haproxy_oci_launch_options}
use cluster_api_provider_inc.Client.{
  Client, server_of, with_target, supports_network_load_balancers,
}
use cluster_api_provider_inc.Client.Launching.Laws.{NotEmpty, wait_for_launch_instance-NotEmpty}
use cluster_api_provider_inc.Balancer.{
  InstanceManager, OvnManager, Manager, lxc, oci, ovn, external, kube_vip,
}
use cluster_api_provider_inc.Balancer.Actions.{
  balancer_launch_options, launch_balancer, is_foreign, owner_config, ovn_create_found, ovn_create,
  static_address, create,
}

module _ {W Op : Type 0} (c : Client W Op) where
  failing-NotEmpty : (e : GoError) → Ensures NotEmpty (lift {W = W} (err e))
  failing-NotEmpty e = Ensures-lift (err e) λ a h. absurd (ground arith)

  single-NotEmpty : (a : String) → Ensures NotEmpty (pure {W = W} (a ∷ []))
  single-NotEmpty a = Ensures-pure (a ∷ []) λ h. ground arith

  launch_balancer-NotEmpty :
      (l : InstanceManager) (o : LaunchOptions) → Ensures NotEmpty (launch_balancer c l o)
  unfolding launch_balancer
  launch_balancer-NotEmpty l o = Ensures-wrapping _ _ (
      wait_for_launch_instance-NotEmpty (with_target l.spec.target c) l.name
        (balancer_launch_options l o))

  ovn_create_found-NotEmpty :
      (l : OvnManager) (found : Result (GoMap String))
      → Ensures NotEmpty (ovn_create_found c l found)
  unfolding ovn_create_found
  ovn_create_found-NotEmpty l (ok config) =
      Ensures-if (is_foreign l config) _ _ (λ _. failing-NotEmpty _)
        (λ _. single-NotEmpty l.listen_address)
  ovn_create_found-NotEmpty l (err e) =
      Ensures-if (not (contains "Network load balancer not found" (error_text e))) _ _
        (λ _. failing-NotEmpty _) (λ _. Ensures-bind _ _ λ _. single-NotEmpty l.listen_address)

  ovn_create-NotEmpty : (l : OvnManager) → Ensures NotEmpty (ovn_create c l)
  unfolding ovn_create
  ovn_create-NotEmpty l =
      Ensures-if (l.network_name == "") _ _ (λ _. failing-NotEmpty _)
        (λ _. Ensures-bind _ _ λ _.
          Ensures-bind _ _
            λ n. Ensures-bind _ _ λ _. Ensures-bind _ _ λ found. ovn_create_found-NotEmpty l found)

  static_address-NotEmpty :
      (kind address : String) → Ensures NotEmpty (static_address c kind address)
  static_address-NotEmpty kind address =
      Ensures-if (address == "") _ _ (λ _. failing-NotEmpty _) (λ _. single-NotEmpty address)

  create-NotEmpty : (m : Manager) → Ensures NotEmpty (create c m)
  unfolding create
  create-NotEmpty (lxc l) = launch_balancer-NotEmpty l haproxy_lxc_launch_options
  create-NotEmpty (oci l) =
      Ensures-bind _ _ λ _. launch_balancer-NotEmpty l haproxy_oci_launch_options
  create-NotEmpty (ovn l) = ovn_create-NotEmpty l
  create-NotEmpty (external address) = static_address-NotEmpty "external" address
  create-NotEmpty (kube_vip l) = static_address-NotEmpty "KubeVIP" l.address

  -- Whichever load balancer a cluster has, Create never succeeds with no address.
  pub create_not_empty :
      (m : Manager) (w : W) (addrs : List String) → (create c m w).0 ≡ ok addrs → addrs ≢ []
  create_not_empty m w addrs e = (create-NotEmpty m).at w addrs e

  -- The load balancer is there and carries the name and the namespace of the cluster.
  abbrev pub IsOwned : OvnManager → W → W → Type 0
  IsOwned l u v =
      (config : GoMap String) × Gives
        ((server_of c).get_network_load_balancer l.network_name l.listen_address) u config v
      × (get config "user.cluster-name" ≡ l.cluster_name)
      × (get config "user.cluster-namespace" ≡ l.cluster_namespace)

  -- The server did not find the load balancer, and has created it with the keys of the cluster.
  abbrev pub IsCreated : OvnManager → W → W → Type 0
  IsCreated l u v =
      (e : GoError) × (t : W) × ((server_of c).get_network_load_balancer l.network_name
          l.listen_address u
        ≡ (err e, t))
      × (contains "Network load balancer not found" (error_text e) ≡ true)
      × Gives
          ((server_of c).create_network_load_balancer l.network_name l.listen_address
            (owner_config l))
          t tt v

  is_foreign_owned :
      (l : OvnManager) (config : GoMap String)
      → is_foreign l config ≡ false
      → (get config "user.cluster-name" ≡ l.cluster_name)
        × (get config "user.cluster-namespace" ≡ l.cluster_namespace)
  unfolding is_foreign
  is_foreign_owned l config h = (
    (eq_iff (get config "user.cluster-name") l.cluster_name).0 (ground arith),
    (eq_iff (get config "user.cluster-namespace") l.cluster_namespace).0 (ground arith),
  )

  ovn_create_found_adopts :
      (l : OvnManager) (found : Result (GoMap String)) (u t v : W) (addrs : List String)
      → (server_of c).get_network_load_balancer l.network_name l.listen_address u ≡ (found, t)
      → Gives (ovn_create_found c l found) t addrs v
      → (addrs ≡ l.listen_address ∷ []) × (IsOwned l u v ⊎ IsCreated l u v)
  unfolding ovn_create_found
  ovn_create_found_adopts l (ok config) u t v addrs h k =
      elim (if-Gives (is_foreign l config) _ _ t v addrs k) [
        | inl p ↦ absurd (cc ((lift-Gives _ t v addrs p.1).0))
        | inr p ↦
            let (a, q) = pure-Gives (l.listen_address ∷ []) t v addrs p.1 in
            let (x, y) = is_foreign_owned l config p.0 in
            (sym a, inl (config, h ∙ ap (λ z. (ok config, z)) q, x, y))
      ]
  ovn_create_found_adopts l (err e) u t v addrs h k =
      elim (if-Gives (not (contains "Network load balancer not found" (error_text e))) _ _ t v addrs
        k) [
          | inl p ↦ absurd (cc ((lift-Gives _ t v addrs p.1).0))
          | inr p ↦
              let (x, s, b, d) = bind-Gives _ _ t v addrs p.1 in
              let (a, q) = pure-Gives (l.listen_address ∷ []) s v addrs d in
              (
                sym a,
                inr (
                  e,
                  t,
                  h,
                  ground (arith, p.0),
                  wrapping-Gives _ _ t s tt b ∙ ap (λ z. (ok tt, z)) q,
                ),
              )
        ]

  -- Create for an OVN load balancer never takes over one of another cluster: where it succeeds, it
  -- returns the listen address, and at its end either the server has answered with a load balancer
  -- that carries the cluster's name and namespace, or the server, which had not found any, has
  -- created one with these keys.
  pub create_ovn_adopts :
      (l : OvnManager) (w v : W) (addrs : List String)
      → create c (ovn l) w ≡ (ok addrs, v)
      → (addrs ≡ l.listen_address ∷ []) × (u : W) × (IsOwned l u v ⊎ IsCreated l u v)
  unfolding create ovn_create
  create_ovn_adopts l w v addrs h = elim (if-Gives (l.network_name == "") _ _ w v addrs h) [
    | inl p ↦ absurd (cc ((lift-Gives _ w v addrs p.1).0))
    | inr p ↦
        let (_, w1, _, b) = bind-Gives _ _ w v addrs p.1 in
        let (n, w2, _, d) = bind-Gives _ _ w1 v addrs b in
        let (_, w3, _, f) = bind-Gives _ _ w2 v addrs d in
        let (found, w4, g, k) = bind-Gives _ _ w3 v addrs f in
        let (a, q) =
          ovn_create_found_adopts l found w3 w4 v addrs (attempt-Gives _ w3 w4 found g) k in
        (a, w3, q)
  ]
