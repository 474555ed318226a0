-- ===== src/ClusterInfra/Endpoint.antt =====
-- What reconcileNormal of the LXCCluster controller makes of Create's result.
use cluster_api_provider_inc.Prelude.{
  String, ◌≡◌, ◌≢◌, ◌↔◌, refl, ap, Bool, true, false, some, List, [], ◌∷◌, ◌==◌, arith, nat_eq,
  if◌then◌else◌,
}
use cluster_api_provider_inc.Text.{◌<>◌}
use cluster_api_provider_inc.Errors.{ok, err, GoError, error_text, is_terminal_error}
use cluster_api_provider_inc.Action.{◌>>=◌}
use cluster_api_provider_inc.Api.{Cluster, LxcCluster}
use cluster_api_provider_inc.Api.Conditions.{
  Condition, condition_true, condition_false, error, warning,
}
use cluster_api_provider_inc.Balancer.{manager_for_cluster}
use cluster_api_provider_inc.Balancer.Actions.{create}
use cluster_api_provider_inc.Balancer.Laws.{create_not_empty}
use cluster_api_provider_inc.Client.{Client}
use cluster_api_provider_inc.ClusterInfra.{
  Reconciler, Outcome, load_balancer_available, mark, with_host, with_port, surface_endpoint,
  surfaced, created, reconcile_normal,
}

module _ {W Op C : Type 0} (r : Reconciler W Op C) where
  mark-get :
      (k : Condition) (c : LxcCluster C)
      → r.library.get load_balancer_available (mark r k c).conditions ≡ some k
  mark-get k c = rw (r.library.get-mark load_balancer_available load_balancer_available k _)

  -- The load balancer has the first of `addrs`, unless the cluster has an endpoint already.
  abbrev pub IsServing : LxcCluster C → List String → Outcome C → Type 0
  IsServing c addrs o =
      (o.1 ≡ ok 0)
      × (o.0.ready ≡ true)
      × (r.library.get load_balancer_available o.0.conditions ≡ some condition_true)
      × (nat_eq o.0.spec.endpoint_port 0 ≡ false)
      × (host : String) × (rest : List String) × (addrs ≡ host ∷ rest)
      × (o.0.spec.endpoint_host
          ≡ (if c.spec.endpoint_host == "" then host else c.spec.endpoint_host))

  with_port-port : (c : LxcCluster C) → nat_eq (with_port r c).spec.endpoint_port 0 ≡ false
  with_port-port c = by_case (nat_eq c.spec.endpoint_port 0) refl
    where
      by_case :
          (b : Bool)
          → nat_eq c.spec.endpoint_port 0 ≡ b
          → nat_eq
              (if b
                then record c { spec = record c.spec { endpoint_port = 6443 } }
                else c).spec.endpoint_port
              0
            ≡ false
      by_case true e = refl
      by_case false e = e

  with_port-host : (c : LxcCluster C) → (with_port r c).spec.endpoint_host ≡ c.spec.endpoint_host
  with_port-host c = by_case (nat_eq c.spec.endpoint_port 0)
    where
      by_case :
          (b : Bool)
          → (if b
              then record c { spec = record c.spec { endpoint_port = 6443 } }
              else c).spec.endpoint_host
            ≡ c.spec.endpoint_host
      by_case true = refl
      by_case false = refl

  surface_endpoint-IsServing :
      (c : LxcCluster C) (addrs : List String)
      → addrs ≢ []
      → IsServing c addrs (surfaced r c (surface_endpoint r c addrs))
  unfolding surface_endpoint
  surface_endpoint-IsServing c [] h = absurd (h refl)
  surface_endpoint-IsServing c (host ∷ rest) h = by_case (c.spec.endpoint_host == "") refl
    where
      by_case :
          (b : Bool)
          → (c.spec.endpoint_host == "") ≡ b
          → IsServing c (host ∷ rest) (
              surfaced r c
                (if b then ok (with_port r (with_host r c host)) else ok (with_port r c)))
      by_case true e = (
        refl,
        refl,
        mark-get condition_true (with_port r (with_host r c host)),
        with_port-port (with_host r c host),
        host,
        rest,
        refl,
        rw e (with_port-host (with_host r c host)),
      )
      by_case false e = (
        refl,
        refl,
        mark-get condition_true (with_port r c),
        with_port-port c,
        host,
        rest,
        refl,
        rw e (with_port-host c),
      )

  -- When Create succeeds, reconcileNormal does too, without the panic of an index out of range:
  -- the cluster is ready, its LoadBalancerAvailable condition is true and its endpoint has a port;
  -- the endpoint's host is the first address that Create returned, unless it was set before.
  pub reconcile_normal_created :
      (client : Client W Op) (cluster : Cluster) (c : LxcCluster C) (w w' : W) (addrs : List String)
      → create client (manager_for_cluster r.digest cluster c) w ≡ (ok addrs, w')
      → (o : Outcome C) × (reconcile_normal r client cluster c w ≡ (ok o, w')) × IsServing c addrs o
  unfolding reconcile_normal ◌>>=◌
  reconcile_normal_created client cluster c w w' addrs h = (
    created r c (ok addrs),
    rw h,
    surface_endpoint-IsServing c addrs (
        create_not_empty client (manager_for_cluster r.digest cluster c) w addrs (ap (λ x. x.0) h)),
  )

  -- What is left of a failed Create.
  abbrev pub IsCreateFailure : LxcCluster C → Bool → Outcome C → Type 0
  IsCreateFailure c terminal o =
      ((o.1 ≡ ok 0) ↔ (terminal ≡ true))
      × (o.0.spec ≡ c.spec)
      × (o.0.ready ≡ c.ready)
      × (k : Condition) × (r.library.get load_balancer_available o.0.conditions ≡ some k)
      × (k.status ≡ false)

  -- When Create fails, reconcileNormal leaves the specification and the ready flag, makes
  -- LoadBalancerAvailable false, and asks for no retry exactly when the error is terminal.
  pub reconcile_normal-create_error :
      (client : Client W Op) (cluster : Cluster) (c : LxcCluster C) (w w' : W) (e : GoError)
      → create client (manager_for_cluster r.digest cluster c) w ≡ (err e, w')
      → (o : Outcome C) × (reconcile_normal r client cluster c w ≡ (ok o, w'))
        × IsCreateFailure c (is_terminal_error e) o
  unfolding reconcile_normal ◌>>=◌
  reconcile_normal-create_error client cluster c w w' e h =
      (created r c (err e), rw h, classify (is_terminal_error e))
    where
      classify :
          (terminal : Bool)
          → let o : Outcome C =
              if terminal
              then (
                mark r
                    (condition_false "LoadBalancerProvisioningAbortedReason" error (
                      "The cluster load balancer could not be provisioned. The error was: "
                      <> error_text e))
                    c,
                ok 0,
              )
              else (
                mark r (condition_false "LoadBalancerProvisioningFailed" warning (error_text e)) c,
                err e,
              ) in
            IsCreateFailure c terminal o
      classify true = ((λ _. refl, λ _. refl), refl, refl, _, mark-get _ c, refl)
      classify false = (
        (λ x. absurd (ground arith), λ x. absurd (ground arith)),
        refl,
        refl,
        _,
        mark-get _ c,
        refl,
      )
