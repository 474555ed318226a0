-- ===== src/Machine/Normal/Launched.antt =====
-- One call of reconcileNormal that provisions a machine.
use cluster_api_provider_inc.Prelude.{
  String, ◌≡◌, ◌⊎◌, inl, inr, refl, true, false, none, some, List, ap, not, ◌&&◌, ◌∙◌,
  if◌then◌else◌,
}
use cluster_api_provider_inc.Errors.{ok}
use cluster_api_provider_inc.Api.{
  Cluster, LxcCluster, Machine, LxcMachine, get_expected_provider_id,
}
use cluster_api_provider_inc.Api.Conditions.{condition_false, info}
use cluster_api_provider_inc.Balancer.{manager_for_cluster}
use cluster_api_provider_inc.Balancer.Actions.{reconfigure}
use cluster_api_provider_inc.Machine.Launching.{launch_instance}
use cluster_api_provider_inc.Machine.{get_bootstrap_data, Reconciler, mark, set_addresses}
use cluster_api_provider_inc.Machine.Normal.{
  Outcome, provisioned, after_launch, provision, provision_or_check, reconcile_normal,
}
use cluster_api_provider_inc.Action.{pure, ◌>>=◌}
use cluster_api_provider_inc.Machine.Normal.Progress.{
  IsProvisioned, marked, marked_condition, provisioned-IsProvisioned, no_balancing,
}

module _ {W Op C : Type 0} (r : Reconciler W Op C) (cluster : Cluster) (lxc_cluster : LxcCluster C)
    (machine : Machine) where
  -- The load balancer needs no change, or its change succeeds.
  abbrev pub IsBalanced : LxcMachine C → W → W → Type 0
  IsBalanced m w w' =
      (((machine.control_plane && not m.load_balancer_configured) ≡ false) × (w ≡ w'))
      ⊎ (((machine.control_plane && not m.load_balancer_configured) ≡ true)
          × (reconfigure r.client r.templates (manager_for_cluster r.digest cluster lxc_cluster) w
              ≡ (ok tt, w')))

  -- The outcome is that of a machine that was provisioned with the addresses.
  abbrev pub IsLaunched : LxcMachine C → List String → Outcome C → Type 0
  IsLaunched m addrs o =
      IsProvisioned r cluster lxc_cluster machine m o
      × (o.0.addresses ≡ (set_addresses addrs m).addresses)

  after_launch-IsLaunched :
      (m : LxcMachine C) (addrs : List String) (w w' : W)
      → IsBalanced m w w'
      → (o : Outcome C) × (after_launch r cluster lxc_cluster machine
            (marked r cluster lxc_cluster machine m addrs)
            w
          ≡ (ok o, w'))
        × IsLaunched m addrs o
  unfolding after_launch set_addresses get_expected_provider_id provisioned ◌>>=◌
  after_launch-IsLaunched m addrs w w' (inl (needless, same)) = (
    provisioned r cluster lxc_cluster machine (marked r cluster lxc_cluster machine m addrs),
    rw (needless, same),
    (
      provisioned-IsProvisioned r cluster lxc_cluster machine m
          (marked r cluster lxc_cluster machine m addrs) refl
          (marked_condition r cluster lxc_cluster machine m addrs)
          (no_balancing r cluster lxc_cluster machine machine.control_plane
            m.load_balancer_configured needless),
      refl,
    ),
  )
  after_launch-IsLaunched m addrs w w' (inr (needed, balance)) =
      let n = record (marked r cluster lxc_cluster machine m addrs) {
        load_balancer_configured = true;
      } in
      (
        provisioned r cluster lxc_cluster machine n,
        rw (needed, balance),
        (
          provisioned-IsProvisioned r cluster lxc_cluster machine m n refl
              (marked_condition r cluster lxc_cluster machine m addrs) (inr refl),
          refl,
        ),
      )

  -- A machine without a provider ID whose cluster is ready, whose bootstrap data is there, whose
  -- launch returns addresses and whose load balancer needs no change or is changed is provisioned
  -- by one call of reconcileNormal, and its addresses are the host name and those of the launch.
  pub reconcile_normal-IsLaunched :
      (m : LxcMachine C) (w w1 w2 w3 : W) (secret cloud_init : String) (addrs : List String)
      → cluster.infrastructure_ready ≡ true
      → m.spec.provider_id ≡ none
      → machine.data_secret_name ≡ some secret
      → get_bootstrap_data r m.namespace secret w ≡ (ok cloud_init, w1)
      → launch_instance r cluster lxc_cluster machine m cloud_init w1 ≡ (ok addrs, w2)
      → IsBalanced m w2 w3
      → (o : Outcome C) × (reconcile_normal r cluster lxc_cluster machine m w ≡ (ok o, w3))
        × IsLaunched m addrs o
  unfolding reconcile_normal provision ◌>>=◌
  reconcile_normal-IsLaunched m w w1 w2 w3 secret cloud_init addrs hr hi hs hb hl h =
      let (o, e, p) = after_launch-IsLaunched m addrs w2 w3 h in
      let step : provision r cluster lxc_cluster machine m (some secret) w
          ≡ after_launch r cluster lxc_cluster machine
              (marked r cluster lxc_cluster machine m addrs) w2 =
        rw (hb, hl) in
      (
        o,
        ap
              (λ b.
                (if not b
                    then pure
                        (mark r (condition_false "WaitingForClusterInfrastructure" info "") m, ok 0)
                    else provision_or_check r cluster lxc_cluster machine m m.spec.provider_id)
                  w)
              hr
            ∙ ap (λ id. provision_or_check r cluster lxc_cluster machine m id w) hi
            ∙ ap (λ s. provision r cluster lxc_cluster machine m s w) hs
            ∙ step
            ∙ e,
        p,
      )
