-- ===== src/Machine/Normal/Progress.antt =====
-- When reconcileNormal reports an instance as provisioned.
use cluster_api_provider_inc.Prelude.{
  String, ◌≡◌, ◌⊎◌, inl, inr, refl, Bool, true, false, Option, none, some, List, arith, eq_refl, ap,
  not, ◌&&◌,
}
use cluster_api_provider_inc.Errors.{Result, ok, err, GoError}
use cluster_api_provider_inc.Action.Ensures.{Ensures, Ensures-pure, Ensures-bind, Ensures-if}
use cluster_api_provider_inc.Api.{
  Cluster, LxcCluster, Machine, LxcMachine, get_expected_provider_id,
}
use cluster_api_provider_inc.Api.Conditions.{condition_true, condition_false, info}
use cluster_api_provider_inc.Machine.{Reconciler, instance_provisioned, mark, set_addresses}
use cluster_api_provider_inc.Machine.Normal.{
  Outcome, launch_failed, provisioned, after_launch, balanced, launched, bootstrapped, provision,
  provision_or_check, reconcile_normal,
}
use cluster_api_provider_inc.Action.{pure}

module _ {W Op C : Type 0} (r : Reconciler W Op C) (cluster : Cluster) (lxc_cluster : LxcCluster C)
    (machine : Machine) where
  -- The outcome for `m` when everything is in place: the provider ID names the instance, the
  -- machine is ready, the condition is true, and the load balancer knows a control plane machine.
  abbrev pub IsProvisioned : LxcMachine C → Outcome C → Type 0
  IsProvisioned m o =
      (o.0.spec.provider_id ≡ some (get_expected_provider_id m))
      × (o.0.ready ≡ true)
      × (o.1 ≡ ok 0)
      × (r.library.get instance_provisioned o.0.conditions ≡ some condition_true)
      × ((machine.control_plane ≡ false) ⊎ (o.0.load_balancer_configured ≡ true))

  abbrev Progress : LxcMachine C → Outcome C → Type 0
  Progress m o = (o.0.spec.provider_id ≡ none) ⊎ IsProvisioned m o

  -- The machine behind the launch: marked, and with its addresses.
  abbrev pub marked : LxcMachine C → List String → LxcMachine C
  marked m addrs = mark r condition_true (set_addresses addrs m)

  pub marked_condition :
      (m : LxcMachine C) (addrs : List String)
      → r.library.get instance_provisioned (marked m addrs).conditions ≡ some condition_true
  marked_condition m addrs = rw (
    r.library.get-mark instance_provisioned instance_provisioned condition_true _,
    eq_refl instance_provisioned,
  )

  launch_failed-Progress :
      (m : LxcMachine C) (e : GoError)
      → m.spec.provider_id ≡ none
      → Progress m (launch_failed r cluster lxc_cluster machine m e)
  unfolding launch_failed
  launch_failed-Progress m e h = inl (ground arith)

  pub provisioned-IsProvisioned :
      (m n : LxcMachine C)
      → get_expected_provider_id n ≡ get_expected_provider_id m
      → r.library.get instance_provisioned n.conditions ≡ some condition_true
      → (machine.control_plane ≡ false) ⊎ (n.load_balancer_configured ≡ true)
      → IsProvisioned m (provisioned r cluster lxc_cluster machine n)
  unfolding provisioned
  provisioned-IsProvisioned m n i c h = (ap some i, refl, refl, c, h)

  balanced-Progress :
      (m : LxcMachine C) (addrs : List String) (b : Result (Unit {0}))
      → m.spec.provider_id ≡ none
      → Progress m (balanced r cluster lxc_cluster machine (marked m addrs) b)
  unfolding set_addresses get_expected_provider_id
  balanced-Progress m addrs (err e) h = inl h
  balanced-Progress m addrs (ok u) h = inr (
      provisioned-IsProvisioned m (record (marked m addrs) { load_balancer_configured = true }) refl
        (marked_condition m addrs) (inr refl))

  pub no_balancing : (c l : Bool) → (c && not l) ≡ false → (c ≡ false) ⊎ (l ≡ true)
  no_balancing false l h = inl refl
  no_balancing true false h = inl h
  no_balancing true true h = inr refl

  after_launch-Progress :
      (m : LxcMachine C) (addrs : List String)
      → m.spec.provider_id ≡ none
      → Ensures (Progress m) (after_launch r cluster lxc_cluster machine (marked m addrs))
  unfolding after_launch set_addresses get_expected_provider_id
  after_launch-Progress m addrs h =
      Ensures-if _ _ _ (λ _. Ensures-bind _ _ λ b. Ensures-pure _ (balanced-Progress m addrs b h))
        λ no. Ensures-pure _ (
          inr (
            provisioned-IsProvisioned m (marked m addrs) refl (marked_condition m addrs)
              (no_balancing machine.control_plane m.load_balancer_configured no)))

  launched-Progress :
      (m : LxcMachine C) (l : Result (List String))
      → m.spec.provider_id ≡ none
      → Ensures (Progress m) (launched r cluster lxc_cluster machine m l)
  launched-Progress m (err e) h = Ensures-pure _ (launch_failed-Progress m e h)
  launched-Progress m (ok addrs) h = after_launch-Progress m addrs h

  bootstrapped-Progress :
      (m : LxcMachine C) (b : Result String)
      → m.spec.provider_id ≡ none
      → Ensures (Progress m) (bootstrapped r cluster lxc_cluster machine m b)
  bootstrapped-Progress m (err e) h = Ensures-pure _ (inl h)
  bootstrapped-Progress m (ok cloud_init) h = Ensures-bind _ _ λ l. launched-Progress m l h

  provision-Progress :
      (m : LxcMachine C) (secret : Option String)
      → m.spec.provider_id ≡ none
      → Ensures (Progress m) (provision r cluster lxc_cluster machine m secret)
  unfolding provision
  provision-Progress m none h = Ensures-pure _ (inl (ground arith))
  provision-Progress m (some name) h = Ensures-bind _ _ λ b. bootstrapped-Progress m b h

  provision_or_check-Progress :
      (m : LxcMachine C) (id : Option String)
      → m.spec.provider_id ≡ none
      → m.spec.provider_id ≡ id
      → Ensures (Progress m) (provision_or_check r cluster lxc_cluster machine m id)
  provision_or_check-Progress m none h e = provision-Progress m machine.data_secret_name h
  provision_or_check-Progress m (some id) h e = absurd (ground arith)

  reconcile_normal-Progress :
      (m : LxcMachine C)
      → m.spec.provider_id ≡ none
      → Ensures (Progress m) (reconcile_normal r cluster lxc_cluster machine m)
  unfolding reconcile_normal
  reconcile_normal-Progress m h =
      Ensures-if (not cluster.infrastructure_ready)
        (pure (mark r (condition_false "WaitingForClusterInfrastructure" info "") m, ok 0))
        (provision_or_check r cluster lxc_cluster machine m m.spec.provider_id)
        (λ _. Ensures-pure _ (inl h)) (λ _. provision_or_check-Progress m m.spec.provider_id h refl)

  -- For a machine without a provider ID, reconcileNormal returns it without one, or with the
  -- machine provisioned: the ID names the instance, the machine is ready, InstanceProvisioned is
  -- true, there is no error, and a control plane machine has its load balancer configured.
  pub reconcile_normal_progress :
      (m : LxcMachine C) (w : W) (o : Outcome C)
      → m.spec.provider_id ≡ none
      → (reconcile_normal r cluster lxc_cluster machine m w).0 ≡ ok o
      → (o.0.spec.provider_id ≡ none) ⊎ IsProvisioned m o
  reconcile_normal_progress m w o h e = (reconcile_normal-Progress m h).at w o e
