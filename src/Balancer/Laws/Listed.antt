-- ===== src/Balancer/Laws/Listed.antt =====
-- The loops behind getLoadBalancerConfiguration: ListInstances and the loop over its result.
use cluster_api_provider_inc.Prelude.{
  String, ◌≡◌, ◌⊎◌, inl, inr, refl, ap, sym, ◌∙◌, Bool, true, false, some, is_some, List, [], ◌∷◌,
  all, Any, ◌==◌, eq_iff, if◌then◌else◌,
}
use cluster_api_provider_inc.Maps.{GoMap, lookup, lookup-insert, lookup-insert_self}
use cluster_api_provider_inc.Incus.{Instance}
use cluster_api_provider_inc.Incus.Addresses.{parse_host_addresses}
use cluster_api_provider_inc.Client.Filters.{InstanceFilter, keep}
use cluster_api_provider_inc.Balancer.{BackendServer, first_address, backend_servers}
use mathlib.Core.Option.{some_inj}

-- Every element that ListInstances keeps is one of the server's that passes the filters.
pub Any-keep :
    (P : Instance → Type 0) (filters : List InstanceFilter) (is : List Instance)
    → Any P (keep filters is)
    → Any (λ i. P i × (all (λ f. f i) filters ≡ true)) is
unfolding keep
Any-keep P filters [] h = h
Any-keep P filters (i ∷ is) h = by_case (all (λ f. f i) filters) refl h (Any-keep P filters is)
  where
    by_case :
        (b : Bool)
        → all (λ f. f i) filters ≡ b
        → Any P (if b then i ∷ keep filters is else keep filters is)
        → (Any P (keep filters is) → Any (λ j. P j × (all (λ f. f j) filters ≡ true)) is)
        → (P i × (all (λ f. f i) filters ≡ true))
          ⊎ Any (λ j. P j × (all (λ f. f j) filters ≡ true)) is
    by_case true e (inl p) k = inl (p, e)
    by_case true e (inr q) k = inr (k q)
    by_case false e q k = inr (k q)

-- The first address of the instance is the backend `s` that carries its name `n`.
abbrev pub IsBackend : String → BackendServer → Instance → Type 0
IsBackend n s i =
    (i.name ≡ n)
    × (s.weight ≡ 100)
    × (rest : List String) × (parse_host_addresses i.state ≡ s.address ∷ rest)

first_address-IsBackend :
    (i : Instance) (addrs : List String) (servers : GoMap BackendServer) (n : String)
    (s : BackendServer)
    → parse_host_addresses i.state ≡ addrs
    → lookup n (first_address i.name addrs servers) ≡ some s
    → IsBackend n s i ⊎ (lookup n servers ≡ some s)
first_address-IsBackend i [] servers n s e h = inr h
first_address-IsBackend i (a ∷ addrs) servers n s e h =
    by_case (i.name == n) refl
      (sym (lookup-insert i.name n (record { address = a; weight = 100 }) servers) ∙ h)
  where
    by_case :
        (b : Bool)
        → (i.name == n) ≡ b
        → (if b then some (record { address = a; weight = 100 }) else lookup n servers) ≡ some s
        → IsBackend n s i ⊎ (lookup n servers ≡ some s)
    by_case false d k = inr k
    by_case true d k =
        let same : record { address = a; weight = 100 } ≡ s = some_inj.0 k in
        inl (
          (eq_iff i.name n).0 d,
          ap (λ b. b.weight) (sym same),
          addrs,
          e ∙ ap (λ b. b.address ∷ addrs) same,
        )

pub backend_servers_sound :
    (is : List Instance) (servers : GoMap BackendServer) (n : String) (s : BackendServer)
    → lookup n (backend_servers is servers) ≡ some s
    → Any (IsBackend n s) is ⊎ (lookup n servers ≡ some s)
unfolding backend_servers
backend_servers_sound [] servers n s h = inr h
backend_servers_sound (i ∷ is) servers n s h =
    elim (backend_servers_sound is (first_address i.name (parse_host_addresses i.state) servers) n s
      h) [
        | inl p ↦ inl (inr p)
        | inr q ↦
            elim (first_address-IsBackend i (parse_host_addresses i.state) servers n s refl q) [
              | inl b ↦ inl (inl b)
              | inr old ↦ inr old
            ]
      ]

-- A key that is among the backends stays, and every instance with an address becomes one.
backend_servers_keep :
    (is : List Instance) (servers : GoMap BackendServer) (n : String)
    → is_some (lookup n servers) ≡ true
    → is_some (lookup n (backend_servers is servers)) ≡ true
unfolding backend_servers
backend_servers_keep [] servers n h = h
backend_servers_keep (i ∷ is) servers n h =
    backend_servers_keep is (first_address i.name (parse_host_addresses i.state) servers) n
      (stays (parse_host_addresses i.state))
  where
    stays : (addrs : List String) → is_some (lookup n (first_address i.name addrs servers)) ≡ true
    stays [] = h
    stays (a ∷ addrs) =
        rw (lookup-insert i.name n (record { address = a; weight = 100 }) servers)
          (elim (i.name == n)
            as (λ b.
              is_some (if b then some (record { address = a; weight = 100 }) else lookup n servers)
              ≡ true) [ true ↦ refl | false ↦ h ])

-- The converse of Any-keep, for one instance.
pub keep-Any :
    (filters : List InstanceFilter) (is : List Instance) (i : Instance)
    → all (λ f. f i) filters ≡ true
    → Any (λ j. j ≡ i) is
    → Any (λ j. j ≡ i) (keep filters is)
unfolding keep
keep-Any filters [] i h p = p
keep-Any filters (j ∷ is) i h (inl e) = rw (ap (λ k. all (λ f. f k) filters) e ∙ h) (inl e)
keep-Any filters (j ∷ is) i h (inr p) = by_case (all (λ f. f j) filters) (keep-Any filters is i h p)
  where
    by_case :
        (b : Bool)
        → Any (λ k. k ≡ i) (keep filters is)
        → Any (λ k. k ≡ i) (if b then j ∷ keep filters is else keep filters is)
    by_case true q = inr q
    by_case false q = q

pub backend_servers_complete :
    (is : List Instance) (servers : GoMap BackendServer) (i : Instance) (a : String)
    (rest : List String)
    → parse_host_addresses i.state ≡ a ∷ rest
    → Any (λ j. j ≡ i) is
    → is_some (lookup i.name (backend_servers is servers)) ≡ true
unfolding backend_servers
backend_servers_complete [] servers i a rest e (p) = absurd p.lower
backend_servers_complete (j ∷ is) servers i a rest e (inr p) =
    backend_servers_complete is (first_address j.name (parse_host_addresses j.state) servers) i a
      rest e p
backend_servers_complete (j ∷ is) servers i a rest e (inl same) =
    backend_servers_keep is (first_address j.name (parse_host_addresses j.state) servers) i.name (
      rw (ap (λ k. parse_host_addresses k.state) same ∙ e, ap (λ k. k.name) same)
        (rw (lookup-insert_self i.name (record { address = a; weight = 100 }) servers) refl))
