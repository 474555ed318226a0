-- ===== src/Incus/Addresses/Laws.antt =====
-- The addresses of an instance in whatever order the server lists its networks.
use mathlib.Core.Logic.{∥∥₁_elim}
use mathlib.Core.Path.{subst₂}
use mathlib.Core.List.{Perm, Permᴰ, perm_append_comm, append_assoc}
use mathlib.Core.List.Perm
use cluster_api_provider_inc.Prelude.{String, ◌≡◌, some, List, [], ◌∷◌, ◌++◌, if◌then◌else◌, arith}
use cluster_api_provider_inc.Sorting.Laws.{sort-perm, IsSorted, sort-IsSorted}
use cluster_api_provider_inc.Incus.{Network, InstanceState}
use cluster_api_provider_inc.Incus.Addresses.{
  is_host_network, main_addresses, collect_addresses, parse_host_addresses,
}

-- The addresses that one network contributes.
abbrev contribution : Network → List String
contribution n = if is_host_network n then main_addresses n.addresses else []

collect-cons :
    (n : Network) (ns : List Network)
    → collect_addresses (n ∷ ns) ≡ contribution n ++ collect_addresses ns
unfolding collect_addresses
collect-cons n ns = ground arith

-- Two networks change places in front of the rest.
contribution-swap :
    (a b : List String) (rest : List String) → Perm (a ++ (b ++ rest)) (b ++ (a ++ rest))
contribution-swap a b rest =
    subst₂ Perm (append_assoc a b rest) (append_assoc b a rest)
      (Perm.append (perm_append_comm a b) (Perm.refl rest))

collect-perm : (l m : List Network) → Permᴰ l m → Perm (collect_addresses l) (collect_addresses m)
collect-perm _ _ Permᴰ.nil = Perm.refl (collect_addresses [])
collect-perm _ _ (Permᴰ.cons {a} {b} {l₁ = l} {l₂ = m} e p) =
    rw (e, collect-cons b l, collect-cons b m)
      (Perm.append (Perm.refl (contribution b)) (collect-perm l m p))
collect-perm _ _ (Permᴰ.swap {a} {b} {a'} {b'} {l} e f) =
    rw
      (
        e,
        f,
        collect-cons b' (a' ∷ l),
        collect-cons a' l,
        collect-cons a' (b' ∷ l),
        collect-cons b' l,
      )
      (contribution-swap (contribution b') (contribution a') (collect_addresses l))
collect-perm _ _ (Permᴰ.trans {l₁ = l} {l₂ = m} {l₃ = n} p q) =
    Perm.trans (collect-perm l m p) (collect-perm m n q)

-- The addresses do not depend on the order in which the networks of the instance are iterated over,
-- and they are sorted.
pub parse_host_addresses-perm :
    (s : InstanceState) (networks : List Network)
    → Perm s.networks networks
    → (parse_host_addresses (some (record s { networks = networks }))
        ≡ parse_host_addresses (some s))
      × IsSorted (parse_host_addresses (some s))
unfolding parse_host_addresses
parse_host_addresses-perm s networks p = (
  sort-perm (∥∥₁_elim (Perm.symm p) squash₁ (collect-perm networks s.networks)),
  sort-IsSorted (collect_addresses s.networks),
)
