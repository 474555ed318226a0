-- ===== src/Docker/Inspect/Labels.antt =====
-- An instance that docker run labels, and docker ps.
use cluster_api_provider_inc.Prelude.{
  eq_refl, ◌≢◌, String, ◌≡◌, refl, ap, sym, ◌∙◌, Bool, true, none, some, [], ◌∷◌, arith, eq_iff,
  ◌==◌, Bool-cases, inl, inr,
}
use cluster_api_provider_inc.Client.Filters.{InstanceFilter, with_config_keys, with_config_filter}
use cluster_api_provider_inc.Launch.{
  merge, LaunchOptions, with_config, with_devices, with_append_to_files,
}
use text.Mathlib.TextLemmas.{cons-append, append_cancel_left}
use cluster_api_provider_inc.Text.{◌<>◌, cut_prefix}
use cluster_api_provider_inc.Maps.{GoMap, get, lookup, or_else, lookup-insert}
use cluster_api_provider_inc.Errors.{ok}
use cluster_api_provider_inc.Launch.Laws.{lookup-merge}
use cluster_api_provider_inc.Incus.{Instance}
use cluster_api_provider_inc.OciImage.Laws.{cut_prefix-append}
use cluster_api_provider_inc.Docker.Run.{RunFlags, prefixed}
use cluster_api_provider_inc.Docker.Run.Options.{apply_flags}
use cluster_api_provider_inc.Docker.Inspect.{ps_filter}

prefixed_eq : (p a b : String) → ((p <> a) == (p <> b)) ≡ (a == b)
prefixed_eq p a b = elim (Bool-cases (a == b)) [
  | inl e ↦ (eq_iff (p <> a) (p <> b)).1 (ap (λ s. p <> s) ((eq_iff a b).0 e)) ∙ sym e
  | inr e ↦ elim (Bool-cases ((p <> a) == (p <> b))) [
    | inl f ↦
        absurd (cc (e, (eq_iff a b).1 (append_cancel_left p a b ((eq_iff (p <> a) (p <> b)).0 f))))
    | inr f ↦ f ∙ sym e
  ]
]

-- Behind the prefix, the flags are found as they are.
pub lookup-prefixed :
    (p k : String) (flags : GoMap String) → lookup (p <> k) (prefixed p flags) ≡ lookup k flags
unfolding prefixed lookup
lookup-prefixed p k [] = refl
lookup-prefixed p k ((key, value) ∷ flags) =
    lookup-insert (p <> key) (p <> k) value (prefixed p flags)
    ∙ ground (arith, prefixed_eq p key k, lookup-prefixed p k flags)

-- A key that does not have the prefix is not among them.
pub lookup-prefixed-none :
    (p k : String) (flags : GoMap String)
    → cut_prefix p k ≡ none
    → lookup k (prefixed p flags) ≡ none
unfolding prefixed lookup
lookup-prefixed-none p k [] h = refl
lookup-prefixed-none p k ((key, value) ∷ flags) h =
    lookup-insert (p <> key) k value (prefixed p flags)
    ∙ ground (arith, lookup-prefixed-none p k flags h, eq_iff (p <> key) k, other)
  where
    other : p <> key ≢ k
    other e = cc (h, ap (cut_prefix p) e, cut_prefix-append p key)

-- The configuration that the flags of docker run ask for wins over that of the image's options: a
-- label `k` is the key `user.k`, and no sysctl is written to it.
apply_flags-label :
    (flags : RunFlags) (getenv : String → String) (tmpfs : Bool) (proxies : GoMap (GoMap String))
    (o : LaunchOptions) (k v : String)
    → lookup k flags.labels ≡ some v
    → lookup ("user." <> k) (apply_flags flags getenv tmpfs proxies o).config ≡ some v
unfolding apply_flags with_config with_devices with_append_to_files cut_prefix
apply_flags-label flags getenv tmpfs proxies o k v h =
    lookup-merge ("user." <> k) _ (prefixed "linux.sysctl." flags.sysctl)
    ∙ ap (λ s. or_else s (lookup ("user." <> k) (merge o.config (prefixed "user." flags.labels))))
        (lookup-prefixed-none "linux.sysctl." ("user." <> k) flags.sysctl
          (ap (cut_prefix "linux.sysctl.") (cons-append "u" "ser." k)))
    ∙ lookup-merge ("user." <> k) o.config (prefixed "user." flags.labels)
    ∙ ap (λ s. or_else s (lookup ("user." <> k) o.config))
        (lookup-prefixed "user." k flags.labels ∙ h)

abbrev cluster_label : String
cluster_label = "io.x-k8s.kind.cluster"

-- An instance with the configuration that docker run asks for is listed by docker ps: if the flags
-- label it with a cluster, the filter for that cluster and the filter for any cluster accept it,
-- whatever the image's options and the other flags hold.
pub ps_filter-apply_flags :
    (flags : RunFlags) (getenv : String → String) (tmpfs : Bool) (proxies : GoMap (GoMap String))
    (o : LaunchOptions) (cluster : String) (i : Instance)
    → lookup cluster_label flags.labels ≡ some cluster
    → i.config ≡ (apply_flags flags getenv tmpfs proxies o).config
    → ((f : InstanceFilter) × (ps_filter ("label=io.x-k8s.kind.cluster=" <> cluster) ≡ ok f)
        × (f i ≡ true))
      × ((f : InstanceFilter) × (ps_filter "label=io.x-k8s.kind.cluster" ≡ ok f) × (f i ≡ true))
unfolding ps_filter with_config_filter with_config_keys get
ps_filter-apply_flags flags getenv tmpfs proxies o cluster i h e = (
  (
    with_config_filter (("user.io.x-k8s.kind.cluster", cluster) ∷ []),
    rw (cut_prefix-append "label=io.x-k8s.kind.cluster=" cluster, ps_filter) refl,
    ground (arith, found, eq_refl cluster),
  ),
  (with_config_keys ("user.io.x-k8s.kind.cluster" ∷ []), refl, ground (arith, found)),
)
  where
    found : lookup "user.io.x-k8s.kind.cluster" i.config ≡ some cluster
    found =
        ap (lookup "user.io.x-k8s.kind.cluster") e
        ∙ apply_flags-label flags getenv tmpfs proxies o cluster_label cluster h
