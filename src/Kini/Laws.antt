-- ===== src/Kini/Laws.antt =====
-- The manager of the local configuration, and the secret that kini generates.
use cluster_api_provider_inc.Config.{
  from_local, from_secret, to_secret, Configuration, Secret, Local,
}
use cluster_api_provider_inc.Text.{has_prefix}
use cluster_api_provider_inc.Config.Secrets.{from_secret-to_secret}
use cluster_api_provider_inc.Config.FromLocal.{from_local-IsHttps}
use cluster_api_provider_inc.Errors.{ok, Result, err, wrap}
use cluster_api_provider_inc.Action.{◌>>=◌, continue, pure}
use cluster_api_provider_inc.Kini.{
  generated_secret, CliRemote, LocalConfig, Manager, add_simplestreams_remote,
}
use cluster_api_provider_inc.Prelude.{
  refl, sym, ap, ◌∙◌, [], ◌∷◌, ◌⊎◌, List, String, ◌≡◌, true, some, arith, is_some, Option-cases,
  inl, inr, eq_iff,
}
use cluster_api_provider_inc.Maps.{lookup, lookup-insert, lookup-insert_self}

-- Adding a remote keeps every remote that there is, one of the same name included; afterwards there
-- is a remote of the name.
pub add_simplestreams_remote_keeps :
    (name server other : String) (r : CliRemote) (m : Manager)
    → lookup other m.config.remotes ≡ some r
    → (lookup other (add_simplestreams_remote name server m).config.remotes ≡ some r)
      × (is_some (lookup name (add_simplestreams_remote name server m).config.remotes) ≡ true)
unfolding add_simplestreams_remote
add_simplestreams_remote_keeps name server other r m h =
    elim (Option-cases (lookup name m.config.remotes)) [
      | inl e ↦ ground (
        arith,
        e,
        h,
        eq_iff name other,
        lookup-insert name other
            (record { addr = server; protocol = "simplestreams"; is_public = true })
            m.config.remotes,
        lookup-insert_self name
            (record { addr = server; protocol = "simplestreams"; is_public = true })
            m.config.remotes,
      )
      | inr e ↦ ground (arith, e.1, h)
    ]

-- The remotes are added in turn, as the setup of kini does.
abbrev pub add_all : List (String × String) → Manager → Manager
add_all [] m = m
add_all (r ∷ remotes) m = add_all remotes (add_simplestreams_remote r.0 r.1 m)

-- The file on disk holds the configuration, unless the manager knows that it must be updated.
abbrev pub IsSynced : LocalConfig → Manager → Type 0
IsSynced disk m = (m.must_update ≡ true) ⊎ (m.config ≡ disk)

pub add_simplestreams_remote-IsSynced :
    (disk : LocalConfig) (name server : String) (m : Manager)
    → IsSynced disk m
    → IsSynced disk (add_simplestreams_remote name server m)
unfolding add_simplestreams_remote
add_simplestreams_remote-IsSynced disk name server m h =
    elim (Option-cases (lookup name m.config.remotes)) [
      | inl e ↦ inl (ground (arith, e))
      | inr e ↦ rw (e.1, add_simplestreams_remote) h
    ]

pub add_all-IsSynced :
    (disk : LocalConfig) (remotes : List (String × String)) (m : Manager)
    → IsSynced disk m
    → IsSynced disk (add_all remotes m)
add_all-IsSynced disk [] m h = h
add_all-IsSynced disk (r ∷ remotes) m h =
    add_all-IsSynced disk remotes (add_simplestreams_remote r.0 r.1 m)
      (add_simplestreams_remote-IsSynced disk r.0 r.1 m h)

stored_of :
    {W : Type 0} (name namespace : String) (s : Secret) (r : Result (Configuration × String))
    (w : W)
    → (continue
        (wrap "failed to read local configuration: " r)
        (λ found. pure (to_secret name namespace found.0))
        w).0
      ≡ ok s
    → (c : Configuration) × (path : String) × (r ≡ ok (c, path)) × (to_secret name namespace c ≡ s)
unfolding ◌>>=◌
stored_of name namespace s (ok (c, path)) w h = (c, path, refl, ground (arith, h))
stored_of name namespace s (err e) w h = absurd (ground arith)

-- The configuration that the controllers read from the secret of kini setup generate-secret has an
-- https:// URL, and is one that ConfigurationFromLocal returned; the local files and the flags are
-- arbitrary.
pub generated_secret-IsHttps :
    {W : Type 0} (l : Local W) (config_file remote_name namespace name : String) (w : W)
    (s : Secret)
    → (generated_secret l config_file remote_name namespace name w).0 ≡ ok s
    → (has_prefix "https://" (from_secret s).server_url ≡ true)
      × (c : Configuration) × (path : String) × ((from_local l config_file remote_name true w).0
          ≡ ok (c, path))
      × (from_secret s ≡ c)
unfolding generated_secret ◌>>=◌
generated_secret-IsHttps l config_file remote_name namespace name w s h =
    let (c, path, found, stored) =
      stored_of name namespace s (from_local l config_file remote_name true w).0 _ h in
    let same : from_secret s ≡ c =
      ap from_secret (sym stored) ∙ from_secret-to_secret name namespace c in
    (
      ap (λ o. has_prefix "https://" o.server_url) same
          ∙ from_local-IsHttps l config_file remote_name path w c found,
      c,
      path,
      found,
      same,
    )
