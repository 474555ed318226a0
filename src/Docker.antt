-- ===== src/Docker.antt =====
-- The docker command of kini, cmd/exp/kini/docker: the environment of env.go. Flags arrive parsed, as
-- cobra hands them over.
pub mod Run
pub mod Inspect
pub mod Exec
pub mod Image
pub mod Info
pub mod Connect
use cluster_api_provider_inc.Prelude.{
  String, Bool, true, false, not, Option, none, some, ◌==◌, if◌then◌else◌,
}
use cluster_api_provider_inc.Text.Forms.{parse_bool}
use cluster_api_provider_inc.Errors.{Result, ok, err, succeeds}
use cluster_api_provider_inc.Action.{Action, ◌>>=◌, pure, attempt}
use cluster_api_provider_inc.Client.{Client, supports_instance_oci}

-- Environment; `default_cache` is os.ExpandEnv("$HOME/.cache/kini").
pub record Environment (W Op : Type 0) : Type 0 where
  pub stdin : Action W String
  pub client : Action W (Client W Op)
  pub getenv : String → String
  pub default_cache : String
  pub mkdir_all : String → Action W (Unit {0})
  pub println : String → Action W (Unit {0})

abbrev bool_or : Bool → Option Bool → Bool
bool_or default none = default
bool_or default (some v) = v

abbrev supported : {W Op : Type 0} → Result (Client W Op) → Bool
supported (err e) = false
supported (ok c) = succeeds (supports_instance_oci c)

module _ {W Op : Type 0} (env : Environment W Op) where
  -- Privileged
  unfoldable pub privileged : Bool
  unfolding parse_bool
  privileged = elim (parse_bool (env.getenv "KINI_UNPRIVILEGED")) [ none ↦ true | some v ↦ not v ]

  -- KindInstances
  unfoldable pub kind_instances : Action W Bool
  unfolding supports_instance_oci
  kind_instances =
      if env.getenv "KINI_MODE" == "lxc"
      then pure false
      else if env.getenv "KINI_MODE" == "oci"
      then pure true
      else (do c ← attempt env.client; pure (supported c))

  -- WithUnixSocket
  unfoldable pub with_unix_socket : Bool
  unfolding parse_bool
  with_unix_socket = bool_or false (parse_bool (env.getenv "KINI_MOUNT_UNIX_SOCKET"))

  abbrev created_cache : String → Result (Unit {0}) → String
  created_cache cache (ok u) = cache
  created_cache cache (err e) = ""

  -- CacheDir
  unfoldable pub cache_dir : Action W String
  unfolding parse_bool
  cache_dir =
      let cache = env.getenv "KINI_CACHE" in
      let dir = if cache == "" then env.default_cache else cache in
      if not (bool_or true (parse_bool cache))
      then pure ""
      else (do made ← attempt (env.mkdir_all dir); pure (created_cache dir made))
