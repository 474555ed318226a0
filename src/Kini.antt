-- ===== src/Kini.antt =====
-- kini: the manager of the local Incus configuration (cmd/exp/kini/kini/config), the
-- commands kini setup remotes and kini setup generate-secret, and the environment
-- in which kind runs with kini in place of docker (internal/exp/kini/setup.go).
pub mod Laws
pub mod Commands
pub mod Setup
use cluster_api_provider_inc.Images.{
  default_simplestreams_server, default_staging_simplestreams_server,
}
use cluster_api_provider_inc.Config.{Secret, to_secret, Configuration, Local, from_local}
use cluster_api_provider_inc.Prelude.{
  String, Bool, true, false, Option, none, some, [], ◌∷◌, if◌then◌else◌, is_some,
}
use cluster_api_provider_inc.Text.{◌<>◌, quote}
use cluster_api_provider_inc.Maps.{GoMap, lookup, insert}
use cluster_api_provider_inc.Errors.{Result, ok, err, wrap, wrapf}
use cluster_api_provider_inc.Action.{Action, ◌>>=◌, ◌>>◌, pure, lift, wrapping}

-- cliconfig.Remote and what is changed of cliconfig.Config
pub record CliRemote : Type 0 where
  pub addr : String
  pub protocol : String
  pub is_public : Bool

pub record LocalConfig : Type 0 where
  pub remotes : GoMap CliRemote

-- Manager
pub record Manager : Type 0 where
  pub config : LocalConfig
  pub path : String
  pub must_update : Bool

-- AddSimplestreamsRemoteIfNotExist
unfoldable pub add_simplestreams_remote : String → String → Manager → Manager
unfolding lookup insert
add_simplestreams_remote name server m =
    if is_some (lookup name m.config.remotes) then m else record m {
      config = record {
        remotes =
            insert name (record { addr = server; protocol = "simplestreams"; is_public = true })
              m.config.remotes;
      };
      must_update = true;
    }

-- The files, os.Args[0] and the variable PATH.
pub record Process (W : Type 0) : Type 0 where
  pub mkdir_temp : Action W String
  pub remove_all : String → Action W (Unit {0})
  pub self : Action W String
  pub args0 : String
  pub symlink : String → String → Action W (Unit {0})
  pub join_path : String → String → String
  pub get_path : Action W String
  pub set_path : String → Action W (Unit {0})

abbrev cleaned : {W A : Type 0} → Process W → String → String → Result A × W → Result A × W
cleaned p dir before (ok a, v) = (ok a, v)
cleaned p dir before (err e, v) = (err (wrapf before e ""), (p.remove_all dir v).1)

module _ {W : Type 0} where
  -- NewManager, with cliconfig.LoadConfig
  unfoldable pub new_manager : Local W → (String → Action W LocalConfig) → String → Action W Manager
  unfolding from_local
  new_manager l load_config config_file = do
    found ← wrapping "failed to read local configuration: " (from_local l config_file "" false)
    config ← wrapping "failed to read config file: " (load_config found.1)
    pure (record { config = config; path = found.1; must_update = false })

  abbrev pub committed : Manager → Result (Unit {0}) × W → Result (Unit {0}) × (Manager × W)
  committed m (ok u, w) = (ok tt, (record m { must_update = false }, w))
  committed m (err e, w) = (err (wrapf "failed to update config file on disk: " e ""), (m, w))

  -- Commit, which changes the manager; `save` is SaveConfig
  unfoldable pub commit :
      (String → LocalConfig → Action W (Unit {0})) → Action (Manager × W) (Unit {0})
  commit save (m, w) =
      if m.must_update then committed m (save m.path m.config w) else (ok tt, (m, w))

module _ {W : Type 0} (p : Process W) where
  -- _ = cleanup(); return err
  abbrev pub or_cleanup : {A : Type 0} → String → String → Action W A → Action W A
  or_cleanup dir before m w = cleaned p dir before (m w)

  abbrev pub linked : String → String → String → Bool → Action W (Unit {0})
  linked dir self name wanted =
      if wanted
      then or_cleanup dir ("failed to create symlink as " <> name <> " for self: ")
          (p.symlink self (p.join_path dir name))
      else pure tt

  -- SetupEnvironment
  unfoldable pub setup_environment : Bool → Bool → Action W String
  setup_environment docker kind = do
    dir ← wrapping "failed to create temporary directory: " p.mkdir_temp
    self ← or_cleanup dir ("failed to identity absolute path to " <> quote p.args0 <> ": ") p.self
    linked dir self "docker" docker
    linked dir self "kind" kind
    current ← p.get_path
    or_cleanup dir "failed to set PATH: " (p.set_path (dir <> ":" <> current))
    pure dir

  -- The cleanup function that SetupEnvironment returns.
  unfoldable pub cleanup : String → Action W (Unit {0})
  cleanup dir = wrapping "failed to clean up temporary directory: " (p.remove_all dir)

module _ {W : Type 0} where
  -- kini setup remotes
  unfoldable pub setup_remotes :
      Local W
      → (String → Action W LocalConfig)
      → (String → LocalConfig → Action W (Unit {0}))
      → String
      → Bool
      → Action W (Unit {0})
  unfolding new_manager add_simplestreams_remote commit
  setup_remotes l load_config save config_file dry_run = do
    m ← wrapping "failed to initialize config manager: " (new_manager l load_config config_file)
    let m' =
        add_simplestreams_remote "capi-stg" default_staging_simplestreams_server
          (add_simplestreams_remote "capi" default_simplestreams_server m)
    if dry_run
        then pure tt
        else wrapping "failed to commit changes: "
            (λ w. ((commit save (m', w)).0, (commit save (m', w)).1.1))

  -- The secret of kini setup generate-secret.
  unfoldable pub generated_secret : Local W → String → String → String → String → Action W Secret
  unfolding from_local to_secret
  generated_secret l config_file remote_name namespace name = do
    found ←
        wrapping "failed to read local configuration: " (from_local l config_file remote_name true)
    pure (to_secret name namespace found.0)

  -- kini setup generate-secret NAME, with the encoding and the printing of the secret
  unfoldable pub generate_secret :
      Local W
      → (Secret → Action W (Unit {0}))
      → String
      → String
      → String
      → String
      → Action W (Unit {0})
  unfolding generated_secret
  generate_secret l encode config_file remote_name namespace name = do
    s ← generated_secret l config_file remote_name namespace name
    wrapping "failed to encode secret: " (encode s)
