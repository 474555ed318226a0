-- ===== src/Config.antt =====
-- Configuration of internal/lxc/configuration.go and configuration_default.go. The package cliconfig
-- of Incus and the local files are parameters.
pub mod Connect
pub mod Secrets
pub mod FromLocal
use cluster_api_provider_inc.Prelude.{
  String, Bool, true, false, not, ◌&&◌, ◌||◌, Option, none, some, List, [], ◌∷◌, ◌++◌, map, ◌==◌,
  if◌then◌else◌,
}
use cluster_api_provider_inc.Text.{◌<>◌, quote, has_prefix, join}
use cluster_api_provider_inc.Text.Forms.{parse_bool, format_bool}
use cluster_api_provider_inc.Maps.{GoMap, get, lookup}
use cluster_api_provider_inc.Errors.{GoError, Result, ok, err, errorf, wrapf, error_text, succeeds}
use cluster_api_provider_inc.Action.{Action, ◌>>=◌, ◌>>◌, pure, lift, attempt, wrapping}

-- Configuration
pub record Configuration : Type 0 where
  pub server_url : String
  pub client_crt : String
  pub client_key : String
  pub server_crt : String
  pub insecure_skip_verify : Bool
  pub project : String

-- Configuration{}
abbrev pub no_configuration : Configuration
no_configuration = record {
  server_url = "";
  client_crt = "";
  client_key = "";
  server_crt = "";
  insecure_skip_verify = false;
  project = "";
}

-- corev1.Secret, as far as it is set
pub record Secret : Type 0 where
  pub name : String
  pub namespace : String
  pub labels : GoMap String
  pub entries : GoMap String

abbrev pub or_false : Option Bool → Bool
or_false none = false
or_false (some b) = b

-- ConfigurationFromKubernetesSecret
unfoldable pub from_secret : Secret → Configuration
unfolding get parse_bool
from_secret s = record {
  server_url = get s.entries "server";
  project = get s.entries "project";
  client_crt = get s.entries "client-crt";
  client_key = get s.entries "client-key";
  server_crt = get s.entries "server-crt";
  insecure_skip_verify = or_false (parse_bool (get s.entries "insecure-skip-verify"));
}

-- ToSecret
unfoldable pub to_secret : String → String → Configuration → Secret
to_secret name namespace o = record {
  name = name;
  namespace = namespace;
  labels = ("clusterctl.cluster.x-k8s.io/move", "true") ∷ [];
  entries =
      ("server", o.server_url)
      ∷ ("project", o.project)
      ∷ ("client-crt", o.client_crt)
      ∷ ("client-key", o.client_key)
      ∷ ("server-crt", o.server_crt)
      ∷ ("insecure-skip-verify", format_bool o.insecure_skip_verify)
      ∷ [];
}

-- What is read of cliconfig.Remote and cliconfig.Config
pub record Remote : Type 0 where
  pub addr : String
  pub project : String

pub record CliConfig : Type 0 where
  pub default_remote : String
  pub remotes : GoMap Remote
  pub has_client_certificate : Bool
  pub server_cert_path : String → String
  pub config_path : String → String

-- cliconfig.LoadConfig, the local files, util.PathIsWritable and os.ExpandEnv("${HOME}")
pub record Local (W : Type 0) : Type 0 where
  pub load_config : String → Action W CliConfig
  pub stat : String → Action W (Unit {0})
  pub read_file : String → Action W String
  pub is_writable : String → Action W Bool
  pub home : String

-- errors.Join, `none` for the nil error
unfoldable pub errors_join : List GoError → Option GoError
unfolding join error_text
errors_join [] = none
errors_join (e ∷ errs) = some (errorf (join "\n" (map error_text (e ∷ errs))))

abbrev load_failed : String → String
load_failed config_file = "failed to load credentials from " <> quote config_file <> ": "

abbrev remote_of : String → String → Option Remote → Result Remote
remote_of config_file name none =
    err (errorf (load_failed config_file <> "remote " <> quote name <> " not found"))
remote_of config_file name (some r) = ok r

abbrev pub joined : {A : Type 0} → A × String → Option GoError → Result (A × String)
joined default none = ok default
joined default (some e) = err e

module _ {W A : Type 0} where
  abbrev pub next_file :
      String
      → List GoError
      → (List GoError → Action W (A × String))
      → Result A × W
      → Result (A × String) × W
  next_file file errs go (ok a, w) = (ok (a, file), w)
  next_file file errs go (err e, w) = go (errs ++ e ∷ []) w

  -- The loops that try one file after another and collect the errors: what the first that succeeds
  -- gives, with its path, or else the errors joined.
  unfoldable pub try_each :
      A × String → (String → Action W A) → List String → List GoError → Action W (A × String)
  unfolding errors_join
  try_each default try_file [] errs w = (joined default (errors_join errs), w)
  try_each default try_file (file ∷ files) errs w =
      next_file file errs (λ errs'. try_each default try_file files errs') (try_file file w)

abbrev shown : String → Result String → Result String
shown before (ok s) = ok s
shown before (err e) = err (errorf (before <> error_text e))

module _ {W : Type 0} (l : Local W) where
  -- The files that exist.
  unfoldable pub existing : List String → Action W (List String)
  existing [] = pure []
  existing (file ∷ files) = do
    r ← attempt (l.stat file)
    rest ← existing files
    pure (if succeeds r then file ∷ rest else rest)

  -- getDefaultConfigFiles
  unfoldable pub get_default_config_files : Action W (List String)
  unfolding existing
  get_default_config_files = do
    files ← existing (
        (l.home <> "/.config/incus/config.yml")
        ∷ (l.home <> "/snap/lxd/common/config/config.yml")
        ∷ [])
    pure (files ++ "" ∷ [])

  -- One read of a certificate; its failure is printed with %v.
  unfoldable pub read_certificate : String → String → String → String → Action W String
  unfolding error_text
  read_certificate config_file what remote_name path = do
    r ← attempt (l.read_file path)
    lift (
        shown
          (load_failed config_file
            <> "cannot read "
            <> what
            <> " for remote "
            <> quote remote_name
            <> ": ")
          r)

  -- The certificates of a remote over HTTPS.
  unfoldable pub with_certificates : String → String → CliConfig → Remote → Action W Configuration
  unfolding read_certificate
  with_certificates config_file remote_name config remote = do
    server_crt ←
        read_certificate config_file "server certificate" remote_name
          (config.server_cert_path remote_name)
    client_crt ←
        read_certificate config_file "client certificate" remote_name
          (config.config_path "client.crt")
    client_key ←
        read_certificate config_file "client key" remote_name (config.config_path "client.key")
    pure (record {
      server_url = remote.addr;
      server_crt = server_crt;
      client_crt = client_crt;
      client_key = client_key;
      project = remote.project;
      insecure_skip_verify = false;
    })

  -- The configuration of a remote that was found.
  unfoldable pub from_remote : String → String → Bool → CliConfig → Remote → Action W Configuration
  unfolding has_prefix with_certificates
  from_remote config_file remote_name require_https config remote =
      if require_https && not (has_prefix "https://" remote.addr)
      then lift (
          err (
            errorf (
              load_failed config_file
              <> "remote address "
              <> quote remote.addr
              <> " must use HTTPS")))
      else if has_prefix "unix://" remote.addr || has_prefix "http://" remote.addr
      then pure (record no_configuration { server_url = remote.addr; project = remote.project })
      else if not config.has_client_certificate
      then lift (err (errorf (load_failed config_file <> "no client certificate")))
      else with_certificates config_file remote_name config remote

  -- One round of the loop of ConfigurationFromLocal; its error is the one that is collected.
  unfoldable pub from_file : String → String → Bool → Action W Configuration
  unfolding from_remote lookup
  from_file force_remote_name config_file require_https = do
    config ← wrapping (load_failed config_file) (l.load_config config_file)
    let remote_name = if force_remote_name == "" then config.default_remote else force_remote_name
    remote ← lift (remote_of config_file remote_name (lookup remote_name config.remotes))
    from_remote config_file remote_name require_https config remote

  -- ConfigurationFromLocal
  unfoldable pub from_local : String → String → Bool → Action W (Configuration × String)
  unfolding get_default_config_files try_each from_file
  from_local config_file force_remote_name require_https = do
    files ← if config_file == "" then get_default_config_files else pure (config_file ∷ [])
    try_each (no_configuration, "") (λ file. from_file force_remote_name file require_https) files
        []

  abbrev checked_socket : String → Bool → Result String
  checked_socket file writable =
      if writable then ok file else err (errorf (quote file <> " is not writeable"))

  -- One round of the loop of findDefaultUnixSocketPath.
  unfoldable pub usable_socket : String → Action W String
  usable_socket file = do
    wrapping ("failed to stat " <> quote file <> ": ") (l.stat file)
    writable ← l.is_writable file
    lift (checked_socket file writable)

  -- findDefaultUnixSocketPath
  unfoldable pub find_default_unix_socket_path : Action W String
  unfolding usable_socket try_each
  find_default_unix_socket_path = do
    found ←
        try_each ("", "") usable_socket
          ("/var/lib/incus/unix.socket" ∷ "/run/incus/unix.socket"
            ∷ "/var/snap/lxd/common/lxd/unix.socket" ∷ "/run-unix.socket" ∷ [])
          []
    pure found.1
