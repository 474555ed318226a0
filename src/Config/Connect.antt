-- ===== src/Config/Connect.antt =====
-- New of internal/lxc/client.go: a client for a configuration. Connecting is Incus's client library.
use cluster_api_provider_inc.Prelude.{ℕ, String, Bool, not, none, some, ◌==◌, if◌then◌else◌}
use cluster_api_provider_inc.Text.{◌<>◌, quote, has_prefix, cut_prefix}
use cluster_api_provider_inc.Errors.{err, errorf}
use cluster_api_provider_inc.Action.{Action, ◌>>=◌, pure, lift, wrapping}
use cluster_api_provider_inc.Incus.{InstanceServer, ServerInfo}
use cluster_api_provider_inc.Client.{Client}
use cluster_api_provider_inc.Config.{Configuration, Local, find_default_unix_socket_path}

-- incus.ConnectionArgs
pub record ConnectionArgs : Type 0 where
  pub tls_server_cert : String
  pub tls_client_cert : String
  pub tls_client_key : String
  pub insecure_skip_verify : Bool

-- ConnectIncusWithContext, ConnectIncusUnixWithContext, UseProject and GetServer, with connections
-- of the type `Conn`; `servers` is what UseTarget gives for a target.
pub record Connector (W Op Conn : Type 0) : Type 0 where
  pub connect_https : String → ConnectionArgs → Action W Conn
  pub connect_unix : String → Action W Conn
  pub use_project : String → Conn → Conn
  pub get_server : Conn → Action W ServerInfo
  pub servers : Conn → String → InstanceServer W Op

-- The arguments over HTTPS: no server certificate where verification is skipped.
unfoldable pub connection_args : Configuration → ConnectionArgs
connection_args config = record {
  tls_server_cert = if config.insecure_skip_verify then "" else config.server_crt;
  tls_client_cert = config.client_crt;
  tls_client_key = config.client_key;
  insecure_skip_verify = config.insecure_skip_verify;
}

module _ {W Op Conn : Type 0} (l : Local W) (k : Connector W Op Conn) (polls : ℕ) where
  -- The path of the socket, the default one for `unix://`.
  unfoldable pub socket_path : String → Action W String
  unfolding cut_prefix find_default_unix_socket_path
  socket_path server_url = elim (cut_prefix "unix://" server_url) [
    | none ↦ pure server_url
    | some socket ↦
        if socket == ""
        then wrapping "failed to detect default local unix socket path: "
            (find_default_unix_socket_path l)
        else pure socket
  ]

  -- The switch over the scheme of the URL.
  unfoldable pub connect : Configuration → Action W Conn
  unfolding has_prefix socket_path connection_args
  connect config =
      if has_prefix "https://" config.server_url
      then wrapping "failed to initialize client over HTTPS: "
          (k.connect_https config.server_url (connection_args config))
      else if has_prefix "unix://" config.server_url
      then (do
        socket ← socket_path config.server_url
        wrapping "failed to initialize client over unix socket: " (k.connect_unix socket))
      else lift
          (err (errorf ("server " <> quote config.server_url <> " is not unix:// or https://")))

  -- New
  unfoldable pub new : Configuration → Action W (Client W Op)
  unfolding connect
  new config = do
    conn ← connect config
    let conn' = if not (config.project == "") then k.use_project config.project conn else conn
    info ← wrapping "failed to retrieve server information: " (k.get_server conn')
    pure (record { servers = k.servers conn'; target = ""; info = info; polls = polls })
