-- ===== src/Docker/Connect.antt =====
-- The client of the docker command, cmd/exp/kini/docker/root.go.
use cluster_api_provider_inc.Prelude.{ℕ, String, false}
use cluster_api_provider_inc.Action.{Action, ◌>>=◌, wrapping}
use cluster_api_provider_inc.Client.{Client}
use cluster_api_provider_inc.Config.{Local, from_local}
use cluster_api_provider_inc.Config.Connect.{Connector, new}

module _ {W Op Conn : Type 0} (l : Local W) (k : Connector W Op Conn) (polls : ℕ) where
  -- Environment.Client: the project is that of the environment, also where it names none.
  unfoldable pub docker_client : (String → String) → Action W (Client W Op)
  unfolding from_local new
  docker_client getenv = do
    found ←
        wrapping "failed to retrieve local configuration: "
          (from_local l (getenv "KINI_CONFIG") (getenv "KINI_REMOTE") false)
    new l k polls (record found.0 { project = getenv "KINI_PROJECT" })
