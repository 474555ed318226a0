-- ===== src/Tests/Kini.antt =====
-- The docker command of kini, configurations and secrets.
use cluster_api_provider_inc.Errors.{Result, ok, err, errorf}
use cluster_api_provider_inc.Prelude.{
  false, String, ◌≡◌, refl, true, none, some, [], ◌∷◌, ◌++◌, arith,
}
use cluster_api_provider_inc.Kini.{CliRemote, LocalConfig, generated_secret}
use cluster_api_provider_inc.Action.{◌>>=◌}
use cluster_api_provider_inc.Maps.{lookup, GoMap}
use cluster_api_provider_inc.Tests.Fixtures.{answer, value_or, Log, control_plane_instance}
use cluster_api_provider_inc.Kini.Laws.{generated_secret-IsHttps}
use cluster_api_provider_inc.Config.{
  Secret, Configuration, Local, CliConfig, no_configuration, from_secret, to_secret, from_local,
}
use cluster_api_provider_inc.Text.{◌<>◌, has_prefix}
use cluster_api_provider_inc.Text.Forms.{to_lower}
use cluster_api_provider_inc.Launch.{no_options}
use cluster_api_provider_inc.Incus.{Instance}
use cluster_api_provider_inc.Client.Filters.{InstanceFilter}
use cluster_api_provider_inc.Config.Secrets.{from_secret-to_secret}
use cluster_api_provider_inc.Docker.Run.{RunFlags, proxy_device}
use cluster_api_provider_inc.Docker.Run.Options.{apply_flags}
use cluster_api_provider_inc.Docker.Inspect.{find_endpoint, ps_filter}
use cluster_api_provider_inc.Docker.Inspect.Ports.{IsPart, published, proxy_device-inspected}
use cluster_api_provider_inc.Docker.Inspect.Labels.{ps_filter-apply_flags}
use cluster_api_provider_inc.Docker.Image.{file, image_tag}
use cluster_api_provider_inc.Docker.Image.Laws.{failing, image_tag_hangs}

host-IsPart : IsPart "127.0.0.1"
unfolding to_lower
host-IsPart = record { lower = refl; no_colon = ground arith; no_slash = ground arith }

port-IsPart : IsPart "16443"
unfolding to_lower
port-IsPart = record { lower = refl; no_colon = ground arith; no_slash = ground arith }

proxy_device-inspected_example :
    ((device : GoMap String) × (proxy_device (published ("127.0.0.1" ∷ "16443" ∷ "6443" ∷ []) "TCP")
        ≡ ok device)
      × (find_endpoint ([] ++ ("docker-proxy-0", device) ∷ []) ≡ some ("127.0.0.1", "16443")))
    × ((device : GoMap String) × (proxy_device (published ("16443" ∷ "6443" ∷ []) "TCP")
          ≡ ok device)
        × (find_endpoint ([] ++ ("docker-proxy-0", device) ∷ []) ≡ some ("", "16443")))
unfolding to_lower
proxy_device-inspected_example =
    proxy_device-inspected "127.0.0.1" "16443" "TCP" "docker-proxy-0" [] [] host-IsPart port-IsPart
      refl tt

abbrev flags : RunFlags
flags = record {
  name = "c1-control-plane";
  environment = "KUBECONFIG=/etc/kubernetes/admin.conf" ∷ [];
  labels = ("io.x-k8s.kind.role", "control-plane") ∷ ("io.x-k8s.kind.cluster", "c1") ∷ [];
  publish_ports = [];
  volumes = "/var" ∷ [];
  devices = [];
  tmpfs = "/tmp" ∷ [];
  sysctl = ("net.ipv4.ip_forward", "1") ∷ [];
}

abbrev launched : Instance
launched = record control_plane_instance {
  config = (apply_flags flags (λ s. "") true [] no_options).config;
}

ps_filter-apply_flags_example :
    ((f : InstanceFilter) × (ps_filter ("label=io.x-k8s.kind.cluster=" <> "c1") ≡ ok f)
      × (f launched ≡ true))
    × ((f : InstanceFilter) × (ps_filter "label=io.x-k8s.kind.cluster" ≡ ok f)
        × (f launched ≡ true))
unfolding lookup
ps_filter-apply_flags_example =
    ps_filter-apply_flags flags (λ s. "") true [] no_options "c1" launched refl refl

image_tag_hangs_example :
    image_tag
      (λ s. err (errorf "invalid"))
      (λ m. "")
      ((file "layer.tar" "" ∷ []) ++ failing 3 (errorf "unexpected EOF"))
    ≡ none
image_tag_hangs_example =
    image_tag_hangs (λ s. err (errorf "invalid")) (λ m. "") (file "layer.tar" "" ∷ [])
      (errorf "unexpected EOF") 3 (refl, tt)

abbrev configuration : Configuration
configuration = record no_configuration {
  server_url = "https://10.0.0.49:8443";
  insecure_skip_verify = true;
}

from_secret-to_secret_example :
    from_secret (to_secret "incus-secret" "default" configuration) ≡ configuration
from_secret-to_secret_example = from_secret-to_secret "incus-secret" "default" configuration

abbrev cli_config : CliConfig
cli_config = record {
  default_remote = "local";
  remotes = ("local", record { addr = "https://10.0.0.49:8443"; project = "default" }) ∷ [];
  has_client_certificate = true;
  server_cert_path = λ s. s;
  config_path = λ s. s;
}

abbrev local_files : Local Log
local_files = record {
  load_config = λ s. answer "load_config" (ok cli_config);
  stat = λ s. answer "stat" (ok tt);
  read_file = λ s. answer "read_file" (ok "PEM");
  is_writable = λ s. answer "is_writable" (ok true);
  home = "/root";
}

abbrev secret : Secret
unfolding generated_secret ◌>>=◌
secret =
    value_or (to_secret "" "" no_configuration)
      (generated_secret local_files "config.yml" "" "default" "incus-secret" []).0

generated_secret-IsHttps_example :
    (has_prefix "https://" (from_secret secret).server_url ≡ true)
    × (c : Configuration) × (path : String) × ((from_local local_files "config.yml" "" true []).0
        ≡ ok (c, path))
    × (from_secret secret ≡ c)
unfolding generated_secret ◌>>=◌
generated_secret-IsHttps_example =
    generated_secret-IsHttps local_files "config.yml" "" "default" "incus-secret" [] secret refl

-- The local configuration, which has one remote.
abbrev local_remote : CliRemote
local_remote = record { addr = "https://10.0.0.49:8443"; protocol = "incus"; is_public = false }

abbrev on_disk : LocalConfig
on_disk = record { remotes = ("local", local_remote) ∷ [] }

abbrev read : Result (Configuration × String) × Log
unfolding from_local ◌>>=◌
read = from_local local_files "config.yml" "" false []

abbrev found : Configuration × String
found = value_or (configuration, "") read.0
