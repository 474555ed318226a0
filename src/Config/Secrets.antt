-- ===== src/Config/Secrets.antt =====
-- A configuration that is stored in a secret and read again.
use cluster_api_provider_inc.Prelude.{String, ◌≡◌, refl, ap, Bool, true, false}
use cluster_api_provider_inc.Text.Forms.{parse_bool, format_bool}
use cluster_api_provider_inc.Maps.{lookup, get}
use cluster_api_provider_inc.Config.{or_false, Configuration, from_secret, to_secret}

stored : (b : Bool) → or_false (parse_bool (format_bool b)) ≡ b
unfolding parse_bool
stored true = refl
stored false = refl

-- ConfigurationFromKubernetesSecret gives back the configuration that ToSecret stored, whatever the
-- secret's name and namespace.
pub from_secret-to_secret :
    (name namespace : String) (o : Configuration) → from_secret (to_secret name namespace o) ≡ o
unfolding from_secret to_secret get lookup parse_bool
from_secret-to_secret name namespace o =
    ap (λ b. record o { insecure_skip_verify = b }) (stored o.insecure_skip_verify)
