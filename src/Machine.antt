-- ===== src/Machine.antt =====
-- The LXCMachine controller, internal/controller/lxcmachine.
pub mod Launching
pub mod Normal
pub mod Delete
pub mod Reconcile
use cluster_api_provider_inc.Prelude.{
  ℕ, String, Bool, true, false, not, ◌&&◌, Option, none, some, List, [], ◌∷◌, ◌++◌, any, is_some,
  ◌==◌,
}
use cluster_api_provider_inc.Text.{◌<>◌, quote}
use cluster_api_provider_inc.Errors.{Result, ok, err, errorf}
use cluster_api_provider_inc.Action.{Action, ◌>>=◌, lift, wrapping}
use cluster_api_provider_inc.Api.{LxcMachine, MachineAddress, get_instance_name}
use cluster_api_provider_inc.Api.Conditions.{
  ConditionLibrary, Condition, Severity, error, warning, info, unset,
}
use cluster_api_provider_inc.Api.Finalizers.{FinalizerLibrary}
use cluster_api_provider_inc.Images.Check.{Registry}
use cluster_api_provider_inc.Instances.{Static, Codec}
use cluster_api_provider_inc.Balancer.{Templates}
use cluster_api_provider_inc.Client.{Client}

-- What the controller works with: the libraries of conditions and finalizers, the Incus client, the image servers, the
-- embedded files, the encoders and templates, the digest of a namespace, strconv.ParseBool, and of
-- the Kubernetes client the bootstrap secret's "value" key, patch.NewHelper and the patch of the
-- object.
pub record Reconciler (W Op C : Type 0) : Type 0 where
  pub library : ConditionLibrary C
  pub finalizers : FinalizerLibrary
  pub client : Client W Op
  pub registry : Registry W
  pub static : Static
  pub codec : Codec
  pub templates : Templates
  pub digest : String → String
  pub parse_bool : String → Result Bool
  pub get_secret_value : String → String → Action W (Option String)
  pub new_patch_helper : Action W (Unit {0})
  pub patch : LxcMachine C → Action W (Unit {0})

abbrev pub machine_finalizer : String
machine_finalizer = "lxcmachine.infrastructure.cluster.x-k8s.io"

abbrev pub instance_provisioned : String
instance_provisioned = "InstanceProvisioned"

abbrev is_error : Severity → Bool
is_error error = true
is_error warning = false
is_error info = false
is_error unset = false

-- The first loop of patchLXCMachine and patchLXCCluster, for the one condition type of each.
unfoldable pub has_infra_condition_error : String → List (String × Condition) → Bool
has_infra_condition_error kind entries = any (λ e. e.0 == kind && is_error e.1.severity) entries

abbrev found_value : String → Option String → Result String
found_value name none = err (errorf ("secret " <> quote name <> " is missing value key"))
found_value name (some v) = ok v

-- The two addresses of each IP address.
unfoldable pub ip_addresses : List String → List MachineAddress
ip_addresses [] = []
ip_addresses (a ∷ addrs) =
    record { kind = "InternalIP"; address = a }
    ∷ record { kind = "ExternalIP"; address = a }
    ∷ ip_addresses addrs

module _ {C : Type 0} where
  -- setLXCMachineAddresses
  unfoldable pub set_addresses : List String → LxcMachine C → LxcMachine C
  unfolding ip_addresses get_instance_name
  set_addresses addrs m = record m {
    addresses = record { kind = "Hostname"; address = get_instance_name m } ∷ ip_addresses addrs;
  }

module _ {W Op C : Type 0} (r : Reconciler W Op C) where
  -- The summary that patchLXCMachine writes.
  unfoldable pub summarize : LxcMachine C → LxcMachine C
  unfolding has_infra_condition_error
  summarize m = record m {
    conditions =
        r.library.set_summary instance_provisioned
          (not m.deleted
            && not (is_some m.spec.provider_id)
            && not
                (has_infra_condition_error instance_provisioned (r.library.entries m.conditions)))
          m.conditions;
  }

  -- patchLXCMachine. The code leaves the summary in the object in memory too, where the next call
  -- replaces it and nothing else reads it; here it is in the object that is patched only.
  unfoldable pub patch_lxc_machine : LxcMachine C → Action W (Unit {0})
  unfolding summarize
  patch_lxc_machine m = r.patch (summarize m)

  -- getBootstrapData
  unfoldable pub get_bootstrap_data : String → String → Action W String
  get_bootstrap_data namespace name = do
    v ←
        wrapping ("failed to retrieve bootstrap data secret " <> quote name <> ": ")
          (r.get_secret_value namespace name)
    lift (found_value name v)

  -- conditions.MarkTrue and conditions.MarkFalse for InstanceProvisioned
  abbrev pub mark : Condition → LxcMachine C → LxcMachine C
  mark c m = record m { conditions = r.library.mark instance_provisioned c m.conditions }
