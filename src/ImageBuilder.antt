-- ===== src/ImageBuilder.antt =====
-- The actions of the image builder, internal/exp/image-builder/action. Logging, and the output that
-- commands print, are left out.
pub mod Publish
pub mod Export
pub mod Stages
pub mod Commands
pub mod Builds
use cluster_api_provider_inc.Prelude.{
  ℕ, zero, suc, String, Bool, List, [], ◌∷◌, ◌++◌, length, ◌==◌, if◌then◌else◌,
}
use cluster_api_provider_inc.Text.{◌<>◌, quote, decimal}
use cluster_api_provider_inc.Errors.{Result, ok, err, errorf, wrapf}
use cluster_api_provider_inc.Action
use cluster_api_provider_inc.Action.{◌>>=◌, ◌>>◌, pure, lift, attempt, wrapping}
use cluster_api_provider_inc.Launch.{LaunchOptions, FileArgs, with_devices}
use cluster_api_provider_inc.Client.{Client, server_of, run_command}
use cluster_api_provider_inc.Client.Launching.{wait_for_launch_instance}
use cluster_api_provider_inc.Client.Stop.{wait_for_stop_instance, wait_for_delete_instance}

-- Action
abbrev pub BuildAction : Type 0 → Type 0 → Type 0
BuildAction W Op = Client W Op → Action.Action W (Unit {0})

-- What is read of api.StoragePool
pub record Pool : Type 0 where
  pub name : String
  pub status : String

-- The loop over the pools: each pool that was created becomes the pool of the root volume.
unfoldable pub with_root_pool : List Pool → LaunchOptions → LaunchOptions
unfolding with_devices
with_root_pool [] o = o
with_root_pool (pool ∷ pools) o = with_root_pool pools (
    if pool.status == "Created"
    then with_devices
        (("root", ("type", "disk") ∷ ("pool", pool.name) ∷ ("path", "/") ∷ ("size", "5GiB") ∷ [])
          ∷ [])
        o
    else o)

module _ {W Op : Type 0} where
  -- The loop of Chain, with the index of the next action and the number of all.
  unfoldable pub chain_from : ℕ → ℕ → List (BuildAction W Op) → BuildAction W Op
  unfolding decimal
  chain_from idx n [] c = pure tt
  chain_from idx n (action ∷ actions) c = do
    wrapping ("action " <> decimal idx <> "/" <> decimal n <> " failed: ") (action c)
    chain_from (suc idx) n actions c

  -- Chain
  unfoldable pub chain : List (BuildAction W Op) → BuildAction W Op
  unfolding chain_from
  chain actions = chain_from 0 (length actions) actions

  -- The wait for the instance's agent: a command each second, as often as there is time for.
  unfoldable pub wait_for_agent : ℕ → String → BuildAction W Op
  unfolding run_command
  wait_for_agent zero name c = lift (err (errorf "timed out after 5 minutes"))
  wait_for_agent (suc rounds) name c = do
    r ← attempt (run_command c name ("echo" ∷ "hi" ∷ []))
    done_or (wait_for_agent rounds name c) r
    where
      done_or : Action.Action W (Unit {0}) → Result (Unit {0}) → Action.Action W (Unit {0})
      done_or next (ok u) = pure tt
      done_or next (err e) = next

  -- LaunchInstance, where GetStoragePools is a parameter
  unfoldable pub launch_instance :
      (Client W Op → Action.Action W (List Pool)) → ℕ → String → LaunchOptions → BuildAction W Op
  unfolding with_root_pool wait_for_launch_instance wait_for_agent
  launch_instance get_storage_pools rounds name o c = do
    pools ← wrapping "failed to list storage pools: " (get_storage_pools c)
    wrapping "failed to launch instance: "
        (wait_for_launch_instance c name (with_root_pool pools o))
    wrapping "failed to wait for instance agent to come up: " (wait_for_agent rounds name c)

  -- StopInstance
  unfoldable pub stop_instance : String → BuildAction W Op
  unfolding wait_for_stop_instance
  stop_instance name c = wrapping "failed to stop instance: " (wait_for_stop_instance c name)

  -- DeleteInstance
  unfoldable pub delete_instance : String → BuildAction W Op
  unfolding wait_for_delete_instance
  delete_instance name c = wrapping "failed to delete instance: " (wait_for_delete_instance c name)

  -- ExecInstance; the script is the standard input of the command
  unfoldable pub exec_instance : String → String → List String → BuildAction W Op
  unfolding run_command
  exec_instance name script args c =
      wrapping "failed to run script: " (run_command c name (("bash" ∷ "-s" ∷ "--" ∷ []) ++ args))

  -- CopyInstanceFile, with os.Create and the writing of the local file
  unfoldable pub copy_instance_file :
      (String → Action.Action W (Unit {0}))
      → (String → String → Action.Action W (Unit {0}))
      → String
      → String
      → String
      → BuildAction W Op
  copy_instance_file create write name instance_file output_file c = do
    wrapping "failed to create output file: " (create output_file)
    file ←
        wrapping
          ("failed to read file " <> quote instance_file <> " from instance " <> quote name <> ": ")
          ((server_of c).get_instance_file name instance_file)
    wrapping "failed to copy file: " (write output_file file.content)
