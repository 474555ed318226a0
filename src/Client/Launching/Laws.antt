-- ===== src/Client/Launching/Laws.antt =====
-- What a launch that succeeds returns.
use cluster_api_provider_inc.Prelude.{ℕ, zero, suc, String, ◌≡◌, ◌≢◌, some, List, [], ◌∷◌, arith}
use cluster_api_provider_inc.Errors.{Result, ok, err}
use cluster_api_provider_inc.Action.{Action}
use cluster_api_provider_inc.Action.Ensures.{Ensures, Ensures-pure, Ensures-lift, Ensures-bind}
use cluster_api_provider_inc.Launch.{LaunchOptions}
use cluster_api_provider_inc.Incus.{InstanceServer, InstanceState}
use cluster_api_provider_inc.Incus.Addresses.{parse_host_addresses}
use cluster_api_provider_inc.Client.{Client, server_of}
use cluster_api_provider_inc.Client.Start.{
  return_or, poll_address, wait_for_instance_address, wait_for_start_instance,
}
use cluster_api_provider_inc.Client.Launching.{
  create_and_start, start_or_create, wait_for_launch_instance,
}

abbrev pub NotEmpty : List String → Type 0
NotEmpty l = l ≢ []

return_or-NotEmpty :
    {W : Type 0} (addrs : List String) (next : Action W (List String))
    → Ensures NotEmpty next
    → Ensures NotEmpty (return_or addrs next)
return_or-NotEmpty [] next h = h
return_or-NotEmpty (a ∷ addrs) next h = Ensures-pure (a ∷ addrs) (λ e. ground arith)

module _ {W Op : Type 0} where
  poll_address-NotEmpty :
      (s : InstanceServer W Op) (polls : ℕ) (name : String)
      → Ensures NotEmpty (poll_address s polls name)
  unfolding poll_address
  poll_address-NotEmpty s zero name = Ensures-bind _ _ λ state.
      return_or-NotEmpty (parse_host_addresses (some state)) _
        (Ensures-lift _ (λ a e. absurd (ground arith)))
  poll_address-NotEmpty s (suc polls) name = Ensures-bind _ _ λ state.
      return_or-NotEmpty (parse_host_addresses (some state)) _ (poll_address-NotEmpty s polls name)

  pub wait_for_start_instance-NotEmpty :
      (c : Client W Op) (name : String) → Ensures NotEmpty (wait_for_start_instance c name)
  unfolding wait_for_start_instance wait_for_instance_address
  wait_for_start_instance-NotEmpty c name =
      Ensures-bind _ _
        λ state. Ensures-bind _ _ λ _. poll_address-NotEmpty (server_of c) c.polls name

  create_and_start-NotEmpty :
      (c : Client W Op) (name : String) (o : LaunchOptions)
      → Ensures NotEmpty (create_and_start c name o)
  unfolding create_and_start
  create_and_start-NotEmpty c name o = Ensures-bind _ _ λ _.
      Ensures-bind _ _
        λ _. Ensures-bind _ _ λ _. Ensures-bind _ _ λ _. wait_for_start_instance-NotEmpty c name

  start_or_create-NotEmpty :
      (c : Client W Op) (name : String) (o : LaunchOptions) (r : Result InstanceState)
      → Ensures NotEmpty (start_or_create c name o r)
  start_or_create-NotEmpty c name o (ok state) = wait_for_start_instance-NotEmpty c name
  start_or_create-NotEmpty c name o (err e) = create_and_start-NotEmpty c name o

  pub wait_for_launch_instance-NotEmpty :
      (c : Client W Op) (name : String) (o : LaunchOptions)
      → Ensures NotEmpty (wait_for_launch_instance c name o)
  unfolding wait_for_launch_instance
  wait_for_launch_instance-NotEmpty c name o =
      Ensures-bind _ _ λ r. start_or_create-NotEmpty c name o r

  -- WaitForLaunchInstance never succeeds with no address, whether the instance was there or is
  -- created.
  pub wait_for_launch_instance_address :
      (c : Client W Op) (name : String) (o : LaunchOptions) (w : W) (addrs : List String)
      → (wait_for_launch_instance c name o w).0 ≡ ok addrs
      → addrs ≢ []
  wait_for_launch_instance_address c name o w addrs e =
      (wait_for_launch_instance-NotEmpty c name o).at w addrs e
