-- ===== src/Client/Stop/Laws.antt =====
-- WaitForDeleteInstance, where it succeeds.
use cluster_api_provider_inc.Prelude.{
  String, ◌≡◌, refl, ap, ◌∙◌, true, nat_eq, ◌⊎◌, inl, inr, Bool-cases,
}
use cluster_api_provider_inc.Text.{contains}
use cluster_api_provider_inc.Errors.{Result, ok, err, GoError, error_text}
use cluster_api_provider_inc.Action.{Action}
use cluster_api_provider_inc.Action.Steps.{
  Gives, bind-Gives, lift-Gives, pure-Gives, attempt-Gives, wrapping-Gives, if-Gives,
}
use cluster_api_provider_inc.Incus.{InstanceState}
use cluster_api_provider_inc.Client.{Client, server_of, wait_for_operation, wait_result}
use cluster_api_provider_inc.Client.Stop.{
  wait_for_stop_instance, wait_for_delete_instance, delete_stopped,
}

module _ {W Op : Type 0} (c : Client W Op) where
  -- What the wait for an operation may end with: success, or that the operation is gone by then.
  abbrev pub IsOver : Result (Unit {0}) → Type 0
  IsOver r =
      (r ≡ ok tt)
      ⊎ ((e : GoError) × (r ≡ err e) × (contains "Operation not found" (error_text e) ≡ true))

  -- The server has accepted the operation, and it is over.
  abbrev pub Completed : Action W Op → W → W → Type 0
  Completed f w v =
      (op : Op) × (u : W) × Gives f w op u
      × (r : Result (Unit {0})) × ((server_of c).wait_context op u ≡ (r, v))
      × IsOver r

  -- The instance was not running, or its stop was completed.
  abbrev pub IsStopped : String → W → W → Type 0
  IsStopped name w v =
      (state : InstanceState) × (u : W) × Gives ((server_of c).get_instance_state name) w state u
      × (((nat_eq state.pid 0 ≡ true) × (u ≡ v))
          ⊎ Completed
              ((server_of c).update_instance_state name (record { action = "stop"; force = true }))
              u v)

  wait_result-IsOver :
      (name : String) (r : Result (Unit {0})) → wait_result name r ≡ ok tt → IsOver r
  unfolding wait_result
  wait_result-IsOver name (ok tt) h = inl refl
  wait_result-IsOver name (err e) h =
      elim (Bool-cases (contains "Operation not found" (error_text e))) [
        | inl k ↦ inr (e, refl, k)
        | inr k ↦ absurd (cc (h, k))
      ]

  wait_for_operation-Completed :
      (name : String) (f : Action W Op) (w v : W)
      → Gives (wait_for_operation c name f) w tt v
      → Completed f w v
  unfolding wait_for_operation
  wait_for_operation-Completed name f w v h =
      let (op, u, a, b) = bind-Gives _ _ w v tt h in
      let (r, t, x, y) = bind-Gives _ _ u v tt b in
      let (e, q) = lift-Gives (wait_result name r) t v tt y in
      (
        op,
        u,
        wrapping-Gives _ f w u op a,
        r,
        attempt-Gives _ u t r x ∙ ap (λ z. (r, z)) q,
        wait_result-IsOver name r e,
      )

  wait_for_stop_instance-IsStopped :
      (name : String) (w v : W) → Gives (wait_for_stop_instance c name) w tt v → IsStopped name w v
  unfolding wait_for_stop_instance
  wait_for_stop_instance-IsStopped name w v h =
      let (state, u, a, b) = bind-Gives _ _ w v tt h in
      (
        state,
        u,
        wrapping-Gives _ _ w u state a,
        elim (if-Gives (nat_eq state.pid 0) _ _ u v tt b) [
          | inl k ↦ inl (k.0, (pure-Gives tt u v tt k.1).1)
          | inr k ↦ inr (wait_for_operation-Completed "StopInstance" _ u v k.1)
        ],
      )

  -- What WaitForDeleteInstance has seen where it succeeds: either the instance is not found on the way
  -- to stopping it, or it is stopped and the operation that deletes it is over.
  abbrev pub IsDeleted : String → W → W → Type 0
  IsDeleted name w v =
      ((e : GoError) × (wait_for_stop_instance c name w ≡ (err e, v))
        × (contains "Instance not found" (error_text e) ≡ true))
      ⊎ ((u : W) × IsStopped name w u × Completed ((server_of c).delete_instance name) u v)

  delete_stopped-IsDeleted :
      (name : String) (r : Result (Unit {0})) (w u v : W)
      → wait_for_stop_instance c name w ≡ (r, u)
      → Gives (delete_stopped c name r) u tt v
      → IsDeleted name w v
  delete_stopped-IsDeleted name (ok tt) w u v h k = inr (
    u,
    wait_for_stop_instance-IsStopped name w u h,
    wait_for_operation-Completed "DeleteInstance" _ u v k,
  )
  delete_stopped-IsDeleted name (err e) w u v h k =
      elim (if-Gives (contains "Instance not found" (error_text e)) _ _ u v tt k) [
        | inl p ↦ inl (e, h ∙ ap (λ z. (err e, z)) (pure-Gives tt u v tt p.1).1, p.0)
        | inr p ↦ absurd (cc ((lift-Gives _ u v tt p.1).0))
      ]

  -- WaitForDeleteInstance succeeds in two ways only: stopping the instance has failed, with an error
  -- that says that the instance is not found, and nothing was called behind that; or the instance was
  -- not running or its stop is over, and then the server accepted its deletion, and that is over. An
  -- operation is over when it has succeeded, or is not found any more.
  pub wait_for_delete_instance-IsDeleted :
      (name : String) (w v : W)
      → wait_for_delete_instance c name w ≡ (ok tt, v)
      → IsDeleted name w v
  unfolding wait_for_delete_instance
  wait_for_delete_instance-IsDeleted name w v h =
      let (r, u, a, b) = bind-Gives _ _ w v tt h in
      delete_stopped-IsDeleted name r w u v (attempt-Gives _ w u r a) b
