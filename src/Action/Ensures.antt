-- ===== src/Action/Ensures.antt =====
-- What an action returns, one rule for each way to build an action.
use cluster_api_provider_inc.Prelude.{String, ◌≡◌, refl, Bool, true, false, arith, if◌then◌else◌}
use cluster_api_provider_inc.Errors.{Result, ok, err, wrap-ok}
use cluster_api_provider_inc.Action.{Action, continue, pure, lift, attempt, wrapping, ◌>>=◌}

-- If `m` succeeds, what it returns has the property.
pub record Ensures {W A : Type 0} (P : A → Type 0) (m : Action W A) : Type 0 where
  pub at : (w : W) (a : A) → (m w).0 ≡ ok a → P a

module _ {W A : Type 0} {P : A → Type 0} where
  pub Ensures-pure : (a : A) → P a → Ensures P (pure {W = W} a)
  unfolding pure
  Ensures-pure a p = record { at = λ w b e. ground arith }

  pub Ensures-lift : (r : Result A) → ((a : A) → r ≡ ok a → P a) → Ensures P (lift {W = W} r)
  unfolding lift
  Ensures-lift r p = record { at = λ w a e. p a e }

  pub Ensures-wrapping : (s : String) (m : Action W A) → Ensures P m → Ensures P (wrapping s m)
  unfolding wrapping
  Ensures-wrapping s m h = record { at = λ w a e. h.at w a (wrap-ok s (m w).0 a e) }

  pub Ensures-if :
      (b : Bool) (m n : Action W A)
      → (b ≡ true → Ensures P m)
      → (b ≡ false → Ensures P n)
      → Ensures P (if b then m else n)
  Ensures-if true m n km kn = km refl
  Ensures-if false m n km kn = kn refl

module _ {W A B : Type 0} {P : B → Type 0} where
  continue-Ensures :
      (r : Result A) (f : A → Action W B) (w : W) (b : B)
      → ((a : A) → r ≡ ok a → Ensures P (f a))
      → (continue r f w).0 ≡ ok b
      → P b
  continue-Ensures (ok a) f w b h e = (h a refl).at w b e
  continue-Ensures (err x) f w b h e = absurd (ground arith)

  -- Whatever the first action returns, the second ensures the property.
  pub Ensures-bind :
      (m : Action W A) (f : A → Action W B) → ((a : A) → Ensures P (f a)) → Ensures P (m >>= f)
  unfolding ◌>>=◌
  Ensures-bind m f h = record { at = λ w b e. continue-Ensures (m w).0 f (m w).1 b (λ a _. h a) e }

  -- The second action may use what the first ensures.
  pub Ensures-then :
      (Q : A → Type 0) (m : Action W A) (f : A → Action W B)
      → Ensures Q m
      → ((a : A) → Q a → Ensures P (f a))
      → Ensures P (m >>= f)
  unfolding ◌>>=◌
  Ensures-then Q m f q h = record {
    at = λ w b e. continue-Ensures (m w).0 f (m w).1 b (λ a ra. h a (q.at w a ra)) e;
  }

module _ {W A : Type 0} where
  -- A result that `attempt` returns is one of the action, in some world.
  pub Ensures-attempt : (m : Action W A) → Ensures (λ a. (w : W) × ((m w).0 ≡ a)) (attempt m)
  unfolding attempt
  Ensures-attempt m = record { at = λ w a e. (w, ground arith) }
