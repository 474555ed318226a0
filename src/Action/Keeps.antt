-- ===== src/Action/Keeps.antt =====
-- What an action keeps true of the world, whether it succeeds or fails, one rule for each way to
-- build an action.
use cluster_api_provider_inc.Prelude.{String, Bool, true, false, if◌then◌else◌}
use cluster_api_provider_inc.Errors.{Result, ok, err}
use cluster_api_provider_inc.Action.{Action, continue, pure, lift, wrapping, ◌>>=◌}

pub record Keeps {S A : Type 0} (Inv : S → Type 0) (m : Action S A) : Type 0 where
  pub at : (s : S) → Inv s → Inv (m s).1

module _ {S A : Type 0} {Inv : S → Type 0} where
  pub Keeps-pure : (a : A) → Keeps Inv (pure a)
  unfolding pure
  Keeps-pure a = record { at = λ s p. p }

  pub Keeps-lift : (r : Result A) → Keeps Inv (lift r)
  unfolding lift
  Keeps-lift r = record { at = λ s p. p }

  pub Keeps-wrapping :
      (before : String) (m : Action S A) → Keeps Inv m → Keeps Inv (wrapping before m)
  unfolding wrapping
  Keeps-wrapping before m h = record { at = λ s p. h.at s p }

  pub Keeps-if :
      (b : Bool) (m n : Action S A) → Keeps Inv m → Keeps Inv n → Keeps Inv (if b then m else n)
  Keeps-if true m n h k = h
  Keeps-if false m n h k = k

module _ {S A B : Type 0} {Inv : S → Type 0} where
  continue-Keeps :
      (r : Result A) (f : A → Action S B) (s : S)
      → ((a : A) → Keeps Inv (f a))
      → Inv s
      → Inv (continue r f s).1
  continue-Keeps (ok a) f s h p = (h a).at s p
  continue-Keeps (err e) f s h p = p

  pub Keeps-bind :
      (m : Action S A) (f : A → Action S B)
      → Keeps Inv m
      → ((a : A) → Keeps Inv (f a))
      → Keeps Inv (m >>= f)
  unfolding ◌>>=◌
  Keeps-bind m f h k = record { at = λ s p. continue-Keeps (m s).0 f (m s).1 k (h.at s p) }
