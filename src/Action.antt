-- ===== src/Action.antt =====
-- Code that talks to a server and may fail: a function of the world outside the program. What was
-- done before an error stays done, so the world comes back beside an error too.
pub mod Ensures
pub mod Keeps
pub mod Steps
use cluster_api_provider_inc.Prelude.{String}
use cluster_api_provider_inc.Errors.{Result, ok, err, GoError, wrap}

abbrev pub Action : Type 0 → Type 0 → Type 0
Action W A = W → Result A × W

abbrev pub first_error {ℓ} : {A : Type ℓ} → Result A → Result (Unit {0}) → Result A
first_error (err e) r = err e
first_error (ok a) (ok u) = ok a
first_error (ok a) (err e) = err e

module _ {W A : Type 0} where
  pub pure : A → Action W A
  pure a w = (ok a, w)

  -- A function that does not touch the world.
  pub lift : Result A → Action W A
  lift r w = (r, w)

  -- x, err := m
  pub attempt : Action W A → Action W (Result A)
  attempt m w = (ok (m w).0, (m w).1)

  -- if err != nil { return fmt.Errorf("...: %w", err) }
  pub wrapping : String → Action W A → Action W A
  wrapping before m w = (wrap before (m w).0, (m w).1)

  -- defer: run `m`, whatever came of it run `after`, and keep the first error.
  pub deferring : Action W (Unit {0}) → Action W A → Action W A
  deferring after m w = (first_error (m w).0 (after (m w).1).0, (after (m w).1).1)

module _ {W A B : Type 0} where
  abbrev pub continue : Result A → (A → Action W B) → Action W B
  continue (ok a) f w = f a w
  continue (err e) f w = (err e, w)

  infixl 5 ◌>>=◌ ◌>>◌
  -- Opening this opens the other ways to build an action too.
  unfoldable pub ◌>>=◌ : Action W A → (A → Action W B) → Action W B
  unfolding pure lift attempt wrapping deferring
  ◌>>=◌ m f w = continue (m w).0 f (m w).1

  abbrev pub ◌>>◌ : Action W A → Action W B → Action W B
  m >> n = m >>= λ _. n
