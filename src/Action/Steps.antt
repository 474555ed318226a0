-- ===== src/Action/Steps.antt =====
-- Runs of actions step by step: what a run that succeeded went through, and how a run is put
-- together from the runs of its parts.
use cluster_api_provider_inc.Prelude.{
  String, ◌≡◌, refl, ap, Bool, true, false, ◌⊎◌, inl, inr, if◌then◌else◌,
}
use cluster_api_provider_inc.Errors.{Result, ok, err, wrap}
use cluster_api_provider_inc.Action.{Action, continue, pure, lift, attempt, wrapping, ◌>>=◌}

abbrev pub value_or : {A : Type 0} → A → Result A → A
value_or d (ok a) = a
value_or d (err e) = d

module _ {W A : Type 0} where
  -- The action ends with the value in the world.
  abbrev pub Gives : Action W A → W → A → W → Type 0
  Gives m w a v = m w ≡ (ok a, v)

  pub lift-Gives : (r : Result A) (w v : W) (a : A) → Gives (lift r) w a v → (r ≡ ok a) × (w ≡ v)
  unfolding lift
  lift-Gives r w v a h = (ap (λ x. x.0) h, ap (λ x. x.1) h)

  pub pure-Gives : (b : A) (w v : W) (a : A) → Gives (pure b) w a v → (b ≡ a) × (w ≡ v)
  unfolding pure
  pure-Gives b w v a h = (ap (λ x. value_or b x.0) h, ap (λ x. x.1) h)

  pub attempt-Gives :
      (m : Action W A) (w v : W) (r : Result A) → attempt m w ≡ (ok r, v) → m w ≡ (r, v)
  unfolding attempt
  attempt-Gives m w v r h = ap (λ x. (value_or (m w).0 x.0, x.1)) h

  pub wrapping-Gives :
      (s : String) (m : Action W A) (w v : W) (a : A) → Gives (wrapping s m) w a v → Gives m w a v
  unfolding wrapping
  wrapping-Gives s m w v a h = by_case (m w) h
    where
      by_case :
          (x : Result A × W) → ◌≡◌ {A = Result A × W} (wrap s x.0, x.1) (ok a, v) → x ≡ (ok a, v)
      by_case (ok b, u) e = e
      by_case (err b, u) e = absurd (cc (ap (λ x. x.0) e))

  -- The other way round: what runs of the parts give a run of the whole.
  pub pure-step : (a : A) (w : W) → Gives (pure a) w a w
  unfolding pure
  pure-step a w = refl

  pub attempt-step :
      (m : Action W A) (w u : W) (r : Result A) → m w ≡ (r, u) → attempt m w ≡ (ok r, u)
  unfolding attempt
  attempt-step m w u r h = ap (λ x. (ok x.0, x.1)) h

  pub wrapping-step :
      (s : String) (m : Action W A) (w u : W) (a : A) → Gives m w a u → Gives (wrapping s m) w a u
  unfolding wrapping
  wrapping-step s m w u a h = ap (λ x. (wrap s x.0, x.1)) h

  pub if-Gives :
      (b : Bool) (m n : Action W A) (w v : W) (a : A)
      → Gives (if b then m else n) w a v
      → ((b ≡ true) × Gives m w a v) ⊎ ((b ≡ false) × Gives n w a v)
  if-Gives true m n w v a h = inl (refl, h)
  if-Gives false m n w v a h = inr (refl, h)

module _ {W A B : Type 0} where
  -- What the first action gave, and what the second made of it.
  pub bind-Gives :
      (m : Action W A) (f : A → Action W B) (w v : W) (b : B)
      → Gives (m >>= f) w b v
      → (a : A) × (u : W) × Gives m w a u × Gives (f a) u b v
  unfolding ◌>>=◌
  bind-Gives m f w v b h = by_case (m w) refl h
    where
      by_case :
          (x : Result A × W)
          → m w ≡ x
          → continue x.0 f x.1 ≡ (ok b, v)
          → (a : A) × (u : W) × Gives m w a u × Gives (f a) u b v
      by_case (ok a, u) e k = (a, u, e, k)
      by_case (err y, u) e k = absurd (cc (ap (λ x. x.0) k))

  pub bind-step :
      (m : Action W A) (f : A → Action W B) (w u : W) (a : A) → Gives m w a u → (m >>= f) w ≡ f a u
  unfolding ◌>>=◌
  bind-step m f w u a h = ap (λ x. continue x.0 f x.1) h
