-- ===== src/ImageBuilder/Stages.antt =====
-- Stages of the image builder, internal/exp/image-builder/stage, and which of them Run runs.
use cluster_api_provider_inc.Prelude.{
  arith, String, ◌≡◌, refl, Bool, true, false, not, ◌&&◌, ◌||◌, List, [], ◌∷◌, any, is_empty, ◌==◌,
  if◌then◌else◌,
}
use cluster_api_provider_inc.Text.{◌<>◌, quote}
use cluster_api_provider_inc.Action.{Action, ◌>>◌, pure, wrapping}
use cluster_api_provider_inc.Client.{Client}
use cluster_api_provider_inc.ImageBuilder.{BuildAction}

-- Stage
pub record Stage (W Op : Type 0) : Type 0 where
  pub name : String
  pub action : BuildAction W Op

module _ {W Op : Type 0} where
  -- Run
  unfoldable pub run :
      Client W Op → List String → List String → Bool → List (Stage W Op) → Action W (Unit {0})
  run c skip_stages only_stages dry_run [] = pure tt
  run c skip_stages only_stages dry_run (stage ∷ stages) =
      let rest = run c skip_stages only_stages dry_run stages in
      if dry_run
      then rest
      else if any (λ n. n == stage.name) skip_stages
      then rest
      else if not (is_empty only_stages) && not (any (λ n. n == stage.name) only_stages)
      then rest
      else (do
        wrapping ("failure during stage " <> quote stage.name <> ": ") (stage.action c)
        rest)

  -- The stages that are not skipped, and are asked for if any are.
  pub selected : List String → List String → List (Stage W Op) → List (Stage W Op)
  selected skip_stages only_stages [] = []
  selected skip_stages only_stages (stage ∷ stages) =
      let rest = selected skip_stages only_stages stages in
      if not (any (λ n. n == stage.name) skip_stages)
        && (is_empty only_stages || any (λ n. n == stage.name) only_stages)
      then stage ∷ rest
      else rest

  -- Run every stage in turn until one fails.
  pub run_all : Client W Op → List (Stage W Op) → Action W (Unit {0})
  run_all c [] = pure tt
  run_all c (stage ∷ stages) = do
    wrapping ("failure during stage " <> quote stage.name <> ": ") (stage.action c)
    run_all c stages

  -- Run with filters runs exactly the selected stages, in their order, and stops at the first that
  -- fails; a dry run does nothing and succeeds.
  pub run-selected :
      (c : Client W Op) (skip_stages only_stages : List String) (stages : List (Stage W Op))
      → (run c skip_stages only_stages false stages
          ≡ run_all c (selected skip_stages only_stages stages))
        × (run c skip_stages only_stages true stages ≡ pure tt)
  unfolding run selected run_all
  run-selected c skip_stages only_stages [] = (refl, refl)
  run-selected c skip_stages only_stages (stage ∷ stages) = (
    ground (arith, (run-selected c skip_stages only_stages stages).0),
    (run-selected c skip_stages only_stages stages).1,
  )
