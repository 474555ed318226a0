-- ===== src/Api/Finalizers.antt =====
-- controllerutil.RemoveFinalizer of controller-runtime, which is not part of the repository: the
-- operation on an object's list of finalizers, with what its documentation promises.
use cluster_api_provider_inc.Prelude.{
  String, ◌≡◌, refl, Bool, true, false, List, [], ◌∷◌, any, ◌==◌, if◌then◌else◌,
}

pub record FinalizerLibrary : Type 0 where
  pub remove : String → List String → List String
  -- The finalizer is not there any more.
  pub any-remove : (f : String) (xs : List String) → any (λ x. x == f) (remove f xs) ≡ false

-- The promise can be kept: every equal element is dropped.
abbrev pub remove_finalizer : String → List String → List String
remove_finalizer f [] = []
remove_finalizer f (x ∷ xs) = let rest = remove_finalizer f xs in if x == f then rest else x ∷ rest

pub remove_finalizer_gone :
    (f : String) (xs : List String) → any (λ x. x == f) (remove_finalizer f xs) ≡ false
remove_finalizer_gone f [] = refl
remove_finalizer_gone f (x ∷ xs) = by_case (x == f) refl (remove_finalizer_gone f xs)
  where
    by_case :
        (b : Bool)
        → (x == f) ≡ b
        → any (λ y. y == f) (remove_finalizer f xs) ≡ false
        → any (λ y. y == f) (if b then remove_finalizer f xs else x ∷ remove_finalizer f xs) ≡ false
    by_case true e h = h
    by_case false e h = rw (e, h)

abbrev pub list_finalizers : FinalizerLibrary
list_finalizers = record { remove = remove_finalizer; any-remove = remove_finalizer_gone }
