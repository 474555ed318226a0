-- ===== src/Docker/Image/Laws.antt =====
-- parseImageTag, for an archive and for one that cannot be read to its end.
use cluster_api_provider_inc.Prelude.{
  ℕ, zero, suc, String, ◌≡◌, refl, false, none, some, List, [], ◌∷◌, ◌++◌, All, arith, ◌==◌,
}
use cluster_api_provider_inc.Errors.{GoError, Result, ok}
use cluster_api_provider_inc.Docker.Image.{
  Entry, file, end_of_file, broken, find_manifest, image_tag,
}

-- What the loop goes past: a file of another name, and an error.
abbrev pub Passes : Entry → Type 0
Passes (file name content) = (name == "manifest.json") ≡ false
Passes end_of_file = ⊥
Passes (broken e) = Unit

-- An error that Next returns again and again.
abbrev pub failing : ℕ → GoError → List Entry
failing zero e = []
failing (suc n) e = broken e ∷ failing n e

find_manifest-append :
    (before entries : List Entry)
    → All Passes before
    → find_manifest (before ++ entries) ≡ find_manifest entries
unfolding find_manifest
find_manifest-append [] entries h = refl
find_manifest-append (file name content ∷ before) entries h =
    ground (arith, find_manifest-append before entries h.1)
find_manifest-append (end_of_file ∷ before) entries h = elim h.0 [ ]
find_manifest-append (broken e ∷ before) entries h = find_manifest-append before entries h.1

find_manifest-failing : (n : ℕ) (e : GoError) → find_manifest (failing n e) ≡ none
unfolding find_manifest
find_manifest-failing zero e = refl
find_manifest-failing (suc n) e = find_manifest-failing n e

-- The tag of an archive is the first of the manifest's first image, wherever manifest.json stands
-- behind other files, and errors of the reader before it are passed over.
pub image_tag_found :
    (decode : String → Result (List (List String))) (shown : List (List String) → String)
    (before after : List Entry) (content tag : String) (tags : List String)
    (images : List (List String))
    → All Passes before
    → decode content ≡ ok ((tag ∷ tags) ∷ images)
    → image_tag decode shown (before ++ file "manifest.json" content ∷ after) ≡ some (ok tag)
unfolding image_tag find_manifest
image_tag_found decode shown before after content tag tags images h d =
    rw (find_manifest-append before (file "manifest.json" content ∷ after) h, image_tag) (rw d refl)

-- Where reading an archive without manifest.json fails before its end, and goes on failing as
-- readers do, the loop has not returned after any number of rounds.
pub image_tag_hangs :
    (decode : String → Result (List (List String))) (shown : List (List String) → String)
    (before : List Entry) (e : GoError) (n : ℕ)
    → All Passes before
    → image_tag decode shown (before ++ failing n e) ≡ none
unfolding image_tag
image_tag_hangs decode shown before e n h =
    rw (find_manifest-append before (failing n e) h, image_tag)
      (rw (find_manifest-failing n e) refl)
