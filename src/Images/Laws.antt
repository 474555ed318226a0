-- ===== src/Images/Laws.antt =====
-- Well-known images by name.
use mathlib.Core.Path.{subst}
use cluster_api_provider_inc.Prelude.{
  refl, sym, inl, inr, Bool-cases, Char, code, String, ◌≡◌, Option, none, some, List, [], ◌∷◌, Bool,
  false, arith, eq_iff, ◌==◌, ◌||◌, any, All, if◌then◌else◌,
}
use cluster_api_provider_inc.Text.{join}
use cluster_api_provider_inc.Text.Laws.{Lacks, split-join}
use cluster_api_provider_inc.Errors.{Result, ok, err, is_terminal_error, succeeds}
use cluster_api_provider_inc.Images.{ImageFamily, parse_parts, parse_image, image_for, incus, lxd}

abbrev colon : Char
colon = ":"

-- What becomes of a name: a well-known image, not the name of one, or a refusal whose error is
-- terminal or not.
pub data Reading : Type 0 where
  well_known : Reading
  plain : Reading
  refused : Bool → Reading

abbrev pub reading : Result (Option ImageFamily) → Reading
reading (ok (some f)) = well_known
reading (ok none) = plain
reading (err e) = refused (is_terminal_error e)

-- The prefixes of the well-known images, as the documentation lists them.
abbrev pub prefixes : List String
prefixes = "ubuntu" ∷ "debian" ∷ "images" ∷ "capi" ∷ "capi-stg" ∷ "kind" ∷ []

-- What a name is to become, by its parts between colons.
abbrev pub reading_of_parts : List String → Reading
reading_of_parts (prefix ∷ rest ∷ []) =
    if any (λ k. prefix == k) prefixes then well_known else refused false
reading_of_parts parts = plain

parse_parts-reading :
    (prefix rest : String)
    → reading (parse_parts prefix rest) ≡ reading_of_parts (prefix ∷ rest ∷ [])
unfolding parse_parts is_terminal_error
parse_parts-reading prefix rest = ground arith

-- A name with exactly one colon is a well-known image if its prefix is one of ubuntu, debian, images,
-- capi, capi-stg and kind, and is refused otherwise, with an error that is not terminal; a name with
-- no colon or more than one is no well-known image, and is not refused.
pub parse_image-reading :
    (part : String) (parts : List String)
    → All (Lacks (code colon)) (part ∷ parts)
    → reading (parse_image (join (String.◌∷◌ colon String.[]) (part ∷ parts)))
      ≡ reading_of_parts (part ∷ parts)
unfolding parse_image
parse_image-reading part [] h = rw (split-join colon part [] h) refl
parse_image-reading part (rest ∷ []) h =
    rw (split-join colon part (rest ∷ []) h) (parse_parts-reading part rest)
parse_image-reading part (rest ∷ more ∷ parts) h =
    rw (split-join colon part (rest ∷ more ∷ parts) h) refl

-- The servers for which the family of a well-known prefix has an image.
abbrev pub is_served : String → String → Bool
is_served prefix server =
    prefix == "capi" || prefix == "capi-stg" || prefix == "kind" || incus == server || lxd == server

-- The claim about one prefix.
abbrev Serves : String → String → String → Type 0
Serves rest server prefix =
    (f : ImageFamily)
    → parse_parts prefix rest ≡ ok (some f)
    → succeeds (image_for f server) ≡ is_served prefix server

module _ (rest server : String) where
  Serves-listed :
      Serves rest server "ubuntu"
      × Serves rest server "debian"
      × Serves rest server "images"
      × Serves rest server "capi"
      × Serves rest server "capi-stg"
      × Serves rest server "kind"
  unfolding parse_parts image_for
  Serves-listed = (
    λ f h. ground arith,
    λ f h. ground arith,
    λ f h. ground arith,
    λ f h. ground arith,
    λ f h. ground arith,
    λ f h. ground arith,
  )

  Serves-other :
      (prefix : String)
      → (prefix == "ubuntu") ≡ false
      → (prefix == "debian") ≡ false
      → (prefix == "images") ≡ false
      → (prefix == "capi") ≡ false
      → (prefix == "capi-stg") ≡ false
      → (prefix == "kind") ≡ false
      → Serves rest server prefix
  unfolding parse_parts
  Serves-other prefix a b c d e g f h = absurd (ground arith)

  -- Either the prefix is the literal one, or the rest of the table decides.
  try :
      (prefix k : String)
      → Serves rest server k
      → ((prefix == k) ≡ false → Serves rest server prefix)
      → Serves rest server prefix
  try prefix k here other = elim (Bool-cases (prefix == k)) [
    | inl e ↦ subst (Serves rest server) (sym ((eq_iff prefix k).0 e)) here
    | inr e ↦ other e
  ]

-- A parsed well-known image is available exactly on Incus and LXD, and those of the prefixes capi,
-- capi-stg and kind on every server.
pub parse_parts-image_for :
    (rest server prefix : String) (f : ImageFamily)
    → parse_parts prefix rest ≡ ok (some f)
    → succeeds (image_for f server) ≡ is_served prefix server
parse_parts-image_for rest server prefix =
    let listed = Serves-listed rest server in
    try rest server prefix "ubuntu" listed.0 λ a. try rest server prefix "debian" listed.1 λ b.
      try rest server prefix "images" listed.2 λ c. try rest server prefix "capi" listed.3 λ d.
        try rest server prefix "capi-stg" listed.4
          λ e. try rest server prefix "kind" listed.5 (Serves-other rest server prefix a b c d e)
