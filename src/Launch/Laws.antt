-- ===== src/Launch/Laws.antt =====
-- What launch options hold after they were merged and completed.
use cluster_api_provider_inc.Prelude.{
  sym, if◌then◌else◌, Char, String, ◌≡◌, refl, false, Option, none, some, [], ◌∷◌, arith, eq_iff,
}
use cluster_api_provider_inc.Text.{◌<>◌, cut_before}
use cluster_api_provider_inc.Text.Laws.{Lacks, Lacks-append, cut-append, cut-Lacks}
use cluster_api_provider_inc.Maps.{GoMap, lookup, or_else, lookup-copy}
use cluster_api_provider_inc.Errors.{ok, wrap, >>=-eq-ok}
use cluster_api_provider_inc.Images.{Image, single, image_for, virtual_machine}
use cluster_api_provider_inc.Launch.{LaunchOptions, merge}
use cluster_api_provider_inc.Launch.Complete.{
  check_virtual_machine, strip_tag, complete_alias, mount_unix_socket, complete, require_image,
}

or_else-none {ℓ} : {T : Type ℓ} (o : Option T) → or_else o none ≡ o
or_else-none none = refl
or_else-none (some v) = refl

-- A merged map has the new value of a key, or else the old one.
pub lookup-merge {ℓ} :
    {T : Type ℓ} (j : String) (m new : GoMap T)
    → lookup j (merge m new) ≡ or_else (lookup j new) (lookup j m)
unfolding lookup merge
lookup-merge j [] new = sym (or_else-none (lookup j new))
lookup-merge j (e ∷ m) new = lookup-copy j (e ∷ m) new

-- The image is an Image, and not another implementation of ImageFamily or nil.
abbrev pub HasSingleImage : LaunchOptions → Type 0
HasSingleImage o = (i : Image) × (o.image ≡ some (single i))

-- What is left alone by the mount of the unix socket.
abbrev SameFiles : LaunchOptions → LaunchOptions → Type 0
SameFiles o o' =
    (o'.image ≡ o.image)
    × (o'.create_files ≡ o.create_files)
    × (o'.replacements ≡ o.replacements)
    × (o'.unix_socket ≡ o.unix_socket)

mount-SameFiles :
    (server : String) (o o' : LaunchOptions)
    → (if o.unix_socket then mount_unix_socket server o else ok o) ≡ ok o'
    → SameFiles o o'
unfolding mount_unix_socket
mount-SameFiles server o o' h = ground arith

-- The options that `complete` has put the image into.
abbrev with_completed : LaunchOptions → Image → LaunchOptions
with_completed o i = record o { image = some (single (complete_alias i)) }

-- The steps of a completion that succeeds.
complete_steps :
    (o o' : LaunchOptions) (server : String)
    → complete o server ≡ ok o'
    → (i : Image) × (check_virtual_machine o ≡ ok tt) × SameFiles (with_completed o i) o'
unfolding complete
complete_steps o o' server h =
    let (u, checked, h₁) = >>=-eq-ok (check_virtual_machine o) _ h in
    let (f, imaged, h₂) = >>=-eq-ok (require_image o.image) _ h₁ in
    let (i, found, h₃) =
      >>=-eq-ok (wrap "unsupported instance image: " (image_for f server)) _ h₂ in
    (i, checked, mount-SameFiles server (with_completed o i) o' h₃)

-- After `complete` succeeded the image is an Image: the type assertion in WaitForLaunchInstance
-- does not panic.
pub complete-HasSingleImage :
    (o o' : LaunchOptions) (server : String) → complete o server ≡ ok o' → HasSingleImage o'
complete-HasSingleImage o o' server h =
    let (i, checked, same) = complete_steps o o' server h in (complete_alias i, same.0)

-- A virtual machine whose options were completed has no files to create, no replacements and no
-- unix socket.
pub complete-virtual_machine :
    (o o' : LaunchOptions) (server : String)
    → o.instance_type ≡ virtual_machine
    → complete o server ≡ ok o'
    → (o'.create_files ≡ []) × (o'.replacements ≡ []) × (o'.unix_socket ≡ false)
unfolding check_virtual_machine
complete-virtual_machine o o' server t h =
    let (i, checked, same) = complete_steps o o' server h in
    ground (arith, eq_iff o.instance_type virtual_machine)

abbrev pub colon : Char
colon = ":"

abbrev pub at_sign : Char
at_sign = "@"

abbrev pub with_tag : String → String → String
with_tag name tag = name <> String.◌∷◌ colon tag

abbrev pub with_digest : String → String → String
with_digest name digest = name <> String.◌∷◌ at_sign digest

strip_tag_untagged :
    (name digest : String)
    → Lacks b'@' name
    → Lacks b':' name
    → strip_tag (with_digest name digest) ≡ name <> "@" <> digest
unfolding strip_tag
strip_tag_untagged name digest ha hc =
    rw (cut-append at_sign name digest ha, strip_tag) (rw (cut-Lacks b':' name hc, cut_before) refl)

strip_tag_tagged :
    (name tag digest : String)
    → Lacks b'@' name
    → Lacks b':' name
    → Lacks b'@' tag
    → strip_tag (with_digest (with_tag name tag) digest) ≡ name <> "@" <> digest
unfolding strip_tag
strip_tag_tagged name tag digest ha hc ht =
    rw
      (
        cut-append at_sign (with_tag name tag) digest
            (Lacks-append b'@' name _ ha (omega arith, ht)),
        strip_tag,
      )
      (rw (cut-append colon name tag hc, cut_before) refl)

-- The alias of an OCI image `name[:tag]@digest` becomes `name@digest`, and one with a tag and no
-- digest stays; the name holds no "@" and no ":", and the tag no "@".
pub strip_tag-digest :
    (name tag digest : String)
    → Lacks b'@' name
    → Lacks b':' name
    → Lacks b'@' tag
    → (strip_tag (with_digest (with_tag name tag) digest) ≡ name <> "@" <> digest)
      × (strip_tag (with_digest name digest) ≡ name <> "@" <> digest)
      × (strip_tag (with_tag name tag) ≡ with_tag name tag)
unfolding strip_tag
strip_tag-digest name tag digest ha hc ht = (
  strip_tag_tagged name tag digest ha hc ht,
  strip_tag_untagged name digest ha hc,
  rw (cut-Lacks b'@' (with_tag name tag) (Lacks-append b'@' name _ ha (omega arith, ht)), strip_tag)
      refl,
)
