-- ===== src/Docker/Image.antt =====
-- docker pull, load, save and image inspect: docker_image_pull.go, docker_image_load.go,
-- docker_image_save.go and docker_image_inspect.go. The libraries for images and the local files are
-- parameters.
pub mod Laws
use cluster_api_provider_inc.Maps.{insert, GoMap}
use cluster_api_provider_inc.Client.Pull.{pull_image}
use cluster_api_provider_inc.Prelude.{
  String, not, Option, none, some, List, [], ◌∷◌, ◌==◌, if◌then◌else◌,
}
use cluster_api_provider_inc.Text.{◌<>◌, quote, contains, replace_all}
use cluster_api_provider_inc.Errors.{GoError, Result, ok, err, errorf, wrapf}
use cluster_api_provider_inc.Action.{Action, ◌>>=◌, ◌>>◌, pure, lift, attempt, wrapping}
use cluster_api_provider_inc.Images.{single, capn_image}
use cluster_api_provider_inc.OciImage.{Reference, parse_oci_image, oci_source, tag}
use cluster_api_provider_inc.Docker.{Environment, kind_instances, cache_dir}

-- The file in the cache that `docker load` writes for a tag.
unfoldable pub loaded_file_name : (String → String → String) → String → String → String
unfolding replace_all
loaded_file_name join_path dir image_tag =
    join_path dir ("loaded--" <> replace_all "/" "--" image_tag <> ".tar")

-- What tar.Reader.Next gives: a file of the archive, its end, or another error.
pub data Entry : Type 0 where
  file : String → String → Entry
  end_of_file : Entry
  broken : GoError → Entry

-- The loop of parseImageTag over what Next gives each time; `none` while the loop goes on. An error
-- other than the end does not leave the loop.
unfoldable pub find_manifest : List Entry → Option (Result String)
find_manifest [] = none
find_manifest (file name content ∷ entries) =
    let rest = find_manifest entries in if name == "manifest.json" then some (ok content) else rest
find_manifest (end_of_file ∷ entries) =
    some (err (errorf "no manifest.json found in image tarball"))
find_manifest (broken e ∷ entries) = find_manifest entries

-- The last part of parseImageTag, with the verb %#v for the manifest.
abbrev first_tag : (List (List String) → String) → List (List String) → Result String
first_tag shown ((image_tag ∷ tags) ∷ images) = ok image_tag
first_tag shown ([] ∷ images) =
    err (errorf ("no image tags found in manifest " <> shown ([] ∷ images)))
first_tag shown [] = err (errorf ("no image tags found in manifest " <> shown []))

abbrev pub tag_of : (List (List String) → String) → Result (List (List String)) → Result String
tag_of shown (err e) = err (wrapf "failed to parse manifest.json: " e "")
tag_of shown (ok images) = first_tag shown images

-- parseImageTag on what the archive's reader gives; decoding the JSON is a parameter
unfoldable pub image_tag :
    (String → Result (List (List String)))
    → (List (List String) → String)
    → List Entry
    → Option (Result String)
unfolding find_manifest
image_tag decode shown entries = elim (find_manifest entries) [
  | none ↦ none
  | some (err e) ↦ some (err e)
  | some (ok manifest) ↦ some (tag_of shown (decode manifest))
]

-- The local files, the library crane and the registries, with images of the type `Img`.
pub record Tarballs (W Img : Type 0) : Type 0 where
  pub join_path : String → String → String
  pub create_temp : Action W String
  pub write : String → String → Action W (Unit {0})
  pub remove : String → Action W (Unit {0})
  pub read_entries : String → Action W (List Entry)
  pub decode : String → Result (List (List String))
  pub shown : List (List String) → String
  pub read : String → Action W String
  pub create : String → Action W (Unit {0})
  pub load : String → Action W Img
  pub pull : String → Action W Img
  pub manifest_digest : Img → Result String
  pub check_platform : String → Result (Unit {0})
  pub parse_name : String → Result (Unit {0})
  pub remote_image : String → String → Action W Img
  pub cached : String → Img → Img
  pub multi_save : GoMap Img → String → Action W (Unit {0})

-- `none` stands for a call that never returns.
abbrev returned : Option (Result String) → Result (Option String)
returned none = ok none
returned (some (ok image_tag)) = ok (some image_tag)
returned (some (err e)) = err e

abbrev pub require_dir : String → Result (Unit {0})
require_dir dir =
    if dir == "" then err (errorf "load command requires KINI_CACHE to be set") else ok tt

module _ {W Op Img : Type 0} (env : Environment W Op) (files : Tarballs W Img) where
  -- docker pull IMAGE
  unfoldable pub docker_pull : (String → Result Reference) → String → Action W (Unit {0})
  unfolding parse_oci_image kind_instances pull_image oci_source tag contains capn_image
  docker_pull parse_reference name = if not (contains "kindest/node" name) then pure tt else (do
    c ← wrapping "failed to initialize client: " env.client
    image ←
        wrapping ("failed to parse OCI image " <> quote name <> ": ")
          (lift (parse_oci_image parse_reference name))
    kind ← kind_instances env
    if kind
        then wrapping ("failed to pull " <> quote name <> ": ")
            (pull_image c (single (oci_source image)))
        else wrapping ("failed to pull kubeadm image for version " <> quote (tag image) <> ": ")
            (pull_image c (single (capn_image ("kubeadm/" <> tag image)))))

  -- parseImageTag, `none` where it never returns
  unfoldable pub parse_image_tag : String → Action W (Option String)
  unfolding image_tag
  parse_image_tag path = do
    entries ← wrapping "failed to open file: " (files.read_entries path)
    lift (returned (image_tag files.decode files.shown entries))

  abbrev store_tagged : String → String → Option String → Action W (Option (Unit {0}))
  store_tagged dir input none = pure none
  store_tagged dir input (some t) = do
    let output = loaded_file_name files.join_path dir t
    content ← wrapping ("failed to open " <> quote input <> ": ") (files.read input)
    wrapping ("failed to create output file " <> quote output <> ": ") (files.create output)
    wrapping ("failed to save tarball in " <> quote output <> ": ") (files.write output content)
    pure (some tt)

  -- Store the tarball of the flag --input in the cache; `none` where that never returns.
  unfoldable pub store_tarball : String → String → Action W (Option (Unit {0}))
  unfolding loaded_file_name parse_image_tag
  store_tarball dir input = do
    t ← wrapping ("no image tag found in " <> quote input <> ": ") (parse_image_tag input)
    store_tagged dir input t

  -- defer func() { _ = after() }(), which is not reached by a call that never returns
  abbrev discarded :
      Action W (Unit {0}) → Result (Option (Unit {0})) × W → Result (Option (Unit {0})) × W
  discarded after (ok none, w) = (ok none, w)
  discarded after (ok (some u), w) = (ok (some u), (after w).1)
  discarded after (err e, w) = (err e, (after w).1)

  abbrev discarding :
      Action W (Unit {0}) → Action W (Option (Unit {0})) → Action W (Option (Unit {0}))
  discarding after m w = discarded after (m w)

  -- docker load: the standard input goes through a temporary file, which is removed in the end. The
  -- value is `none` where the command never returns.
  unfoldable pub docker_load : String → Action W (Option (Unit {0}))
  unfolding cache_dir store_tarball
  docker_load input = do
    dir ← cache_dir env
    lift (require_dir dir)
    if not (input == "") then store_tarball dir input else (do
      temp ← wrapping "failed to create a temporary file: " files.create_temp
      discarding (files.remove temp) (do
        content ← wrapping "failed to write stdin to temporary file: " env.stdin
        wrapping "failed to write stdin to temporary file: " (files.write temp content)
        store_tarball dir temp))

  abbrev loaded_or_pulled : String → Result Img → Action W Img
  loaded_or_pulled name (ok img) = pure img
  loaded_or_pulled name (err e) =
      wrapping ("could not pull image " <> quote name <> ": ") (files.pull name)

  -- docker image inspect IMAGE
  unfoldable pub docker_image_inspect : String → String → Action W (Unit {0})
  unfolding cache_dir loaded_file_name
  docker_image_inspect format name =
      if not (format == "{{ .Id }}")
      then lift (err (errorf ("invalid format " <> quote format)))
      else (do
        dir ← cache_dir env
        r ← attempt (files.load (loaded_file_name files.join_path dir name))
        img ← loaded_or_pulled name r
        digest ← wrapping "could not get manifest of image: " (lift (files.manifest_digest img))
        env.println digest)

  abbrev loaded_or_remote : String → String → String → Result Img → Action W Img
  loaded_or_remote dir platform name (ok img) = pure img
  loaded_or_remote dir platform name (err e) = do
    wrapping ("failed to parse image " <> quote name <> ": ") (lift (files.parse_name name))
    img ← wrapping ("failed to get image " <> quote name <> ": ") (files.remote_image platform name)
    pure (if not (dir == "") then files.cached dir img else img)

  -- The loop of docker save.
  unfoldable pub collect_images : String → String → List String → GoMap Img → Action W (GoMap Img)
  unfolding loaded_file_name insert
  collect_images dir platform [] images = pure images
  collect_images dir platform (name ∷ names) images = do
    r ← attempt (files.load (loaded_file_name files.join_path dir name))
    img ← loaded_or_remote dir platform name r
    collect_images dir platform names (insert name img images)

  -- docker save IMAGE...
  unfoldable pub docker_save : String → String → List String → Action W (Unit {0})
  unfolding cache_dir collect_images
  docker_save output platform names = do
    dir ← cache_dir env
    wrapping ("invalid platform " <> quote platform <> ": ")
        (lift (if not (platform == "") then files.check_platform platform else ok tt))
    images ← collect_images dir platform names []
    lift (if output == "" then err (errorf "--output flag is required") else ok tt)
    wrapping "failed to save image: " (files.multi_save images output)
