-- ===== src/Simplestreams/Commands.antt =====
-- The commands import image, import release and show, cmd/exp/simplestreams/cmd.
use cluster_api_provider_inc.Prelude.{
  String, Bool, true, not, ◌&&◌, ◌||◌, List, ◌==◌, if◌then◌else◌,
}
use cluster_api_provider_inc.Text.{◌<>◌, quote}
use cluster_api_provider_inc.Errors.{Result, ok, err, errorf}
use cluster_api_provider_inc.Action.{Action, ◌>>=◌, ◌>>◌, pure, lift, wrapping}
use cluster_api_provider_inc.Images.{container, virtual_machine}
use cluster_api_provider_inc.Simplestreams.{Index, Stream, Products}
use cluster_api_provider_inc.Simplestreams.Archives.{Codec}
use cluster_api_provider_inc.Simplestreams.Import.{Files, get_or_create_index, import_image}
use cluster_api_provider_inc.Simplestreams.Show.{ShowFlags, Row, show_rows}

-- PreRunE of import image
unfoldable pub check_import : String → Bool → Bool → Result (Unit {0})
check_import image_type incus lxd =
    if not incus && not lxd
    then err (errorf "at least one of --incus or --lxd must be set")
    else if image_type == virtual_machine || image_type == container
    then ok tt
    else err (
        errorf (
          "invalid value for --image-type argument "
          <> quote image_type
          <> ", must be one of [container, virtual-machine]"))

-- PreRunE of show
unfoldable pub check_output : String → Result (Unit {0})
check_output output =
    if output == "images-json" || output == "index-json" || output == "pretty"
    then ok tt
    else err (
        errorf (
          "invalid argument value --output="
          <> quote output
          <> ". Must be one of [pretty, images-json, index-json]"))

module _ {W : Type 0} (files : Files W) (codec : Codec) where
  -- An import into an index that is not used any more afterwards.
  abbrev importing : Index → Action (Index × W) (Unit {0}) → Action W (Unit {0})
  importing i m w = ((m (i, w)).0, (m (i, w)).1.1)

  -- import image
  unfoldable pub import_image_command :
      String → String → String → List String → Bool → Bool → Action W (Unit {0})
  unfolding check_import get_or_create_index import_image
  import_image_command root_dir image_type image_path aliases incus lxd = do
    lift (check_import image_type incus lxd)
    i ← wrapping "failed to read simplestreams index: " (get_or_create_index files codec root_dir)
    wrapping "failed to import image into simplestreams index: "
        (importing i (import_image files codec image_type image_path aliases incus lxd))

  abbrev import_if_set : String → String → String → List String → Action (Index × W) (Unit {0})
  import_if_set failure image_type path aliases =
      if not (path == "")
      then wrapping failure (import_image files codec image_type path aliases true true)
      else pure tt

  -- import release
  unfoldable pub import_release_command :
      String → List String → String → String → Action W (Unit {0})
  unfolding get_or_create_index import_image
  import_release_command root_dir aliases container_image virtual_machine_image = do
    i ← wrapping "failed to read simplestreams index: " (get_or_create_index files codec root_dir)
    importing i (do
      import_if_set "failed to import container image: " container container_image aliases
      import_if_set "failed to import Incus VM image: " virtual_machine virtual_machine_image
          aliases)

  -- show, with the indented JSON and the printing of lines and rows
  unfoldable pub show_command :
      (Products → Result String)
      → (Stream → Result String)
      → (String → Action W (Unit {0}))
      → (List Row → Action W (Unit {0}))
      → String
      → String
      → ShowFlags
      → Action W (Unit {0})
  unfolding check_output get_or_create_index show_rows
  show_command products_json stream_json println print_rows root_dir output flags = do
    lift (check_output output)
    i ← wrapping "failed to read simplestreams index: " (get_or_create_index files codec root_dir)
    if output == "images-json"
        then (do
          json ← wrapping "failed to marshal JSON: " (lift (products_json i.products))
          println json)
        else if output == "index-json"
        then (do
          json ← wrapping "failed to marshal JSON: " (lift (stream_json i.stream))
          println json)
        else print_rows (show_rows flags i)
