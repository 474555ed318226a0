-- ===== src/Images.antt =====
-- Image sources: internal/lxc/images.go, images_sources.go, images_parse.go and the names of
-- consts.go.
pub mod Laws
pub mod Check
use cluster_api_provider_inc.Prelude.{
  String, Bool, true, false, Option, none, some, List, [], ◌∷◌, ◌==◌, if◌then◌else◌,
}
use cluster_api_provider_inc.Text.{◌<>◌, quote, split}
use cluster_api_provider_inc.Maps.{GoMap, lookup}
use cluster_api_provider_inc.Errors.{Result, ok, err, errorf, terminal_error}

abbrev pub default_simplestreams_server : String
default_simplestreams_server = "https://d14dnvi2l3tc5t.cloudfront.net"

abbrev pub default_staging_simplestreams_server : String
default_staging_simplestreams_server = "https://djapqxqu5n2qu.cloudfront.net"

abbrev pub default_incus_simplestreams_server : String
default_incus_simplestreams_server = "https://images.linuxcontainers.org"

abbrev pub default_lxd_simplestreams_server : String
default_lxd_simplestreams_server = "https://images.lxd.canonical.com"

abbrev pub default_lxd_ubuntu_simplestreams_server : String
default_lxd_ubuntu_simplestreams_server = "https://cloud-images.ubuntu.com/releases/"

abbrev pub docker_hub_server : String
docker_hub_server = "https://docker.io"

abbrev pub container : String
container = "container"

abbrev pub virtual_machine : String
virtual_machine = "virtual-machine"

abbrev pub incus : String
incus = "incus"

abbrev pub lxd : String
lxd = "lxd"

abbrev pub oci : String
oci = "oci"

abbrev pub simplestreams : String
simplestreams = "simplestreams"

-- Image
pub record Image : Type 0 where
  pub fingerprint : String
  pub protocol : String
  pub server : String
  pub alias : String

-- The two implementations of the interface ImageFamily: Image and *imageFamily.
pub data ImageFamily : Type 0 where
  single : Image → ImageFamily
  family : String → GoMap Image → ImageFamily

abbrev pub no_fingerprint : String → String → String → Image
no_fingerprint protocol server alias = record {
  fingerprint = "";
  protocol = protocol;
  server = server;
  alias = alias;
}

-- ImageFamily.For
unfoldable pub image_for : ImageFamily → String → Result Image
unfolding lookup
image_for (single i) server_name = ok i
image_for (family description sources) server_name = elim (lookup server_name sources) [
  | none ↦ err (
      terminal_error (
        errorf
          ("no source for " <> quote description <> " images for server " <> quote server_name)))
  | some img ↦ ok img
]

unfoldable pub ubuntu_image : String → ImageFamily
ubuntu_image version = family "ubuntu" (
    (
      incus,
      no_fingerprint simplestreams default_incus_simplestreams_server
          ("ubuntu/" <> version <> "/cloud"),
    )
    ∷ (lxd, no_fingerprint simplestreams default_lxd_ubuntu_simplestreams_server version)
    ∷ [])

unfoldable pub debian_image : String → ImageFamily
debian_image version = family "debian" (
    (
      incus,
      no_fingerprint simplestreams default_incus_simplestreams_server
          ("debian/" <> version <> "/cloud"),
    )
    ∷ (
      lxd,
      no_fingerprint simplestreams default_lxd_simplestreams_server
          ("debian/" <> version <> "/cloud"),
    )
    ∷ [])

unfoldable pub default_image : String → ImageFamily
default_image image = family "images" (
    (incus, no_fingerprint simplestreams default_incus_simplestreams_server image)
    ∷ (lxd, no_fingerprint simplestreams default_lxd_simplestreams_server image)
    ∷ [])

unfoldable pub capn_image : String → Image
capn_image image = no_fingerprint simplestreams default_simplestreams_server image

unfoldable pub capn_staging_image : String → Image
capn_staging_image image = no_fingerprint simplestreams default_staging_simplestreams_server image

unfoldable pub kindest_node_image : String → Image
kindest_node_image version = no_fingerprint oci docker_hub_server ("kindest/node:" <> version)

-- wellKnownImages[prefix](rest)
unfoldable pub well_known_image : String → String → Option ImageFamily
unfolding ubuntu_image debian_image default_image capn_image capn_staging_image kindest_node_image
well_known_image prefix rest =
    if prefix == "ubuntu"
    then some (ubuntu_image rest)
    else if prefix == "debian"
    then some (debian_image rest)
    else if prefix == "images"
    then some (default_image rest)
    else if prefix == "capi"
    then some (single (capn_image rest))
    else if prefix == "capi-stg"
    then some (single (capn_staging_image rest))
    else if prefix == "kind"
    then some (single (kindest_node_image rest))
    else none

abbrev known : String → Option ImageFamily → Result (Option ImageFamily)
known prefix none = err (
    errorf (
      "unknown image prefix "
      <> quote prefix
      <> ", must be one of [ubuntu debian images capi capi-stg kind]"))
known prefix (some f) = ok (some f)

-- The second half of ParseImage, of a name "prefix:rest".
unfoldable pub parse_parts : String → String → Result (Option ImageFamily)
unfolding well_known_image
parse_parts prefix rest = known prefix (well_known_image prefix rest)

abbrev parse_split : List String → Result (Option ImageFamily)
parse_split (prefix ∷ rest ∷ []) = parse_parts prefix rest
parse_split _ = ok none

-- ParseImage; `none` where the name is not in the form of a well-known image.
unfoldable pub parse_image : String → Result (Option ImageFamily)
unfolding split parse_parts
parse_image image_name = parse_split (split b':' image_name)
