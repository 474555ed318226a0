-- ===== src/OciImage.antt =====
-- Names of OCI images, internal/utils/oci_image.go. The parser of references is that of the library
-- go-containerregistry, and a parameter.
pub mod Laws
use cluster_api_provider_inc.Prelude.{String, none, some, ◌==◌, if◌then◌else◌}
use cluster_api_provider_inc.Text.{◌<>◌, cut_prefix, cut_before, cut_after}
use cluster_api_provider_inc.Errors.{Result, ok, wrap, ◌>>=◌}
use cluster_api_provider_inc.Images.{Image, oci}

-- name.Reference: Name(), Context().RegistryStr() and Context().Scheme()
pub record Reference : Type 0 where
  pub name : String
  pub registry : String
  pub scheme : String

-- OCIImage
pub record OciImage : Type 0 where
  pub raw : String
  pub ref : Reference

-- ParseOCIImage, with name.ParseReference
unfoldable pub parse_oci_image : (String → Result Reference) → String → Result OciImage
parse_oci_image parse_reference image = do
  ref ← wrap "failed to parse reference: " (parse_reference image)
  ok (record { raw = image; ref = ref })

-- Server
unfoldable pub server : OciImage → String
server i =
    i.ref.scheme
    <> "://"
    <> (if i.ref.registry == "index.docker.io" then "docker.io" else i.ref.registry)

-- Alias
unfoldable pub alias : OciImage → String
unfolding cut_prefix
alias i = elim (cut_prefix (i.ref.registry <> "/") i.ref.name) [ none ↦ i.ref.name | some a ↦ a ]

-- Tag
unfoldable pub tag : OciImage → String
unfolding cut_before cut_after
tag i = cut_before b'@' (cut_after b':' i.raw)

-- Digest
unfoldable pub digest : OciImage → String
unfolding cut_after
digest i = cut_after b'@' i.raw

-- lxc.Image{Protocol: lxc.OCI, Server: image.Server(), Alias: image.Alias()}
unfoldable pub oci_source : OciImage → Image
unfolding server alias
oci_source i = record { fingerprint = ""; protocol = oci; server = server i; alias = alias i }
