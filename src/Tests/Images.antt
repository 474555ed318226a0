-- ===== src/Tests/Images.antt =====
-- Images by name, and their checks.
use cluster_api_provider_inc.Prelude.{◌⊎◌, ◌≡◌, refl, [], ◌∷◌, arith}
use cluster_api_provider_inc.Text.{join}
use cluster_api_provider_inc.Errors.{ok, succeeds}
use cluster_api_provider_inc.Action.{◌>>=◌}
use cluster_api_provider_inc.Images.{
  Image, parse_parts, parse_image, image_for, ubuntu_image, incus, oci, container,
}
use cluster_api_provider_inc.Images.Laws.{
  is_served, reading, reading_of_parts, parse_image-reading, parse_parts-image_for,
}
use cluster_api_provider_inc.Images.Check.{image_reference, check}
use cluster_api_provider_inc.Images.Check.Found.{HasAlias, HasHead, check_found}
use cluster_api_provider_inc.Tests.Fixtures.{registry}

parse_image-reading_example :
    reading (parse_image "nope:24.04") ≡ reading_of_parts ("nope" ∷ "24.04" ∷ [])
unfolding join
parse_image-reading_example =
    parse_image-reading "nope" ("24.04" ∷ []) (ground arith, (ground arith, tt))

parse_parts-image_for_example :
    succeeds (image_for (ubuntu_image "24.04") incus) ≡ is_served "ubuntu" incus
unfolding parse_parts
parse_parts-image_for_example =
    parse_parts-image_for "24.04" incus "ubuntu" (ubuntu_image "24.04") refl

abbrev oci_image : Image
oci_image = record {
  protocol = oci;
  server = "https://ghcr.io";
  fingerprint = "";
  alias = "kindest/node:v1.32.0";
}

check_found_example :
    HasAlias (registry (ok tt)) oci_image container [] ("head" ∷ [])
    ⊎ HasHead (registry (ok tt)) oci_image [] ("head" ∷ [])
unfolding check image_reference ◌>>=◌
check_found_example = check_found (registry (ok tt)) oci_image container [] ("head" ∷ []) refl
