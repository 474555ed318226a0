-- ===== src/ImageBuilder/Commands.antt =====
-- The commands image-builder kubeadm and image-builder haproxy, cmd/exp/image-builder/cmd.
use cluster_api_provider_inc.Prelude.{
  ℕ, String, Bool, ◌||◌, Option, none, some, List, [], ◌∷◌, ◌==◌, if◌then◌else◌,
}
use cluster_api_provider_inc.Text.{◌<>◌, quote}
use cluster_api_provider_inc.Maps.{GoMap, lookup}
use cluster_api_provider_inc.Errors.{Result, ok, err, errorf, ◌>>=◌, ◌>>◌}
use cluster_api_provider_inc.Images.{ImageFamily, container, virtual_machine}
use cluster_api_provider_inc.Launch.{
  LaunchOptions, no_options, with_instance_type, with_profiles, with_image,
}

-- baseImageInfo
pub record BaseImageInfo : Type 0 where
  pub full_name : String
  pub release_name : String
  pub variant_name : String

-- wellKnownBaseImages
unfoldable pub well_known_base_images : GoMap BaseImageInfo
well_known_base_images =
    (
      "ubuntu:20.04",
      record { full_name = "ubuntu focal"; release_name = "focal"; variant_name = "ubuntu" },
    )
    ∷ (
      "ubuntu:22.04",
      record { full_name = "ubuntu jammy"; release_name = "jammy"; variant_name = "ubuntu" },
    )
    ∷ (
      "ubuntu:24.04",
      record { full_name = "ubuntu noble"; release_name = "noble"; variant_name = "ubuntu" },
    )
    ∷ (
      "debian:12",
      record { full_name = "debian bookworm"; release_name = "bookworm"; variant_name = "debian" },
    )
    ∷ (
      "debian:13",
      record { full_name = "debian trixie"; release_name = "trixie"; variant_name = "debian" },
    )
    ∷ []

abbrev info_or_zero : Option BaseImageInfo → BaseImageInfo
info_or_zero none = record { full_name = ""; release_name = ""; variant_name = "" }
info_or_zero (some i) = i

-- wellKnownBaseImages[name]
unfoldable pub base_image_info : String → BaseImageInfo
unfolding well_known_base_images lookup
base_image_info name = info_or_zero (lookup name well_known_base_images)

-- The switch over --base-image in PreRunE of both commands.
unfoldable pub check_base_image : String → Result String
check_base_image base_image =
    if base_image == "debian"
    then ok "debian:13"
    else if base_image == "ubuntu"
    then ok "ubuntu:24.04"
    else if base_image == "debian:12"
        || base_image == "debian:13"
        || base_image == "ubuntu:22.04"
        || base_image == "ubuntu:24.04"
    then ok base_image
    else err (
        errorf (
          "invalid value for --base-image argument "
          <> quote base_image
          <> ", must be one of [ubuntu:22.04, ubuntu:24.04, debian:12, debian:13]"))

-- The switch over --instance-type in PreRunE of kubeadm.
unfoldable pub check_instance_type : String → Result (Unit {0})
check_instance_type instance_type =
    if instance_type == container || instance_type == virtual_machine
    then ok tt
    else err (
        errorf (
          "invalid value for --instance-type argument "
          <> quote instance_type
          <> ", must be one of [container, virtual-machine]"))

-- The flags of both commands.
pub record BuildFlags : Type 0 where
  pub config_file : String
  pub config_remote_name : String
  pub base_image : String
  pub instance_name : String
  pub instance_profiles : List String
  pub instance_type : String
  pub validation_instance_name : String
  pub image_alias : String
  pub skip_stages : List String
  pub only_stages : List String
  pub dry_run : Bool
  pub instance_stop_grace_period : ℕ
  pub output_file : String
  pub output_manifest_file : String
  pub kubernetes_version : String
  pub pull_extra_images : List String

-- PreRunE of kubeadm and of haproxy: the flags with their defaults.
unfoldable pub prepare_kubeadm : BuildFlags → Result BuildFlags
unfolding check_instance_type check_base_image
prepare_kubeadm flags = do
  check_instance_type flags.instance_type
  base_image ← check_base_image flags.base_image
  ok (record flags {
    base_image = base_image;
    image_alias =
        if flags.image_alias == ""
        then "kubeadm-" <> flags.kubernetes_version <> "-" <> flags.instance_type
        else flags.image_alias;
  })

unfoldable pub prepare_haproxy : BuildFlags → Result BuildFlags
unfolding check_base_image base_image_info
prepare_haproxy flags = do
  base_image ← check_base_image flags.base_image
  ok (record flags {
    base_image = base_image;
    image_alias =
        if flags.image_alias == ""
        then "haproxy-" <> (base_image_info base_image).variant_name
        else flags.image_alias;
  })

-- WithImage of an interface value that may be nil
abbrev with_parsed : Option ImageFamily → LaunchOptions → LaunchOptions
with_parsed none o = record o { image = none }
with_parsed (some f) o = with_image f o

-- The options of the builder instance.
unfoldable pub builder_options : String → List String → Option ImageFamily → LaunchOptions
unfolding with_instance_type with_profiles with_image
builder_options instance_type profiles image =
    with_parsed image (with_profiles profiles (with_instance_type instance_type no_options))
