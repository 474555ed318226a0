-- ===== src/ImageBuilder/Publish.antt =====
-- PublishImage of internal/exp/image-builder/action/action_image_publish.go.
use cluster_api_provider_inc.Prelude.{
  false, true, ℕ, String, Bool, ◌&&◌, some, [], ◌∷◌, ◌==◌, ltb, if◌then◌else◌,
}
use cluster_api_provider_inc.Text.{◌<>◌, quote}
use cluster_api_provider_inc.Maps.{GoMap}
use cluster_api_provider_inc.Errors.{Result, ok, err}
use cluster_api_provider_inc.Action.{Action, ◌>>=◌, ◌>>◌, pure, attempt, wrapping}
use cluster_api_provider_inc.Images.{container}
use cluster_api_provider_inc.Incus.{ImageAlias, InstanceInfo, ImagesPost}
use cluster_api_provider_inc.Client.{Client, server_of, wait_for_operation}

-- PublishImageInfo
pub record PublishImageInfo : Type 0 where
  pub name : String
  pub operating_system : String
  pub release : String
  pub variant : String
  pub lxc_require_cgroupv2 : Bool

-- time.Now, the serial that is printed of a time, AddDate(10, 0, 0) and runtime.GOARCH
pub record Clock (W : Type 0) : Type 0 where
  pub now : Action W ℕ
  pub serial : ℕ → String
  pub in_ten_years : ℕ → ℕ
  pub architecture : String

-- The properties of the image.
unfoldable pub image_properties : String → String → PublishImageInfo → InstanceInfo → GoMap String
image_properties architecture serial info instance_info =
    ("architecture", architecture)
    ∷ ("name", info.name)
    ∷ ("description", info.name <> " (" <> serial <> ")")
    ∷ ("os", info.operating_system)
    ∷ ("release", info.release)
    ∷ ("variant", info.variant)
    ∷ ("serial", serial)
    ∷ (if info.lxc_require_cgroupv2 && instance_info.kind == container
        then ("requirements.cgroupv2", "true") ∷ []
        else [])

unfoldable pub publish_post : String → String → GoMap String → ℕ → ImagesPost
publish_post instance_name alias properties expires_at = record {
  source = record {
    image = record { alias = ""; protocol = ""; server = "" };
    kind = "instance";
    fingerprint = "";
    name = instance_name;
  };
  properties = properties;
  is_public = true;
  expires_at = some expires_at;
  aliases = alias ∷ [];
}

-- Whether the image of an alias is newer than the instance was last used.
abbrev newer : InstanceInfo → Result ℕ → Bool
newer i (ok created_at) = ltb i.last_used_at created_at
newer i (err e) = false

module _ {W Op : Type 0} (clock : Clock W) (c : Client W Op) where
  -- Create the image.
  unfoldable pub publish : String → String → PublishImageInfo → InstanceInfo → Action W (Unit {0})
  unfolding wait_for_operation image_properties publish_post
  publish instance_name alias info i = do
    now ← clock.now
    later ← clock.now
    wait_for_operation c "PublishImage" (
        (server_of c).create_image (
          publish_post instance_name alias
            (image_properties clock.architecture (clock.serial now) info i)
            (clock.in_ten_years later)))

  -- Delete the existing alias, unless its image is newer.
  abbrev pub replace_alias :
      String → InstanceInfo → Action W (Unit {0}) → Result ℕ → Action W (Unit {0})
  replace_alias alias i go created_at = if newer i created_at then pure tt else (do
    wrapping ("failed to delete existing image alias " <> quote alias <> ": ")
        ((server_of c).delete_image_alias alias)
    go)

  abbrev pub with_alias :
      String → InstanceInfo → Action W (Unit {0}) → Result ImageAlias → Action W (Unit {0})
  with_alias alias i go (err e) = go
  with_alias alias i go (ok entry) = do
    created_at ← attempt ((server_of c).get_image_created_at entry.target)
    replace_alias alias i go created_at

  -- PublishImage
  unfoldable pub publish_image : String → String → PublishImageInfo → Action W (Unit {0})
  unfolding publish
  publish_image instance_name alias info = do
    i ← wrapping "failed to get instance: " ((server_of c).get_instance instance_name)
    found ← attempt ((server_of c).get_image_alias alias)
    with_alias alias i (publish instance_name alias info i) found
