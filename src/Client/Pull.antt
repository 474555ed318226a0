-- ===== src/Client/Pull.antt =====
-- PullImage of internal/lxc/client_image_pull.go, with ImageSource of images.go.
use cluster_api_provider_inc.Prelude.{false, none, []}
use cluster_api_provider_inc.Action.{Action, ◌>>=◌, lift, wrapping}
use cluster_api_provider_inc.Images.{Image, ImageFamily, image_for}
use cluster_api_provider_inc.Incus.{ImageSource, ImagesPost}
use cluster_api_provider_inc.Client.{Client, server_of, get_server_name, wait_for_operation}

-- ImageSource
unfoldable pub image_source : Image → ImageSource
image_source i = record { protocol = i.protocol; server = i.server; alias = i.alias }

unfoldable pub pull_post : Image → ImagesPost
unfolding image_source
pull_post i = record {
  source = record { image = image_source i; kind = "image"; fingerprint = ""; name = "" };
  properties = [];
  is_public = false;
  expires_at = none;
  aliases = [];
}

-- PullImage
unfoldable pub pull_image : {W Op : Type 0} → Client W Op → ImageFamily → Action W (Unit {0})
unfolding image_for wait_for_operation pull_post get_server_name
pull_image c f = do
  image ← wrapping "unsupported image: " (lift (image_for f (get_server_name c)))
  wait_for_operation c "PullImage" ((server_of c).create_image (pull_post image))
