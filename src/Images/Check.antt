-- ===== src/Images/Check.antt =====
-- (*Image).Check of internal/lxc/images.go.
pub mod Found
use cluster_api_provider_inc.Prelude.{
  String, ◌==◌, if◌then◌else◌, none, some, Option, not, Bool, true, false,
}
use cluster_api_provider_inc.Text.{◌<>◌, quote, cut_prefix, contains}
use cluster_api_provider_inc.Errors.{
  GoError, Result, ok, err, errorf, wrapf, terminal_error, error_text, wrap, wrap_terminal,
}
use cluster_api_provider_inc.Action.{Action, ◌>>=◌, ◌>>◌, lift, attempt}
use cluster_api_provider_inc.Images.{Image, oci, simplestreams}

-- The image servers: connecting to a simplestreams server, asking it for the alias of an image of
-- an instance type, and the HEAD request for an OCI image (`crane.Head`; the flag is crane.Insecure).
pub record Registry (W : Type 0) : Type 0 where
  pub connect_simple_streams : String → Action W (Unit {0})
  pub get_image_alias_type : String → String → String → Action W (Unit {0})
  pub head : String → Bool → Action W (Unit {0})

-- The error of a failed HEAD request.
unfoldable pub head_error : String → GoError → GoError
unfolding error_text contains
head_error image_ref e =
    let e' = wrapf ("HEAD request for image " <> quote image_ref <> " failed: ") e "" in
    if not (contains "unexpected status code 4" (error_text e'))
    then terminal_error (wrapf "fatal error: " e' "")
    else e'

abbrev pub head_result : String → Result (Unit {0}) → Result (Unit {0})
head_result image_ref (ok u) = ok u
head_result image_ref (err e) = err (head_error image_ref e)

-- The reference of an OCI image, and whether the connection is insecure.
unfoldable pub image_reference : Image → Option (String × Bool)
unfolding cut_prefix
image_reference i = elim (cut_prefix "https://" i.server) [
  | some server ↦ some (server <> "/" <> i.alias, false)
  | none ↦ elim (cut_prefix "http://" i.server) [
    | some server ↦ some (server <> "/" <> i.alias, true)
    | none ↦ none
  ]
]

module _ {W : Type 0} (registry : Registry W) where
  unfoldable pub check_oci : Image → Option (String × Bool) → Action W (Unit {0})
  unfolding head_error
  check_oci i none = lift (
      err (
        terminal_error (errorf ("server " <> quote i.server <> " is not an HTTP or HTTPS server"))))
  check_oci i (some (image_ref, insecure)) = do
    r ← attempt (registry.head image_ref insecure)
    lift (head_result image_ref r)

  unfoldable pub check_simplestreams : Image → String → Action W (Unit {0})
  check_simplestreams i instance_type = do
    c ← attempt (registry.connect_simple_streams i.server)
    lift (wrap ("failed to connect to simplestreams server " <> quote i.server <> ": ") c)
    a ← attempt (registry.get_image_alias_type i.server instance_type i.alias)
    lift (
        wrap_terminal
          ("no image with alias "
            <> quote i.alias
            <> " found on the simplestreams server "
            <> quote i.server
            <> ": ")
          a)

  unfoldable pub check : Image → String → Action W (Unit {0})
  unfolding check_oci check_simplestreams image_reference
  check i instance_type =
      if i.protocol == simplestreams
      then check_simplestreams i instance_type
      else if i.protocol == oci
      then check_oci i (image_reference i)
      else lift (err (errorf ("check not supported for protocol " <> quote i.protocol)))
