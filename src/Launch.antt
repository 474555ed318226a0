-- ===== src/Launch.antt =====
-- LaunchOptions of internal/lxc/launch_options.go and launch_options_files.go.
pub mod Complete
pub mod Laws
use cluster_api_provider_inc.Prelude.{
  ℕ, String, Bool, true, false, not, ◌||◌, Option, none, some, List, [], ◌∷◌, ◌++◌, map, ◌==◌,
  if◌then◌else◌,
}
use cluster_api_provider_inc.Text.{◌<>◌, quote}
use cluster_api_provider_inc.Maps.{GoMap, copy}
use cluster_api_provider_inc.Images.{Image, ImageFamily, single, family}

-- The implementations of the interface instanceFileCreator: createFile, createDirectory,
-- createSymlink and appendTextToFile.
pub data FileCreator : Type 0 where
  create_file : String → String → FileCreator
  create_directory : String → FileCreator
  create_symlink : String → String → FileCreator
  append_text_to_file : String → String → FileCreator

-- incus.InstanceFileArgs, with the zero value for a field that is not set
pub record FileArgs : Type 0 where
  pub content : String
  pub kind : String
  pub write_mode : String
  pub mode : ℕ
  pub uid : ℕ
  pub gid : ℕ

unfoldable pub file_path : FileCreator → String
file_path (create_file path contents) = path
file_path (create_directory path) = path
file_path (create_symlink path target) = path
file_path (append_text_to_file path contents) = path

unfoldable pub file_action : FileCreator → String
file_action (create_file path contents) = "CreateInstanceFile(" <> quote path <> ")"
file_action (create_directory path) = "CreateDirectory(" <> quote path <> ")"
file_action (create_symlink path target) =
    "CreateSymlink(" <> quote path <> " => " <> quote target <> ")"
file_action (append_text_to_file path contents) = "AppendToFile(" <> quote path <> ")"

abbrev plain_args : FileArgs
plain_args = record { content = ""; kind = ""; write_mode = ""; mode = 0; uid = 0; gid = 0 }

unfoldable pub file_args : FileCreator → FileArgs
file_args (create_file path contents) = record plain_args { content = contents; mode = 0o644 }
file_args (create_directory path) = record plain_args { kind = "directory"; mode = 0o755 }
file_args (create_symlink path target) = record plain_args {
  kind = "symlink";
  content = target;
  mode = 0o644;
}
file_args (append_text_to_file path contents) = record plain_args {
  kind = "file";
  content = contents;
  write_mode = "append";
}

-- LaunchOptions; `image` is `none` where the interface value is nil.
pub record LaunchOptions : Type 0 where
  pub instance_templates : GoMap String
  pub create_files : List FileCreator
  pub replacements : GoMap (GoMap String)
  pub devices : GoMap (GoMap String)
  pub config : GoMap String
  pub profiles : List String
  pub image : Option ImageFamily
  pub flavor : String
  pub instance_type : String
  pub unix_socket : Bool

-- &LaunchOptions{}
abbrev pub no_options : LaunchOptions
no_options = record {
  instance_templates = [];
  create_files = [];
  replacements = [];
  devices = [];
  config = [];
  profiles = [];
  image = none;
  flavor = "";
  instance_type = "";
  unix_socket = false;
}

-- maps.Clone into a nil map, maps.Copy into any other
unfoldable pub merge {ℓ} : {V : Type ℓ} → GoMap V → GoMap V → GoMap V
unfolding copy
merge [] new = new
merge (entry ∷ m) new = copy (entry ∷ m) new

unfoldable pub with_instance_templates : GoMap String → LaunchOptions → LaunchOptions
unfolding merge
with_instance_templates new o = record o { instance_templates = merge o.instance_templates new }

unfoldable pub with_create_files : GoMap String → LaunchOptions → LaunchOptions
with_create_files new o = record o {
  create_files = o.create_files ++ map (λ p. create_file p.0 p.1) new;
}

unfoldable pub with_append_to_files : GoMap String → LaunchOptions → LaunchOptions
with_append_to_files new o = record o {
  create_files = o.create_files ++ map (λ p. append_text_to_file p.0 p.1) new;
}

unfoldable pub with_symlinks : GoMap String → LaunchOptions → LaunchOptions
with_symlinks new o = record o {
  create_files = o.create_files ++ map (λ p. create_symlink p.0 p.1) new;
}

unfoldable pub with_directories : List String → LaunchOptions → LaunchOptions
with_directories new o = record o { create_files = o.create_files ++ map create_directory new }

unfoldable pub with_replacements : GoMap (GoMap String) → LaunchOptions → LaunchOptions
unfolding merge
with_replacements new o = record o { replacements = merge o.replacements new }

unfoldable pub with_devices : GoMap (GoMap String) → LaunchOptions → LaunchOptions
unfolding merge
with_devices new o = record o { devices = merge o.devices new }

unfoldable pub with_config : GoMap String → LaunchOptions → LaunchOptions
unfolding merge
with_config new o = record o { config = merge o.config new }

unfoldable pub with_profiles : List String → LaunchOptions → LaunchOptions
with_profiles new o = record o { profiles = o.profiles ++ new }

-- Whether WithImage takes the image: not an Image with neither alias nor fingerprint.
unfoldable pub is_usable : ImageFamily → Bool
is_usable (single i) = not (i.alias == "") || not (i.fingerprint == "")
is_usable (family description sources) = true

unfoldable pub with_image : ImageFamily → LaunchOptions → LaunchOptions
unfolding is_usable
with_image image o = if is_usable image then record o { image = some image } else o

unfoldable pub with_flavor : String → LaunchOptions → LaunchOptions
with_flavor v o = record o { flavor = v }

unfoldable pub with_instance_type : String → LaunchOptions → LaunchOptions
with_instance_type v o = record o { instance_type = v }

unfoldable pub with_unix_socket : Bool → LaunchOptions → LaunchOptions
with_unix_socket v o = record o { unix_socket = v }
