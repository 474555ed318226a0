-- ===== src/Client/Launching.antt =====
-- WaitForLaunchInstance of internal/lxc/client_instances.go and tryFindInstanceCreateOperation of
-- client_instances_util.go.
pub mod Laws
use cluster_api_provider_inc.Prelude.{
  String, Bool, true, false, not, ◌&&◌, Option, none, some, List, [], ◌∷◌, is_empty, ◌==◌,
  if◌then◌else◌,
}
use cluster_api_provider_inc.Text.{◌<>◌, quote, split, replace_all}
use cluster_api_provider_inc.Maps.{GoMap, insert}
use cluster_api_provider_inc.Errors.{Result, ok, err, errorf, wrap}
use cluster_api_provider_inc.Action.{Action, ◌>>=◌, ◌>>◌, lift, attempt, wrapping, pure}
use cluster_api_provider_inc.Images.{Image, ImageFamily, single, family}
use cluster_api_provider_inc.Launch.{
  LaunchOptions, FileCreator, FileArgs, file_path, file_action, file_args,
}
use cluster_api_provider_inc.Launch.Complete.{complete}
use cluster_api_provider_inc.Incus.{
  InstanceServer, InstanceState, InstanceSource, InstancesPost, Operation, Template,
}
use cluster_api_provider_inc.Client.{Client, server_of, get_server_name, wait_for_operation}
use cluster_api_provider_inc.Client.Start.{wait_for_start_instance}

-- The last element that is not "", or "/" if there is none.
abbrev last_part : String → List String → String
last_part found [] = found
last_part found (p ∷ parts) = last_part (if p == "" then found else p) parts

-- filepath.Base
unfoldable pub base : String → String
unfolding split
base path = if path == "" then "." else last_part "/" (split b'/' path)

-- The operations that create the instance with the given path.
unfoldable pub is_create_operation : String → Operation → Bool
is_create_operation instance_path op =
    op.class == "task" && op.description == "Creating instance" && only op.instances
  where
    only : List String → Bool
    only (i ∷ []) = i == instance_path
    only _ = false

unfoldable pub find_create_operation : String → List Operation → Option Operation
unfolding is_create_operation
find_create_operation instance_path [] = none
find_create_operation instance_path (op ∷ ops) =
    let rest = find_create_operation instance_path ops in
    if is_create_operation instance_path op then some op else rest

-- Image.InstanceSource
unfoldable pub instance_source : Image → InstanceSource
instance_source i = record {
  kind = "image";
  protocol = i.protocol;
  server = i.server;
  alias = i.alias;
  fingerprint = i.fingerprint;
}

-- opts.image.(Image).InstanceSource(), where the failure stands for the panic of the assertion
unfoldable pub source_of : Option ImageFamily → Result InstanceSource
unfolding instance_source
source_of (some (single i)) = ok (instance_source i)
source_of (some (family description sources)) = err (errorf "panic: interface conversion")
source_of none = err (errorf "panic: interface conversion")

-- strings.ReplaceAll for each pair of a map
unfoldable pub replace_each : GoMap String → String → String
unfolding replace_all
replace_each [] contents = contents
replace_each ((old, new) ∷ replacer) contents = replace_each replacer (replace_all old new contents)

module _ {W Op : Type 0} (c : Client W Op) (name : String) where
  abbrev found_operation : Option Operation → Action W (Option Op)
  found_operation none = pure none
  found_operation (some op) = do
    handle ←
        wrapping ("failed to GetOperation(" <> op.id <> "): ") ((server_of c).raw_operation op.id)
    pure (some handle)

  -- tryFindInstanceCreateOperation
  unfoldable pub try_find_instance_create_operation : Action W (Option Op)
  unfolding find_create_operation
  try_find_instance_create_operation = do
    ops ← wrapping "failed to GetOperations: " (server_of c).get_operations
    found_operation (find_create_operation ("/1.0/instances/" <> name) ops)

  -- The request that creates the instance, from options that were completed.
  unfoldable pub instances_post : LaunchOptions → Result InstancesPost
  unfolding source_of
  instances_post o = post (source_of o.image)
    where
      post : Result InstanceSource → Result InstancesPost
      post (err e) = err e
      post (ok source) = ok (record {
        name = name;
        source = source;
        kind = o.instance_type;
        instance_type = o.flavor;
        config = o.config;
        devices = o.devices;
        profiles = o.profiles;
      })

  -- Use the operation that is underway, or else create the instance.
  abbrev pub create_unless_found : LaunchOptions → Result (Option Op) → Action W Op
  create_unless_found o (ok (some op)) = pure op
  create_unless_found o _ = do
    o' ← lift (wrap "failed to complete launch options: " (complete o (get_server_name c)))
    post ← lift (instances_post o')
    (server_of c).create_instance post

  -- The function that is passed to WaitForOperation.
  unfoldable pub create_instance_operation : LaunchOptions → Action W Op
  unfolding try_find_instance_create_operation instances_post
  create_instance_operation o = do
    found ← attempt try_find_instance_create_operation
    create_unless_found o found

  -- The loop over the instance templates.
  unfoldable pub create_templates : GoMap String → GoMap Template → Action W (GoMap Template)
  unfolding base
  create_templates [] metadata = pure metadata
  create_templates ((path, contents) ∷ templates) metadata = do
    let template_name = base path <> ".tpl"
    wrapping ("failed to CreateInstanceTemplateFile(" <> template_name <> "): ")
        ((server_of c).create_instance_template_file name template_name contents)
    create_templates templates (
        insert path (record { when = "create" ∷ []; create_only = true; template = template_name })
          metadata)

  unfoldable pub inject_templates : GoMap String → Action W (Unit {0})
  unfolding create_templates
  inject_templates [] = pure tt
  inject_templates (t ∷ templates) = do
    metadata ← wrapping "failed to GetInstanceMetadata: " ((server_of c).get_instance_metadata name)
    metadata' ← create_templates (t ∷ templates) metadata
    wrapping "failed to UpdateInstanceMetadata: "
        ((server_of c).update_instance_metadata name metadata')

  unfoldable pub create_instance_files : List FileCreator → Action W (Unit {0})
  unfolding file_path file_args file_action
  create_instance_files [] = pure tt
  create_instance_files (file ∷ files) = do
    wrapping ("failed to " <> file_action file <> ": ")
        ((server_of c).create_instance_file name (file_path file) (file_args file))
    create_instance_files files

  -- Write a file whose text was changed by the replacements.
  unfoldable pub rewrite_file : String → GoMap String → FileArgs → Action W (Unit {0})
  unfolding replace_each
  rewrite_file path replacer file =
      let contents = replace_each replacer file.content in
      if contents == file.content
      then pure tt
      else wrapping
          ("failed to replace text in " <> quote path <> ": failed to CreateInstanceFile: ")
          ((server_of c).create_instance_file name path
            (record file { content = contents; write_mode = "overwrite" }))

  unfoldable pub replace_in_files : GoMap (GoMap String) → Action W (Unit {0})
  unfolding rewrite_file
  replace_in_files [] = pure tt
  replace_in_files ((path, replacer) ∷ replacements) = do
    file ←
        wrapping ("failed to replace text in " <> quote path <> ": failed to GetInstanceFile: ")
          ((server_of c).get_instance_file name path)
    rewrite_file path replacer file
    replace_in_files replacements

  -- Everything that is done for an instance that did not exist.
  unfoldable pub create_and_start : LaunchOptions → Action W (List String)
  unfolding create_instance_operation inject_templates create_instance_files replace_in_files
  create_and_start o = do
    wait_for_operation c "CreateInstance" (create_instance_operation o)
    inject_templates o.instance_templates
    create_instance_files o.create_files
    replace_in_files o.replacements
    wait_for_start_instance c name

  abbrev pub start_or_create : LaunchOptions → Result InstanceState → Action W (List String)
  start_or_create o (ok state) = wait_for_start_instance c name
  start_or_create o (err e) = create_and_start o

  unfoldable pub wait_for_launch_instance : LaunchOptions → Action W (List String)
  unfolding create_and_start wait_for_operation wait_for_start_instance
  wait_for_launch_instance o = do
    r ← attempt ((server_of c).get_instance_state name)
    start_or_create o r
