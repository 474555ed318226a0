-- ===== src/Simplestreams/Import.antt =====
-- GetOrCreateIndex of index.go, and ImportImage of import.go with the two imports, which change the
-- index in memory and the files. The world is the index beside the world of the files.
pub mod Invariant
pub mod Written
use cluster_api_provider_inc.Prelude.{
  ℕ, String, Bool, not, Option, none, some, List, [], ◌∷◌, ◌==◌, if◌then◌else◌,
}
use cluster_api_provider_inc.Text.{◌<>◌, quote, has_suffix}
use cluster_api_provider_inc.Maps.{get}
use cluster_api_provider_inc.Errors.{Result, ok, err, errorf}
use cluster_api_provider_inc.Action.{Action, attempt, ◌>>=◌, ◌>>◌, pure, lift, wrapping}
use cluster_api_provider_inc.Images.{container, virtual_machine}
use cluster_api_provider_inc.Simplestreams.{
  Stream, Products, Index, Metadata, new_stream, new_products, update,
}
use cluster_api_provider_inc.Simplestreams.Archives.{
  Entry, Codec, container_metadata, container_items, virtual_machine_parts, virtual_machine_info,
  virtual_machine_items,
}

-- The files: os.Getwd, os.MkdirAll, os.ReadFile (`none` for a file that does not exist), os.WriteFile,
-- the content of a file and what is in such a tar.gz archive, os.Stat for its size, os.Create,
-- filepath.Dir, the JSON encoding, and the extraction of a
-- zip archive with its cleanup.
pub record Files (W : Type 0) : Type 0 where
  pub getwd : Action W String
  pub mkdir_all : String → Action W (Unit {0})
  pub read_file : String → Action W (Option String)
  pub write_file : String → String → Action W (Unit {0})
  pub open_file : String → Action W String
  pub gunzip : String → Result (List Entry)
  pub stat : String → Action W ℕ
  pub create : String → Action W (Unit {0})
  pub dir : String → String
  pub parse_stream : String → Result Stream
  pub parse_products : String → Result Products
  pub stream_json : Stream → Result String
  pub products_json : Products → Result String
  pub open_zip : String → Action W (List String)
  pub extract : String → String → Action W String
  pub remove_all : String → Action W (Unit {0})

-- containerImageInfo
pub record ContainerInfo : Type 0 where
  pub sha256 : String
  pub size : ℕ

abbrev parse_or {ℓ} : {A : Type ℓ} → A → (String → Result A) → Option String → Result A
parse_or default parse none = ok default
parse_or default parse (some json) = parse json

module _ {W : Type 0} (files : Files W) (codec : Codec) where
  -- GetOrCreateIndex
  unfoldable pub get_or_create_index : String → Action W Index
  get_or_create_index dir = do
    root ←
        if dir == ""
        then wrapping "failed to retrieve current directory: " files.getwd
        else pure dir
    wrapping "failed to create streams/v1 directory: "
        (files.mkdir_all (codec.join_path (root ∷ "streams" ∷ "v1" ∷ [])))
    wrapping "failed to create images directory: "
        (files.mkdir_all (codec.join_path (root ∷ "images" ∷ [])))
    index_json ←
        wrapping "failed to read streams/v1/index.json: "
          (files.read_file (codec.join_path (root ∷ "streams" ∷ "v1" ∷ "index.json" ∷ [])))
    stream ←
        wrapping "failed to parse streams/v1/index.json: "
          (lift (parse_or new_stream files.parse_stream index_json))
    products_json ←
        wrapping "failed to read streams/v1/images.json: "
          (files.read_file (codec.join_path (root ∷ "streams" ∷ "v1" ∷ "images.json" ∷ [])))
    products ←
        wrapping "failed to parse streams/v1/images.json: "
          (lift (parse_or new_products files.parse_products products_json))
    pure (record { stream = stream; products = products; root_dir = root })

  -- getContainerImageInfo
  unfoldable pub get_container_image_info : String → Action W ContainerInfo
  get_container_image_info path = do
    size ← wrapping "failed to stat: " (files.stat path)
    content ← wrapping "failed to open: " (files.open_file path)
    pure (record { sha256 = codec.sha256 content; size = size })

  -- copyFile
  unfoldable pub copy_file : String → String → Action W (Unit {0})
  copy_file source destination = do
    content ← wrapping "failed to open source: " (files.open_file source)
    wrapping "failed to create directory for destination: "
        (files.mkdir_all (files.dir destination))
    wrapping "failed to open destination: " (files.create destination)
    wrapping "failed to copy file data: " (files.write_file destination content)

  -- An action on the files, which leaves the index alone.
  unfoldable pub on_files : {A : Type 0} → Action W A → Action (Index × W) A
  on_files m (i, w) = ((m w).0, (i, (m w).1))

  -- The index, and a change of it.
  unfoldable pub current : Action (Index × W) Index
  current (i, w) = (ok i, (i, w))

  unfoldable pub change : (Index → Index) → Action (Index × W) (Unit {0})
  change f (i, w) = (ok tt, (f i, w))

  -- filepath.Join(i.rootDir, target)
  abbrev in_root : Index → String → String
  in_root i target = codec.join_path (i.root_dir ∷ target ∷ [])

  unfoldable pub target_of : Metadata → String → String
  unfolding get
  target_of m name = codec.join_path (
      "images"
      ∷ get m.properties "os"
      ∷ get m.properties "release"
      ∷ get m.properties "architecture"
      ∷ name
      ∷ [])

  -- The two files of the index are written at the end of every import.
  unfoldable pub write_index : Action (Index × W) (Unit {0})
  unfolding on_files current
  write_index = do
    i ← current
    index_json ←
        wrapping "failed to encode new streams/v1/index.json: " (lift (files.stream_json i.stream))
    wrapping "failed to write streams/v1/index.json: " (
        on_files (
          files.write_file (codec.join_path (i.root_dir ∷ "streams" ∷ "v1" ∷ "index.json" ∷ []))
            index_json))
    products_json ←
        wrapping "failed to encode new streams/v1/images.json: "
          (lift (files.products_json i.products))
    wrapping "failed to write streams/v1/images.json: " (
        on_files (
          files.write_file (codec.join_path (i.root_dir ∷ "streams" ∷ "v1" ∷ "images.json" ∷ []))
            products_json))

  -- importContainerUnifiedTarball
  unfoldable pub import_container :
      String → List String → Bool → Bool → Action (Index × W) (Unit {0})
  unfolding on_files current change get_container_image_info copy_file container_metadata
      container_items target_of update write_index
  import_container image_path aliases incus lxd = do
    raw ← wrapping "failed to open: " (on_files (files.open_file image_path))
    entries ← wrapping "failed to open tar.gz archive: " (lift (files.gunzip raw))
    m ← lift (container_metadata codec entries)
    info ←
        wrapping "failed to retrieve image information: "
          (on_files (get_container_image_info image_path))
    let target = target_of m (info.sha256 <> ".incus_combined.tar.gz")
    change (
        update m (codec.format_time m.creation_date) aliases
          (container_items incus lxd info.sha256 info.size target))
    i ← current
    wrapping "failed to copy image file: " (on_files (copy_file image_path (in_root i target)))
    write_index

  -- importVirtualMachineUnifiedTarball
  unfoldable pub import_virtual_machine :
      String → List String → Bool → Bool → Action (Index × W) (Unit {0})
  unfolding on_files current change virtual_machine_parts virtual_machine_info virtual_machine_items
      target_of update write_index
  import_virtual_machine image_path aliases incus lxd = do
    raw ← wrapping "failed to open: " (on_files (files.open_file image_path))
    entries ← wrapping "failed to open tar.gz archive: " (lift (files.gunzip raw))
    parts ← lift (virtual_machine_parts codec entries)
    let m = parts.1.metadata
    let info = virtual_machine_info codec parts.0 parts.1.rootfs
    let metadata_target = target_of m (info.meta_sha256 <> ".incus.tar.xz")
    let rootfs_target = target_of m (info.meta_sha256 <> ".disk-kvm.img")
    i ← current
    wrapping "failed to create images directory: "
        (on_files (files.mkdir_all (in_root i (files.dir rootfs_target))))
    change (
        update m (codec.format_time m.creation_date) aliases
          (virtual_machine_items incus lxd info rootfs_target metadata_target))
    wrapping "failed to write rootfs: "
        (on_files (files.write_file (in_root i rootfs_target) parts.1.rootfs))
    wrapping "failed to write metadata: "
        (on_files (files.write_file (in_root i metadata_target) parts.0))
    write_index

  -- The only file of a zip archive, if it is a tarball.
  abbrev only_tarball : Result (List String) → Option String
  only_tarball (ok (name ∷ [])) = if has_suffix ".tar.gz" name then some name else none
  only_tarball _ = none

  abbrev extract_if_some : String → Option String → Action W (Option String)
  extract_if_some path none = pure none
  extract_if_some path (some name) = do tarball ← files.extract path name; pure (some tarball)

  -- maybeExtractUnifiedTarballFromZIP, `none` where nothing is done
  unfoldable pub maybe_extract : String → Action W (Option String)
  unfolding has_suffix
  maybe_extract path =
      if not (has_suffix ".zip" path)
      then pure none
      else (do r ← attempt (files.open_zip path); extract_if_some path (only_tarball r))

  -- The switch over the type of the image.
  unfoldable pub import_path :
      String → String → List String → Bool → Bool → Action (Index × W) (Unit {0})
  unfolding import_container import_virtual_machine
  import_path image_type image_path aliases incus lxd =
      if image_type == container
      then import_container image_path aliases incus lxd
      else if image_type == virtual_machine
      then import_virtual_machine image_path aliases incus lxd
      else lift (err (errorf ("unknown image type " <> quote image_type)))

  -- defer func() { _ = cleanup() }()
  abbrev pub discarding :
      Action W (Unit {0}) → Action (Index × W) (Unit {0}) → Action (Index × W) (Unit {0})
  discarding after m s = ((m s).0, ((m s).1.0, (after (m s).1.1).1))

  abbrev pub import_extracted :
      String
      → Option String
      → (String → Action (Index × W) (Unit {0}))
      → Action (Index × W) (Unit {0})
  import_extracted path none go = go path
  import_extracted path (some tarball) go =
      discarding (files.remove_all (files.dir tarball)) (go tarball)

  -- ImportImage
  unfoldable pub import_image :
      String → String → List String → Bool → Bool → Action (Index × W) (Unit {0})
  unfolding on_files maybe_extract import_path
  import_image image_type image_path aliases incus lxd = do
    extracted ←
        wrapping "failed to extract unified tarball from archive: "
          (on_files (maybe_extract image_path))
    import_extracted image_path extracted (λ path. import_path image_type path aliases incus lxd)
