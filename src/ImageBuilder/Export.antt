-- ===== src/ImageBuilder/Export.antt =====
-- ExportImage of internal/exp/image-builder/action/action_image_export.go, with the compression of
-- action_image_export_compress.go.
use cluster_api_provider_inc.Prelude.{ℕ, String, ◌&&◌, List, [], ◌∷◌, not, ◌==◌, if◌then◌else◌}
use cluster_api_provider_inc.Text.{◌<>◌, quote}
use cluster_api_provider_inc.Errors.{Result, ok, err, wrapf}
use cluster_api_provider_inc.Action.{Action, ◌>>=◌, ◌>>◌, pure, lift, attempt, wrapping}
use cluster_api_provider_inc.Images.{incus, virtual_machine}
use cluster_api_provider_inc.Client.{Client, server_of, get_server_name}
use cluster_api_provider_inc.Simplestreams.Archives.{Entry, file, broken}

-- The local files, the archives in them, GetImageFile (which writes a file and gives its size) and
-- exec.LookPath; `run_qemu_img` runs the program at a path with extra variables on two files.
pub record ExportFiles (W : Type 0) : Type 0 where
  pub join_path : String → String → String
  pub create : String → Action W (Unit {0})
  pub remove : String → Action W (Unit {0})
  pub truncate : String → ℕ → Action W (Unit {0})
  pub download : String → String → Action W ℕ
  pub mkdir_temp : Action W String
  pub remove_all : String → Action W (Unit {0})
  pub read_file : String → Action W String
  pub write_file : String → String → Action W (Unit {0})
  pub gunzip : String → Result (List Entry)
  pub write_entry : String → String → String → Action W (Unit {0})
  pub close_archive : String → Action W (Unit {0})
  pub rename : String → String → Action W (Unit {0})
  pub look_path : String → Action W String
  pub run_qemu_img : String → List String → String → String → Action W (Unit {0})

-- The program and the variables that it wants.
abbrev qemu_img : Result String → String × List String
qemu_img (ok path) = (path, [])
qemu_img (err e) = ("/opt/incus/bin/qemu-img", "LD_LIBRARY_PATH=/opt/incus/lib" ∷ [])

module _ {W : Type 0} (files : ExportFiles W) where
  -- defer func() { _ = after() }()
  abbrev pub discarding : {A : Type 0} → Action W (Unit {0}) → Action W A → Action W A
  discarding after m w = ((m w).0, (after (m w).1).1)

  -- qemuCompressImage; the command's error output is left out
  unfoldable pub qemu_compress_image : String → Action W String
  qemu_compress_image raw = do
    dir ← wrapping "failed to create temporary directory: " files.mkdir_temp
    discarding (files.remove_all dir) (do
      let from = files.join_path dir "uncompressed.qcow2"
      let to = files.join_path dir "compressed.qcow2"
      wrapping "failed to write uncompressed rootfs to temporary file: " (files.write_file from raw)
      found ← attempt (files.look_path "qemu-img")
      wrapping "qemu-img convert -c command failed: "
          (files.run_qemu_img (qemu_img found).0 (qemu_img found).1 from to)
      wrapping "failed to read rootfs after compression: " (files.read_file to))

  -- The loop over the archive.
  unfoldable pub copy_entries : String → List Entry → Action W (Unit {0})
  unfolding qemu_compress_image
  copy_entries temp [] = pure tt
  copy_entries temp (broken e ∷ entries) = lift (err (wrapf "failed to read tar.gz archive: " e ""))
  copy_entries temp (file name content ∷ entries) = do
    if not (name == "rootfs.img")
        then wrapping ("failed to copy file " <> quote name <> ": ")
            (files.write_entry temp name content)
        else (do
          compressed ←
              wrapping "failed to compress rootfs.img from tarball: " (qemu_compress_image content)
          wrapping "failed to copy compressed rootfs.img: "
              (files.write_entry temp name compressed))
    copy_entries temp entries

  -- compressUnifiedImageTarballRootfs: the archive is closed after it was moved.
  unfoldable pub compress_rootfs : String → Action W (Unit {0})
  unfolding copy_entries
  compress_rootfs path = do
    dir ← wrapping "failed to create a temporary directory: " files.mkdir_temp
    discarding (files.remove_all dir) (do
      raw ← wrapping "failed to open: " (files.read_file path)
      entries ← wrapping "failed to open tar.gz archive: " (lift (files.gunzip raw))
      let temp = files.join_path dir "image.tar.gz"
      wrapping "failed to open: " (files.create temp)
      discarding (files.close_archive temp) (do
        copy_entries temp entries
        wrapping "failed to move temporary file: " (files.rename temp path)))

  abbrev and_remove : String → Result (Unit {0}) → Action W (Unit {0})
  and_remove output (ok u) w = (ok tt, w)
  and_remove output (err e) w = (err e, (files.remove output w).1)

  -- The deferred function: the output is removed where there is an error.
  abbrev pub removing_on_error : String → Action W (Unit {0}) → Action W (Unit {0})
  removing_on_error output m w = and_remove output (m w).0 (m w).1

  -- ExportImage
  unfoldable pub export_image : {Op : Type 0} → String → String → Client W Op → Action W (Unit {0})
  unfolding compress_rootfs get_server_name
  export_image alias output c = do
    image ←
        wrapping ("failed to find image for alias " <> quote alias <> ": ")
          ((server_of c).get_image_alias alias)
    wrapping "failed to create output file: " (files.create output)
    removing_on_error output (do
      size ← wrapping "failed to download image: " (files.download image.target output)
      wrapping "failed to truncate output file: " (files.truncate output size)
      if get_server_name c == incus && image.kind == virtual_machine
          then wrapping "failed to compress rootfs.img in unified tarball: "
              (compress_rootfs output)
          else pure tt)
