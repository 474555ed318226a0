-- ===== src/Simplestreams/Archives.antt =====
-- What an import reads of an image: the loops over the archive of import_container.go and
-- import_virtual_machine.go, the sums of util.go and the items that are added.
use cluster_api_provider_inc.Prelude.{ℕ, String, Bool, List, [], ◌∷◌, ◌++◌, ◌==◌, if◌then◌else◌}
use cluster_api_provider_inc.Text.{◌<>◌, has_prefix}
use cluster_api_provider_inc.Errors.{GoError, Result, ok, err, errorf, wrapf, wrap, ◌>>=◌}
use cluster_api_provider_inc.Simplestreams.{Metadata, no_metadata, Item}

-- What tar.Reader.Next gives until the end of the archive: a file with its content, or an error.
pub data Entry : Type 0 where
  file : String → String → Entry
  broken : GoError → Entry

-- The libraries: YAML, the writer of archives (of files with their contents), SHA-256 in hexadecimal,
-- the size of a content, filepath.Join, and time.Unix(t, 0).Format("200601021504").
pub record Codec : Type 0 where
  pub unmarshal : String → Result Metadata
  pub tar_gz : List (String × String) → Result String
  pub sha256 : String → String
  pub size : String → ℕ
  pub join_path : List String → String
  pub format_time : ℕ → String

abbrev item : String → String → ℕ → String → Item
item file_type hash size path = record {
  file_type = file_type;
  hash_sha256 = hash;
  size = size;
  path = path;
  combined_sha256_disk_kvm_img = "";
  combined_sha256_disk_img = "";
}

-- The items of a container image.
unfoldable pub container_items : Bool → Bool → String → ℕ → String → List Item
container_items incus lxd hash size target =
    (if incus then item "incus_combined.tar.gz" hash size target ∷ [] else [])
    ++ (if lxd then item "lxd_combined.tar.gz" hash size target ∷ [] else [])

-- virtualMachineImageInfo
pub record VirtualMachineInfo : Type 0 where
  pub meta_size : ℕ
  pub meta_sha256 : String
  pub root_size : ℕ
  pub root_sha256 : String
  pub combined_sha256 : String

-- The items of a virtual machine image, with the targets of the root filesystem and the metadata.
unfoldable pub virtual_machine_items :
    Bool → Bool → VirtualMachineInfo → String → String → List Item
virtual_machine_items incus lxd info rootfs metadata =
    (if incus
      then item "disk-kvm.img" info.root_sha256 info.root_size rootfs
        ∷ record (item "incus.tar.xz" info.meta_sha256 info.meta_size metadata) {
          combined_sha256_disk_kvm_img = info.combined_sha256;
        }
        ∷ []
      else [])
    ++ (if lxd
        then item "disk1.img" info.root_sha256 info.root_size rootfs
          ∷ record (item "lxd.tar.xz" info.meta_sha256 info.meta_size metadata) {
            combined_sha256_disk_img = info.combined_sha256;
          }
          ∷ []
        else [])

-- What the loop over a virtual machine image has gathered.
pub record Gathered : Type 0 where
  pub metadata : Metadata
  pub written : List (String × String)
  pub rootfs : String

module _ (codec : Codec) where
  -- The loop for a container image, which ends at metadata.yaml.
  unfoldable pub find_metadata : List Entry → Result Metadata
  find_metadata [] = ok no_metadata
  find_metadata (broken e ∷ entries) = err (wrapf "failed to read tar.gz archive: " e "")
  find_metadata (file name content ∷ entries) =
      let rest = find_metadata entries in
      if name == "metadata.yaml"
      then wrap "failed to parse metadata.yaml from image: " (codec.unmarshal content)
      else rest

  -- The metadata of a container image.
  unfoldable pub container_metadata : List Entry → Result Metadata
  unfolding find_metadata
  container_metadata entries = do
    m ← find_metadata entries
    if m.architecture == "" then err (errorf "no metadata.yaml found for image") else ok m

  -- One round of the loop for a virtual machine image.
  unfoldable pub gather_file : String → String → Gathered → Result Gathered
  unfolding has_prefix
  gather_file name content g =
      if name == "metadata.yaml"
      then (do
        m ← wrap "failed to parse metadata.yaml from image: " (codec.unmarshal content)
        ok (record g { metadata = m; written = g.written ++ (name, content) ∷ [] }))
      else if has_prefix "templates/" name
      then ok (record g { written = g.written ++ (name, content) ∷ [] })
      else if name == "rootfs.img"
      then ok (record g { rootfs = content })
      else ok g

  unfoldable pub gather : List Entry → Gathered → Result Gathered
  unfolding gather_file
  gather [] g = ok g
  gather (broken e ∷ entries) g = err (wrapf "failed to read tar.gz archive: " e "")
  gather (file name content ∷ entries) g = do g' ← gather_file name content g; gather entries g'

  -- getVirtualMachineImageInfo: the hash of the metadata goes on with the root filesystem.
  unfoldable pub virtual_machine_info : String → String → VirtualMachineInfo
  virtual_machine_info metadata rootfs = record {
    meta_size = codec.size metadata;
    meta_sha256 = codec.sha256 metadata;
    root_size = codec.size rootfs;
    root_sha256 = codec.sha256 rootfs;
    combined_sha256 = codec.sha256 (metadata <> rootfs);
  }

  abbrev checked : String → Gathered → Result (String × Gathered)
  checked out g =
      if out == ""
      then err (errorf "no metadata found in image")
      else if g.rootfs == ""
      then err (errorf "no rootfs.img found in image")
      else if g.metadata.architecture == ""
      then err (errorf "no metadata.yaml found in image")
      else ok (out, g)

  -- The metadata archive, and what was gathered, of a virtual machine image.
  unfoldable pub virtual_machine_parts : List Entry → Result (String × Gathered)
  unfolding gather
  virtual_machine_parts entries = do
    g ← gather entries (record { metadata = no_metadata; written = []; rootfs = "" })
    out ← wrap "failed to generate metadata.tar.gz: " (codec.tar_gz g.written)
    checked out g
