-- ===== src/Simplestreams/Import/Invariant.antt =====
-- The index in memory during an import.
use cluster_api_provider_inc.Images.{virtual_machine, container}
use cluster_api_provider_inc.Simplestreams.Import.{
  import_extracted, import_image, import_path, import_virtual_machine, import_container, Files,
  on_files, current, change, write_index,
}
use cluster_api_provider_inc.Prelude.{◌==◌, some, none, List, Bool, Option, String}
use cluster_api_provider_inc.Action.Keeps.{
  Keeps-if, Keeps-pure, Keeps, Keeps-lift, Keeps-wrapping, Keeps-bind,
}
use cluster_api_provider_inc.Action.{Action}
use cluster_api_provider_inc.Simplestreams.{Index, Metadata, Item, update}
use cluster_api_provider_inc.Simplestreams.Archives.{Codec}
use cluster_api_provider_inc.Simplestreams.Consistent.{IsConsistent, update-IsConsistent}

module _ {W : Type 0} (files : Files W) (codec : Codec) where
  abbrev Inv : Index × W → Type 0
  Inv s = IsConsistent s.0

  keep_files : {A : Type 0} (m : Action W A) → Keeps Inv (on_files files codec m)
  unfolding on_files
  keep_files m = record { at = λ s p. p }

  keep_current : Keeps Inv (current files codec)
  unfolding current
  keep_current = record { at = λ s p. p }

  keep_update :
      (m : Metadata) (version : String) (aliases : List String) (items : List Item)
      → Keeps Inv (change files codec (update m version aliases items))
  unfolding change
  keep_update m version aliases items = record {
    at = λ s p. update-IsConsistent m version aliases items s.0 p;
  }

  ruleset keep_steps = (
    Keeps-bind, Keeps-wrapping, Keeps-lift, Keeps-pure, Keeps-if, keep_files, keep_current,
    keep_update,
  )

  keep_write : Keeps Inv (write_index files codec)
  unfolding write_index
  keep_write = search keep_steps depth 14

  keep_container :
      (path : String) (aliases : List String) (incus lxd : Bool)
      → Keeps Inv (import_container files codec path aliases incus lxd)
  unfolding import_container
  keep_container path aliases incus lxd = search (keep_steps, keep_write) depth 30 fits 3000

  keep_virtual_machine :
      (path : String) (aliases : List String) (incus lxd : Bool)
      → Keeps Inv (import_virtual_machine files codec path aliases incus lxd)
  unfolding import_virtual_machine
  keep_virtual_machine path aliases incus lxd = search (keep_steps, keep_write) depth 30 fits 3000

  keep_path :
      (image_type path : String) (aliases : List String) (incus lxd : Bool)
      → Keeps Inv (import_path files codec image_type path aliases incus lxd)
  unfolding import_path
  keep_path image_type path aliases incus lxd =
      Keeps-if (image_type == container) _ _ (keep_container path aliases incus lxd) (
        Keeps-if (image_type == virtual_machine) _ _ (keep_virtual_machine path aliases incus lxd)
          (Keeps-lift _))

  keep_extracted :
      (path : String) (extracted : Option String) (go : String → Action (Index × W) (Unit {0}))
      → ((p : String) → Keeps Inv (go p))
      → Keeps Inv (import_extracted files codec path extracted go)
  keep_extracted path none go h = h path
  keep_extracted path (some tarball) go h = record { at = λ s p. (h tarball).at s p }

  -- ImportImage keeps the index in memory consistent, whether it succeeds or fails at whatever step,
  -- for container and virtual machine images and for zip archives: the products in its half for
  -- index.json are sorted, and are the names of the products in its half for images.json. Of the
  -- files this says nothing.
  pub import_image-IsConsistent :
      (image_type path : String) (aliases : List String) (incus lxd : Bool) (i : Index) (w : W)
      → IsConsistent i
      → IsConsistent (import_image files codec image_type path aliases incus lxd (i, w)).1.0
  unfolding import_image
  import_image-IsConsistent image_type path aliases incus lxd i w h =
      (Keeps-bind _ _ (Keeps-wrapping _ _ (keep_files _))
          (λ e. keep_extracted path e _ (λ p. keep_path image_type p aliases incus lxd))).at
        (i, w) h
