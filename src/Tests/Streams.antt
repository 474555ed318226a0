-- ===== src/Tests/Streams.antt =====
-- The simplestreams index and the stages of the image builder.
use cluster_api_provider_inc.Action.{◌>>=◌, pure}
use cluster_api_provider_inc.Prelude.{
  inl, inr, Any, String, ◌≡◌, refl, true, false, none, List, [], ◌∷◌, arith,
}
use cluster_api_provider_inc.Simplestreams.Show.Laws.{show_rows-update, all_flags}
use cluster_api_provider_inc.Simplestreams.Show.{show_rows}
use cluster_api_provider_inc.Images.{container}
use cluster_api_provider_inc.Simplestreams.{
  product_name, Index, Metadata, Item, new_stream, new_products, update, images,
}
use cluster_api_provider_inc.Text.{join}
use cluster_api_provider_inc.Errors.{ok, err, errorf}
use cluster_api_provider_inc.Simplestreams.Archives.{Codec, file, container_items}
use cluster_api_provider_inc.Simplestreams.Consistent.{IsConsistent}
use cluster_api_provider_inc.Simplestreams.Import.{Files, import_image}
use cluster_api_provider_inc.Simplestreams.Import.Invariant.{import_image-IsConsistent}
use cluster_api_provider_inc.Simplestreams.Items.{update_again}
use cluster_api_provider_inc.Simplestreams.Refines.{
  ImportStep, catalogue, update_all, publish_all, update_all-refines,
}
use cluster_api_provider_inc.ImageBuilder.Stages.{Stage, run, run_all, selected, run-selected}
use cluster_api_provider_inc.Tests.Fixtures.{Log, answer, client, running}

abbrev metadata : Metadata
metadata = record {
  architecture = "x86_64";
  creation_date = 1760000000;
  properties =
      ("os", "kubeadm")
      ∷ ("release", "v1.33.0")
      ∷ ("variant", "default")
      ∷ ("architecture", "amd64")
      ∷ [];
}

abbrev codec : Codec
codec = record {
  unmarshal = λ s. ok metadata;
  tar_gz = λ l. ok "archive";
  sha256 = λ s. "hash";
  size = λ s. 7;
  join_path = join "/";
  format_time = λ t. "202510090000";
}

abbrev streams_files : Files Log
streams_files = record {
  getwd = answer "getwd" (ok "/srv");
  mkdir_all = λ s. answer "mkdir_all" (ok tt);
  read_file = λ s. answer "read_file" (ok none);
  write_file = λ s c. answer "write_file" (err (errorf "no space left on device"));
  open_file = λ s. answer "open_file" (ok "raw");
  gunzip = λ s. ok (file "metadata.yaml" "" ∷ []);
  stat = λ s. answer "stat" (ok 7);
  create = λ s. answer "create" (ok tt);
  dir = λ s. s;
  parse_stream = λ s. ok new_stream;
  parse_products = λ s. ok new_products;
  stream_json = λ s. ok "{}";
  products_json = λ s. ok "{}";
  open_zip = λ s. answer "open_zip" (err (errorf "not a zip file"));
  extract = λ s n. answer "extract" (ok "image.tar.gz");
  remove_all = λ s. answer "remove_all" (ok tt);
}

abbrev empty_index : Index
empty_index = record { stream = new_stream; products = new_products; root_dir = "/srv" }

empty_index-IsConsistent : IsConsistent empty_index
unfolding images
empty_index-IsConsistent = record { sorted = tt; agree = λ name. ground arith }

import_image-IsConsistent_example :
    IsConsistent
      (import_image streams_files codec "container" "image.tar.gz"
        ("kubeadm/v1.33.0" ∷ [])
        true
        true
        (empty_index, [])).1.0
import_image-IsConsistent_example =
    import_image-IsConsistent streams_files codec "container" "image.tar.gz"
      ("kubeadm/v1.33.0" ∷ []) true true empty_index [] empty_index-IsConsistent

-- The same files with space left.
abbrev roomy_files : Files Log
roomy_files = record streams_files { write_file = λ s c. answer "write_file" (ok tt) }

abbrev imported : Index × Log
unfolding import_image ◌>>=◌
imported =
    (import_image roomy_files codec "container" "image.tar.gz" [] true true (empty_index, [])).1

abbrev two_items : List Item
unfolding container_items
two_items = container_items true true "hash" 7 "images/hash.incus_combined.tar.gz"

update_again_example :
    update metadata "v"
      ("kubeadm" ∷ [])
      two_items
      (update metadata "v" ("kubeadm" ∷ []) two_items empty_index)
    ≡ update metadata "v" ("kubeadm" ∷ []) two_items empty_index
unfolding container_items
update_again_example =
    update_again metadata "v" ("kubeadm" ∷ []) two_items empty_index ((refl, tt), (tt, tt))

abbrev step : ImportStep
step = record { metadata = metadata; version = "v"; aliases = []; items = two_items }

update_all-refines_example :
    catalogue (update_all (step ∷ step ∷ []) empty_index)
    ≡ publish_all (step ∷ step ∷ []) (catalogue empty_index)
update_all-refines_example = update_all-refines (step ∷ step ∷ []) empty_index

abbrev build : String → Stage Log String
build name = record { name = name; action = λ c. answer name (ok tt) }

run-selected_example :
    (run (client (ok running)) ("b" ∷ []) [] false (build "a" ∷ build "b" ∷ [])
      ≡ run_all (client (ok running)) (selected ("b" ∷ []) [] (build "a" ∷ build "b" ∷ [])))
    × (run (client (ok running)) ("b" ∷ []) [] true (build "a" ∷ build "b" ∷ []) ≡ pure tt)
run-selected_example = run-selected (client (ok running)) ("b" ∷ []) [] (build "a" ∷ build "b" ∷ [])

abbrev combined : Item
combined = record {
  file_type = "lxd_combined.tar.gz";
  hash_sha256 = "hash";
  size = 7;
  path = "images/hash.incus_combined.tar.gz";
  combined_sha256_disk_kvm_img = "";
  combined_sha256_disk_img = "";
}

show_rows-update_example :
    Any
      (λ r.
        (r.product ≡ product_name metadata)
        × (r.version ≡ "v")
        × (r.kind ≡ container)
        × (r.path ≡ "images/hash.incus_combined.tar.gz"))
      (show_rows all_flags (update metadata "v" [] two_items empty_index))
unfolding container_items
show_rows-update_example =
    show_rows-update metadata "v" [] two_items combined empty_index empty_index-IsConsistent
      ((refl, tt), (tt, tt)) (inr (inl refl)) (inr refl)
