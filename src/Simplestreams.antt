-- ===== src/Simplestreams.antt =====
-- The index of a simplestreams server in a directory, internal/exp/simplestreams/index: the data of
-- Incus's package simplestreams and what an import changes of it (index.go, consts.go, and the
-- common part of import_container.go and import_virtual_machine.go). A map that is nil and an empty
-- one are not told apart.
pub mod Archives
pub mod Import
pub mod Consistent
pub mod Items
pub mod Refines
pub mod Show
pub mod Commands
use cluster_api_provider_inc.Prelude.{
  ℕ, String, Bool, Option, none, some, List, [], ◌∷◌, ◌++◌, any, is_empty, ◌==◌, if◌then◌else◌,
}
use cluster_api_provider_inc.Text.{◌<>◌, join}
use cluster_api_provider_inc.Maps.{GoMap, get, insert, lookup}
use cluster_api_provider_inc.Sorting.{sort}

-- simplestreams.StreamIndex and simplestreams.Stream
pub record StreamIndex : Type 0 where
  pub data_type : String
  pub path : String
  pub format : String
  pub products : List String

pub record Stream : Type 0 where
  pub format : String
  pub index : GoMap StreamIndex

-- simplestreams.ProductVersionItem; "" for a sum that is not set
pub record Item : Type 0 where
  pub file_type : String
  pub hash_sha256 : String
  pub size : ℕ
  pub path : String
  pub combined_sha256_disk_kvm_img : String
  pub combined_sha256_disk_img : String

-- simplestreams.Product; a version is the map of its items
pub record Product : Type 0 where
  pub aliases : String
  pub architecture : String
  pub operating_system : String
  pub release : String
  pub release_title : String
  pub variant : String
  pub versions : GoMap (GoMap Item)

-- simplestreams.Products
pub record Products : Type 0 where
  pub content_id : String
  pub data_type : String
  pub format : String
  pub products : GoMap Product

-- Index
pub record Index : Type 0 where
  pub stream : Stream
  pub products : Products
  pub root_dir : String

-- api.ImageMetadata
pub record Metadata : Type 0 where
  pub architecture : String
  pub creation_date : ℕ
  pub properties : GoMap String

abbrev pub no_metadata : Metadata
no_metadata = record { architecture = ""; creation_date = 0; properties = [] }

-- The stream of a new index.
abbrev pub new_stream : Stream
new_stream = record {
  format = "index:1.0";
  index =
      (
        "images",
        record {
          data_type = "image-downloads";
          path = "streams/v1/images.json";
          format = "products:1.0";
          products = [];
        },
      )
      ∷ [];
}

-- The products of a new index.
abbrev pub new_products : Products
new_products = record {
  content_id = "images";
  data_type = "image-downloads";
  format = "products:1.0";
  products = [];
}

abbrev index_or_zero : Option StreamIndex → StreamIndex
index_or_zero none = record { data_type = ""; path = ""; format = ""; products = [] }
index_or_zero (some i) = i

-- i.Index.Index["images"]
unfoldable pub images : Stream → StreamIndex
unfolding lookup
images s = index_or_zero (lookup "images" s.index)

unfoldable pub product_name : Metadata → String
unfolding get
product_name m =
    get m.properties "os"
    <> ":"
    <> get m.properties "release"
    <> ":"
    <> get m.properties "variant"
    <> ":"
    <> get m.properties "architecture"

-- The update of streams/v1/index.json.
unfoldable pub add_product : String → Stream → Stream
unfolding images insert sort
add_product name s =
    let products = (images s).products in
    let new_images = record (images s) { products = sort (products ++ name ∷ []) } in
    if any (λ p. p == name) products
    then s
    else record s { index = insert "images" new_images s.index }

-- The product that is updated: the existing one, or a new one.
unfoldable pub product_or_new : Metadata → String → Option Product → Product
unfolding get
product_or_new m version (some p) = p
product_or_new m version none = record {
  aliases = "";
  architecture = get m.properties "architecture";
  operating_system = get m.properties "os";
  release = get m.properties "release";
  release_title = get m.properties "release";
  variant = get m.properties "variant";
  versions = (version, []) ∷ [];
}

unfoldable pub set_aliases : List String → Product → Product
unfolding join
set_aliases aliases p = if is_empty aliases then p else record p { aliases = join "," aliases }

-- The assignments of items, in turn.
unfoldable pub put_items : List Item → GoMap Item → GoMap Item
unfolding insert
put_items [] items = items
put_items (i ∷ new) items = put_items new (insert i.file_type i items)

abbrev pub items_or_none : Option (GoMap Item) → GoMap Item
items_or_none none = []
items_or_none (some items) = items

-- The new version of the product.
unfoldable pub put_version : String → List Item → Product → Product
unfolding lookup insert put_items
put_version version new p = record p {
  versions = insert version (put_items new (items_or_none (lookup version p.versions))) p.versions;
}

-- Everything that an import changes of the index.
unfoldable pub update : Metadata → String → List String → List Item → Index → Index
unfolding product_name add_product product_or_new set_aliases put_version lookup insert
update m version aliases items i =
    let name = product_name m in
    let product = product_or_new m version (lookup name i.products.products) in
    record i {
      stream = add_product name i.stream;
      products = record i.products {
        products =
            insert name (put_version version items (set_aliases aliases product))
              i.products.products;
      };
    }
