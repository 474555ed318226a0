-- ===== src/Simplestreams/Show.antt =====
-- simplestreams show --output=pretty, cmd/exp/simplestreams/cmd/cmd_show.go: the rows of the table,
-- which are printed in columns.
pub mod Laws
use cluster_api_provider_inc.Prelude.{
  ℕ, String, Bool, not, ◌&&◌, ◌||◌, Option, none, some, List, [], ◌∷◌, ◌++◌, is_some, ◌==◌,
  if◌then◌else◌,
}
use Prim.Native.Nat.{◌/◌}
use cluster_api_provider_inc.Maps.{GoMap, lookup}
use cluster_api_provider_inc.Images.{container, virtual_machine, incus, lxd}
use cluster_api_provider_inc.Simplestreams.{Index, Product, Item, images}

-- The flags that choose products and images.
pub record ShowFlags : Type 0 where
  pub product : String
  pub os : String
  pub release : String
  pub arch : String
  pub image_type : String
  pub incus : Bool
  pub lxd : Bool

-- What is printed in one row.
pub record Row : Type 0 where
  pub product : String
  pub version : String
  pub kind : String
  pub server : String
  pub architecture : String
  pub size : ℕ
  pub path : String

-- The switch over the product.
unfoldable pub is_left_out : ShowFlags → String → Product → Bool
is_left_out flags name p =
    (not (flags.product == "") && not (flags.product == name))
    || (not (flags.arch == "") && not (p.architecture == flags.arch))
    || (not (flags.os == "") && not (p.operating_system == flags.os))
    || (not (flags.release == "") && not (p.release == flags.release))

-- The switch over the type of a file: the type of the image, its server, the metadata file that must
-- be there too ("" for none), and whether the flags leave it out.
unfoldable pub file_kind : ShowFlags → String → Option (String × String × String × Bool)
file_kind flags file_type =
    if file_type == "incus_combined.tar.gz"
    then some (
      container,
      incus,
      "",
      (not flags.incus && flags.lxd) || flags.image_type == virtual_machine,
    )
    else if file_type == "lxd_combined.tar.gz"
    then some
        (container, lxd, "", (not flags.lxd && flags.incus) || flags.image_type == virtual_machine)
    else if file_type == "disk-kvm.img"
    then some (
      virtual_machine,
      incus,
      "incus.tar.xz",
      (not flags.incus && flags.lxd) || flags.image_type == container,
    )
    else if file_type == "disk1.img"
    then some (
      virtual_machine,
      lxd,
      "lxd.tar.xz",
      (not flags.lxd && flags.incus) || flags.image_type == container,
    )
    else none

abbrev pub row_if :
    String
    → String
    → Product
    → GoMap Item
    → Item
    → Option (String × String × String × Bool)
    → List Row
row_if name version p items i none = []
row_if name version p items i (some (kind, server, needed, left_out)) =
    if left_out || (not (needed == "") && not (is_some (lookup needed items)))
    then []
    else record {
      product = name;
      version = version;
      kind = kind;
      server = server;
      architecture = p.architecture;
      size = i.size / 1024 / 1024;
      path = i.path;
    }
      ∷ []

-- One round of the inner loop. Go leaves the order of the versions and of the items open; here it is
-- that of the maps.
unfoldable pub item_rows : ShowFlags → String → String → Product → GoMap Item → Item → List Row
unfolding file_kind lookup
item_rows flags name version p items i = row_if name version p items i (file_kind flags i.file_type)

-- The loops over the items and over the versions of a product.
unfoldable pub items_rows :
    ShowFlags → String → String → Product → GoMap Item → GoMap Item → List Row
unfolding item_rows
items_rows flags name version p all_items [] = []
items_rows flags name version p all_items ((file_type, i) ∷ items) =
    item_rows flags name version p all_items i ++ items_rows flags name version p all_items items

unfoldable pub versions_rows : ShowFlags → String → Product → GoMap (GoMap Item) → List Row
unfolding items_rows
versions_rows flags name p [] = []
versions_rows flags name p ((version, items) ∷ versions) =
    items_rows flags name version p items items ++ versions_rows flags name p versions

abbrev zero_product : Product
zero_product = record {
  aliases = "";
  architecture = "";
  operating_system = "";
  release = "";
  release_title = "";
  variant = "";
  versions = [];
}

abbrev pub product_or_zero : Option Product → Product
product_or_zero none = zero_product
product_or_zero (some p) = p

-- The loop over the products that index.json lists.
unfoldable pub products_rows : ShowFlags → Index → List String → List Row
unfolding is_left_out versions_rows lookup
products_rows flags i [] = []
products_rows flags i (name ∷ names) =
    let p = product_or_zero (lookup name i.products.products) in
    let rest = products_rows flags i names in
    if is_left_out flags name p then rest else versions_rows flags name p p.versions ++ rest

unfoldable pub show_rows : ShowFlags → Index → List Row
unfolding products_rows images
show_rows flags i = products_rows flags i (images i.stream).products
