-- ===== src/Simplestreams/Refines.antt =====
-- The index as a catalogue of items, and what a series of imports makes of it.
use mathlib.Core.Path.{fun_ext}
use cluster_api_provider_inc.Prelude.{
  String, ◌≡◌, refl, ap, ◌∙◌, Bool, true, false, Option, none, some, List, [], ◌∷◌, eq_iff, ◌==◌,
  if◌then◌else◌,
}
use cluster_api_provider_inc.Maps.{GoMap, lookup, insert, lookup-insert}
use cluster_api_provider_inc.Simplestreams.{
  Index, Metadata, Item, Product, update, product_name, put_items, put_version, set_aliases,
  product_or_new, items_or_none,
}

-- The item of a file type, in a version of a product.
abbrev pub Catalogue : Type 0
Catalogue = String → String → String → Option Item

abbrev in_items : String → Option (GoMap Item) → Option Item
in_items file_type none = none
in_items file_type (some items) = lookup file_type items

abbrev in_product : String → String → Option Product → Option Item
in_product version file_type none = none
in_product version file_type (some p) = in_items file_type (lookup version p.versions)

pub catalogue : Index → Catalogue
catalogue i product version file_type =
    in_product version file_type (lookup product i.products.products)

-- One import as the code is given it: the image's metadata, the name of the version, the aliases
-- and the items.
pub record ImportStep : Type 0 where
  pub metadata : Metadata
  pub version : String
  pub aliases : List String
  pub items : List Item

-- The last of the items with the file type, or else the old one.
abbrev pub last_item : String → List Item → Option Item → Option Item
last_item file_type [] old = old
last_item file_type (x ∷ items) old =
    last_item file_type items (if x.file_type == file_type then some x else old)

-- The catalogue with the items of one import written over it.
pub publish : ImportStep → Catalogue → Catalogue
publish s c product version file_type =
    if product_name s.metadata == product
    then (if s.version == version
        then last_item file_type s.items (c product version file_type)
        else c product version file_type)
    else c product version file_type

lookup-put_items :
    (file_type : String) (new : List Item) (items : GoMap Item)
    → lookup file_type (put_items new items) ≡ last_item file_type new (lookup file_type items)
unfolding put_items
lookup-put_items file_type [] items = refl
lookup-put_items file_type (x ∷ new) items =
    lookup-put_items file_type new (insert x.file_type x items)
    ∙ ap (last_item file_type new) (lookup-insert x.file_type file_type x items)

in_items-items_or_none :
    (file_type : String) (o : Option (GoMap Item))
    → lookup file_type (items_or_none o) ≡ in_items file_type o
unfolding lookup
in_items-items_or_none file_type none = refl
in_items-items_or_none file_type (some items) = refl

in_product-if :
    (b : Bool) (p : Product) (o : Option Product) (version file_type : String)
    → in_product version file_type (if b then some p else o) ≡ (
        if b
        then in_items file_type (lookup version p.versions)
        else in_product version file_type o)
in_product-if true p o version file_type = refl
in_product-if false p o version file_type = refl

in_items-if :
    (b : Bool) (items : GoMap Item) (o : Option (GoMap Item)) (file_type : String)
    → in_items file_type (if b then some items else o)
      ≡ (if b then lookup file_type items else in_items file_type o)
in_items-if true items o file_type = refl
in_items-if false items o file_type = refl

-- The items of the version in the updated product.
in_items-put_version :
    (written version file_type : String) (new : List Item) (p : Product)
    → in_items file_type (lookup version (put_version written new p).versions) ≡ (
        if written == version
        then last_item file_type new (in_items file_type (lookup written p.versions))
        else in_items file_type (lookup version p.versions))
unfolding put_version
in_items-put_version written version file_type new p =
    ap (in_items file_type) (lookup-insert written version _ p.versions)
    ∙ in_items-if (written == version) _ _ file_type
    ∙ ap (λ o. if written == version then o else in_items file_type (lookup version p.versions))
        (lookup-put_items file_type new _
          ∙ ap (last_item file_type new)
              (in_items-items_or_none file_type (lookup written p.versions)))

if_same {ℓ} : {A : Type ℓ} (b : Bool) (a : A) → (if b then a else a) ≡ a
if_same true a = refl
if_same false a = refl

-- The first branch may use that the test holds.
if_cong {ℓ} :
    {A : Type ℓ} (b : Bool) (x y z : A)
    → (b ≡ true → x ≡ y)
    → (if b then x else z) ≡ (if b then y else z)
if_cong true x y z h = h refl
if_cong false x y z h = refl

new_versions :
    (written version file_type : String)
    → in_items file_type (lookup version ((written, []) ∷ [])) ≡ none
unfolding lookup
new_versions written version file_type =
    in_items-if (written == version) [] none file_type ∙ if_same (written == version) none

-- A new product has no items, and aliases do not change them.
in_items-old :
    (m : Metadata) (written version file_type : String) (aliases : List String) (o : Option Product)
    → in_items file_type
        (lookup version (set_aliases aliases (product_or_new m written o)).versions)
      ≡ in_product version file_type o
unfolding set_aliases product_or_new
in_items-old m written version file_type [] none = new_versions written version file_type
in_items-old m written version file_type (a ∷ aliases) none = new_versions written version file_type
in_items-old m written version file_type [] (some p) = refl
in_items-old m written version file_type (a ∷ aliases) (some p) = refl

-- The items of a version of the product that an import writes.
in_items-new :
    (s : ImportStep) (version file_type : String) (o : Option Product)
    → in_items file_type (
        lookup version
          (put_version s.version s.items
            (set_aliases s.aliases (product_or_new s.metadata s.version o))).versions)
      ≡ (if s.version == version
          then last_item file_type s.items (in_product version file_type o)
          else in_product version file_type o)
in_items-new s version file_type o =
    in_items-put_version s.version version file_type s.items _
    ∙ ap
        (λ x.
          if s.version == version
          then last_item file_type s.items x
          else in_items file_type (
              lookup version
                (set_aliases s.aliases (product_or_new s.metadata s.version o)).versions))
        (in_items-old s.metadata s.version s.version file_type s.aliases o)
    ∙ ap
        (λ x.
          if s.version == version
          then last_item file_type s.items (in_product s.version file_type o)
          else x)
        (in_items-old s.metadata s.version version file_type s.aliases o)
    ∙ if_cong (s.version == version) _ _ _ (λ e.
      ap (λ v. last_item file_type s.items (in_product v file_type o))
        ((eq_iff s.version version).0 e))

catalogue-update :
    (s : ImportStep) (i : Index)
    → catalogue (update s.metadata s.version s.aliases s.items i) ≡ publish s (catalogue i)
unfolding catalogue publish update
catalogue-update s i = fun_ext (λ product. fun_ext (λ version. fun_ext (λ file_type.
    ap (in_product version file_type)
      (lookup-insert (product_name s.metadata) product _ i.products.products)
    ∙ in_product-if (product_name s.metadata == product) _ (lookup product i.products.products)
        version file_type
    ∙ if_cong (product_name s.metadata == product) _ _ _ (λ e.
      in_items-new s version file_type (lookup (product_name s.metadata) i.products.products)
      ∙ ap
          (λ name.
            let o = in_product version file_type (lookup name i.products.products) in
            if s.version == version then last_item file_type s.items o else o)
          ((eq_iff (product_name s.metadata) product).0 e)))))

-- The imports in turn, on the index and on the catalogue.
abbrev pub update_all : List ImportStep → Index → Index
update_all [] i = i
update_all (s ∷ steps) i = update_all steps (update s.metadata s.version s.aliases s.items i)

abbrev pub publish_all : List ImportStep → Catalogue → Catalogue
publish_all [] c = c
publish_all (s ∷ steps) c = publish_all steps (publish s c)

-- Any series of imports into an index reads as the same series on a catalogue, which knows neither
-- the order of products, versions and items nor the aliases: each import writes its items, under
-- their file types, into its version of its product, and leaves every other entry alone.
pub update_all-refines :
    (steps : List ImportStep) (i : Index)
    → catalogue (update_all steps i) ≡ publish_all steps (catalogue i)
update_all-refines [] i = refl
update_all-refines (s ∷ steps) i =
    update_all-refines steps (update s.metadata s.version s.aliases s.items i)
    ∙ ap (publish_all steps) (catalogue-update s i)
