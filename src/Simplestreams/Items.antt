-- ===== src/Simplestreams/Items.antt =====
-- The items that an import adds, and importing an image again.
use cluster_api_provider_inc.Sorting.{sort}
use cluster_api_provider_inc.Prelude.{
  ◌||◌, ◌++◌, String, ◌≡◌, refl, ap, ◌∙◌, true, false, some, List, [], ◌∷◌, All, arith, eq_iff,
  eq_refl, ◌==◌, if◌then◌else◌,
}
use cluster_api_provider_inc.Maps.{GoMap, lookup, insert, lookup-insert, lookup-insert_self}
use cluster_api_provider_inc.Simplestreams.{
  Stream, Index, Metadata, Item, Product, images, add_product, update, product_name, put_items,
  put_version, set_aliases, product_or_new, items_or_none,
}
use cluster_api_provider_inc.Simplestreams.Consistent.{listed, listed-add_product}

-- No two of the items have one file type.
abbrev pub Distinct : List Item → Type 0
Distinct [] = Unit
Distinct (x ∷ xs) = All (λ y. (y.file_type == x.file_type) ≡ false) xs × Distinct xs

-- Every one of the items is found under its file type.
abbrev pub Found : GoMap Item → List Item → Type 0
Found found items = All (λ x. lookup x.file_type found ≡ some x) items

lookup-put_items_other :
    (k : String) (new : List Item) (items : GoMap Item)
    → All (λ y. (y.file_type == k) ≡ false) new
    → lookup k (put_items new items) ≡ lookup k items
unfolding put_items
lookup-put_items_other k [] items h = refl
lookup-put_items_other k (y ∷ new) items h =
    lookup-put_items_other k new (insert y.file_type y items) h.1
    ∙ lookup-insert y.file_type k y items
    ∙ ap (λ b. if b then some y else lookup k items) h.0

put_items-Found :
    (new : List Item) (items : GoMap Item) → Distinct new → Found (put_items new items) new
unfolding put_items
put_items-Found [] items h = tt
put_items-Found (x ∷ new) items h = (
  lookup-put_items_other x.file_type new (insert x.file_type x items) h.0
      ∙ lookup-insert_self x.file_type x items,
  put_items-Found new (insert x.file_type x items) h.1,
)

lookup-insert_other {ℓ} :
    {V : Type ℓ} (k j : String) (v : V) (m : GoMap V)
    → (k == j) ≡ false
    → lookup j (insert k v m) ≡ lookup j m
lookup-insert_other k j v m h = lookup-insert k j v m ∙ ap (λ b. if b then some v else lookup j m) h

-- Writing what is there changes nothing.
insert_same {ℓ} :
    {V : Type ℓ} (k : String) (v : V) (m : GoMap V) → lookup k m ≡ some v → insert k v m ≡ m
unfolding insert lookup
insert_same k v [] h = absurd (cc h)
insert_same k v ((j, u) ∷ m) h = ground (arith, eq_iff j k, insert_same k v m)

put_items_same :
    (new : List Item) (items : GoMap Item) → Found items new → put_items new items ≡ items
unfolding put_items
put_items_same [] items h = refl
put_items_same (x ∷ new) items h =
    rw (insert_same x.file_type x items h.0) (put_items_same new items h.1)

-- The product and its items, after an import.
pub update_holds :
    (m : Metadata) (version : String) (aliases : List String) (items : List Item) (i : Index)
    → Distinct items
    → (p : Product) × (found : GoMap Item) × (lookup
          (product_name m)
          (update m version aliases items i).products.products
        ≡ some p)
      × (lookup version p.versions ≡ some found)
      × Found found items
unfolding update put_version
update_holds m version aliases items i h = (
  _,
  _,
  lookup-insert_self (product_name m) _ i.products.products,
  lookup-insert_self version _ _,
  put_items-Found items _ h,
)

-- After an import the product has the version, and in it every item that was added, if no two have
-- one file type; every other product is as it was.
pub update-Found :
    (m : Metadata) (version other : String) (aliases : List String) (items : List Item) (i : Index)
    → Distinct items
    → (product_name m == other) ≡ false
    → ((p : Product) × (found : GoMap Item) × (lookup
            (product_name m)
            (update m version aliases items i).products.products
          ≡ some p)
        × (lookup version p.versions ≡ some found)
        × Found found items)
      × (lookup other (update m version aliases items i).products.products
          ≡ lookup other i.products.products)
unfolding update
update-Found m version other aliases items i h k = (
  update_holds m version aliases items i h,
  lookup-insert_other (product_name m) other _ i.products.products k,
)

put_version_again :
    (version : String) (items : List Item) (p : Product)
    → Distinct items
    → put_version version items (put_version version items p) ≡ put_version version items p
unfolding put_version
put_version_again version items p h =
    ap (λ vs. record p { versions = vs })
      (ap (λ o. insert version (put_items items (items_or_none o)) written) found
        ∙ ap (λ x. insert version x written)
            (put_items_same items new (put_items-Found items old h))
        ∙ insert_same version new written found)
  where
    old : GoMap Item
    old = items_or_none (lookup version p.versions)

    new : GoMap Item
    new = put_items items old

    written : GoMap (GoMap Item)
    written = insert version new p.versions

    found : lookup version written ≡ some new
    found = lookup-insert_self version new p.versions

set_aliases-put_version :
    (version : String) (items : List Item) (aliases : List String) (p : Product)
    → set_aliases aliases (put_version version items (set_aliases aliases p))
      ≡ put_version version items (set_aliases aliases p)
unfolding set_aliases put_version
set_aliases-put_version version items [] p = refl
set_aliases-put_version version items (a ∷ aliases) p = refl

add_product-listed :
    (name : String) (s : Stream) → listed name (images s).products ≡ true → add_product name s ≡ s
unfolding add_product
add_product-listed name s h =
    ap
      (λ b. if b then s else record s {
        index =
            insert "images"
              (record (images s) { products = sort ((images s).products ++ name ∷ []) }) s.index;
      })
      h

add_product_again :
    (name : String) (s : Stream) → add_product name (add_product name s) ≡ add_product name s
add_product_again name s =
    add_product-listed name (add_product name s) (
      listed-add_product name name s
      ∙ ap (λ b. b || listed name (images s).products) (eq_refl name))

-- Importing the same image again leaves the index as it is, if no two of its items have one file
-- type: the products, their order, the versions and the items.
pub update_again :
    (m : Metadata) (version : String) (aliases : List String) (items : List Item) (i : Index)
    → Distinct items
    → update m version aliases items (update m version aliases items i)
      ≡ update m version aliases items i
unfolding update product_or_new
update_again m version aliases items i h =
    ap (λ s. record i { stream = s; products = record i.products { products = twice } })
      (add_product_again name i.stream)
    ∙ ap
        (λ q. record i {
          stream = add_product name i.stream;
          products = record i.products { products = q };
        })
        (ap
            (λ o.
              insert name
                (put_version version items (set_aliases aliases (product_or_new m version o))) once)
            found
          ∙ ap (λ q. insert name (put_version version items q) once)
              (set_aliases-put_version version items aliases old)
          ∙ ap (λ q. insert name q once)
              (put_version_again version items (set_aliases aliases old) h)
          ∙ insert_same name new once found)
  where
    name : String
    name = product_name m

    old : Product
    old = product_or_new m version (lookup name i.products.products)

    new : Product
    new = put_version version items (set_aliases aliases old)

    once : GoMap Product
    once = insert name new i.products.products

    found : lookup name once ≡ some new
    found = lookup-insert_self name new i.products.products

    twice : GoMap Product
    twice =
        insert name
          (put_version version items
            (set_aliases aliases (product_or_new m version (lookup name once))))
          once
