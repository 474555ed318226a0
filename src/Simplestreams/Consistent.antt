-- ===== src/Simplestreams/Consistent.antt =====
-- The two halves of the index in memory, those of index.json and of images.json.
use cluster_api_provider_inc.Prelude.{
  String, ◌≡◌, refl, ap, sym, ◌∙◌, Bool, true, false, ◌||◌, Option, some, List, [], ◌∷◌, ◌++◌, any,
  arith, eq_iff, is_some, ◌==◌, if◌then◌else◌, Bool-cases, inl, inr,
}
use cluster_api_provider_inc.Maps.{GoMap, lookup, insert, lookup-insert, lookup-insert_self}
use cluster_api_provider_inc.Sorting.{sort, insert_text}
use cluster_api_provider_inc.Sorting.Laws.{IsSorted, sort-IsSorted}
use cluster_api_provider_inc.Simplestreams.{
  Stream, Index, Metadata, Item, images, add_product, update, product_name,
}

-- slices.Contains
abbrev pub listed : String → List String → Bool
listed name products = any (λ p. p == name) products

listed-append :
    (name : String) (l m : List String) → listed name (l ++ m) ≡ (listed name l || listed name m)
listed-append name [] m = refl
listed-append name (x ∷ l) m = ground (arith, listed-append name l m)

listed-insert_text :
    (name a : String) (l : List String)
    → listed name (insert_text a l) ≡ ((a == name) || listed name l)
unfolding insert_text
listed-insert_text name a [] = refl
listed-insert_text name a (x ∷ l) = ground (arith, listed-insert_text name a l)

listed-sort : (name : String) (l : List String) → listed name (sort l) ≡ listed name l
unfolding sort
listed-sort name [] = refl
listed-sort name (x ∷ l) =
    listed-insert_text name x (sort l) ∙ ap (λ b. (x == name) || b) (listed-sort name l)

-- In memory, the names in the half for index.json are sorted, and are those of the products in the
-- half for images.json.
pub record IsConsistent (i : Index) : Type 0 where
  pub sorted : IsSorted (images i.stream).products
  pub agree :
      (name : String)
      → listed name (images i.stream).products ≡ is_some (lookup name i.products.products)

images-add_product :
    (name : String) (s : Stream)
    → (images (add_product name s)).products ≡ (
        if listed name (images s).products
        then (images s).products
        else sort ((images s).products ++ name ∷ []))
unfolding images add_product
images-add_product name s = elim (Bool-cases (listed name (images s).products)) [
  | inl e ↦ ground (arith, e)
  | inr e ↦ ground (
    arith,
    e,
    lookup-insert_self "images"
        (record (images s) { products = sort ((images s).products ++ name ∷ []) }) s.index,
  )
]

add_product-IsSorted :
    (name : String) (s : Stream)
    → IsSorted (images s).products
    → IsSorted (images (add_product name s)).products
add_product-IsSorted name s h = elim (Bool-cases (listed name (images s).products)) [
  | inl e ↦ rw (images-add_product name s, e) h
  | inr e ↦ rw (images-add_product name s, e) (sort-IsSorted _)
]

pub listed-add_product :
    (name q : String) (s : Stream)
    → listed q (images (add_product name s)).products
      ≡ ((name == q) || listed q (images s).products)
listed-add_product name q s = elim (Bool-cases (listed name (images s).products)) [
  | inl e ↦ rw (images-add_product name s, e) (ground (arith, eq_iff name q))
  | inr e ↦
      rw
        (
          images-add_product name s,
          e,
          listed-sort q ((images s).products ++ name ∷ []),
          listed-append q (images s).products (name ∷ []),
        )
        (ground arith)
]

is_some-if {ℓ} :
    {A : Type ℓ} (b : Bool) (a : A) (o : Option A)
    → is_some (if b then some a else o) ≡ (b || is_some o)
is_some-if true a o = refl
is_some-if false a o = refl

is_some-insert {ℓ} :
    {A : Type ℓ} (k q : String) (v : A) (m : GoMap A)
    → is_some (lookup q (insert k v m)) ≡ ((k == q) || is_some (lookup q m))
is_some-insert k q v m = ap is_some (lookup-insert k q v m) ∙ is_some-if (k == q) v (lookup q m)

-- The update of the index in memory keeps its halves consistent.
pub update-IsConsistent :
    (m : Metadata) (version : String) (aliases : List String) (items : List Item) (i : Index)
    → IsConsistent i
    → IsConsistent (update m version aliases items i)
unfolding update
update-IsConsistent m version aliases items i h = record {
  sorted = add_product-IsSorted (product_name m) i.stream h.sorted;
  agree = λ q.
      listed-add_product (product_name m) q i.stream
      ∙ ap (λ b. (product_name m == q) || b) (h.agree q)
      ∙ sym (is_some-insert (product_name m) q _ i.products.products);
}
