-- ===== src/Simplestreams/Show/Laws.antt =====
-- The rows of show for an index, behind an import.
use cluster_api_provider_inc.Simplestreams.{update, product_name, Metadata, Index, Item, Product}
use cluster_api_provider_inc.Simplestreams.Items.{Distinct, Found, update_holds}
use cluster_api_provider_inc.Simplestreams.Show.{
  row_if, show_rows, file_kind, ShowFlags, Row, item_rows, items_rows, versions_rows, products_rows,
  product_or_zero, is_left_out,
}
use cluster_api_provider_inc.Simplestreams.Consistent.{IsConsistent, listed, update-IsConsistent}
use cluster_api_provider_inc.Images.{container}
use cluster_api_provider_inc.Prelude.{
  ◌⊎◌, String, ◌≡◌, refl, ap, ◌∙◌, sym, true, false, some, is_some, List, [], ◌∷◌, ◌++◌, Any, arith,
  eq_iff, ◌==◌, Bool-cases, inl, inr,
}
use cluster_api_provider_inc.Maps.{GoMap, lookup}
use mathlib.Core.Path.{subst}

module _ {A : Type 0} (P : A → Type 0) where
  append_left : (l m : List A) → Any P l → Any P (l ++ m)
  append_left [] m h = elim h.lower [ ]
  append_left (x ∷ l) m (inl h) = inl h
  append_left (x ∷ l) m (inr h) = inr (append_left l m h)

  append_right : (l m : List A) → Any P m → Any P (l ++ m)
  append_right [] m h = h
  append_right (x ∷ l) m h = inr (append_right l m h)

-- No flag is set.
abbrev pub all_flags : ShowFlags
all_flags = record {
  product = "";
  os = "";
  release = "";
  arch = "";
  image_type = "";
  incus = false;
  lxd = false;
}

lookup_hit :
    {V : Type 0} (t j : String) (i x : V) (m : GoMap V)
    → (j == t) ≡ true
    → lookup t ((j, i) ∷ m) ≡ some x
    → i ≡ x
unfolding lookup
lookup_hit t j i x m e h = ground (arith, e, h)

lookup_miss :
    {V : Type 0} (t j : String) (i x : V) (m : GoMap V)
    → (j == t) ≡ false
    → lookup t ((j, i) ∷ m) ≡ some x
    → lookup t m ≡ some x
unfolding lookup
lookup_miss t j i x m e h = ground (arith, e, h)

module _ (P : Row → Type 0) where
  items_rows-Any :
      (name version t : String) (p : Product) (all items : GoMap Item) (x : Item)
      → lookup t items ≡ some x
      → Any P (item_rows all_flags name version p all x)
      → Any P (items_rows all_flags name version p all items)
  unfolding items_rows lookup
  items_rows-Any name version t p all [] x h k = absurd (cc h)
  items_rows-Any name version t p all ((j, i) ∷ items) x h k = elim (Bool-cases (j == t)) [
    | inl e ↦
        append_left P (item_rows all_flags name version p all i)
          (items_rows all_flags name version p all items)
          (subst (λ y. Any P (item_rows all_flags name version p all y))
            (sym (lookup_hit t j i x items e h)) k)
    | inr e ↦
        append_right P (item_rows all_flags name version p all i)
          (items_rows all_flags name version p all items)
          (items_rows-Any name version t p all items x (lookup_miss t j i x items e h) k)
  ]

  versions_rows-Any :
      (name version : String) (p : Product) (versions : GoMap (GoMap Item)) (found : GoMap Item)
      → lookup version versions ≡ some found
      → Any P (items_rows all_flags name version p found found)
      → Any P (versions_rows all_flags name p versions)
  unfolding versions_rows lookup
  versions_rows-Any name version p [] found h k = absurd (cc h)
  versions_rows-Any name version p ((v, items) ∷ versions) found h k =
      elim (Bool-cases (v == version)) [
        | inl e ↦
            append_left P (items_rows all_flags name v p items items)
              (versions_rows all_flags name p versions)
              (subst (λ y. Any P (items_rows all_flags name v p y y))
                (sym (lookup_hit version v items found versions e h))
                (subst (λ w. Any P (items_rows all_flags name w p found found))
                  (sym ((eq_iff v version).0 e)) k))
        | inr e ↦
            append_right P (items_rows all_flags name v p items items)
              (versions_rows all_flags name p versions)
              (versions_rows-Any name version p versions found
                (lookup_miss version v items found versions e h) k)
      ]

  products_rows-Any :
      (name : String) (i : Index) (p : Product) (names : List String)
      → lookup name i.products.products ≡ some p
      → listed name names ≡ true
      → Any P (versions_rows all_flags name p p.versions)
      → Any P (products_rows all_flags i names)
  unfolding products_rows is_left_out
  products_rows-Any name i p [] h l k = absurd (cc l)
  products_rows-Any name i p (n ∷ names) h l k = elim (Bool-cases (n == name)) [
    | inl e ↦ append_left P _ (products_rows all_flags i names) (
        subst
          (λ w. Any P (
            versions_rows all_flags w (product_or_zero (lookup w i.products.products))
              (product_or_zero (lookup w i.products.products)).versions))
          (sym ((eq_iff n name).0 e))
          (subst
            (λ o.
              Any P (versions_rows all_flags name (product_or_zero o) (product_or_zero o).versions))
            (sym h) k))
    | inr e ↦
        append_right P _ (products_rows all_flags i names)
          (products_rows-Any name i p names h (ground (arith, e, l)) k)
  ]

-- A file for a container is shown with its path.
container_row :
    (name version : String) (p : Product) (all : GoMap Item) (x : Item)
    → (x.file_type ≡ "incus_combined.tar.gz") ⊎ (x.file_type ≡ "lxd_combined.tar.gz")
    → Any
        (λ r. (r.product ≡ name) × (r.version ≡ version) × (r.kind ≡ container) × (r.path ≡ x.path))
        (item_rows all_flags name version p all x)
unfolding item_rows file_kind
container_row name version p all x (inl e) =
    subst
      (λ t.
        Any
          (λ r.
            (r.product ≡ name) × (r.version ≡ version) × (r.kind ≡ container) × (r.path ≡ x.path))
          (row_if name version p all x (file_kind all_flags t)))
      (sym e) (inl (refl, refl, refl, refl))
container_row name version p all x (inr e) =
    subst
      (λ t.
        Any
          (λ r.
            (r.product ≡ name) × (r.version ≡ version) × (r.kind ≡ container) × (r.path ≡ x.path))
          (row_if name version p all x (file_kind all_flags t)))
      (sym e) (inl (refl, refl, refl, refl))

lookup_of_member :
    (found : GoMap Item) (items : List Item) (x : Item)
    → Found found items
    → Any (λ y. y ≡ x) items
    → lookup x.file_type found ≡ some x
lookup_of_member found [] x h k = elim k.lower [ ]
lookup_of_member found (y ∷ items) x h (inl e) =
    subst (λ z. lookup z.file_type found ≡ some z) e h.0
lookup_of_member found (y ∷ items) x h (inr k) = lookup_of_member found items x h.1 k

-- A file of a container image that an import adds to a consistent index is shown, without flags, in a
-- row with the name of the product, the version and the path of the file, if no two files of the
-- import have one type.
pub show_rows-update :
    (m : Metadata) (version : String) (aliases : List String) (items : List Item) (x : Item)
    (i : Index)
    → IsConsistent i
    → Distinct items
    → Any (λ y. y ≡ x) items
    → (x.file_type ≡ "incus_combined.tar.gz") ⊎ (x.file_type ≡ "lxd_combined.tar.gz")
    → Any
        (λ r.
          (r.product ≡ product_name m)
          × (r.version ≡ version)
          × (r.kind ≡ container)
          × (r.path ≡ x.path))
        (show_rows all_flags (update m version aliases items i))
unfolding show_rows
show_rows-update m version aliases items x i c d k t =
    let after = update m version aliases items i in
    let name = product_name m in
    let (p, found, e, v, f) = update_holds m version aliases items i d in
    products_rows-Any _ name after p _ e
      ((update-IsConsistent m version aliases items i c).agree name ∙ ap is_some e)
      (versions_rows-Any _ name version p p.versions found v (
        items_rows-Any _ name version x.file_type p found found x
          (lookup_of_member found items x f k) (container_row name version p found x t)))
