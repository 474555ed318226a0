-- ===== src/Maps.antt =====
-- Go's maps with text keys, as association lists. The order of a list stands for the order of an
-- iteration, which Go leaves open; the nil map and the empty map are both `[]`.
use cluster_api_provider_inc.Prelude.{
  String, ◌≡◌, refl, Option, none, some, List, [], ◌∷◌, arith, ◌==◌, eq_iff, eq_refl, if◌then◌else◌,
}

abbrev pub GoMap {ℓ} : Type ℓ → Type ℓ
GoMap V = List (String × V)

module _ {ℓ} {V : Type ℓ} where
  -- m[key] = value
  unfoldable pub insert : String → V → GoMap V → GoMap V
  insert key value [] = (key, value) ∷ []
  insert key value (entry ∷ rest) =
      let rest' = insert key value rest in
      if entry.0 == key then (key, value) ∷ rest else entry ∷ rest'

  -- value, ok := m[key]
  unfoldable pub lookup : String → GoMap V → Option V
  lookup key [] = none
  lookup key (entry ∷ rest) = if entry.0 == key then some entry.1 else lookup key rest

  -- maps.Copy(m, new)
  unfoldable pub copy : GoMap V → GoMap V → GoMap V
  unfolding insert
  copy m [] = m
  copy m ((k, v) ∷ new) = insert k v (copy m new)

  -- The value, or another where the key is missing.
  abbrev pub or_else : Option V → Option V → Option V
  or_else none o = o
  or_else (some v) o = some v

  pub lookup-insert :
      (written read : String) (value : V) (m : GoMap V)
      → lookup read (insert written value m)
        ≡ (if written == read then some value else lookup read m)
  unfolding insert lookup
  lookup-insert written read value [] = refl
  lookup-insert written read value (entry ∷ rest) = ground (
    arith,
    lookup-insert written read value rest,
    eq_iff entry.0 written,
    eq_iff entry.0 read,
    eq_iff written read,
  )

  pub lookup-copy :
      (j : String) (m new : GoMap V) → lookup j (copy m new) ≡ or_else (lookup j new) (lookup j m)
  unfolding lookup copy
  lookup-copy j m [] = refl
  lookup-copy j m ((k, v) ∷ new) =
      ground (arith, lookup-insert k j v (copy m new), lookup-copy j m new)

pub lookup-insert_self {ℓ} :
    {V : Type ℓ} (k : String) (v : V) (m : GoMap V) → lookup k (insert k v m) ≡ some v
lookup-insert_self k v m = simp (lookup-insert, eq_refl)

-- m[k], with "" for a missing key.
unfoldable pub get : GoMap String → String → String
unfolding lookup
get m k = elim (lookup k m) [ none ↦ "" | some v ↦ v ]
