-- ===== src/Sorting/Laws.antt =====
-- The order of texts, and sorting.
use mathlib.Core.Logic.{∥∥₁_elim}
use mathlib.Core.List.{Perm, Permᴰ}
use mathlib.Core.HLevel.{hedberg}
use text.Mathlib.TextEquality.{Char-path}
use cluster_api_provider_inc.Prelude.{
  String, ◌≡◌, refl, true, false, List, [], ◌∷◌, arith, inl, inr, Bool-cases, ◌==◌, eq_iff, ◌∙◌,
}
use cluster_api_provider_inc.Sorting.{text_le, insert_text, sort}

text_le_total : (s t : String) → text_le s t ≡ false → text_le t s ≡ true
unfolding text_le
text_le_total String.[] t h = cc
text_le_total (String.◌∷◌ c s) String.[] h = refl
text_le_total (String.◌∷◌ c s) (String.◌∷◌ d t) h = ground (arith, text_le_total s t)

text_le_trans : (s t u : String) → text_le s t ≡ true → text_le t u ≡ true → text_le s u ≡ true
unfolding text_le
text_le_trans String.[] t u h k = refl
text_le_trans (String.◌∷◌ c s) String.[] u h k = cc
text_le_trans (String.◌∷◌ c s) (String.◌∷◌ d t) String.[] h k = cc
text_le_trans (String.◌∷◌ c s) (String.◌∷◌ d t) (String.◌∷◌ e u) h k =
    ground (arith, text_le_trans s t u)

text_le_antisym : (s t : String) → text_le s t ≡ true → text_le t s ≡ true → s ≡ t
unfolding text_le
text_le_antisym String.[] String.[] h k = refl
text_le_antisym String.[] (String.◌∷◌ d t) h k = cc
text_le_antisym (String.◌∷◌ c s) String.[] h k = cc
text_le_antisym (String.◌∷◌ c s) (String.◌∷◌ d t) h k =
    ground (arith, text_le_antisym s t, Char-path c d)

insert_text_comm :
    (a b : String) (l : List String)
    → insert_text a (insert_text b l) ≡ insert_text b (insert_text a l)
unfolding insert_text
insert_text_comm a b [] = ground (arith, text_le_total a b, text_le_total b a, text_le_antisym a b)
insert_text_comm a b (x ∷ l) = ground (
  arith,
  insert_text_comm a b l,
  text_le_total a b,
  text_le_total b a,
  text_le_antisym a b,
  text_le_total a x,
  text_le_total b x,
  text_le_trans a b x,
  text_le_trans b a x,
)

sort-Permᴰ : (l m : List String) → Permᴰ l m → sort l ≡ sort m
unfolding sort
sort-Permᴰ _ _ Permᴰ.nil = refl
sort-Permᴰ _ _ (Permᴰ.cons {a} {b} {l₁ = l} {l₂ = m} e p) = rw (e, sort-Permᴰ l m p)
sort-Permᴰ _ _ (Permᴰ.swap {a} {b} {a'} {b'} {l} e f) = rw (e, f) (insert_text_comm b' a' (sort l))
sort-Permᴰ _ _ (Permᴰ.trans {l₁ = l} {l₂ = m} {l₃ = n} p q) = sort-Permᴰ l m p ∙ sort-Permᴰ m n q

String-discrete : Discrete String
String-discrete s t = elim (Bool-cases (s == t)) [
  | inl e ↦ yes ((eq_iff s t).0 e)
  | inr e ↦ no (λ p. cc (e, (eq_iff s t).1 p))
]

texts-discrete : Discrete (List String)
texts-discrete = hlevel String-discrete

-- Sorting two lists with the same elements, in whatever order, gives one list.
pub sort-perm : {l m : List String} → Perm l m → sort l ≡ sort m
sort-perm {l} {m} p = ∥∥₁_elim p (hedberg texts-discrete (sort l) (sort m)) (sort-Permᴰ l m)

-- Each text is at most the one behind it.
abbrev pub IsSorted : List String → Type 0
IsSorted [] = Unit
IsSorted (x ∷ []) = Unit
IsSorted (x ∷ y ∷ l) = (text_le x y ≡ true) × IsSorted (y ∷ l)

insert_text-IsSorted : (a : String) (l : List String) → IsSorted l → IsSorted (insert_text a l)
unfolding insert_text
insert_text-IsSorted a [] h = tt
insert_text-IsSorted a (x ∷ []) h = ground (arith, text_le_total a x)
insert_text-IsSorted a (x ∷ y ∷ l) h =
    ground (arith, insert_text-IsSorted a (y ∷ l) h.1, text_le_total a x, text_le_total a y)

pub sort-IsSorted : (l : List String) → IsSorted (sort l)
unfolding sort
sort-IsSorted [] = tt
sort-IsSorted (x ∷ l) = insert_text-IsSorted x (sort l) (sort-IsSorted l)
