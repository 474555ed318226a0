-- ===== src/Text/Laws.antt =====
-- Laws of cutting and splitting texts.
use Prim.Native.String.{[], ◌∷◌}
use mathlib.Core.Path.{◌≡⟨◌⟩◌, ◌∎}
use text.Mathlib.TextEquality.{Char-path}
use text.Mathlib.TextLemmas.{nil-append, cons-append}
use cluster_api_provider_inc.Prelude.{
  Option, sym, ◌∙◌, Bool-cases, inl, inr, true, ℕ, Char, code, String, ◌≡◌, ◌≢◌, refl, ap, none,
  some, List, arith, nat_eq, nat_eq_refl, false, All,
}
use cluster_api_provider_inc.Text.{◌<>◌, cut, cut_prefix, split, join}

-- The text does not hold the character.
abbrev pub Lacks : ℕ → String → Type 0
Lacks sep [] = Unit
Lacks sep (c ∷ s) = (code c ≢ sep) × Lacks sep s

ne-nat_eq : (a b : ℕ) → a ≢ b → nat_eq a b ≡ false
ne-nat_eq a b h = ground arith

-- Cutting at the first separator gives the two parts back.
pub cut-append :
    (c : Char) (a b : String) → Lacks (code c) a → cut (code c) (a <> (c ∷ b)) ≡ some (a, b)
unfolding cut
cut-append c [] b h = rw (nil-append, nat_eq_refl (code c), cut)
cut-append c (d ∷ a) b h =
    rw (cons-append, cut, ne-nat_eq (code d) (code c) h.0, cut-append c a b h.1)

split_single : (sep : ℕ) (a : String) → Lacks sep a → split sep a ≡ List.◌∷◌ a List.[]
unfolding split
split_single sep [] h = refl
split_single sep (d ∷ a) h = rw (ne-nat_eq (code d) sep h.0, split, split_single sep a h.1)

split-append :
    (c : Char) (a b : String)
    → Lacks (code c) a
    → split (code c) (a <> (c ∷ b)) ≡ List.◌∷◌ a (split (code c) b)
unfolding split
split-append c [] b h = rw (nil-append, nat_eq_refl (code c), split)
split-append c (d ∷ a) b h =
    rw (cons-append, split, ne-nat_eq (code d) (code c) h.0, split-append c a b h.1)

-- Splitting what was joined gives the words back, if no word holds the separator.
pub split-join :
    (c : Char) (w : String) (ws : List String)
    → All (Lacks (code c)) (List.◌∷◌ w ws)
    → split (code c) (join (c ∷ []) (List.◌∷◌ w ws)) ≡ List.◌∷◌ w ws
unfolding join
split-join c w List.[] h = split_single (code c) w h.0
split-join c w (List.◌∷◌ v ws) h =
    split (code c) (w <> ((c ∷ []) <> join (c ∷ []) (List.◌∷◌ v ws)))
    ≡⟨ ap (λ s. split (code c) (w <> s)) (cons-append c [] _) ⟩
      split (code c) (w <> (c ∷ ([] <> join (c ∷ []) (List.◌∷◌ v ws))))
    ≡⟨ split-append c w _ h.0 ⟩ List.◌∷◌ w (split (code c) ([] <> join (c ∷ []) (List.◌∷◌ v ws)))
    ≡⟨ ap (λ s. List.◌∷◌ w (split (code c) s)) (nil-append _) ⟩
      List.◌∷◌ w (split (code c) (join (c ∷ []) (List.◌∷◌ v ws)))
    ≡⟨ ap (λ r. List.◌∷◌ w r) (split-join c v ws h.1) ⟩ List.◌∷◌ w (List.◌∷◌ v ws) ∎

pub Lacks-append : (sep : ℕ) (a b : String) → Lacks sep a → Lacks sep b → Lacks sep (a <> b)
Lacks-append sep [] b h k = rw nil-append k
Lacks-append sep (c ∷ a) b h k = rw cons-append (h.0, Lacks-append sep a b h.1 k)

-- A text without the separator is not cut.
pub cut-Lacks : (sep : ℕ) (a : String) → Lacks sep a → cut sep a ≡ none
unfolding cut
cut-Lacks sep [] h = refl
cut-Lacks sep (c ∷ a) h = rw (ne-nat_eq (code c) sep h.0, cut, cut-Lacks sep a h.1)

nat_eq-path : (a b : ℕ) → nat_eq a b ≡ true → a ≡ b
nat_eq-path a b h = ground arith

abbrev some_value : String → Option String → String
some_value d none = d
some_value d (some s) = s

-- What CutPrefix leaves, with the prefix before it, is the text.
pub cut_prefix-some : (p s r : String) → cut_prefix p s ≡ some r → s ≡ p <> r
unfolding cut_prefix
cut_prefix-some [] s r h = ap (some_value s) h ∙ sym (nil-append r)
cut_prefix-some (c ∷ p) [] r h = absurd (cc h)
cut_prefix-some (c ∷ p) (d ∷ s) r h = elim (Bool-cases (nat_eq (code c) (code d))) [
  | inl e ↦
      ap (λ x. x ∷ s) (sym (Char-path c d (nat_eq-path (code c) (code d) e)))
      ∙ ap (λ x. c ∷ x) (cut_prefix-some p s r (ground (arith, e, h)))
      ∙ sym (cons-append c p r)
  | inr e ↦ absurd (ground (arith, e, h))
]
