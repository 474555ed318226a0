-- ===== src/Text.antt =====
-- The functions of Go's package strings that the program calls, on texts by characters.
-- Separators and the texts that are searched for are ASCII, so that bytes and characters agree.
pub mod Laws
pub mod Forms
use Prim.Native.Nat.{◌%◌, ◌/◌}
use Prim.Native.String
use Prim.Native.String.{[], ◌∷◌}
use cluster_api_provider_inc.Prelude.{
  ℕ, zero, suc, Char, code, String, Bool, true, false, ◌||◌, Option, none, some, List, is_some,
  nat_eq, if◌then◌else◌, ◌==◌,
}

infixr 66 ◌<>◌
-- Concatenation of texts.
abbrev pub ◌<>◌ : String → String → String
s <> t = String.◌++◌ s t

-- %q, for a text with nothing to escape.
abbrev pub quote : String → String
quote s = "\"" <> s <> "\""

-- strings.CutPrefix
unfoldable pub cut_prefix : String → String → Option String
cut_prefix [] s = some s
cut_prefix (c ∷ p) [] = none
cut_prefix (c ∷ p) (d ∷ s) = if nat_eq (code c) (code d) then cut_prefix p s else none

-- strings.HasPrefix
unfoldable pub has_prefix : String → String → Bool
unfolding cut_prefix
has_prefix p s = is_some (cut_prefix p s)

-- strings.Contains(s, sub)
unfoldable pub contains : String → String → Bool
unfolding has_prefix
contains sub [] = has_prefix sub []
contains sub (c ∷ s) = has_prefix sub (c ∷ s) || contains sub s

-- strings.HasSuffix(s, suffix)
unfoldable pub has_suffix : String → String → Bool
has_suffix suffix [] = suffix == []
has_suffix suffix (c ∷ s) = suffix == (c ∷ s) || has_suffix suffix s

abbrev before : Char → Option (String × String) → Option (String × String)
before c none = none
before c (some (a, b)) = some (c ∷ a, b)

-- strings.Cut at a separator of one character; `none` where the separator is missing.
unfoldable pub cut : ℕ → String → Option (String × String)
cut sep [] = none
cut sep (c ∷ s) =
    let rest = cut sep s in if nat_eq (code c) sep then some ([], s) else before c rest

-- The part before the separator, or the whole text (the first result of strings.Cut).
unfoldable pub cut_before : ℕ → String → String
unfolding cut
cut_before sep s = elim (cut sep s) [ none ↦ s | some (a, b) ↦ a ]

-- The part behind the separator, or "" (the second result of strings.Cut).
unfoldable pub cut_after : ℕ → String → String
unfolding cut
cut_after sep s = elim (cut sep s) [ none ↦ "" | some (a, b) ↦ b ]

abbrev push_head : Char → List String → List String
push_head c List.[] = List.◌∷◌ (c ∷ []) List.[]
push_head c (List.◌∷◌ w ws) = List.◌∷◌ (c ∷ w) ws

-- strings.Split at a separator of one character.
unfoldable pub split : ℕ → String → List String
split sep [] = List.◌∷◌ "" List.[]
split sep (c ∷ s) =
    let rest = split sep s in if nat_eq (code c) sep then List.◌∷◌ "" rest else push_head c rest

abbrev tail_length : String → ℕ
tail_length [] = 0
tail_length (c ∷ []) = 0
tail_length (c ∷ d ∷ s) = suc (tail_length (d ∷ s))

-- The scan of strings.ReplaceAll; the number is what is left of a match to pass over.
unfoldable pub replace_from : String → String → ℕ → String → String
unfolding has_prefix
replace_from old new k [] = []
replace_from old new (suc k) (c ∷ s) = replace_from old new k s
replace_from old new zero (c ∷ s) =
    let hit = new <> replace_from old new (tail_length old) s in
    let miss = c ∷ replace_from old new zero s in if has_prefix old (c ∷ s) then hit else miss

-- strings.ReplaceAll for a non-empty `old`.
unfoldable pub replace_all : String → String → String → String
unfolding replace_from
replace_all old new s = replace_from old new zero s

-- The scan of strings.Split; the number is what is left of a separator to pass over.
unfoldable pub split_from : String → ℕ → String → List String
unfolding has_prefix
split_from sep k [] = List.◌∷◌ "" List.[]
split_from sep (suc k) (c ∷ s) = split_from sep k s
split_from sep zero (c ∷ s) =
    let hit = List.◌∷◌ "" (split_from sep (tail_length sep) s) in
    let miss = push_head c (split_from sep zero s) in if has_prefix sep (c ∷ s) then hit else miss

-- strings.Split at a non-empty separator.
unfoldable pub split_at : String → String → List String
unfolding split_from
split_at sep s = split_from sep zero s

-- strings.Join
unfoldable pub join : String → List String → String
join sep List.[] = ""
join sep (List.◌∷◌ w List.[]) = w
join sep (List.◌∷◌ w (List.◌∷◌ v ws)) = w <> sep <> join sep (List.◌∷◌ v ws)

abbrev digit : ℕ → String
digit zero = "0"
digit (suc zero) = "1"
digit (suc (suc zero)) = "2"
digit (suc (suc (suc zero))) = "3"
digit (suc (suc (suc (suc zero)))) = "4"
digit (suc (suc (suc (suc (suc zero))))) = "5"
digit (suc (suc (suc (suc (suc (suc zero)))))) = "6"
digit (suc (suc (suc (suc (suc (suc (suc zero))))))) = "7"
digit (suc (suc (suc (suc (suc (suc (suc (suc zero)))))))) = "8"
digit (suc (suc (suc (suc (suc (suc (suc (suc (suc n))))))))) = "9"

-- The digits of a number in front of a text; the fuel is more than the number.
unfoldable pub decimal_from : ℕ → ℕ → String → String
decimal_from zero n acc = acc
decimal_from (suc fuel) n acc =
    let acc' = digit (n % 10) <> acc in
    let rest = decimal_from fuel (n / 10) acc' in if nat_eq (n / 10) 0 then acc' else rest

-- %d
unfoldable pub decimal : ℕ → String
unfolding decimal_from
decimal n = decimal_from (suc n) n ""
