-- ===== src/Text/Forms.antt =====
-- More of Go's packages strings and strconv: ToLower on ASCII, TrimSuffix and ParseBool.
use Prim.Native.String.{[], ◌∷◌}
use cluster_api_provider_inc.Prelude.{
  Char, code, String, Bool, true, false, ◌||◌, Option, none, some, nat_eq, ◌==◌, if◌then◌else◌,
}

-- The letter beside the one that is equal to the character, in a row of pairs.
abbrev lower_of : Char → String → String → Char
lower_of c [] lower = c
lower_of c (u ∷ upper) [] = c
lower_of c (u ∷ upper) (l ∷ lower) = if nat_eq (code c) (code u) then l else lower_of c upper lower

-- strings.ToLower, for texts whose capital letters are ASCII
unfoldable pub to_lower : String → String
to_lower [] = []
to_lower (c ∷ s) = lower_of c "ABCDEFGHIJKLMNOPQRSTUVWXYZ" "abcdefghijklmnopqrstuvwxyz" ∷ to_lower s

-- strings.TrimSuffix
unfoldable pub trim_suffix : String → String → String
trim_suffix suffix [] = []
trim_suffix suffix (c ∷ s) =
    let rest = trim_suffix suffix s in if (c ∷ s) == suffix then [] else c ∷ rest

-- strconv.ParseBool, `none` where it fails
unfoldable pub parse_bool : String → Option Bool
parse_bool s =
    if s == "1" || s == "t" || s == "T" || s == "true" || s == "TRUE" || s == "True"
    then some true
    else if s == "0" || s == "f" || s == "F" || s == "false" || s == "FALSE" || s == "False"
    then some false
    else none

-- strconv.FormatBool, and %t
abbrev pub format_bool : Bool → String
format_bool true = "true"
format_bool false = "false"
