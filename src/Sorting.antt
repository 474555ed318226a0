-- ===== src/Sorting.antt =====
-- slices.Sort on texts: ordered by code points, which is the order of their UTF-8 bytes.
pub mod Laws
use Prim.Native.String.{[], ◌∷◌}
use cluster_api_provider_inc.Prelude.{
  String, code, Bool, true, false, List, ltb, nat_eq, if◌then◌else◌,
}

unfoldable pub text_le : String → String → Bool
text_le [] t = true
text_le (c ∷ s) [] = false
text_le (c ∷ s) (d ∷ t) =
    if ltb (code c) (code d) then true else if nat_eq (code c) (code d) then text_le s t else false

unfoldable pub insert_text : String → List String → List String
unfolding text_le
insert_text a List.[] = List.◌∷◌ a List.[]
insert_text a (List.◌∷◌ x l) =
    let rest = List.◌∷◌ x (insert_text a l) in
    if text_le a x then List.◌∷◌ a (List.◌∷◌ x l) else rest

unfoldable pub sort : List String → List String
unfolding insert_text
sort List.[] = List.[]
sort (List.◌∷◌ x l) = insert_text x (sort l)
