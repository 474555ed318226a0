-- ===== src/Api/Devices/Roundtrip.antt =====
-- Device specs that are printed and parsed.
use cluster_api_provider_inc.Prelude.{
  Char, String, ◌≡◌, refl, List, [], ◌∷◌, map, All, code, ◌++◌, ◌∙◌,
}
use cluster_api_provider_inc.Text.{◌<>◌, join, quote}
use cluster_api_provider_inc.Errors.{err, errorf, ok}
use cluster_api_provider_inc.Text.Laws.{cut-Lacks, Lacks, cut-append, split-join}
use cluster_api_provider_inc.Maps.{GoMap, insert}
use cluster_api_provider_inc.Api.Devices.{DeviceMap, add_args, device, add_specs, to_map}

abbrev comma : Char
comma = ","

abbrev equal : Char
equal = "="

-- A device with its settings; there is at least one.
pub record DeviceSpec : Type 0 where
  pub name : String
  pub first : String × String
  pub rest : List (String × String)

abbrev pub print_arg : String × String → String
print_arg p = p.0 <> String.◌∷◌ equal p.1

abbrev pub args : DeviceSpec → List (String × String)
args s = s.first ∷ s.rest

abbrev pub print_spec : DeviceSpec → String
print_spec s =
    s.name
    <> String.◌∷◌ comma
        (join (String.◌∷◌ comma String.[]) (print_arg s.first ∷ map print_arg s.rest))

-- The device's name and each printed setting hold no comma, and no key holds an equals sign.
abbrev pub IsPrintable : DeviceSpec → Type 0
IsPrintable s =
    Lacks (code comma) s.name
    × All (λ a. Lacks (code comma) a) (map print_arg (args s))
    × All (λ p. Lacks (code equal) p.0) (args s)

-- What the settings mean: each is written to its device in turn.
abbrev pub set_args : List (String × String) → GoMap String → GoMap String
set_args [] m = m
set_args (p ∷ ps) m = set_args ps (insert p.0 p.1 m)

abbrev pub set_devices : DeviceMap → List DeviceSpec → DeviceMap
set_devices m [] = m
set_devices m (s ∷ specs) =
    set_devices (insert s.name (set_args (args s) (device s.name m)) m) specs

add_args-print :
    (spec : String) (ps : List (String × String)) (m : GoMap String)
    → All (λ p. Lacks (code equal) p.0) ps
    → add_args spec (map print_arg ps) m ≡ ok (set_args ps m)
unfolding add_args
add_args-print spec [] m h = refl
add_args-print spec (p ∷ ps) m h =
    rw (cut-append equal p.0 p.1 h.0, add_args) (add_args-print spec ps (insert p.0 p.1 m) h.1)

add_specs-print :
    (m : DeviceMap) (specs : List DeviceSpec)
    → All IsPrintable specs
    → add_specs m (map print_spec specs) ≡ ok (set_devices m specs)
unfolding add_specs
add_specs-print m [] h = refl
add_specs-print m (s ∷ specs) h =
    rw
      (
        cut-append comma s.name _ h.0.0,
        split-join comma (print_arg s.first) (map print_arg s.rest) h.0.1,
        add_args-print (print_spec s) (args s) (device s.name m) h.0.2,
      )
      (add_specs-print (insert s.name (set_args (args s) (device s.name m)) m) specs h.1)

-- Parsing printed device specs gives the map in which every setting of every spec has been written
-- in order, if no name or setting holds a comma and no key an equals sign.
pub to_map-print :
    (specs : List DeviceSpec)
    → All IsPrintable specs
    → to_map (map print_spec specs) ≡ ok (set_devices [] specs)
unfolding to_map
to_map-print specs h = add_specs-print [] specs h

add_specs-append :
    (m : DeviceMap) (specs : List DeviceSpec) (rest : List String)
    → All IsPrintable specs
    → add_specs m (map print_spec specs ++ rest) ≡ add_specs (set_devices m specs) rest
unfolding add_specs
add_specs-append m [] rest h = refl
add_specs-append m (s ∷ specs) rest h =
    rw
      (
        cut-append comma s.name _ h.0.0,
        split-join comma (print_arg s.first) (map print_arg s.rest) h.0.1,
        add_args-print (print_spec s) (args s) (device s.name m) h.0.2,
      )
      (add_specs-append (insert s.name (set_args (args s) (device s.name m)) m) specs rest h.1)

-- A spec without a comma is refused wherever it stands behind printed ones: parsing fails with an
-- error that names that spec, whatever follows it.
pub to_map_malformed :
    (specs : List DeviceSpec) (bad : String) (rest : List String)
    → All IsPrintable specs
    → Lacks (code comma) bad
    → (to_map (map print_spec specs ++ bad ∷ rest)
        ≡ err (
            errorf (
              "device spec "
              <> quote bad
              <> " is not using the expected \"<device>,<key>=<value>,<key2>=<value2>\" format")))
unfolding to_map add_specs
to_map_malformed specs bad rest h k =
    add_specs-append [] specs (bad ∷ rest) h ∙ rw (cut-Lacks (code comma) bad k)
