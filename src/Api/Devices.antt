-- ===== src/Api/Devices.antt =====
-- Devices.ToMap of api/v1alpha2/lxcmachine_types.go: "<device>,<key>=<value>,<key2>=<value2>".
pub mod Roundtrip
use cluster_api_provider_inc.Prelude.{String, Option, none, some, List, [], ◌∷◌}
use cluster_api_provider_inc.Text.{◌<>◌, quote, cut, split}
use cluster_api_provider_inc.Maps.{GoMap, lookup, insert}
use cluster_api_provider_inc.Errors.{Result, ok, err, errorf, ◌>>=◌}

abbrev pub DeviceMap : Type 0
DeviceMap = GoMap (GoMap String)

abbrev no_separator : String → Result (String × String)
no_separator spec = err (
    errorf (
      "device spec "
      <> quote spec
      <> " is not using the expected \"<device>,<key>=<value>,<key2>=<value2>\" format"))

abbrev no_equal : String → String → Result (String × String)
no_equal spec arg = err (
    errorf (
      "device argument "
      <> quote arg
      <> " of device spec "
      <> quote spec
      <> " is not using the expected \"<key>=<value>\" format"))

-- The check of the second result of strings.Cut.
abbrev or_fail : Option (String × String) → Result (String × String) → Result (String × String)
or_fail none r = r
or_fail (some p) r = ok p

-- The inner loop, over the arguments of one spec.
unfoldable pub add_args : String → List String → GoMap String → Result (GoMap String)
unfolding cut insert
add_args spec [] m = ok m
add_args spec (arg ∷ args) m = do
  p ← or_fail (cut b'=' arg) (no_equal spec arg)
  add_args spec args (insert p.0 p.1 m)

-- m[name], created where it is missing
unfoldable pub device : String → DeviceMap → GoMap String
unfolding lookup
device name m = elim (lookup name m) [ none ↦ [] | some d ↦ d ]

-- The outer loop, over the specs.
unfoldable pub add_specs : DeviceMap → List String → Result DeviceMap
unfolding cut split insert add_args device
add_specs m [] = ok m
add_specs m (spec ∷ specs) = do
  p ← or_fail (cut b',' spec) (no_separator spec)
  d ← add_args spec (split b',' p.1) (device p.0 m)
  add_specs (insert p.0 d m) specs

unfoldable pub to_map : List String → Result DeviceMap
unfolding add_specs
to_map specs = add_specs [] specs
