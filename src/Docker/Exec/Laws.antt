-- ===== src/Docker/Exec/Laws.antt =====
-- The flags that docker exec drops.
use cluster_api_provider_inc.Prelude.{
  String, ◌≡◌, Bool, true, false, ◌||◌, List, [], ◌∷◌, ◌++◌, All, arith, ◌==◌,
}
use cluster_api_provider_inc.Errors.{ok, err, errorf}
use cluster_api_provider_inc.Docker.Exec.{drop_flags}

-- --privileged or -i
abbrev pub is_flag : String → Bool
is_flag arg = arg == "--privileged" || arg == "-i"

-- Docker exec drops the flags in front of the instance's name and no other argument, flags of the
-- command included; with at least one argument, all of them flags, it fails with an error.
pub drop_flags_lem :
    (flag : String) (flags : List String) (name : String) (command : List String)
    → All (λ arg. is_flag arg ≡ true) (flag ∷ flags)
    → is_flag name ≡ false
    → (drop_flags (flags ++ name ∷ command) ≡ ok (name, command))
      × (drop_flags (flag ∷ flags) ≡ err (errorf "instance name not specified"))
unfolding drop_flags
drop_flags_lem flag [] name [] h k = ground arith
drop_flags_lem flag [] name (c ∷ command) h k = ground arith
drop_flags_lem flag (f ∷ []) name command h k =
    ground (arith, drop_flags_lem flag [] name command (h.0, tt) k)
drop_flags_lem flag (f ∷ g ∷ flags) name command h k =
    ground (arith, drop_flags_lem f (g ∷ flags) name command h.1 k)
