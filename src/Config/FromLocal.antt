-- ===== src/Config/FromLocal.antt =====
-- Which configuration ConfigurationFromLocal returns.
use cluster_api_provider_inc.Action.Ensures.{
  Ensures-then, Ensures, Ensures-bind, Ensures-if, Ensures-pure, Ensures-lift,
}
use cluster_api_provider_inc.Prelude.{
  String, ◌≡◌, refl, true, List, [], ◌∷◌, ◌++◌, arith, ◌==◌, if◌then◌else◌, ◌&&◌, ◌||◌, not,
}
use cluster_api_provider_inc.Text.{has_prefix}
use cluster_api_provider_inc.Errors.{GoError, Result, ok, err}
use cluster_api_provider_inc.Action.{Action, pure}
use cluster_api_provider_inc.Config.{
  Configuration, Local, Remote, CliConfig, try_each, from_file, from_remote, from_local,
  no_configuration, errors_join, next_file, with_certificates, get_default_config_files,
}

-- Trying the files in turn fails with these errors, and leads from one world to another.
abbrev pub Fails :
    {W A : Type 0} → (String → Action W A) → List String → List GoError → W → W → Type 0
Fails try_file [] [] w w' = w ≡ w'
Fails try_file [] (e ∷ errs) w w' = ⊥
Fails try_file (file ∷ files) [] w w' = ⊥
Fails {W} try_file (file ∷ files) (e ∷ errs) w w' =
    (v : W) × (try_file file w ≡ (err e, v)) × Fails try_file files errs v w'

-- The loop takes the first file that succeeds, in the world that the failures before it left.
pub try_each-first :
    {W A : Type 0} (default : A × String) (try_file : String → Action W A) (before : List String)
    (file : String) (after : List String) (failures errs : List GoError) (w w' v : W) (a : A)
    → Fails try_file before failures w w'
    → try_file file w' ≡ (ok a, v)
    → try_each default try_file (before ++ file ∷ after) errs w ≡ (ok (a, file), v)
unfolding try_each
try_each-first default try_file [] file after [] errs w w' v a f h = rw f (rw h refl)
try_each-first default try_file [] file after (e ∷ failures) errs w w' v a f h = elim f [ ]
try_each-first default try_file (b ∷ before) file after [] errs w w' v a f h = elim f [ ]
try_each-first default try_file (b ∷ before) file after (e ∷ failures) errs w w' v a f h =
    rw (f.1)
      (try_each-first default try_file before file after failures (errs ++ e ∷ []) f.0 w' v a f.2 h)

module _ {W A : Type 0} (P : A → Type 0) where
  next-Ensures :
      (file : String) (errs : List GoError) (go : List GoError → Action W (A × String))
      (r : Result A) (w : W) (p : A × String)
      → ((a : A) → r ≡ ok a → P a)
      → ((x : GoError) → Ensures (λ q. P q.0) (go (errs ++ x ∷ [])))
      → (next_file file errs go (r, w)).0 ≡ ok p
      → P p.0
  next-Ensures file errs go (ok a) w p h k e = ground (arith, h a refl)
  next-Ensures file errs go (err x) w p h k e = (k x).at w p e

  try_each_failed :
      (default : A × String) (try_file : String → Action W A)
      → ((file : String) → Ensures P (try_file file))
      → (files : List String) (e : GoError) (errs : List GoError)
      → Ensures (λ q. P q.0) (try_each default try_file files (e ∷ errs))
  unfolding try_each errors_join
  try_each_failed default try_file h [] e errs = record { at = λ w p k. absurd (ground arith) }
  try_each_failed default try_file h (file ∷ files) e errs = record {
    at = λ w p k.
        next-Ensures file (e ∷ errs) (λ errs'. try_each default try_file files errs')
          (try_file file w).0 (try_file file w).1 p ((h file).at w)
          (λ x. try_each_failed default try_file h files e (errs ++ x ∷ [])) k;
  }

  -- What is returned was given by one of the files, if there is one.
  try_each-Ensures :
      (default : A × String) (try_file : String → Action W A)
      → ((file : String) → Ensures P (try_file file))
      → (file : String) (files : List String)
      → Ensures (λ q. P q.0) (try_each default try_file (file ∷ files) [])
  unfolding try_each
  try_each-Ensures default try_file h file files = record {
    at = λ w p k.
        next-Ensures file [] (λ errs'. try_each default try_file files errs') (try_file file w).0
          (try_file file w).1 p ((h file).at w) (λ x. try_each_failed default try_file h files x [])
          k;
  }

-- The URL starts with https://, and no certificate goes with another URL.
abbrev pub IsHttps : Configuration → Type 0
IsHttps c = has_prefix "https://" c.server_url ≡ true

module _ {W : Type 0} (l : Local W) where
  from_remote-IsHttps :
      (file name : String) (config : CliConfig) (remote : Remote)
      → Ensures IsHttps (from_remote l file name true config remote)
  unfolding from_remote with_certificates
  from_remote-IsHttps file name config remote =
      Ensures-if (true && not (has_prefix "https://" remote.addr)) _ _
        (λ t. Ensures-lift _ (λ a e. absurd (ground arith)))
        (λ t.
          Ensures-if (has_prefix "unix://" remote.addr || has_prefix "http://" remote.addr) _ _
            (λ u. Ensures-pure _ (ground arith))
            (λ u.
              Ensures-if (not config.has_client_certificate) _ _
                (λ v. Ensures-lift _ (λ a e. absurd (ground arith)))
                (λ v. Ensures-bind _ _ (λ a.
                  Ensures-bind _ _ (λ b. Ensures-bind _ _ (λ c. Ensures-pure _ (ground arith)))))))

  from_file-IsHttps : (force file : String) → Ensures IsHttps (from_file l force file true)
  unfolding from_file
  from_file-IsHttps force file =
      Ensures-bind _ _
        (λ config. Ensures-bind _ _ (λ remote. from_remote-IsHttps file _ config remote))

  abbrev Exist : List String → Type 0
  Exist [] = ⊥
  Exist (file ∷ files) = Unit

  append-Exist : (files : List String) → Exist (files ++ "" ∷ [])
  append-Exist [] = tt
  append-Exist (file ∷ files) = tt

  files_tried :
      (config_file : String)
      → Ensures Exist
          (if config_file == "" then get_default_config_files l else pure (config_file ∷ []))
  unfolding get_default_config_files
  files_tried config_file =
      Ensures-if (config_file == "") _ _
        (λ t. Ensures-bind _ _ (λ files. Ensures-pure _ (append-Exist files)))
        (λ t. Ensures-pure _ tt)

  tried-IsHttps :
      (force : String) (files : List String)
      → Exist files
      → Ensures
          (λ q. IsHttps q.0)
          (try_each (no_configuration, "") (λ file. from_file l force file true) files [])
  tried-IsHttps force [] h = elim h [ ]
  tried-IsHttps force (file ∷ files) h =
      try_each-Ensures IsHttps _ _ (λ f. from_file-IsHttps force f) file files

  -- If HTTPS is required, the configuration that ConfigurationFromLocal returns has an https:// URL,
  -- whichever of the files it comes from and whatever remote is asked for.
  pub from_local-IsHttps :
      (config_file force path : String) (w : W) (c : Configuration)
      → (from_local l config_file force true w).0 ≡ ok (c, path)
      → has_prefix "https://" c.server_url ≡ true
  unfolding from_local
  from_local-IsHttps config_file force path w c h =
      (Ensures-then Exist _ _ (files_tried config_file) (tried-IsHttps force)).at w (c, path) h
