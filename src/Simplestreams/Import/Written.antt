-- ===== src/Simplestreams/Import/Written.antt =====
-- The files of the index at the end of an import.
use mathlib.Core.Path.{subst}
use cluster_api_provider_inc.Prelude.{String, ◌≡◌, ap, sym, ◌∙◌, [], ◌∷◌, ◌⊎◌}
use cluster_api_provider_inc.Errors.{ok}
use cluster_api_provider_inc.Action.{Action, ◌>>=◌}
use cluster_api_provider_inc.Action.Steps.{value_or, Gives, bind-Gives, lift-Gives, wrapping-Gives}
use cluster_api_provider_inc.Simplestreams.{Index}
use cluster_api_provider_inc.Simplestreams.Archives.{Codec}
use cluster_api_provider_inc.Simplestreams.Import.{Files, on_files, current, write_index}

module _ {W : Type 0} (files : Files W) (codec : Codec) where
  abbrev pub write_stream : Index → String → Action W (Unit {0})
  write_stream i json =
      files.write_file (codec.join_path (i.root_dir ∷ "streams" ∷ "v1" ∷ "index.json" ∷ [])) json

  abbrev pub write_products : Index → String → Action W (Unit {0})
  write_products i json =
      files.write_file (codec.join_path (i.root_dir ∷ "streams" ∷ "v1" ∷ "images.json" ∷ [])) json

  -- The last two calls were successful writes of the index: of index.json, and then of images.json.
  abbrev pub IsWritten : Index → W → Type 0
  IsWritten i v =
      (index_json : String) × (images_json : String) × (w : W) × (u : W) × (files.stream_json
          i.stream
        ≡ ok index_json)
      × (files.products_json i.products ≡ ok images_json)
      × Gives (write_stream i index_json) w tt u
      × Gives (write_products i images_json) u tt v

  on_files-Gives :
      {A : Type 0} (m : Action W A) (s v : Index × W) (a : A)
      → Gives (on_files files codec m) s a v
      → Gives m s.1 a v.1 × (s.0 ≡ v.0)
  unfolding on_files
  on_files-Gives m s v a h = (ap (λ x. (x.0, x.1.1)) h, ap (λ x. x.1.0) h)

  current-Gives : (s v : Index × W) (i : Index) → Gives (current files codec) s i v → (i ≡ v.0)
  unfolding current
  current-Gives s v i h = ap (λ x. value_or s.0 x.0) (sym h) ∙ ap (λ x. x.1.0) h

  write_index-IsWritten :
      (s v : Index × W) → Gives (write_index files codec) s tt v → IsWritten v.0 v.1
  unfolding write_index
  write_index-IsWritten s v h =
      let (i, s0, x0, k0) = bind-Gives _ _ s v tt h in
      let (a, s1, x1, k1) = bind-Gives _ _ s0 v tt k0 in
      let (e1, q1) = lift-Gives _ s0 s1 a (wrapping-Gives _ _ s0 s1 a x1) in
      let (_, s2, x2, k2) = bind-Gives _ _ s1 v tt k1 in
      let (g2, q2) = on_files-Gives (write_stream i a) s1 s2 tt (wrapping-Gives _ _ s1 s2 tt x2) in
      let (b, s3, x3, k3) = bind-Gives _ _ s2 v tt k2 in
      let (e3, q3) = lift-Gives _ s2 s3 b (wrapping-Gives _ _ s2 s3 b x3) in
      let (g4, q4) = on_files-Gives (write_products i b) s3 v tt (wrapping-Gives _ _ s3 v tt k3) in
      subst (λ j. IsWritten j v.1)
        (current-Gives s s0 i x0 ∙ ap (λ x. x.0) q1 ∙ q2 ∙ ap (λ x. x.0) q3 ∙ q4)
        (
          a,
          b,
          s1.1,
          s2.1,
          e1,
          e3,
          g2,
          subst (λ t. Gives (write_products i b) t tt v.1) (ap (λ x. x.1) (sym q3)) g4,
        )

  record Ends (m : Action (Index × W) (Unit {0})) : Type 0 where
    at : (s v : Index × W) → Gives m s tt v → IsWritten v.0 v.1

  Ends-bind :
      {A : Type 0} (m : Action (Index × W) A) (f : A → Action (Index × W) (Unit {0}))
      → ((a : A) → Ends (f a))
      → Ends (m >>= f)
  Ends-bind m f k = record {
    at = λ s v h. let (a, u, x, y) = bind-Gives m f s v tt h in (k a).at u v y;
  }

  Ends-write_index : Ends (write_index files codec)
  Ends-write_index = record { at = write_index-IsWritten }

  ruleset ends_steps = (Ends-bind, Ends-write_index)

  -- The files were written, and then at most the directory of an extracted archive was removed.
  abbrev pub IsWrittenBefore : Index → W → Type 0
  IsWrittenBefore i v =
      (t : W) × IsWritten i t
      × ((t ≡ v) ⊎ ((tarball : String) × ((files.remove_all (files.dir tarball) t).1 ≡ v)))
