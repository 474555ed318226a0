-- ===== src/Images/Check/Found.antt =====
-- What Check of an image has seen where it succeeds.
use cluster_api_provider_inc.Prelude.{
  String, ◌≡◌, refl, ap, ◌∙◌, Bool, true, false, ◌⊎◌, inl, inr, Option, none, some, eq_iff, ◌==◌,
}
use cluster_api_provider_inc.Text.{◌<>◌, cut_prefix}
use mathlib.Core.Path.{subst}
use cluster_api_provider_inc.Text.Laws.{cut_prefix-some}
use cluster_api_provider_inc.Errors.{Result, ok, err, wrap_terminal, wrap-ok}
use cluster_api_provider_inc.Action.Steps.{Gives, bind-Gives, lift-Gives, attempt-Gives, if-Gives}
use cluster_api_provider_inc.Images.{Image, oci, simplestreams}
use cluster_api_provider_inc.Images.Check.{
  Registry, image_reference, check_oci, check_simplestreams, check, head_result,
}

module _ {W : Type 0} (registry : Registry W) (i : Image) where
  -- The simplestreams server has been connected to, and has the alias for the type of instance.
  abbrev pub HasAlias : String → W → W → Type 0
  HasAlias instance_type w v =
      (i.protocol ≡ simplestreams)
      × (u : W) × Gives (registry.connect_simple_streams i.server) w tt u
      × Gives (registry.get_image_alias_type i.server instance_type i.alias) u tt v

  -- The registry has answered for the alias on the server, without the check of certificates exactly
  -- where the server is an http:// one.
  abbrev pub HasHead : W → W → Type 0
  HasHead w v =
      (i.protocol ≡ oci)
      × (host : String) × (((i.server ≡ "https://" <> host)
            × Gives (registry.head (host <> "/" <> i.alias) false) w tt v)
          ⊎ ((i.server ≡ "http://" <> host)
              × Gives (registry.head (host <> "/" <> i.alias) true) w tt v))

  cut_prefix_case :
      (p : String)
      → ((r : String) × (cut_prefix p i.server ≡ some r)) ⊎ (cut_prefix p i.server ≡ none)
  cut_prefix_case p = by_case (cut_prefix p i.server) refl
    where
      by_case :
          (o : Option String)
          → cut_prefix p i.server ≡ o
          → ((r : String) × (cut_prefix p i.server ≡ some r)) ⊎ (cut_prefix p i.server ≡ none)
      by_case (some r) e = inl (r, e)
      by_case none e = inr e

  head_result-ok :
      (image_ref : String) (r : Result (Unit {0})) → head_result image_ref r ≡ ok tt → r ≡ ok tt
  head_result-ok image_ref (ok tt) h = refl
  head_result-ok image_ref (err e) h = absurd (cc h)

  check_oci-head :
      (image_ref : String) (insecure : Bool) (w v : W)
      → Gives (check_oci registry i (some (image_ref, insecure))) w tt v
      → Gives (registry.head image_ref insecure) w tt v
  unfolding check_oci
  check_oci-head image_ref insecure w v h =
      let (r, u, a, b) = bind-Gives _ _ w v tt h in
      let (e, q) = lift-Gives (head_result image_ref r) u v tt b in
      attempt-Gives _ w u r a
      ∙ ap (λ z. (z, u)) (head_result-ok image_ref r e)
      ∙ ap (λ z. (ok tt, z)) q

  image_reference-https :
      (host : String)
      → cut_prefix "https://" i.server ≡ some host
      → image_reference i ≡ some (host <> "/" <> i.alias, false)
  unfolding image_reference
  image_reference-https host e = rw (e, image_reference) refl

  image_reference-http :
      (host : String)
      → cut_prefix "https://" i.server ≡ none
      → cut_prefix "http://" i.server ≡ some host
      → image_reference i ≡ some (host <> "/" <> i.alias, true)
  unfolding image_reference
  image_reference-http host e f = rw (e, image_reference) (rw (f, image_reference) refl)

  image_reference-none :
      cut_prefix "https://" i.server ≡ none
      → cut_prefix "http://" i.server ≡ none
      → image_reference i ≡ none
  unfolding image_reference
  image_reference-none e f = rw (e, image_reference) (rw (f, image_reference) refl)

  check_oci-none : (w v : W) → Gives (check_oci registry i none) w tt v → ⊥
  unfolding check_oci
  check_oci-none w v h = cc ((lift-Gives _ w v tt h).0)

  check_oci-HasHead :
      (w v : W)
      → i.protocol ≡ oci
      → Gives (check_oci registry i (image_reference i)) w tt v
      → HasHead w v
  check_oci-HasHead w v p h = elim (cut_prefix_case "https://") [
    | inl x ↦ (
      p,
      x.0,
      inl (cut_prefix-some _ _ _ x.1, check_oci-head _ _ w v (at (image_reference-https x.0 x.1))),
    )
    | inr e ↦ elim (cut_prefix_case "http://") [
      | inl x ↦ (
        p,
        x.0,
        inr (
          cut_prefix-some _ _ _ x.1,
          check_oci-head _ _ w v (at (image_reference-http x.0 e x.1)),
        ),
      )
      | inr f ↦ absurd (check_oci-none w v (at (image_reference-none e f)))
    ]
  ]
    where
      at :
          {o : Option (String × Bool)}
          → image_reference i ≡ o
          → Gives (check_oci registry i o) w tt v
      at e = subst (λ o. Gives (check_oci registry i o) w tt v) e h

  wrapped-ok : (s : String) (r : Result (Unit {0})) → wrap_terminal s r ≡ ok tt → r ≡ ok tt
  wrapped-ok s (ok tt) h = refl
  wrapped-ok s (err e) h = absurd (cc h)

  check_simplestreams-HasAlias :
      (instance_type : String) (w v : W)
      → i.protocol ≡ simplestreams
      → Gives (check_simplestreams registry i instance_type) w tt v
      → HasAlias instance_type w v
  unfolding check_simplestreams
  check_simplestreams-HasAlias instance_type w v p h =
      let (r, u, a, b) = bind-Gives _ _ w v tt h in
      let (_, u', c, d) = bind-Gives _ _ u v tt b in
      let (s, t, e, f) = bind-Gives _ _ u' v tt d in
      let (x, q) = lift-Gives _ u u' tt c in
      let (y, z) = lift-Gives _ t v tt f in
      (
        p,
        u',
        attempt-Gives _ w u r a ∙ ap (λ k. (k, u)) (wrap-ok _ r tt x) ∙ ap (λ k. (ok tt, k)) q,
        attempt-Gives _ u' t s e ∙ ap (λ k. (k, t)) (wrapped-ok _ s y) ∙ ap (λ k. (ok tt, k)) z,
      )

  -- Check succeeds only when a server has answered for the image: a simplestreams server that was
  -- connected to has its alias for the type of instance, or the registry on the image's server has
  -- answered the HEAD request for its alias, insecurely only for an http:// server.
  pub check_found :
      (instance_type : String) (w v : W)
      → check registry i instance_type w ≡ (ok tt, v)
      → HasAlias instance_type w v ⊎ HasHead w v
  unfolding check
  check_found instance_type w v h = elim (if-Gives (i.protocol == simplestreams) _ _ w v tt h) [
    | inl p ↦ inl (
        check_simplestreams-HasAlias instance_type w v ((eq_iff i.protocol simplestreams).0 p.0)
          p.1)
    | inr p ↦ elim (if-Gives (i.protocol == oci) _ _ w v tt p.1) [
      | inl q ↦ inr (check_oci-HasHead w v ((eq_iff i.protocol oci).0 q.0) q.1)
      | inr q ↦ absurd (cc ((lift-Gives _ w v tt q.1).0))
    ]
  ]
