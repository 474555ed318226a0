-- ===== src/OciImage/Laws.antt =====
-- What the accessors of an OCI image name give for the usual spellings.
use cluster_api_provider_inc.Prelude.{
  String, ◌≡◌, refl, sym, ◌∙◌, ap, some, arith, nat_eq_refl, Char, code, ℕ,
}
use Prim.Native.String.{[], ◌∷◌}
use text.Mathlib.TextLemmas.{nil-append, cons-append, append_assoc}
use cluster_api_provider_inc.Text.{◌<>◌, cut_prefix, cut_before, cut_after}
use cluster_api_provider_inc.Text.Laws.{Lacks, Lacks-append, cut-append, cut-Lacks}
use cluster_api_provider_inc.OciImage.{OciImage, Reference, tag, digest}

abbrev colon : Char
colon = ":"

abbrev at_sign : Char
at_sign = "@"

pub cut_prefix-append : (p s : String) → cut_prefix p (p <> s) ≡ some s
unfolding cut_prefix
cut_prefix-append [] s = rw nil-append refl
cut_prefix-append (c ∷ p) s =
    rw (cons-append, nat_eq_refl (code c), cut_prefix) (cut_prefix-append p s)

-- name ":" tag "@" digest
abbrev pub tagged : String → String → String → String
tagged name t d = name <> String.◌∷◌ colon (t <> String.◌∷◌ at_sign d)

pub cut_after-append :
    (c : Char) (a b : String) → Lacks (code c) a → cut_after (code c) (a <> (c ∷ b)) ≡ b
unfolding cut_after
cut_after-append c a b h = rw (cut-append c a b h, cut_after) refl

pub cut_before-append :
    (c : Char) (a b : String) → Lacks (code c) a → cut_before (code c) (a <> (c ∷ b)) ≡ a
unfolding cut_before
cut_before-append c a b h = rw (cut-append c a b h, cut_before) refl

cut_before-Lacks : (sep : ℕ) (a : String) → Lacks sep a → cut_before sep a ≡ a
unfolding cut_before
cut_before-Lacks sep a h = rw (cut-Lacks sep a h, cut_before) refl

cut_after-Lacks : (sep : ℕ) (a : String) → Lacks sep a → cut_after sep a ≡ ""
unfolding cut_after
cut_after-Lacks sep a h = rw (cut-Lacks sep a h, cut_after) refl

abbrev pub named : String → String → String
named name t = name <> String.◌∷◌ colon t

abbrev pub image_of : String → Reference → OciImage
image_of raw r = record { raw = raw; ref = r }

abbrev pub with_hash : String → String → String
with_hash s d = s <> String.◌∷◌ at_sign d

-- Of a name `name:tag@digest` the tag and the digest are found, and of `name:tag` the tag and an
-- empty digest; the name holds no ":" and no "@", and the tag no "@".
pub tag-digest :
    (r : Reference) (name t d : String)
    → Lacks b':' name
    → Lacks b'@' name
    → Lacks b'@' t
    → (tag (image_of (named name (with_hash t d)) r) ≡ t)
      × (digest (image_of (named name (with_hash t d)) r) ≡ d)
      × (tag (image_of (named name t) r) ≡ t)
      × (digest (image_of (named name t) r) ≡ "")
unfolding tag digest
tag-digest r name t d hc ha ht = (
  ap (cut_before b'@') (cut_after-append colon name (with_hash t d) hc)
      ∙ cut_before-append at_sign t d ht,
  ap (cut_after b'@') regroup ∙ cut_after-append at_sign (named name t) d plain,
  ap (cut_before b'@') (cut_after-append colon name t hc) ∙ cut_before-Lacks b'@' t ht,
  cut_after-Lacks b'@' (named name t) plain,
)
  where
    plain : Lacks b'@' (named name t)
    plain = Lacks-append b'@' name (String.◌∷◌ colon t) ha (omega arith, ht)

    regroup : named name (with_hash t d) ≡ with_hash (named name t) d
    regroup =
        ap (λ s. name <> s) (sym (cons-append colon t (String.◌∷◌ at_sign d)))
        ∙ sym (append_assoc name (String.◌∷◌ colon t) (String.◌∷◌ at_sign d))

-- Tag reads from the first colon of the raw text. Of `name@algorithm:hash`, which has no tag, it
-- gives the hash, and of `host:port/path:t` it gives `port/path:t`; the name, the algorithm and the
-- host hold no colon, and neither the hash, the path nor `t` an "@".
pub tag_misread :
    (r : Reference) (name algorithm hash host port path t : String)
    → Lacks b':' (with_hash name algorithm)
    → Lacks b'@' hash
    → Lacks b':' host
    → Lacks b'@' (port <> "/" <> named path t)
    → (tag (image_of (named (with_hash name algorithm) hash) r) ≡ hash)
      × (tag (image_of (named host (port <> "/" <> named path t)) r) ≡ port <> "/" <> named path t)
unfolding tag
tag_misread r name algorithm hash host port path t hn hh hh' hp = (
  ap (cut_before b'@') (cut_after-append colon (with_hash name algorithm) hash hn)
      ∙ cut_before-Lacks b'@' hash hh,
  ap (cut_before b'@') (cut_after-append colon host (port <> "/" <> named path t) hh')
      ∙ cut_before-Lacks b'@' (port <> "/" <> named path t) hp,
)
