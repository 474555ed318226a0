-- ===== src/Docker/Inspect/Ports.antt =====
-- A port that docker run publishes, and docker inspect.
use text.Mathlib.TextLemmas.{nil-append, cons-append, append_assoc}
use cluster_api_provider_inc.Prelude.{
  sym, Char, String, ◌≡◌, refl, ap, ◌∙◌, none, some, List, [], ◌∷◌, ◌++◌, All, arith,
}
use cluster_api_provider_inc.Text.{◌<>◌, join}
use cluster_api_provider_inc.Text.Forms.{to_lower}
use cluster_api_provider_inc.Text.Laws.{Lacks, Lacks-append, cut-append, split-join}
use cluster_api_provider_inc.Maps.{GoMap, get, lookup}
use cluster_api_provider_inc.Errors.{ok}
use cluster_api_provider_inc.Docker.Run.{proxy_device, proxy_of_parts}
use cluster_api_provider_inc.Docker.Inspect.{endpoint_of, api_endpoint, find_endpoint}

abbrev colon : Char
colon = ":"

abbrev slash : Char
slash = "/"

-- A part of a published port: no capital letter, no ":" and no "/".
pub record IsPart (s : String) : Type 0 where
  pub lower : to_lower s ≡ s
  pub no_colon : Lacks b':' s
  pub no_slash : Lacks b'/' s

-- The parts with a colon between them, a slash and the protocol.
abbrev pub published : List String → String → String
published parts protocol = join ":" parts <> String.◌∷◌ slash protocol

to_lower-append : (a b : String) → to_lower (a <> b) ≡ to_lower a <> to_lower b
unfolding to_lower
to_lower-append String.[] b = rw (nil-append b) (rw (nil-append (to_lower b)) refl)
to_lower-append (String.◌∷◌ c a) b =
    rw (cons-append c a b, to_lower, to_lower-append a b)
      (rw (cons-append _ (to_lower a) (to_lower b)) refl)

to_lower-join :
    (w : String) (ws : List String)
    → All IsPart (w ∷ ws)
    → to_lower (join ":" (w ∷ ws)) ≡ join ":" (w ∷ ws)
unfolding join to_lower
to_lower-join w [] h = h.0.lower
to_lower-join w (v ∷ ws) h =
    to_lower-append w (":" <> join ":" (v ∷ ws))
    ∙ ap (λ s. s <> to_lower (":" <> join ":" (v ∷ ws))) h.0.lower
    ∙ ap (λ s. w <> s)
        (to_lower-append ":" (join ":" (v ∷ ws)) ∙ ap (λ s. ":" <> s) (to_lower-join v ws h.1))

join-no_slash :
    (w : String) (ws : List String) → All IsPart (w ∷ ws) → Lacks b'/' (join ":" (w ∷ ws))
unfolding join
join-no_slash w [] h = h.0.no_slash
join-no_slash w (v ∷ ws) h =
    Lacks-append b'/' w _ h.0.no_slash
      (Lacks-append b'/' ":" _ (omega arith) (join-no_slash v ws h.1))

no_colons : (ws : List String) → All IsPart ws → All (Lacks b':') ws
no_colons [] h = tt
no_colons (w ∷ ws) h = (h.0.no_colon, no_colons ws h.1)

proxy_device-published :
    (w : String) (ws : List String) (protocol : String)
    → All IsPart (w ∷ ws)
    → proxy_device (published (w ∷ ws) protocol)
      ≡ proxy_of_parts (join ":" (w ∷ ws)) (to_lower protocol) (w ∷ ws)
unfolding proxy_device
proxy_device-published w ws protocol h =
    rw
      (
        to_lower-append (join ":" (w ∷ ws)) (String.◌∷◌ slash protocol),
        to_lower-join w ws h,
        to_lower,
        cut-append slash (join ":" (w ∷ ws)) (to_lower protocol) (join-no_slash w ws h),
        proxy_device,
      )
      (rw (split-join colon w ws (no_colons (w ∷ ws) h)) refl)

find_endpoint-append :
    (before : GoMap (GoMap String)) (name : String) (device : GoMap String)
    (after : GoMap (GoMap String)) (e : String × String)
    → All (λ d. api_endpoint d.1 ≡ none) before
    → api_endpoint device ≡ some e
    → find_endpoint (before ++ (name, device) ∷ after) ≡ some e
unfolding find_endpoint
find_endpoint-append [] name device after e h k = rw (k, find_endpoint) refl
find_endpoint-append (d ∷ before) name device after e h k =
    rw (h.0, find_endpoint) (find_endpoint-append before name device after e h.1 k)

-- The endpoint of the device for "host:port:6443/tcp".
api_endpoint-proxy :
    (host port : String)
    → Lacks b':' host
    → Lacks b':' port
    → api_endpoint (
        ("type", "proxy")
        ∷ ("bind", "host")
        ∷ ("listen", "tcp" <> ":" <> host <> ":" <> port)
        ∷ ("connect", "tcp::6443")
        ∷ [])
      ≡ some (host, port)
unfolding api_endpoint get lookup join
api_endpoint-proxy host port hh hp =
    ap endpoint_of (split-join colon "tcp" (host ∷ port ∷ []) (ground arith))

-- The endpoint of the device for "port:6443/tcp".
api_endpoint-any :
    (port : String)
    → Lacks b':' port
    → api_endpoint (
        ("type", "proxy")
        ∷ ("bind", "host")
        ∷ ("listen", "tcp" <> "::" <> port)
        ∷ ("connect", "tcp::6443")
        ∷ [])
      ≡ some ("", port)
api_endpoint-any port hp =
    ap
      (λ s. api_endpoint (
        ("type", "proxy")
        ∷ ("bind", "host")
        ∷ ("listen", "tcp" <> s)
        ∷ ("connect", "tcp::6443")
        ∷ []))
      (append_assoc ":" ":" port ∙ ap (λ s. ":" <> s) (sym (nil-append (":" <> port))))
    ∙ api_endpoint-proxy "" port tt hp

-- A port that docker run publishes as `host:port:6443/protocol` or as `port:6443/protocol`, where
-- the protocol is tcp in whatever case, becomes a proxy device, and docker inspect reads from the
-- devices of the instance that host, or "" where there is none, and that port. The host and the port
-- hold no capital letter, no ":" and no "/", and no device before it is such a proxy.
pub proxy_device-inspected :
    (host port protocol name : String) (before after : GoMap (GoMap String))
    → IsPart host
    → IsPart port
    → to_lower protocol ≡ "tcp"
    → All (λ d. api_endpoint d.1 ≡ none) before
    → ((device : GoMap String) × (proxy_device (published (host ∷ port ∷ "6443" ∷ []) protocol)
          ≡ ok device)
        × (find_endpoint (before ++ (name, device) ∷ after) ≡ some (host, port)))
      × ((device : GoMap String) × (proxy_device (published (port ∷ "6443" ∷ []) protocol)
            ≡ ok device)
          × (find_endpoint (before ++ (name, device) ∷ after) ≡ some ("", port)))
unfolding proxy_of_parts to_lower
proxy_device-inspected host port protocol name before after hh hp ht hb = (
  (
    _,
    proxy_device-published host (port ∷ "6443" ∷ []) protocol (hh, (hp, (api_port, tt)))
        ∙ ap
            (λ p.
              proxy_of_parts (join ":" (host ∷ port ∷ "6443" ∷ [])) p (host ∷ port ∷ "6443" ∷ []))
            ht,
    find_endpoint-append before name _ after (host, port) hb
        (api_endpoint-proxy host port hh.no_colon hp.no_colon),
  ),
  (
    _,
    proxy_device-published port ("6443" ∷ []) protocol (hp, (api_port, tt))
        ∙ ap (λ p. proxy_of_parts (join ":" (port ∷ "6443" ∷ [])) p (port ∷ "6443" ∷ [])) ht,
    find_endpoint-append before name _ after ("", port) hb (api_endpoint-any port hp.no_colon),
  ),
)
  where
    api_port : IsPart "6443"
    api_port = record { lower = refl; no_colon = ground arith; no_slash = ground arith }
