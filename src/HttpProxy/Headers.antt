-- ===== src/HttpProxy/Headers.antt =====
-- What a header that `HttpProxyService` adds can hold.
use mathlib.Core.Path.{subst}
use zonzon.Base.{
  ℕ, suc, ◌≡◌, ◌≤◌, refl, sym, ap, ◌⊎◌, inl, inr, ◌↔◌, Bool, if◌then◌else◌, true, false, Option,
  none, some, List, [], ◌∷◌, arith, ltb, leb, ◌==◌, ◌||◌, any, length, All, Bool-cases, >>=-eq-some,
  some-eq-some,
}
use zonzon.Base.Text.{Text, codes, text_eq, text_eq_iff, has_part}
use zonzon.Base.OrderedMap.{get, set_key, get-set_key}
use zonzon.Types.{HttpProxyConfig, HostConfig, ProxiedRequest, ModifiedHeaders}
use zonzon.Dns.Server.{decimal}
use zonzon.HttpProxy.{
  or_five_mib, is_true, client_headers, no_headers, is_control, sanitize_header, assign,
  decrypt_headers, given_size, body_headers, with_body, proxy_headers, of_proxy,
  get_upstream_headers,
}

-- No code unit below 32, no line break in percent encoding, and at most 8192 code units.
abbrev pub IsClean : Text → Type 0
IsClean value =
    All (λ c. 32 ≤ c) value
    × (has_part value (codes "%0d") ≡ false)
    × (has_part value (codes "%0D") ≡ false)
    × (has_part value (codes "%0a") ≡ false)
    × (has_part value (codes "%0A") ≡ false)
    × (length value ≤ 8192)

printable :
    (value : Text)
    → ((any (λ c. c == 0xd || c == 0xa || c == 0x9) value ≡ false) × (any is_control value ≡ false))
      ↔ All (λ c. 32 ≤ c) value
printable [] = ((λ h. tt), λ h. (refl, refl))
printable (c ∷ value) =
    let (to, from) = printable value in
    (
      (λ h. (ground arith, to (ground arith))),
      λ h. let k = from h.1 in (ground arith, ground arith),
    )

-- a guard that has let through
passes :
    {A : Type 0} (b : Bool) (r : Option A) (x : A)
    → (if b then none else r) ≡ some x
    → (b ≡ false) × (r ≡ some x)
passes true r x e = cc
passes false r x e = (refl, e)

none_of :
    (a b c d : Bool)
    → (a || b || c || d) ≡ false
    → (a ≡ false) × (b ≡ false) × (c ≡ false) × (d ≡ false)
none_of a b c d h = ground arith

-- A value is passed on exactly when it is clean, and it is passed on unchanged.
pub sanitize_header_iff :
    (value out : Text) → (sanitize_header value ≡ some out) ↔ ((out ≡ value) × IsClean value)
unfolding sanitize_header
sanitize_header_iff value out =
    let (to, from) = printable value in
    (
      (λ e.
          let (l, e1) = passes _ _ out e in
          let (c, e2) = passes _ _ out e1 in
          let (p, e3) = passes _ _ out e2 in
          let (n, last) = passes _ _ out e3 in
          let (a, b, d, g) = none_of _ _ _ _ p in
          (sym (some-eq-some last), (to (l, c), a, b, d, g, ground arith))),
      λ (e, (k, p, q, r, t, n)).
          let (l, c) = from k in
          let fits : ltb 8192 (length value) ≡ false = ground arith in
          rw (l, c, p, q, r, t, fits) (ap some (sym e)),
    )

-- The decimal length of the body of the request, or, where it has none, the length that its own
-- header gives.
abbrev pub IsSize : ProxiedRequest → Text → Type 0
IsSize req value =
    ((req.body ≡ none) × (get (codes "content-length") req.headers ≡ some value))
    ⊎ ((body : List ℕ) × (req.body ≡ some body)
        × (value ≡ decimal (suc (length body)) (length body)))

-- Each value is clean, but for the size of the body.
abbrev pub AreClean : ProxiedRequest → List (Text × Text) → Type 0
AreClean req out =
    (key value : Text)
    → get key out ≡ some value
    → ((key ≡ codes "X-Body-Size") × IsSize req value) ⊎ IsClean value

module _ (req : ProxiedRequest) where
  clean_nil : AreClean req []
  unfolding get
  clean_nil key value e = cc

  assign_clean :
      (key value : Text) (out : List (Text × Text))
      → IsClean value
      → AreClean req out
      → AreClean req (set_key key value out)
  assign_clean key value out v h j w e = elim (Bool-cases (text_eq key j)) [
    | inl same ↦ inr (subst IsClean (some-eq-some (rw (get-set_key key j value out, same) at e)) v)
    | inr other ↦ h j w (rw (get-set_key key j value out, other) at e)
  ]

  assign_size :
      (value : Text) (out : List (Text × Text))
      → IsSize req value
      → AreClean req out
      → AreClean req (set_key (codes "X-Body-Size") value out)
  assign_size value out size h j w e = elim (Bool-cases (text_eq (codes "X-Body-Size") j)) [
    | inl same ↦ inl (
      sym ((text_eq_iff _ j).0 same),
      subst (IsSize req)
          (some-eq-some (rw (get-set_key (codes "X-Body-Size") j value out, same) at e)) size,
    )
    | inr other ↦ h j w (rw (get-set_key (codes "X-Body-Size") j value out, other) at e)
  ]

module _ (decrypt_secret : Text → Option Text) (req : ProxiedRequest) where
  assign-AreClean :
      (key value : Text) (out : List (Text × Text)) (r : Option Text)
      → sanitize_header value ≡ r
      → AreClean req out
      → AreClean req (assign key r out)
  assign-AreClean key value out none e h = h
  assign-AreClean key value out (some []) e h = h
  assign-AreClean key value out (some (c ∷ clean)) e h =
      let (same, k) = (sanitize_header_iff value (c ∷ clean)).0 e in
      assign_clean req key (c ∷ clean) out (subst IsClean (sym same) k) h

  decrypt_headers-AreClean :
      (headers out result : List (Text × Text))
      → AreClean req out
      → decrypt_headers decrypt_secret headers out ≡ some result
      → AreClean req result
  unfolding decrypt_headers
  decrypt_headers-AreClean [] out result h e = subst (AreClean req) (some-eq-some e) h
  decrypt_headers-AreClean ((key, value) ∷ headers) out result h e =
      let (plain, _, rest) = >>=-eq-some (decrypt_secret value) _ e in
      decrypt_headers-AreClean headers (assign key (sanitize_header plain) out) result
        (assign-AreClean key plain out (sanitize_header plain) refl h) rest

  forwarded :
      (out : List (Text × Text))
      → AreClean req out
      → AreClean req (set_key (codes "X-Body-Forwarded") (codes "true") out)
  unfolding has_part
  forwarded out h =
      assign_clean req (codes "X-Body-Forwarded") (codes "true") out
        (
          (omega arith, (omega arith, (omega arith, (omega arith, tt)))),
          refl,
          refl,
          refl,
          refl,
          omega arith,
        )
        h

  given_size-AreClean :
      (size : Option Text) (out : List (Text × Text))
      → req.body ≡ none
      → get (codes "content-length") req.headers ≡ size
      → AreClean req out
      → AreClean req (given_size size out)
  given_size-AreClean none out no_body given h = h
  given_size-AreClean (some []) out no_body given h = h
  given_size-AreClean (some (c ∷ size)) out no_body given h =
      assign_size req (c ∷ size) out (inl (no_body, given)) h

  body_headers-AreClean :
      (proxy : HttpProxyConfig) (body : Option (List ℕ)) (out result : List (Text × Text))
      → req.body ≡ body
      → AreClean req out
      → body_headers proxy req body out ≡ some result
      → AreClean req result
  unfolding body_headers
  body_headers-AreClean proxy none out result is_body h e =
      subst (AreClean req) (some-eq-some e) (given_size-AreClean _ _ is_body refl (forwarded out h))
  body_headers-AreClean proxy (some body) out result is_body h e =
      elim (Bool-cases (leb (length body) (or_five_mib proxy.max_request_body_bytes))) [
        | inl fits ↦
            subst (AreClean req) (some-eq-some (rw fits at e))
              (assign_size req _ _ (inr (body, is_body, refl)) (forwarded out h))
        | inr large ↦ cc (rw large at e)
      ]

  with_body-AreClean :
      (proxy : HttpProxyConfig) (out result : List (Text × Text)) (b : Bool)
      → AreClean req out
      → with_body proxy req out b ≡ some result
      → AreClean req result
  with_body-AreClean proxy out result true h e =
      body_headers-AreClean proxy req.body out result refl h e
  with_body-AreClean proxy out result false h e = subst (AreClean req) (some-eq-some e) h

  proxy_headers-AreClean :
      (proxy : HttpProxyConfig) (result : ModifiedHeaders)
      → proxy_headers decrypt_secret proxy req ≡ some result
      → AreClean req result.upstream_headers
  unfolding proxy_headers
  proxy_headers-AreClean proxy result e =
      let (plain, de, rest) = >>=-eq-some (decrypt_headers decrypt_secret proxy.headers []) _ e in
      let (out, be, last) =
        >>=-eq-some (with_body proxy req plain (is_true proxy.forward_request_body))
          (λ out.
            some (record { upstream_headers = out; client_response_headers = client_headers }))
          rest in
      subst (λ (t : ModifiedHeaders). AreClean req t.upstream_headers)
        {x = record { upstream_headers = out; client_response_headers = client_headers }}
        (some-eq-some last)
        (with_body-AreClean proxy plain out _
          (decrypt_headers-AreClean proxy.headers [] plain (clean_nil req) de) be)

  -- Whatever the secrets decrypt to, each header that is added to a request for the upstream has a
  -- value without code units below 32 and without a line break in percent encoding, of at most 8192
  -- code units. Only `X-Body-Size` can have another: the length of the request's body in decimal,
  -- or, if the request has no body, its own Content-Length header.
  pub get_upstream_headers-AreClean :
      (config : HostConfig) (result : ModifiedHeaders)
      → get_upstream_headers decrypt_secret config req ≡ some result
      → AreClean req result.upstream_headers
  unfolding get_upstream_headers proxy_headers body_headers
  get_upstream_headers-AreClean config result e = of config.http_proxy e
    where
      of :
          (proxy : Option HttpProxyConfig)
          → of_proxy decrypt_secret proxy req ≡ some result
          → AreClean req result.upstream_headers
      of none e =
          subst (λ (t : ModifiedHeaders). AreClean req t.upstream_headers) {x = no_headers}
            (some-eq-some e) (clean_nil req)
      of (some proxy) e = elim (Bool-cases proxy.enabled) [
        | inl on ↦ proxy_headers-AreClean proxy result (rw on at e)
        | inr off ↦
            subst (λ (t : ModifiedHeaders). AreClean req t.upstream_headers) {x = no_headers}
              (some-eq-some (rw off at e)) (clean_nil req)
      ]
