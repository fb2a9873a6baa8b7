-- ===== src/Handler/Doh/Queries.antt =====
-- Which requests over HTTPS give a query.
use zonzon.Base.{
  ℕ, ◌+◌, ◌≤◌, ◌≡◌, ◌≢◌, refl, sym, ap, ◌∙◌, ◌⊎◌, inl, inr, ◌↔◌, Bool, true, false, Option, none,
  some, List, [], ◌∷◌, ◌++◌, arith, ltb, ltb_false→le, Bool-cases, some-eq-some, length,
  length-append, append_assoc, append-nil,
}
use mathlib.Core.Path.{subst}
use zonzon.Base.Text.{Text, codes, text_eq, text_eq_iff, text_eq_sound}
use zonzon.Base.Bytes.{Bytes}
use zonzon.Handler.Tcp.{max_tcp_buffer_size}
use zonzon.Handler.Doh.{
  DohRequest, DohQuery, status, query_of, or_empty, doh_body, with_header, doh_param, doh_query,
}

-- the bytes of a body, and that each chunk came in time
abbrev pub body_bytes : List (ℕ × Bytes) → Bytes
body_bytes [] = []
body_bytes ((elapsed, chunk) ∷ body) = chunk ++ body_bytes body

abbrev pub InTime : List (ℕ × Bytes) → Type 0
InTime [] = Unit
InTime ((elapsed, chunk) ∷ body) = (elapsed ≤ 5000) × InTime body

query_of-eq : {p q : Bytes} → query_of p ≡ query_of q → p ≡ q
query_of-eq e = ap bytes e
  where
    bytes : DohQuery → Bytes
    bytes (status code) = []
    bytes (query_of query) = query

doh_body_iff :
    (body : List (ℕ × Bytes)) (chunks query : Bytes)
    → length chunks ≤ max_tcp_buffer_size
    → (doh_body body chunks ≡ query_of query) ↔ (
        InTime body
        × (length chunks + length (body_bytes body) ≤ max_tcp_buffer_size)
        × (query ≡ chunks ++ body_bytes body))
unfolding doh_body
doh_body_iff [] chunks query h = (
  λ e. (tt, omega arith, sym (query_of-eq e) ∙ sym (append-nil chunks)),
  λ (t, n, e). ap query_of (sym (e ∙ append-nil chunks)),
)
doh_body_iff ((elapsed, chunk) ∷ body) chunks query h = elim (Bool-cases (ltb 5000 elapsed)) [
  | inl late ↦ (λ e. cc (rw late at e), λ (t, n, e). absurd (ground (arith, t.0)))
  | inr early ↦ elim (Bool-cases (ltb max_tcp_buffer_size (length chunks + length chunk))) [
    | inl large ↦ (
      λ e. cc (rw (early, large) at e),
      λ (t, n, e). absurd (ground (arith, length-append chunk (body_bytes body))),
    )
    | inr small ↦
        let (to, from) =
          doh_body_iff body (chunks ++ chunk) query (ground (arith, length-append chunks chunk)) in
        let whole = length-append chunks chunk in
        let behind = length-append chunk (body_bytes body) in
        (
          λ e.
              let (t, n, q) = to (rw (early, small) at e) in
              (
                (ltb_false→le _ _ early, t),
                omega (arith, n, whole, behind),
                q ∙ append_assoc chunks chunk (body_bytes body),
              ),
          λ (t, n, q).
              rw (early, small)
                (from (
                  t.1,
                  omega (arith, n, whole, behind),
                  q ∙ sym (append_assoc chunks chunk (body_bytes body)),
                )),
        )
  ]
]

with_header_iff :
    (d : DohQuery) (query : Bytes)
    → (with_header d ≡ query_of query) ↔ ((d ≡ query_of query) × (12 ≤ length query))
with_header_iff (status code) query = ((λ e. cc), λ (e, n). e)
with_header_iff (query_of q) query = elim (Bool-cases (ltb (length q) 12)) [
  | inl short ↦
      (λ e. cc (rw short at e), λ (e, n). absurd (ground (arith, ap length (query_of-eq e))))
  | inr long ↦ (
    λ e.
        let same = query_of-eq (rw long at e) in
        (ap query_of same, subst (λ t. 12 ≤ length t) same (ltb_false→le _ _ long)),
    λ (e, n). rw long e,
  )
]

module _ (base64url : Text → Bytes) where
  -- a GET carries its query in `dns`
  abbrev pub IsParam : Option Text → Bytes → Type 0
  IsParam param query =
      (p : Text) × (param ≡ some p) × (p ≢ []) × (length p ≤ 512) × (query ≡ base64url p)

  doh_param_iff :
      (param : Option Text) (query : Bytes)
      → (doh_param base64url param ≡ query_of query) ↔ IsParam param query
  unfolding doh_param
  doh_param_iff none query = ((λ e. cc), λ (p, e, filled, few, q). cc)
  doh_param_iff (some []) query =
      ((λ e. cc), λ (p, e, filled, few, q). absurd (filled (sym (some-eq-some e))))
  doh_param_iff (some (c ∷ s)) query = elim (Bool-cases (ltb 512 (length (c ∷ s)))) [
    | inl long ↦ (
      λ e. cc (rw long at e),
      λ (p, e, filled, few, q). absurd (ground (arith, few, ap length (some-eq-some e))),
    )
    | inr short ↦ (
      λ e. (c ∷ s, refl, (λ e. cc), ltb_false→le _ _ short, sym (query_of-eq (rw short at e))),
      λ (p, e, filled, few, q). rw short (ap query_of (ap base64url (some-eq-some e) ∙ sym q)),
    )
  ]

  -- a POST carries it in its body
  abbrev pub IsBody : DohRequest → Bytes → Type 0
  IsBody req query =
      (req.content_type ≡ some (codes "application/dns-message"))
      × InTime req.body
      × (length (body_bytes req.body) ≤ max_tcp_buffer_size)
      × (query ≡ body_bytes req.body)

  abbrev Asks : DohRequest → Bytes → Type 0
  Asks req query =
      (false ≡ false)
      × (req.pathname ≡ codes "/dns-query")
      × (((req.method ≡ codes "GET") × IsParam req.dns_param query)
          ⊎ ((req.method ≡ codes "POST") × IsBody req query))
      × (12 ≤ length query)

  has_type : (t : Option Text) (s : Text) → s ≢ [] → text_eq (or_empty t) s ≡ true → t ≡ some s
  has_type none s filled h = absurd (filled (sym (text_eq_sound [] s h)))
  has_type (some t) s filled h = ap some (text_eq_sound t s h)

  doh_query-to :
      (req : DohRequest) (query : Bytes)
      → doh_query base64url false req ≡ query_of query
      → Asks req query
  unfolding doh_query
  doh_query-to req query e = elim (Bool-cases (text_eq req.pathname (codes "/dns-query"))) [
    | inr elsewhere ↦ cc (rw elsewhere at e)
    | inl path ↦ elim (Bool-cases (text_eq req.method (codes "GET"))) [
      | inl get ↦
          let (d, n) =
            (with_header_iff (doh_param base64url req.dns_param) query).0 (rw (path, get) at e) in
          (
            refl,
            text_eq_sound _ _ path,
            inl (text_eq_sound _ _ get, (doh_param_iff req.dns_param query).0 d),
            n,
          )
      | inr other ↦ elim (Bool-cases (text_eq req.method (codes "POST"))) [
        | inr neither ↦ cc (rw (path, other, neither) at e)
        | inl post ↦
            elim (Bool-cases
              (text_eq (or_empty req.content_type) (codes "application/dns-message"))) [
                | inr wrong ↦ cc (rw (path, other, post, wrong) at e)
                | inl right ↦
                    let (d, n) =
                      (with_header_iff (doh_body req.body []) query).0
                        (rw (path, other, post, right) at e) in
                    let (t, m, q) = (doh_body_iff req.body [] query (omega arith)).0 d in
                    (
                      refl,
                      text_eq_sound _ _ path,
                      inr (
                        text_eq_sound _ _ post,
                        (has_type _ _ (λ e. cc) right, t, omega (arith, m), q),
                      ),
                      n,
                    )
              ]
      ]
    ]
  ]

  doh_query-from :
      (req : DohRequest) (query : Bytes)
      → Asks req query
      → doh_query base64url false req ≡ query_of query
  unfolding doh_query
  doh_query-from req query (l, p, inl (m, param), n) =
      rw ((text_eq_iff _ _).1 p, (text_eq_iff _ _).1 m, (doh_param_iff req.dns_param query).1 param)
        ((with_header_iff (query_of query) query).1 (refl, n))
  doh_query-from req query (l, p, inr (m, (type, t, k, q)), n) =
      let not_get : text_eq req.method (codes "GET") ≡ false = rw m refl in
      let typed : text_eq (or_empty req.content_type) (codes "application/dns-message") ≡ true =
        rw type refl in
      rw
        (
          (text_eq_iff _ _).1 p,
          not_get,
          (text_eq_iff _ _).1 m,
          typed,
          (doh_body_iff req.body [] query (omega arith)).1 (t, omega (arith, k), q),
        )
        ((with_header_iff (query_of query) query).1 (refl, n))

  -- A request gives a query exactly when its client is within the limit, it asks for `/dns-query`,
  -- and it is a GET with a parameter of at most 512 characters or a POST of the right type whose
  -- chunks come within five seconds and have at most 64 KiB together; and the query, which is what
  -- the parameter encodes or the body holds, has a header. Every other request ends with a status.
  pub doh_query_iff :
      (limited : Bool) (req : DohRequest) (query : Bytes)
      → (doh_query base64url limited req ≡ query_of query) ↔ (
          (limited ≡ false)
          × (req.pathname ≡ codes "/dns-query")
          × (((req.method ≡ codes "GET") × IsParam req.dns_param query)
              ⊎ ((req.method ≡ codes "POST") × IsBody req query))
          × (12 ≤ length query))
  unfolding doh_query
  doh_query_iff true req query = ((λ e. cc), λ (l, p, m, n). cc)
  doh_query_iff false req query = (doh_query-to req query, doh_query-from req query)
