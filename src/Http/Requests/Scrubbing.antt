-- ===== src/Http/Requests/Scrubbing.antt =====
-- Which headers pass the proxy.
use mathlib.Core.Path.{subst}
use zonzon.Base.{
  ◌≡◌, refl, ◌⊎◌, inl, inr, true, false, ◌||◌, Bool, Option, some, List, [], ◌∷◌, Bool-cases,
}
use zonzon.Base.Text.{Text, codes, text_eq, text_eq_iff, text_eq_refl, lower}
use zonzon.Base.OrderedMap.{get, set_key, get-set_key}
use zonzon.Dns.Server.{is_set}
use zonzon.HttpProxy.{Url}
use zonzon.Http.Requests.{
  HeaderValue, value_text, copy_headers, add_headers, is_hop_by_hop, is_fingerprint,
  response_headers, stream_headers, length_headers, request_headers, is_bodiless,
}

-- Each key is one of those that may be there.
Within : (Text → Type 0) → List (Text × Text) → Type 0
Within P out = (k v : Text) → get k out ≡ some v → P k

module _ (P : Text → Type 0) where
  Within-nil : Within P []
  unfolding Within get
  Within-nil k v e = cc

  set_key-Within :
      (k v : Text) (out : List (Text × Text)) → P k → Within P out → Within P (set_key k v out)
  unfolding Within
  set_key-Within k v out p h j w e = elim (Bool-cases (text_eq k j)) [
    | inl same ↦ subst P ((text_eq_iff k j).0 same) p
    | inr other ↦ h j w (rw (get-set_key k j v out, other) at e)
  ]

  copy_headers-Within :
      (scrubbed : Text → Bool) (headers : List (Text × HeaderValue)) (out : List (Text × Text))
      → ((k : Text) → scrubbed k ≡ false → P k)
      → Within P out
      → Within P (copy_headers scrubbed headers out)
  unfolding copy_headers
  copy_headers-Within scrubbed [] out p h = h
  copy_headers-Within scrubbed ((k, v) ∷ headers) out p h = elim (Bool-cases (scrubbed k)) [
    | inl bad ↦ rw bad (copy_headers-Within scrubbed headers out p h)
    | inr good ↦ rw good (
        copy_headers-Within scrubbed headers (set_key k (value_text v) out) p
          (set_key-Within k (value_text v) out (p k good) h))
  ]

  add_headers-Within :
      (headers out : List (Text × Text))
      → ((k v : Text) → get k headers ≡ some v → P k)
      → Within P out
      → Within P (add_headers headers out)
  unfolding add_headers get
  add_headers-Within [] out p h = h
  add_headers-Within ((k, v) ∷ headers) out p h =
      add_headers-Within headers (set_key k v out) rest (set_key-Within k v out first h)
    where
      first : P k
      first = p k v (rw (text_eq_refl k) refl)

      rest : (j w : Text) → get j headers ≡ some w → P j
      rest j w e = elim (Bool-cases (text_eq k j)) [
        | inl same ↦ p j v (rw same refl)
        | inr other ↦ p j w (rw other e)
      ]

  module _ (p_length : P (codes "content-length"))
      (p_transfer : P (codes "transfer-encoding")) where
    stream_headers-Within :
        (content_length transfer_encoding : Option Text) (out : List (Text × Text))
        → Within P out
        → Within P (stream_headers content_length transfer_encoding out)
    unfolding stream_headers
    stream_headers-Within content_length transfer_encoding out h =
        elim (Bool-cases (is_set content_length)) [
          | inl sized ↦ rw sized (set_key-Within _ _ out p_length h)
          | inr other ↦ elim (Bool-cases (is_set transfer_encoding)) [
            | inl chunked ↦ rw (other, chunked) (set_key-Within _ _ out p_transfer h)
            | inr neither ↦ rw (other, neither) h
          ]
        ]

    length_headers-Within :
        (streamed : Bool) (method : Text) (headers : List (Text × HeaderValue))
        (out : List (Text × Text))
        → Within P out
        → Within P (length_headers streamed method headers out)
    unfolding length_headers
    length_headers-Within streamed method headers out h = elim (Bool-cases (is_bodiless method)) [
      | inl bodiless ↦ rw bodiless h
      | inr bodied ↦ elim (Bool-cases streamed) [
        | inl on ↦ rw (bodied, on) (stream_headers-Within _ _ out h)
        | inr off ↦ rw (bodied, off) (set_key-Within _ _ out p_length h)
      ]
    ]

neither : (a b : Bool) → (a || b) ≡ false → (a ≡ false) × (b ≡ false)
neither false b h = (refl, h)
neither true b h = cc

plain_loop : is_hop_by_hop (codes "x-zonzon-loop") ≡ false
unfolding lower
plain_loop = refl

plain_host : is_hop_by_hop (codes "Host") ≡ false
unfolding lower
plain_host = refl

plain_length : is_hop_by_hop (codes "content-length") ≡ false
unfolding lower
plain_length = refl

-- a header that the configuration adds
abbrev pub IsAdded : List (Text × Text) → Text → Type 0
IsAdded custom k = (v : Text) × (get k custom ≡ some v)

-- No reply brings a client a hop-by-hop header or one that tells what the upstream runs, in any
-- spelling, but for those that the configuration adds.
pub response_headers_scrubbed :
    (headers : List (Text × HeaderValue)) (custom : List (Text × Text)) (k v : Text)
    → get k (response_headers headers custom) ≡ some v
    → IsAdded custom k ⊎ ((is_hop_by_hop k ≡ false) × (is_fingerprint k ≡ false))
unfolding response_headers Within
response_headers_scrubbed headers custom k v e =
    add_headers-Within P custom _ (λ j w at. inl (w, at))
      (copy_headers-Within P _ headers [] (λ j h. inr (neither _ _ h)) (Within-nil P)) k v e
  where
    P : Text → Type 0
    P j = IsAdded custom j ⊎ ((is_hop_by_hop j ≡ false) × (is_fingerprint j ≡ false))

-- No request takes a hop-by-hop header on to its target, in any spelling, but for
-- `transfer-encoding`, which tells of a body, and those that the configuration adds.
pub request_headers_scrubbed :
    (u : Url) (streamed : Bool) (method : Text) (headers : List (Text × HeaderValue))
    (custom : List (Text × Text)) (token k v : Text)
    → get k (request_headers u streamed method headers custom token) ≡ some v
    → IsAdded custom k ⊎ ((k ≡ codes "transfer-encoding") ⊎ (is_hop_by_hop k ≡ false))
unfolding request_headers Within
request_headers_scrubbed u streamed method headers custom token k v e =
    set_key-Within P (codes "x-zonzon-loop") token _ (inr (inr plain_loop))
      (add_headers-Within P custom _ (λ j w at. inl (w, at))
        (length_headers-Within P (inr (inr plain_length)) (inr (inl refl)) streamed method headers
          (set_key (codes "Host") u.host (copy_headers is_hop_by_hop headers []))
          (set_key-Within P (codes "Host") u.host _ (inr (inr plain_host))
            (copy_headers-Within P is_hop_by_hop headers [] (λ j h. inr (inr h)) (Within-nil P)))))
      k v e
  where
    P : Text → Type 0
    P j = IsAdded custom j ⊎ ((j ≡ codes "transfer-encoding") ⊎ (is_hop_by_hop j ≡ false))
