-- ===== src/Http/Requests/Loops.antt =====
-- A request that comes back to the proxy is recognised.
use mathlib.Core.Path.{subst}
use zonzon.Base.{
  ℕ, suc, ◌-◌, ◌/◌, ◌==◌, ◌||◌, ◌≡◌, ◌≢◌, refl, ◌∙◌, ◌⊎◌, inl, inr, true, false, Bool, Option, some,
  List, [], ◌∷◌, arith,
}
use zonzon.Base.Text.{Text, codes, text_eq, text_eq_refl}
use zonzon.Base.OrderedMap.{get, set_key, get-set_key}
use zonzon.Types.{ServerConfig}
use zonzon.Dns.Server.{is_set}
use zonzon.HttpProxy.{Url}
use zonzon.Http.Requests.{
  Runtime, Request, header, TlsMaterial, status, full_path, loop_token, window_at, window_before,
  is_looped, request_headers, out_request,
}
use zonzon.Http.Requests.Routes.{handle_request}

loop_name : Text
loop_name = codes "x-zonzon-loop"

set_get : (k v : Text) (out : List (Text × Text)) → get k (set_key k v out) ≡ some v
set_get k v out = rw (get-set_key k k v out, text_eq_refl k) refl

is_set-ne_nil : (s : Text) → s ≢ [] → is_set (some s) ≡ true
is_set-ne_nil [] h = absurd (h refl)
is_set-ne_nil (c ∷ s) h = refl

window_before-suc :
    (now later : ℕ) → later / 60000 ≡ suc (now / 60000) → window_before later ≡ window_at now
window_before-suc now later e =
    let q = now / 60000 in
    let more : (suc q == 0) ≡ false = ground arith in
    let less : suc q - 1 ≡ q = omega arith in rw (e, more, less) refl

eq_true : {s t : Text} → s ≡ t → text_eq s t ≡ true
eq_true {s = s} e = subst (λ t. text_eq s t ≡ true) e (text_eq_refl s)

or_true : (b : Bool) → (b || true) ≡ true
or_true true = refl
or_true false = refl

module _ (rt : Runtime) where
  looped :
      (later : ℕ) (again : Request) (token : Text)
      → token ≢ []
      → header (codes "x-zonzon-loop") again.headers ≡ some token
      → (token ≡ loop_token rt again.url again.client_ip (window_at later))
        ⊎ (token ≡ loop_token rt again.url again.client_ip (window_before later))
      → is_looped rt later again ≡ true
  unfolding is_looped
  looped later again token n e (inl same) = rw (e, is_set-ne_nil token n, eq_true same) refl
  looped later again token n e (inr same) = rw (e, is_set-ne_nil token n, eq_true same) (or_true _)

  -- A request that goes out and comes to the proxy again, from the same address, with the path and
  -- the token that it went out with, in the same minute or the next, is answered with 508: the
  -- proxy does not send it on. An HMAC is not empty.
  pub handle_request_looped :
      (config : ServerConfig) (now later : ℕ) (req again : Request) (u : Url) (ip hostname : Text)
      (streamed : Bool) (custom custom_response : List (Text × Text)) (max_body_bytes : ℕ)
      (client_tls : Option TlsMaterial)
      → ((t : Text) → rt.hmac t ≢ [])
      → (later / 60000 ≡ now / 60000) ⊎ (later / 60000 ≡ suc (now / 60000))
      → again.client_ip ≡ req.client_ip
      → again.url ≡ full_path u
      → header (codes "x-zonzon-loop") again.headers
        ≡ get
            (codes "x-zonzon-loop")
            (out_request rt now req u ip hostname streamed custom custom_response max_body_bytes
              client_tls).headers
      → handle_request config rt later again ≡ status 508
  unfolding handle_request out_request request_headers loop_token
  handle_request_looped config now later req again u ip hostname streamed custom custom_response
        max_body_bytes client_tls hm w from path sent =
      let token = loop_token rt (full_path u) req.client_ip (window_at now) in
      rw
        (looped later again token (hm _) (sent ∙ set_get (codes "x-zonzon-loop") token _)
          (window w))
        refl
    where
      window :
          (later / 60000 ≡ now / 60000) ⊎ (later / 60000 ≡ suc (now / 60000))
          → (loop_token rt (full_path u) req.client_ip (window_at now)
              ≡ loop_token rt again.url again.client_ip (window_at later))
            ⊎ (loop_token rt (full_path u) req.client_ip (window_at now)
                ≡ loop_token rt again.url again.client_ip (window_before later))
      window (inl same) = inl (rw (from, path, same) refl)
      window (inr next) = inr (rw (from, path, window_before-suc now later next) refl)
