-- ===== src/Control/Access.antt =====
-- Who may change the configuration.
use zonzon.Base.{
  ℕ, ◌+◌, ◌≤◌, List, ◌++◌, ltb, length, length-append, append_assoc, append-nil, sym, ap, ◌≡◌, ◌≢◌,
  ◌∙◌, refl, Bool, true, false, Option, none, some, [], ◌∷◌, if◌then◌else◌, arith, Bool-cases, inl,
  inr,
}
use zonzon.Base.Text.{Text, codes, text_eq, text_eq_iff}
use zonzon.Base.Bytes.{Bytes, joined, utf8_text}
use zonzon.Control.{
  max_body_bytes, Outcome, done, threw, ApiAuthHeaders, read_chunks, Handler, Request, Services,
  enter_window, verify_proof_of_work, check_given, check_mutation, check_key, extract_context,
  serve, is_mutation, with_body, handle_request,
}
use zonzon.Control.Nonces.{check_nonce-kept}

body_of : Outcome Text → Text
body_of (done text) = text
body_of (threw message) = []

-- The chunks that are read are within the limit, and the body is their text.
read_chunks_done :
    (body : Bytes) (chunks : List Bytes) (text : Text)
    → length body ≤ max_body_bytes
    → read_chunks body chunks ≡ done text
    → (text ≡ utf8_text (body ++ joined chunks)) × (length (body ++ joined chunks) ≤ max_body_bytes)
unfolding read_chunks body_of
read_chunks_done body [] text h e = rw (append-nil body) (sym (ap body_of e), h)
read_chunks_done body (chunk ∷ chunks) text h e =
    elim (Bool-cases (ltb max_body_bytes (length body + length chunk))) [
      | inl large ↦ absurd (ground (arith, rw large at e))
      | inr fits ↦
          let (said, few) =
            read_chunks_done (body ++ chunk) chunks text (ground (arith, length-append body chunk))
              (rw fits at e) in
          (
            rw (append_assoc body chunk (joined chunks)) at said,
            rw (append_assoc body chunk (joined chunks)) at few,
          )
    ]

module _ (Config : Type 0) (services : Services Config) where
  enter_window-config :
      (now : ℕ) (h : Handler Config) → (enter_window Config now h).config ≡ h.config
  unfolding enter_window
  enter_window-config now h = ground arith

  -- What a request needs to pass the guards of a change.
  pub record Authorised (now : ℕ) (request : Request) (body : Text) (h : Handler Config)
      : Type 0 where
    pub auth : ApiAuthHeaders
    pub parsed : services.parse_headers request.headers ≡ done auth
    pub key : Text
    pub given : auth.api_key ≡ some key
    pub matches : h.expected_api_key_hash ≡ services.api_key_hash key
    pub nonce : Text
    pub stated : auth.pow_nonce ≡ some nonce
    pub accepted :
        (verify_proof_of_work Config services now nonce
          (services.device_hash auth.device_id)
          (services.sha256 body)
          h).0
        ≡ none

  verify_proof_of_work-config :
      (now : ℕ) (nonce d p : Text) (h : Handler Config)
      → (verify_proof_of_work Config services now nonce d p h).1.config ≡ h.config
  unfolding verify_proof_of_work
  verify_proof_of_work-config now nonce d p h =
      (check_nonce-kept Config services now nonce d p (enter_window Config now h)).1
      ∙ enter_window-config now h

  check_given-config :
      (now : ℕ) (body : Text) (auth : ApiAuthHeaders) (nonce : Option Text) (h : Handler Config)
      → (check_given Config services now body auth nonce h).1.config ≡ h.config
  unfolding check_given
  check_given-config now body auth none h = refl
  check_given-config now body auth (some []) h = refl
  check_given-config now body auth (some (c ∷ nonce)) h =
      verify_proof_of_work-config now (c ∷ nonce) _ _ h

  check_given-none :
      (now : ℕ) (body : Text) (auth : ApiAuthHeaders) (nonce : Option Text) (h : Handler Config)
      → (check_given Config services now body auth nonce h).0 ≡ none
      → (n : Text) × (nonce ≡ some n)
        × ((verify_proof_of_work Config services now n
              (services.device_hash auth.device_id)
              (services.sha256 body)
              h).0
            ≡ none)
  unfolding check_given
  check_given-none now body auth none h e = absurd (ground (arith, e))
  check_given-none now body auth (some []) h e = absurd (ground (arith, e))
  check_given-none now body auth (some (c ∷ nonce)) h e = (c ∷ nonce, refl, e)

  check_mutation-config :
      (now : ℕ) (mutation : Bool) (body : Text) (auth : ApiAuthHeaders) (h : Handler Config)
      → (check_mutation Config services now mutation body auth h).1.config ≡ h.config
  unfolding check_mutation
  check_mutation-config now false body auth h = refl
  check_mutation-config now true body auth h = check_given-config now body auth auth.pow_nonce h

  check_key-config :
      (now : ℕ) (mutation : Bool) (body : Text) (auth : ApiAuthHeaders) (key : Option Text)
      (h : Handler Config)
      → (check_key Config services now mutation body auth key h).1.config ≡ h.config
  unfolding check_key
  check_key-config now mutation body auth none h = refl
  check_key-config now mutation body auth (some []) h = refl
  check_key-config now mutation body auth (some (c ∷ key)) h =
      elim (Bool-cases (text_eq h.expected_api_key_hash (services.api_key_hash (c ∷ key)))) [
        | inl same ↦ rw same (check_mutation-config now mutation body auth h)
        | inr other ↦ rw other refl
      ]

  check_key-none :
      (now : ℕ) (body : Text) (auth : ApiAuthHeaders) (key : Option Text) (h : Handler Config)
      → (check_key Config services now true body auth key h).0 ≡ none
      → (k : Text) × (key ≡ some k)
        × (h.expected_api_key_hash ≡ services.api_key_hash k)
        × ((check_given Config services now body auth auth.pow_nonce h).0 ≡ none)
  unfolding check_key check_mutation
  check_key-none now body auth none h e = absurd (ground (arith, e))
  check_key-none now body auth (some []) h e = absurd (ground (arith, e))
  check_key-none now body auth (some (c ∷ key)) h e =
      elim (Bool-cases (text_eq h.expected_api_key_hash (services.api_key_hash (c ∷ key)))) [
        | inl same ↦ (c ∷ key, refl, (text_eq_iff _ _).0 same, rw same at e)
        | inr other ↦ absurd (ground (arith, rw other at e))
      ]

  extract_context-config :
      (now : ℕ) (mutation : Bool) (body : Text) (parsed : Outcome ApiAuthHeaders)
      (h : Handler Config)
      → (extract_context Config services now mutation body parsed h).1.config ≡ h.config
  unfolding extract_context
  extract_context-config now mutation body (threw issues) h = refl
  extract_context-config now mutation body (done auth) h =
      check_key-config now mutation body auth auth.api_key h

  extract_context-Authorised :
      (now : ℕ) (request : Request) (body : Text) (parsed : Outcome ApiAuthHeaders)
      (h : Handler Config)
      → services.parse_headers request.headers ≡ parsed
      → (extract_context Config services now true body parsed h).0 ≡ none
      → Authorised now request body h
  unfolding extract_context
  extract_context-Authorised now request body (threw issues) h same e = absurd (ground (arith, e))
  extract_context-Authorised now request body (done auth) h same e =
      let (key, given, matches, rest) = check_key-none now body auth auth.api_key h e in
      let (nonce, stated, accepted) = check_given-none now body auth auth.pow_nonce h rest in
      record {
        auth = auth;
        parsed = same;
        key = key;
        given = given;
        matches = matches;
        nonce = nonce;
        stated = stated;
        accepted = accepted;
      }

  serve-changed :
      (method body : Text) (guard : Option Text × Handler Config)
      → (serve Config services method body guard).1.config ≢ guard.1.config
      → (guard.0 ≡ none) × (method ≡ codes "PUT")
  unfolding serve
  serve-changed method body (some message, h) k = absurd (k refl)
  serve-changed method body (none, h) k = elim (Bool-cases (text_eq method (codes "GET"))) [
    | inl get ↦ absurd (rw get at k refl)
    | inr other ↦ elim (Bool-cases (text_eq method (codes "PUT"))) [
      | inl put ↦ (refl, (text_eq_iff method (codes "PUT")).0 put)
      | inr neither ↦ absurd (rw (other, neither) at k refl)
    ]
  ]

  with_body-Authorised :
      (now : ℕ) (request : Request) (body : Outcome Text) (h : Handler Config)
      → (with_body Config services now request body h).1.config ≢ h.config
      → (text : Text) × (body ≡ done text)
        × (request.method ≡ codes "PUT")
        × Authorised now request text h
  unfolding with_body
  with_body-Authorised now request (threw message) h k = absurd (k refl)
  with_body-Authorised now request (done text) h k =
      let parsed = services.parse_headers request.headers in
      let guard = extract_context Config services now (is_mutation request.method) text parsed h in
      let kept = extract_context-config now (is_mutation request.method) text parsed h in
      let (passed, put) = serve-changed request.method text guard (λ e. k (e ∙ kept)) in
      let mutation : is_mutation request.method ≡ true = rw put refl in
      (
        text,
        refl,
        put,
        extract_context-Authorised now request text parsed h refl (rw mutation at passed),
      )

  -- Only an authorised request changes the configuration: a PUT to the configuration's path whose
  -- chunks have at most 1 MiB together and are its body in UTF-8, whose key has the expected hash, and whose nonce is accepted as a
  -- proof of work for its body and device.
  pub handle_request-Authorised :
      (now : ℕ) (request : Request) (h : Handler Config)
      → (handle_request Config services now request h).1.config ≢ h.config
      → (body : Text) × (body ≡ utf8_text (joined request.chunks))
        × (length (joined request.chunks) ≤ max_body_bytes)
        × (request.method ≡ codes "PUT")
        × (request.pathname ≡ codes "/api/v1/config")
        × Authorised now request body h
  unfolding handle_request
  handle_request-Authorised now request h k =
      let put_or_post = is_mutation request.method in
      let body = if put_or_post then read_chunks [] request.chunks else done [] in
      elim (Bool-cases (text_eq request.pathname (codes "/metrics"))) [
        | inl path ↦ elim (Bool-cases (text_eq request.method (codes "GET"))) [
          | inl get ↦ absurd (rw (path, get) at k refl)
          | inr other ↦ absurd (rw (path, other) at k refl)
        ]
        | inr path ↦ elim (Bool-cases (text_eq request.pathname (codes "/api/v1/config"))) [
          | inr foreign ↦ absurd (rw (path, foreign) at k refl)
          | inl configured ↦
              let (text, read, put, authorised) =
                with_body-Authorised now request body h (rw (path, configured) at k) in
              let mutation : is_mutation request.method ≡ true = rw put refl in
              let (said, few) =
                read_chunks_done [] request.chunks text (omega arith) (rw mutation at read) in
              (text, said, few, put, (text_eq_iff _ _).0 configured, authorised)
        ]
      ]
