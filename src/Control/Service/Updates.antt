-- ===== src/Control/Service/Updates.antt =====
-- What an update leaves behind.
use zonzon.Base.{
  ℕ, suc, ◌+◌, ◌≡◌, ◌≢◌, refl, ◌⊎◌, inl, inr, true, false, Option, none, some, List, [], ◌∷◌, All,
  Bool-cases, replicate, if◌then◌else◌,
}
use zonzon.Base.Text.{Text}
use zonzon.Base.Bytes.{Bytes}
use zonzon.Types.{HttpProxyConfig, Hosts, ServerConfig}
use zonzon.Dns.Server.{is_set}
use zonzon.Secrets.{Cipher, is_encrypted, sealed_text, encrypt_secret}
use zonzon.Secrets.RoundTrip.{IsSealed, sealed-is_encrypted}
use zonzon.Control.Service.{
  ConfigService, Write, write_failed, rename_failed, renamed, Update, encrypt_headers,
  encrypt_proxy, header_count, encrypt_hosts, unchanged, update_with, update_config,
}

-- The value of each header is encrypted.
abbrev pub AreEncrypted : Option HttpProxyConfig → Type 0
AreEncrypted none = Unit
AreEncrypted (some proxy) = All (λ h. is_encrypted h.1 ≡ true) proxy.headers

abbrev pub HoldSecrets : Hosts → Type 0
HoldSecrets hosts = All (λ h. AreEncrypted h.1.http_proxy) hosts

-- The value is the new one, encrypted with one of the nonces if it was not yet encrypted.
abbrev pub IsValueOf : Cipher → (ℕ → Bytes) → Text → Text → Type 0
IsValueOf c nonces new held =
    ((is_encrypted new ≡ true) × (held ≡ new))
    ⊎ ((is_encrypted new ≡ false)
        × ((j : ℕ) × (held ≡ sealed_text (nonces j) (c.seal (nonces j) new))))

-- The same keys in the same order, each with the value of the new header.
abbrev pub AreHeadersOf : Cipher → (ℕ → Bytes) → List (Text × Text) → List (Text × Text) → Type 0
AreHeadersOf c nonces [] [] = Unit
AreHeadersOf c nonces [] (g ∷ held) = ⊥
AreHeadersOf c nonces (h ∷ new) [] = ⊥
AreHeadersOf c nonces (h ∷ new) (g ∷ held) =
    (g.0 ≡ h.0) × IsValueOf c nonces h.1 g.1 × AreHeadersOf c nonces new held

-- The same, but for the values of the headers.
abbrev pub IsProxyOf :
    Cipher → (ℕ → Bytes) → Option HttpProxyConfig → Option HttpProxyConfig → Type 0
IsProxyOf c nonces none none = Unit
IsProxyOf c nonces none (some q) = ⊥
IsProxyOf c nonces (some p) none = ⊥
IsProxyOf c nonces (some p) (some q) =
    (q ≡ record p { headers = q.headers }) × AreHeadersOf c nonces p.headers q.headers

-- The same hosts in the same order, but for the values of the headers.
abbrev pub AreHostsOf : Cipher → (ℕ → Bytes) → Hosts → Hosts → Type 0
AreHostsOf c nonces [] [] = Unit
AreHostsOf c nonces [] (g ∷ held) = ⊥
AreHostsOf c nonces (h ∷ new) [] = ⊥
AreHostsOf c nonces (h ∷ new) (g ∷ held) =
    (g.0 ≡ h.0)
    × (g.1 ≡ record h.1 { http_proxy = g.1.http_proxy })
    × IsProxyOf c nonces h.1.http_proxy g.1.http_proxy
    × AreHostsOf c nonces new held

-- The new configuration is held but for the values of its headers, which are all encrypted; the
-- file has the same, and so has every subscriber.
abbrev pub IsUpdated : Cipher → (ℕ → Bytes) → Option ServerConfig → ConfigService → Update → Type 0
IsUpdated c nonces validated s u =
    ((config : ServerConfig) × (validated ≡ some config)
      × (u.service.config ≡ record config { hosts = u.service.config.hosts })
      × AreHostsOf c nonces config.hosts u.service.config.hosts)
    × HoldSecrets u.service.config.hosts
    × (u.service.file ≡ u.service.config)
    × (u.service.subscribers ≡ s.subscribers)
    × (u.notified ≡ replicate s.subscribers u.service.config)

-- what keeps an update from being done
abbrev pub IsRefused : Option Text → Option ServerConfig → Write → Type 0
IsRefused tenant_id validated write =
    (is_set tenant_id ≡ false) ⊎ ((validated ≡ none) ⊎ (write ≢ renamed))

module _ (c : Cipher) (nonces : ℕ → Bytes)
    (seals : (i : ℕ) (plaintext : Text) → IsSealed (nonces i) (c.seal (nonces i) plaintext)) where
  encrypt_secret-is_encrypted :
      (i : ℕ) (value : Text) → is_encrypted (encrypt_secret c (nonces i) value) ≡ true
  unfolding encrypt_secret
  encrypt_secret-is_encrypted i value = elim (Bool-cases (is_encrypted value)) [
    | inl old ↦ rw (old, old) refl
    | inr plain ↦
        rw plain (sealed-is_encrypted (nonces i) (c.seal (nonces i) value) (seals i value))
  ]

  headers-AreEncrypted :
      (i : ℕ) (headers : List (Text × Text))
      → All (λ h. is_encrypted h.1 ≡ true) (encrypt_headers c nonces i headers)
  unfolding encrypt_headers
  headers-AreEncrypted i [] = tt
  headers-AreEncrypted i ((key, value) ∷ headers) = (
    elim (Bool-cases (is_encrypted value)) [
      | inl old ↦ rw (old, old) refl
      | inr plain ↦ rw plain (encrypt_secret-is_encrypted i value)
    ],
    headers-AreEncrypted (suc i) headers,
  )

  proxy-AreEncrypted :
      (i : ℕ) (proxy : Option HttpProxyConfig) → AreEncrypted (encrypt_proxy c nonces i proxy)
  proxy-AreEncrypted i none = tt
  proxy-AreEncrypted i (some proxy) = headers-AreEncrypted i proxy.headers

  value_lem :
      (i : ℕ) (value : Text)
      → IsValueOf c nonces value
          (if is_encrypted value then value else encrypt_secret c (nonces i) value)
  unfolding encrypt_secret
  value_lem i value = elim (Bool-cases (is_encrypted value)) [
    | inl old ↦ rw old (inl (refl, refl))
    | inr plain ↦ rw plain (inr (refl, (i, refl)))
  ]

  headers_lem :
      (i : ℕ) (headers : List (Text × Text))
      → AreHeadersOf c nonces headers (encrypt_headers c nonces i headers)
  unfolding encrypt_headers
  headers_lem i [] = tt
  headers_lem i ((key, value) ∷ headers) = (refl, value_lem i value, headers_lem (suc i) headers)

  proxy_lem :
      (i : ℕ) (proxy : Option HttpProxyConfig)
      → IsProxyOf c nonces proxy (encrypt_proxy c nonces i proxy)
  proxy_lem i none = tt
  proxy_lem i (some proxy) = (refl, headers_lem i proxy.headers)

  hosts_lem : (i : ℕ) (hosts : Hosts) → AreHostsOf c nonces hosts (encrypt_hosts c nonces i hosts)
  unfolding encrypt_hosts
  hosts_lem i [] = tt
  hosts_lem i ((name, host) ∷ hosts) = (
    refl,
    refl,
    proxy_lem i host.http_proxy,
    hosts_lem (i + header_count c nonces host.http_proxy) hosts,
  )

  hosts-HoldSecrets : (i : ℕ) (hosts : Hosts) → HoldSecrets (encrypt_hosts c nonces i hosts)
  unfolding encrypt_hosts
  hosts-HoldSecrets i [] = tt
  hosts-HoldSecrets i ((name, host) ∷ hosts) = (
    proxy-AreEncrypted i host.http_proxy,
    hosts-HoldSecrets (i + header_count c nonces host.http_proxy) hosts,
  )

  -- An update ends in one of two ways. Either the service holds the configuration that was
  -- validated, host for host and header for header, in which only the values of headers that were
  -- not yet encrypted are replaced, each by its encryption with one of the nonces; then every value
  -- of a header is encrypted, the file holds the same, and every subscriber is called with it. Or it
  -- throws, nothing has changed and no subscriber is called, and then there was no tenant, no valid
  -- configuration, or a file that could not be written or renamed. What the cipher seals has a nonce
  -- of 12 bytes, a tag of 16, and a ciphertext without colons.
  pub update_config-IsUpdated :
      (tenant_id : Option Text) (validated : Option ServerConfig) (write : Write)
      (s : ConfigService)
      → ((update_config c nonces tenant_id validated write s).is_done ≡ true)
          × IsUpdated c nonces validated s (update_config c nonces tenant_id validated write s)
        ⊎ (update_config c nonces tenant_id validated write s ≡ unchanged c nonces s)
          × IsRefused tenant_id validated write
  unfolding update_config
  update_config-IsUpdated tenant_id validated write s = elim (Bool-cases (is_set tenant_id)) [
    | inl known ↦ rw known (of validated write)
    | inr unknown ↦ rw unknown (inr (refl, inl refl))
  ]
    where
      of :
          (validated : Option ServerConfig) (write : Write)
          → ((update_with c nonces validated s write).is_done ≡ true)
              × IsUpdated c nonces validated s (update_with c nonces validated s write)
            ⊎ (update_with c nonces validated s write ≡ unchanged c nonces s)
              × ((true ≡ false) ⊎ ((validated ≡ none) ⊎ (write ≢ renamed)))
      of none write = inr (refl, inr (inl refl))
      of (some config) write_failed = inr (refl, inr (inr (λ e. cc)))
      of (some config) rename_failed = inr (refl, inr (inr (λ e. cc)))
      of (some config) renamed = inl (
        refl,
        (
          (config, refl, refl, hosts_lem 0 config.hosts),
          hosts-HoldSecrets 0 config.hosts,
          refl,
          refl,
          refl,
        ),
      )
