-- ===== src/Control/Service.antt =====
-- `ConfigService` of packages/control-plane/src/domain/config/config.service.ts, within its lock.
-- What `validateServerConfig` makes of the new configuration is an argument, `none` for a throw, and
-- so are the nonces, one for each header, and what comes of the files. The file is modelled by the
-- configuration that it holds; the errors of subscribers, which are logged, are left out.
pub mod Updates
pub mod Tests
use zonzon.Base.{
  ℕ, zero, suc, ◌+◌, Bool, true, false, Option, none, some, List, [], ◌∷◌, if◌then◌else◌, length,
  replicate,
}
use zonzon.Base.Text.{Text}
use zonzon.Base.Bytes.{Bytes}
use zonzon.Types.{HttpProxyConfig, HostConfig, Hosts, ServerConfig}
use zonzon.Dns.Server.{is_set}
use zonzon.Secrets.{Cipher, is_encrypted, encrypt_secret}

pub record ConfigService : Type 0 where
  pub config : ServerConfig
  pub file : ServerConfig
  pub subscribers : ℕ

-- writing the temporary file and renaming it
pub data Write : Type 0 where
  write_failed rename_failed renamed : Write

-- the service after an update, what the subscribers are called with, and whether it did not throw
pub record Update : Type 0 where
  pub service : ConfigService
  pub notified : List ServerConfig
  pub is_done : Bool

unfoldable pub subscribe : ConfigService → ConfigService
subscribe s = record s { subscribers = s.subscribers + 1 }

-- `none` is a throw
unfoldable pub get_config : Option Text → ConfigService → Option ServerConfig
get_config tenant_id s = if is_set tenant_id then some s.config else none

module _ (c : Cipher) (nonces : ℕ → Bytes) where
  unfoldable pub encrypt_headers : ℕ → List (Text × Text) → List (Text × Text)
  encrypt_headers i [] = []
  encrypt_headers i ((key, value) ∷ headers) =
      (key, if is_encrypted value then value else encrypt_secret c (nonces i) value)
      ∷ encrypt_headers (suc i) headers

  abbrev pub encrypt_proxy : ℕ → Option HttpProxyConfig → Option HttpProxyConfig
  encrypt_proxy i none = none
  encrypt_proxy i (some proxy) = some (record proxy { headers = encrypt_headers i proxy.headers })

  abbrev pub header_count : Option HttpProxyConfig → ℕ
  header_count none = 0
  header_count (some proxy) = length proxy.headers

  -- the loop over the hosts
  unfoldable pub encrypt_hosts : ℕ → Hosts → Hosts
  encrypt_hosts i [] = []
  encrypt_hosts i ((name, host) ∷ hosts) =
      (name, record host { http_proxy = encrypt_proxy i host.http_proxy })
      ∷ encrypt_hosts (i + header_count host.http_proxy) hosts

  abbrev pub unchanged : ConfigService → Update
  unchanged s = record { service = s; notified = []; is_done = false }

  abbrev pub store : ServerConfig → ConfigService → Write → Update
  store config s write_failed = unchanged s
  store config s rename_failed = unchanged s
  store config s renamed = record {
    service = record s { config = config; file = config };
    notified = replicate s.subscribers config;
    is_done = true;
  }

  abbrev pub update_with : Option ServerConfig → ConfigService → Write → Update
  update_with none s write = unchanged s
  update_with (some validated) s write =
      store (record validated { hosts = encrypt_hosts 0 validated.hosts }) s write

  unfoldable pub update_config : Option Text → Option ServerConfig → Write → ConfigService → Update
  update_config tenant_id validated write s =
      if is_set tenant_id then update_with validated s write else unchanged s

unfoldable pub updating : Unit {0}
unfolding subscribe get_config encrypt_headers encrypt_hosts update_config is_encrypted
    encrypt_secret
updating = tt
