-- ===== src/Control/Service/Tests.antt =====
-- An update of a configuration with secrets, and the theorem at it.
use zonzon.Base.{ℕ, ◌≡◌, ◌⊎◌, refl, true, none, some, [], arith, replicate}
use zonzon.Base.Text.{codes}
use zonzon.Base.Bytes.{Bytes}
use zonzon.HttpProxy.Tests.{config}
use zonzon.Secrets.{Cipher}
use zonzon.Control.Service.{
  ConfigService, renamed, rename_failed, unchanged, update_config, updating, subscribe, get_config,
}
use zonzon.Control.Service.Updates.{IsUpdated, IsRefused, update_config-IsUpdated}

-- here nothing is left of a text
abbrev cipher : Cipher
cipher = record {
  seal = λ nonce plaintext. ([], replicate 16 0);
  unseal = λ nonce tag ciphertext. none;
}

abbrev nonces : ℕ → Bytes
nonces i = replicate 12 0

abbrev service : ConfigService
service = record {
  config = record config { hosts = [] };
  file = record config { hosts = [] };
  subscribers = 1;
}

refused :
    update_config cipher nonces (some []) (some config) renamed service
    ≡ unchanged cipher nonces service
unfolding updating
refused = refl

kept :
    update_config cipher nonces (some (codes "t")) (some config) rename_failed service
    ≡ unchanged cipher nonces service
unfolding updating
kept = refl

stored :
    (update_config cipher nonces (some (codes "t")) (some config) renamed service).is_done ≡ true
unfolding updating
stored = refl

subscribed : ((subscribe service).subscribers ≡ 2) × (get_config none service ≡ none)
unfolding updating
subscribed = (refl, refl)

update_config-IsUpdated_example :
    ((update_config cipher nonces (some (codes "t")) (some config) renamed service).is_done ≡ true)
      × IsUpdated cipher nonces
          (some config)
          service
          (update_config cipher nonces (some (codes "t")) (some config) renamed service)
    ⊎ (update_config cipher nonces (some (codes "t")) (some config) renamed service
        ≡ unchanged cipher nonces service)
      × IsRefused (some (codes "t")) (some config) renamed
update_config-IsUpdated_example =
    update_config-IsUpdated cipher nonces
      (λ i plaintext. (omega arith, refl, omega arith, refl, tt)) (some (codes "t")) (some config)
      renamed service
