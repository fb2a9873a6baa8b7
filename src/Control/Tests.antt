-- ===== src/Control/Tests.antt =====
-- A handler whose configuration is a number, and an update of it.
use zonzon.Base.{ℕ, ◌≤◌, List, ◌≡◌, ◌≢◌, refl, true, false, none, some, [], ◌∷◌, arith, length}
use zonzon.Base.Text.{Text, codes}
use zonzon.Control.{
  done, ApiAuthHeaders, Handler, Request, fault, Services, verify_proof_of_work, handle_request,
  controlling,
}
use zonzon.Base.Bytes.{utf8_text}
use zonzon.Control.{max_body_bytes}
use zonzon.Control.Nonces.{Attempt, attempt_all, verify_proof_of_work_once}
use zonzon.Control.Access.{Authorised, handle_request-Authorised}
use zonzon.Control.Lock.{
  Updates, Reachable, start, next, asks, IsExclusive, Reachable-IsExclusive, locking,
}

abbrev auth : ApiAuthHeaders
auth = record { api_key = some (codes "k"); device_id = codes "d"; pow_nonce = some (codes "n") }

-- every challenge is solved, and the new configuration is the length of the body
abbrev services : Services ℕ
services = record {
  api_key_hash = λ key. key;
  device_hash = λ device. device;
  sha256 = λ text. codes "0000";
  parse_headers = λ headers. done auth;
  read_config = λ body. done (length body);
}

abbrev handler : Handler ℕ
handler = record {
  blind_index_salt = codes "s";
  expected_api_key_hash = codes "k";
  seen_nonces = [];
  current_pow_window = 0;
  config = 7;
}

abbrev put : Request
put = record {
  method = codes "PUT";
  pathname = codes "/api/v1/config";
  headers = [];
  chunks = codes "ab" ∷ codes "c" ∷ [];
}

put_stores : (handle_request ℕ services 300000 put handler).1.config ≡ 3
unfolding controlling
put_stores = refl

-- the same request again is refused with 403
put_again :
    (handle_request ℕ services 300001 put (handle_request ℕ services 300000 put handler).1).0
    ≡ fault 403 (codes "Proof of Work challenge nonce already used")
unfolding controlling
put_again = refl

put_changes : (handle_request ℕ services 300000 put handler).1.config ≢ 7
unfolding controlling
put_changes e = omega (arith, e)

handle_request-Authorised_example :
    (body : Text) × (body ≡ utf8_text (codes "abc"))
    × (3 ≤ max_body_bytes)
    × (codes "PUT" ≡ codes "PUT")
    × (codes "/api/v1/config" ≡ codes "/api/v1/config")
    × Authorised ℕ services 300000 put body handler
handle_request-Authorised_example =
    handle_request-Authorised ℕ services 300000 put handler put_changes

accepted :
    (verify_proof_of_work ℕ services 300000 (codes "n") (codes "d") (codes "p") handler).0 ≡ none
unfolding controlling
accepted = refl

-- two attempts with other nonces in between
abbrev between : List Attempt
between =
    record { now = 300001; nonce = codes "m"; device = codes "d"; payload = codes "p" }
    ∷ record { now = 400000; nonce = codes "k"; device = codes "f"; payload = codes "p" }
    ∷ []

verify_proof_of_work_once_example :
    (verify_proof_of_work ℕ services 599999 (codes "n") (codes "e") (codes "q") (
      attempt_all ℕ services between
        (verify_proof_of_work ℕ services 300000 (codes "n") (codes "d") (codes "p") handler).1)).0
    ≡ some (codes "Proof of Work challenge nonce already used")
verify_proof_of_work_once_example =
    verify_proof_of_work_once ℕ services 300000 599999 (codes "n") (codes "d") (codes "p")
      (codes "e") (codes "q") between handler refl (refl, (refl, tt)) accepted

abbrev free : Updates
free = record { lock = record { locked = false; queue = [] }; running = [] }

abbrev held : Updates
held = record { lock = record { locked = true; queue = [] }; running = 1 ∷ [] }

abbrev waited : Updates
waited = record { lock = record { locked = true; queue = 2 ∷ [] }; running = 1 ∷ [] }

waited_reached : Reachable waited
unfolding locking
waited_reached = next held waited (next free held start (asks 1 free)) (asks 2 held)

Reachable-IsExclusive_example : IsExclusive waited
Reachable-IsExclusive_example = Reachable-IsExclusive waited waited_reached
