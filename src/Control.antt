-- ===== src/Control.antt =====
-- `ConfigHandler` of packages/control-plane/src/domain/config/config.handler.ts, with the
-- configuration that `ConfigService` keeps. The key and device derivations, SHA-256, the schema of
-- the headers, and the reading of a new configuration are parameters. A throw carries its message.
pub mod Nonces
pub mod Access
pub mod Lock
pub mod Service
mod Tests
use zonzon.Base.{
  ℕ, zero, suc, ◌+◌, ◌/◌, Bool, true, false, not, ◌||◌, Option, none, some, List, [], ◌∷◌, ◌++◌,
  ltb, ◌==◌, if◌then◌else◌, length,
}
use zonzon.Base.Text.{Text, codes, text_eq, includes, starts_with, has_part}
use zonzon.Base.Bytes.{Bytes, utf8_text}
use zonzon.Dns.Server.{decimal}

pub data Outcome (A : Type 0) : Type 0 where
  done : A → Outcome A
  threw : Text → Outcome A

pub record ApiAuthHeaders : Type 0 where
  pub api_key : Option Text
  pub device_id : Text
  pub pow_nonce : Option Text

abbrev pub fault_status : Text → ℕ
fault_status message =
    if has_part message (codes "Payload size limit")
    then 413
    else if has_part message (codes "Authentication Validation Failed")
        || has_part message (codes "Unauthorized")
        || has_part message (codes "API Key")
        || has_part message (codes "x-pow-nonce")
    then 401
    else if has_part message (codes "Invalid Proof of Work")
        || has_part message (codes "already used")
    then 403
    else 400

abbrev pub max_body_bytes : ℕ
max_body_bytes = 1048576

-- the chunks so far, and their length
unfoldable pub read_chunks : Bytes → List Bytes → Outcome Text
read_chunks body [] = done (utf8_text body)
read_chunks body (chunk ∷ chunks) =
    let rest = read_chunks (body ++ chunk) chunks in
    if ltb max_body_bytes (length body + length chunk)
    then threw (codes "Payload size limit exceeded")
    else rest

abbrev pub is_mutation : Text → Bool
is_mutation method = text_eq method (codes "PUT") || text_eq method (codes "POST")

pub record Request : Type 0 where
  pub method : Text
  pub pathname : Text
  pub headers : List (Text × Text)
  pub chunks : List Bytes

module _ (Config : Type 0) where
  pub record Handler : Type 0 where
    pub blind_index_salt : Text
    pub expected_api_key_hash : Text
    pub seen_nonces : List Text
    pub current_pow_window : ℕ
    pub config : Config

  pub data Reply : Type 0 where
    metrics not_found not_allowed updated : Reply
    configuration : Config → Reply
    fault : ℕ → Text → Reply

  -- what the handler calls
  pub record Services : Type 0 where
    pub api_key_hash : Text → Text
    pub device_hash : Text → Text
    pub sha256 : Text → Text
    pub parse_headers : List (Text × Text) → Outcome ApiAuthHeaders
    pub read_config : Text → Outcome Config

  -- a new window of five minutes forgets the nonces
  unfoldable pub enter_window : ℕ → Handler → Handler
  enter_window now h =
      if h.current_pow_window == now / 300000
      then h
      else record h { current_pow_window = now / 300000; seen_nonces = [] }

  abbrev pub challenge : ℕ → Text → Text → Handler → Text
  challenge now device payload h =
      h.blind_index_salt
      ++ (b':' ∷ decimal (suc (now / 300000)) (now / 300000) ++ (b':' ∷ device ++ (b':' ∷ payload)))

  module _ (services : Services) where
    abbrev pub solves : ℕ → Text → Text → Text → Handler → Bool
    solves now nonce device payload h =
        starts_with (services.sha256 (challenge now device payload h ++ nonce)) (codes "0000")

    unfoldable pub check_nonce : ℕ → Text → Text → Text → Handler → Option Text × Handler
    check_nonce now nonce device payload h =
        if includes h.seen_nonces nonce
        then (some (codes "Proof of Work challenge nonce already used"), h)
        else if not (solves now nonce device payload h)
        then (some (codes "Invalid Proof of Work Challenge"), h)
        else (none, record h { seen_nonces = nonce ∷ h.seen_nonces })

    -- the message that is thrown, or none
    unfoldable pub verify_proof_of_work : ℕ → Text → Text → Text → Handler → Option Text × Handler
    verify_proof_of_work now nonce device payload h =
        check_nonce now nonce device payload (enter_window now h)

    unfoldable pub check_given :
        ℕ → Text → ApiAuthHeaders → Option Text → Handler → Option Text × Handler
    check_given now body auth none h =
        (some (codes "Mutation endpoint requires x-pow-nonce header"), h)
    check_given now body auth (some []) h =
        (some (codes "Mutation endpoint requires x-pow-nonce header"), h)
    check_given now body auth (some (c ∷ nonce)) h =
        verify_proof_of_work now (c ∷ nonce) (services.device_hash auth.device_id)
          (services.sha256 body) h

    unfoldable pub check_mutation :
        ℕ → Bool → Text → ApiAuthHeaders → Handler → Option Text × Handler
    check_mutation now false body auth h = (none, h)
    check_mutation now true body auth h = check_given now body auth auth.pow_nonce h

    unfoldable pub check_key :
        ℕ → Bool → Text → ApiAuthHeaders → Option Text → Handler → Option Text × Handler
    check_key now mutation body auth none h = (some (codes "Missing API Key"), h)
    check_key now mutation body auth (some []) h = (some (codes "Missing API Key"), h)
    check_key now mutation body auth (some (c ∷ key)) h =
        if text_eq h.expected_api_key_hash (services.api_key_hash (c ∷ key))
        then check_mutation now mutation body auth h
        else (some (codes "Unauthorized Access"), h)

    -- `extractContext`; the context itself is constant but for the device
    unfoldable pub extract_context :
        ℕ → Bool → Text → Outcome ApiAuthHeaders → Handler → Option Text × Handler
    extract_context now mutation body (threw issues) h =
        (some (codes "Authentication Validation Failed (" ++ (issues ++ codes ")")), h)
    extract_context now mutation body (done auth) h =
        check_key now mutation body auth auth.api_key h

    abbrev pub faulty : Text → Handler → Reply × Handler
    faulty message h = (fault (fault_status message) message, h)

    unfoldable pub store : Outcome Config → Handler → Reply × Handler
    store (done config) h = (updated, record h { config = config })
    store (threw message) h = faulty message h

    -- the part that runs in the context
    unfoldable pub serve : Text → Text → Option Text × Handler → Reply × Handler
    serve method body (some message, h) = faulty message h
    serve method body (none, h) =
        let stored = store (services.read_config body) h in
        if text_eq method (codes "GET")
        then (configuration h.config, h)
        else if text_eq method (codes "PUT")
        then stored
        else (not_allowed, h)

    unfoldable pub with_body : ℕ → Request → Outcome Text → Handler → Reply × Handler
    with_body now request (threw message) h = faulty message h
    with_body now request (done body) h = serve request.method body (
        extract_context now (is_mutation request.method) body
          (services.parse_headers request.headers) h)

    unfoldable pub handle_request : ℕ → Request → Handler → Reply × Handler
    handle_request now request h =
        let body = if is_mutation request.method then read_chunks [] request.chunks else done [] in
        let configured = with_body now request body h in
        if text_eq request.pathname (codes "/metrics")
        then (if text_eq request.method (codes "GET") then (metrics, h) else (not_allowed, h))
        else if text_eq request.pathname (codes "/api/v1/config")
        then configured
        else (not_found, h)

unfoldable pub controlling : Unit {0}
unfolding decimal has_part read_chunks enter_window check_nonce verify_proof_of_work check_given
    check_mutation check_key extract_context store serve with_body handle_request utf8_text
controlling = tt
