-- ===== src/Http/Requests.antt =====
-- The requests of packages/core/src/http-handler.ts: `generateLoopToken`, `handleConnect`,
-- `handleForwardProxy`, `handleRequest` and the headers of `doHttpProxy`. `Runtime` is what they call
-- of the runtime and of crypto.ts. The audit entries and the pages are left out.
pub mod Routes
pub mod Egress
pub mod Loops
pub mod Scrubbing
pub mod Tests
use zonzon.Base.{
  ℕ, zero, suc, ◌+◌, ◌-◌, ◌*◌, ◌/◌, Bool, true, false, ◌&&◌, ◌||◌, not, Option, none, some, List,
  [], ◌∷◌, ◌++◌, ◌==◌, if◌then◌else◌, ◌>>=◌,
}
use zonzon.Base.Text.{Text, codes, text_eq, includes, starts_with, has_part, split, to_lower, lower}
use zonzon.Base.Bytes.{Bytes}
use zonzon.Base.OrderedMap.{get, set_key, maps}
use zonzon.Types.{
  TlsConfig, HttpProxyConfig, HostConfig, ServerConfig, ProxiedRequest, ModifiedHeaders,
}
use zonzon.Firewall.{evaluate_domain, evaluate_outbound, evaluate_ip}
use zonzon.Dns.Server.{is_block, is_set, decimal}
use zonzon.Sni.Connection.{or_else}
use zonzon.Http.{HttpFault, find_wildcard_host}
use zonzon.HttpProxy.{
  Url, Target, targets, is_ip, resolve_host, validate_target_firewall, hop_by_hop_headers,
  get_upstream_headers, check_redirect, or_five_mib, is_true, no_headers, proxying,
}

-- `parse_url` and `parse_relative` are the constructor of `URL` with one and two arguments; a fault
-- is what `dns_resolve` rejects with, and what `read_file` throws. `hmac` has the secret.
pub record Runtime : Type 0 where
  pub parse_url : Text → Option Url
  pub parse_relative : Text → Text → Option Url
  pub dns_resolve : Text → Option (List Text)
  pub dns_fault : Text → HttpFault
  pub decrypt_secret : Text → Option Text
  pub hmac : Text → Text
  pub read_file : Text → Option Bytes
  pub file_fault : Text → HttpFault

pub data HeaderValue : Type 0 where
  single : Text → HeaderValue
  several : List Text → HeaderValue

pub record Request : Type 0 where
  pub client_ip : Text
  pub method : Text
  pub url : Text
  pub headers : List (Text × HeaderValue)

-- `v.join(", ")`
abbrev join_values : List Text → Text
join_values [] = []
join_values (v ∷ []) = v
join_values (v ∷ w ∷ vs) = v ++ (codes ", " ++ join_values (w ∷ vs))

abbrev pub value_text : HeaderValue → Text
value_text (single v) = v
value_text (several vs) = join_values vs

abbrev pub header_text : Option HeaderValue → Option Text
header_text none = none
header_text (some v) = some (value_text v)

-- `req.headers[name]`
abbrev pub header : Text → List (Text × HeaderValue) → Option Text
header name headers = header_text (get name headers)

-- the loop over the headers, and the other one over those that are added
unfoldable pub copy_headers :
    (Text → Bool) → List (Text × HeaderValue) → List (Text × Text) → List (Text × Text)
copy_headers scrubbed [] out = out
copy_headers scrubbed ((k, v) ∷ headers) out =
    copy_headers scrubbed headers (if scrubbed k then out else set_key k (value_text v) out)

unfoldable pub add_headers : List (Text × Text) → List (Text × Text) → List (Text × Text)
add_headers [] out = out
add_headers ((k, v) ∷ headers) out = add_headers headers (set_key k v out)

abbrev pub is_hop_by_hop : Text → Bool
is_hop_by_hop k = includes hop_by_hop_headers (to_lower k)

abbrev pub fingerprint_headers : List Text
fingerprint_headers =
    codes "server"
    ∷ codes "via"
    ∷ codes "x-source"
    ∷ codes "x-powered-by"
    ∷ codes "x-generator"
    ∷ codes "cf-ray"
    ∷ codes "cf-cache-status"
    ∷ codes "x-cache"
    ∷ codes "x-cache-lookup"
    ∷ codes "x-drupal-cache"
    ∷ codes "x-varnish"
    ∷ codes "x-nextjs-cache"
    ∷ codes "x-fastly-request-id"
    ∷ codes "x-runtime"
    ∷ codes "x-version"
    ∷ codes "x-impl"
    ∷ codes "x-aspnet-version"
    ∷ codes "x-aspnetmvc-version"
    ∷ codes "microsoftofficewebserver"
    ∷ codes "x-powered-by-plesk"
    ∷ codes "x-pingback"
    ∷ codes "wp-super-cache"
    ∷ codes "x-ghost-version"
    ∷ []

abbrev pub is_fingerprint : Text → Bool
is_fingerprint k = includes fingerprint_headers (to_lower k)

-- the headers of the reply that goes back
unfoldable pub response_headers :
    List (Text × HeaderValue) → List (Text × Text) → List (Text × Text)
response_headers headers custom =
    add_headers custom (copy_headers (λ k. is_hop_by_hop k || is_fingerprint k) headers [])

abbrev pub is_bodiless : Text → Bool
is_bodiless method = text_eq method (codes "GET") || text_eq method (codes "HEAD")

abbrev pub text_or_empty : Option Text → Text
text_or_empty none = []
text_or_empty (some s) = s

-- the size of the body that is sent along, as the request gives it
unfoldable pub stream_headers : Option Text → Option Text → List (Text × Text) → List (Text × Text)
stream_headers content_length transfer_encoding out =
    if is_set content_length
    then set_key (codes "content-length") (text_or_empty content_length) out
    else if is_set transfer_encoding
    then set_key (codes "transfer-encoding") (text_or_empty transfer_encoding) out
    else out

unfoldable pub length_headers :
    Bool → Text → List (Text × HeaderValue) → List (Text × Text) → List (Text × Text)
length_headers streamed method headers out =
    if is_bodiless method
    then out
    else if streamed
    then stream_headers (header (codes "content-length") headers)
        (header (codes "transfer-encoding") headers) out
    else set_key (codes "content-length") (codes "0") out

-- the headers of the request that goes out
unfoldable pub request_headers :
    Url → Bool → Text → List (Text × HeaderValue) → List (Text × Text) → Text → List (Text × Text)
request_headers target_url streamed method headers custom token =
    set_key (codes "x-zonzon-loop") token (
      add_headers custom (
        length_headers streamed method headers
          (set_key (codes "Host") target_url.host (copy_headers is_hop_by_hop headers []))))

-- a certificate or a key as the configuration has it, or as its file does
pub data Material : Type 0 where
  pem : Text → Material
  file : Bytes → Material

pub record TlsMaterial : Type 0 where
  pub cert : Material
  pub key : Material
  pub ca : Option Material
  pub server_name : Option Text

-- the options of the request that goes out, and the headers that are added to its reply
pub record OutRequest : Type 0 where
  pub secure : Bool
  pub hostname : Text
  pub port : Text
  pub path : Text
  pub method : Text
  pub headers : List (Text × Text)
  pub response_added : List (Text × Text)
  pub server_name : Option Text
  pub client_tls : Option TlsMaterial
  pub streamed : Bool
  pub max_body_bytes : ℕ

-- What a request comes to: a reply with a status, a redirect, a request that goes out through the
-- breaker of a host, or a fault.
pub data Handling : Type 0 where
  status : ℕ → Handling
  location : ℕ → Text → Handling
  proxied : Text → OutRequest → Handling
  fault : HttpFault → Handling

abbrev pub invalid_url_fault : HttpFault
invalid_url_fault = record {
  name = codes "TypeError";
  code = codes "ERR_INVALID_URL";
  message = codes "Invalid URL";
}

abbrev pub nxdomain_fault : HttpFault
nxdomain_fault = record { name = codes "Error"; code = codes "UNKNOWN"; message = codes "NXDOMAIN" }

abbrev pub full_path : Url → Text
full_path u = u.pathname ++ u.search

abbrev pub sni_of : Option TlsMaterial → Option Text
sni_of none = none
sni_of (some tls) = tls.server_name

unfoldable pub server_name_of : Bool → Text → Option TlsMaterial → Option Text
server_name_of secure hostname client_tls =
    if not secure
    then none
    else if is_set (sni_of client_tls)
    then sni_of client_tls
    else if is_ip hostname
    then none
    else some hostname

-- the minute
abbrev pub window_at : ℕ → Text
window_at now = decimal (suc (now / 60000)) (now / 60000)

-- `Math.floor(Date.now() / 60000) - 1`
abbrev pub window_before : ℕ → Text
window_before now = if now / 60000 == 0 then codes "-1" else decimal (now / 60000) (now / 60000 - 1)

module _ (rt : Runtime) where
  -- the token of a window
  unfoldable pub loop_token : Text → Text → Text → Text
  loop_token url client_ip window =
      rt.hmac (url ++ (codes ":" ++ (client_ip ++ (codes ":" ++ window))))

  unfoldable pub is_looped : ℕ → Request → Bool
  is_looped now req =
      let provided = header (codes "x-zonzon-loop") req.headers in
      is_set provided
      && (text_eq (text_or_empty provided) (loop_token req.url req.client_ip (window_at now))
          || text_eq (text_or_empty provided)
              (loop_token req.url req.client_ip (window_before now)))

  -- what `doHttpProxy` asks for
  unfoldable pub out_request :
      ℕ
      → Request
      → Url
      → (target_ip hostname : Text) → Bool
      → (custom custom_response : List (Text × Text)) → ℕ
      → Option TlsMaterial
      → OutRequest
  out_request now req target_url target_ip hostname streamed custom custom_response max_body_bytes
        client_tls =
      let secure = text_eq target_url.protocol (codes "https:") in
      record {
        secure = secure;
        hostname = target_ip;
        port =
            if is_set (some target_url.port)
            then target_url.port
            else if secure
            then codes "443"
            else codes "80";
        path = full_path target_url;
        method = req.method;
        headers =
            request_headers target_url streamed req.method req.headers custom
              (loop_token (full_path target_url) req.client_ip (window_at now));
        response_added = custom_response;
        server_name = server_name_of secure hostname client_tls;
        client_tls = if secure then client_tls else none;
        streamed = streamed;
        max_body_bytes = max_body_bytes;
      }

unfoldable pub requesting : Unit {0}
unfolding proxying decimal copy_headers add_headers response_headers stream_headers length_headers
    request_headers server_name_of loop_token is_looped out_request
requesting = tt
