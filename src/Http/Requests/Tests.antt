-- ===== src/Http/Requests/Tests.antt =====
-- A request to each kind of target, one that comes back, headers, and the theorems at them.
use zonzon.Base.{◌≡◌, ◌⊎◌, refl, inr, false, none, some, List, [], ◌∷◌}
use zonzon.Base.Text.{Text, codes}
use zonzon.Base.OrderedMap.{get}
use zonzon.HttpProxy.Tests.{config, url_of, parse_url, resolver}
use zonzon.Sni.Connection.Routing.{Permits}
use zonzon.Http.Requests.{
  Runtime, single, several, Request, header, OutRequest, status, proxied, fault, out_request,
  request_headers, response_headers, is_hop_by_hop, requesting,
}
use zonzon.Http.Requests.Routes.{refused, handle_connect, handle_request, host_name_of, routes}
use zonzon.Http.Requests.Egress.{handle_request-Permits}
use zonzon.Http.Requests.Loops.{handle_request_looped}
use zonzon.Http.Requests.Scrubbing.{IsAdded, request_headers_scrubbed}

-- here the HMAC of a text is the text behind a byte
abbrev rt : Runtime
rt = record {
  parse_url = parse_url;
  parse_relative = λ path base. some (url_of base);
  dns_resolve = resolver;
  dns_fault = λ name. record { name = codes "Error"; code = codes "ENOTFOUND"; message = name };
  decrypt_secret = some;
  hmac = λ t. b'h' ∷ t;
  read_file = λ name. none;
  file_fault = λ name. record { name = codes "Error"; code = codes "ENOENT"; message = name };
}

abbrev request_to : Text → Request
request_to host = record {
  client_ip = codes "192.168.1.5";
  method = codes "GET";
  url = codes "/";
  headers =
      (codes "host", single host)
      ∷ (codes "upgrade", single (codes "h2c"))
      ∷ (codes "accept", several (codes "a" ∷ codes "b" ∷ []))
      ∷ [];
}

loopback : handle_request config rt 90000 (request_to (codes "d.e")) ≡ status 403
unfolding routes
loopback = refl

nameless : handle_request config rt 90000 (request_to []) ≡ status 400
unfolding routes
nameless = refl

unresolved :
    handle_request config rt 90000 (request_to (codes "gone"))
    ≡ fault (record { name = codes "Error"; code = codes "ENOTFOUND"; message = codes "gone" })
unfolding routes
unresolved = refl

literal_name : host_name_of (codes "[::1]:80") ≡ codes "::1"
unfolding routes
literal_name = refl

abbrev direct : OutRequest
direct =
    out_request rt 90000 (request_to (codes "10.0.0.1")) (url_of (codes "http://10.0.0.1"))
      (codes "10.0.0.1") (codes "10.0.0.1") false [] [] 5242880 none

proxied_direct :
    handle_request config rt 90000 (request_to (codes "10.0.0.1"))
    ≡ proxied (codes "10.0.0.1") direct
unfolding routes
proxied_direct = refl

handle_request-Permits_example : Permits config (codes "10.0.0.1")
unfolding requesting
handle_request-Permits_example =
    handle_request-Permits config rt 90000 (request_to (codes "10.0.0.1")) (codes "10.0.0.1") direct
      proxied_direct

-- the request comes back in the next minute
abbrev again : Request
again = record {
  client_ip = codes "192.168.1.5";
  method = codes "GET";
  url = codes "/";
  headers = (codes "x-zonzon-loop", single (codes "h/:192.168.1.5:1")) ∷ [];
}

same_token :
    header (codes "x-zonzon-loop") again.headers ≡ get (codes "x-zonzon-loop") direct.headers
unfolding requesting
same_token = refl

handle_request_looped_example : handle_request config rt 120000 again ≡ status 508
handle_request_looped_example =
    handle_request_looped rt config 90000 120000 (request_to (codes "10.0.0.1")) again
      (url_of (codes "http://10.0.0.1")) (codes "10.0.0.1") (codes "10.0.0.1") false [] [] 5242880
      none (λ t. λ e. cc) (inr refl) refl refl same_token

abbrev taken : List (Text × Text)
taken =
    (codes "accept", codes "a, b")
    ∷ (codes "Host", codes "e")
    ∷ (codes "content-length", codes "0")
    ∷ (codes "x-zonzon-loop", codes "t")
    ∷ []

headers_taken :
    request_headers
      (url_of (codes "e"))
      false
      (codes "POST")
      ((codes "Upgrade", single (codes "h2c"))
        ∷ (codes "accept", several (codes "a" ∷ codes "b" ∷ []))
        ∷ [])
      []
      (codes "t")
    ≡ taken
unfolding requesting
headers_taken = refl

accepted :
    get (codes "accept") (
      request_headers
        (url_of (codes "e"))
        false
        (codes "POST")
        (request_to []).headers
        []
        (codes "t"))
    ≡ some (codes "a, b")
unfolding requesting
accepted = refl

request_headers_scrubbed_example :
    IsAdded [] (codes "accept")
    ⊎ ((codes "accept" ≡ codes "transfer-encoding") ⊎ (is_hop_by_hop (codes "accept") ≡ false))
request_headers_scrubbed_example =
    request_headers_scrubbed (url_of (codes "e")) false (codes "POST") (request_to []).headers []
      (codes "t") (codes "accept") (codes "a, b") accepted

returned :
    get (codes "etag") (
      response_headers
        ((codes "Server", single (codes "x")) ∷ (codes "etag", single (codes "1")) ∷ [])
        [])
    ≡ some (codes "1")
unfolding requesting
returned = refl

-- a CONNECT to a host whose address is inside
tunnel_refused : handle_connect config rt (codes "d.e:443") ≡ refused
unfolding routes
tunnel_refused = refl
