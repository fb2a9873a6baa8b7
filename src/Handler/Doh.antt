-- ===== src/Handler/Doh.antt =====
-- DNS over HTTPS in `DnsHandler` (packages/core/src/dns-handler.ts): `handleDohRequest` up to its
-- query, and `resolveQueryAsync`. `base64url` is `Buffer.from(text, "base64url")`, which does not
-- throw; the parts of the address are those of `URL`. A throw in a callback is uncaught: `none`.
pub mod Queries
pub mod Replies
pub mod Tests
use zonzon.Base.{
  ℕ, zero, suc, ◌+◌, ◌-◌, Bool, true, false, not, Option, none, some, List, [], ◌∷◌, ◌++◌, ltb, leb,
  ◌==◌, if◌then◌else◌, ◌>>=◌, length,
}
use zonzon.Base.Text.{Text, codes, text_eq}
use zonzon.Base.Bytes.{Bytes}
use zonzon.Types.{rcode_servfail, rcode_nxdomain, rcode_refused}
use zonzon.Dns.Question.{ParsedQuestion, extract_questions}
use zonzon.Dns.Packet.{generate_error_response, append_edns0_do_bit, packets}
use zonzon.Dns.Mixing.{apply_0x20_encoding, mixing}
use zonzon.Dns.Server.{AuditEvent, dns, denied, resolve, is_set, cached_rcode, Resolution, serving}
use zonzon.Dnssec.{Crypto}
use zonzon.Dnssec.Validation.{verify_response}
use zonzon.Handler.{
  DnsHandler, is_rate_limited, parse_resolved_ipv4s, blocked_ip, valid_0x20, handling,
}
use zonzon.Handler.Tcp.{max_tcp_buffer_size}

-- A request. Each chunk of its body comes so many milliseconds after the first was awaited.
pub record DohRequest : Type 0 where
  pub method : Text
  pub pathname : Text
  pub dns_param : Option Text
  pub content_type : Option Text
  pub body : List (ℕ × Bytes)

-- a status that ends the exchange, or the query
pub data DohQuery : Type 0 where
  status : ℕ → DohQuery
  query_of : Bytes → DohQuery

-- the loop over the chunks of a POST
unfoldable pub doh_body : List (ℕ × Bytes) → Bytes → DohQuery
doh_body [] chunks = query_of chunks
doh_body ((elapsed, chunk) ∷ body) chunks =
    let rest = doh_body body (chunks ++ chunk) in
    if ltb 5000 elapsed
    then status 408
    else if ltb max_tcp_buffer_size (length chunks + length chunk)
    then status 413
    else rest

-- a query needs a header
abbrev pub with_header : DohQuery → DohQuery
with_header (status code) = status code
with_header (query_of query) = if ltb (length query) 12 then status 400 else query_of query

abbrev pub or_empty : Option Text → Text
or_empty none = []
or_empty (some s) = s

module _ (base64url : Text → Bytes) where
  unfoldable pub doh_param : Option Text → DohQuery
  doh_param none = status 400
  doh_param (some []) = status 400
  doh_param (some (c ∷ s)) =
      if ltb 512 (length (c ∷ s)) then status 413 else query_of (base64url (c ∷ s))

  -- from the limit on requests on, up to the query
  unfoldable pub doh_query : Bool → DohRequest → DohQuery
  doh_query limited req =
      if limited
      then status 429
      else if not (text_eq req.pathname (codes "/dns-query"))
      then status 404
      else if text_eq req.method (codes "GET")
      then with_header (doh_param req.dns_param)
      else if not (text_eq req.method (codes "POST"))
      then status 405
      else if not (text_eq (or_empty req.content_type) (codes "application/dns-message"))
      then status 415
      else with_header (doh_body req.body [])

-- A query that is asked of the fallback resolver, with the variables that the callbacks read.
pub record DohForward : Type 0 where
  pub query : Bytes
  pub client_ip : Text
  pub expected_names : List Text
  pub dnssec_query : Bytes

-- the promise of `resolveQueryAsync`: kept, or to be kept by a callback
pub data DohPromise : Type 0 where
  resolved : Bytes → DohPromise
  pending : DohForward → DohPromise

-- The handler behind a step, with what it gives.
pub record DohStep : Type 0 where
  pub handler : DnsHandler
  pub promise : DohPromise
  pub events : List AuditEvent

-- what is done with the result of `resolve`; a throw rejects the promise
unfoldable pub doh_promise : (ℕ → ℕ) → Bytes → Text → Option Text → Option Bytes → Option DohPromise
doh_promise random query client_ip fallback_dns (some []) = do
  reply ← generate_error_response query rcode_servfail
  some (resolved reply)
doh_promise random query client_ip fallback_dns (some (b ∷ response)) =
    some (resolved (b ∷ response))
doh_promise random query client_ip fallback_dns none =
    let missing = generate_error_response query rcode_nxdomain >>= λ reply. some (resolved reply) in
    let asked = do
      (encoded, expected_names) ← apply_0x20_encoding random query
      dnssec_query ← append_edns0_do_bit encoded
      some (
          pending (record {
            query = query;
            client_ip = client_ip;
            expected_names = expected_names;
            dnssec_query = dnssec_query;
          }))
    in if is_set fallback_dns then asked else missing

module _ (digest : Text → Text) where
  unfoldable pub resolve_query_async : ℕ → (ℕ → ℕ) → Bytes → Text → DnsHandler → Option DohStep
  resolve_query_async now random query client_ip h = do
    r ← resolve digest now query client_ip h.server
    promise ← doh_promise random query client_ip h.fallback_dns r.reply
    some (record { handler = record h { server = r.server }; promise = promise; events = r.events })

-- what a callback resolves the promise with, and its events
pub record DohAnswer : Type 0 where
  pub reply : Bytes
  pub events : List AuditEvent

unfoldable pub doh_failure : Bytes → Option DohAnswer
doh_failure query = do
  reply ← generate_error_response query rcode_servfail
  some (record { reply = reply; events = [] })

-- from the search for a blocked address on
unfoldable pub doh_answer : DohForward → Bytes → Option Text → Option DohAnswer
doh_answer f msg (some ip) = do
  qs ← extract_questions f.query
  reply ← generate_error_response f.query rcode_refused
  some (record {
    reply = reply;
    events = denied f.client_ip ip ∷ dns f.client_ip qs rcode_refused false ∷ [];
  })
doh_answer f msg none = do
  qs ← extract_questions f.query
  some (record { reply = msg; events = dns f.client_ip qs (cached_rcode msg) false ∷ [] })

module _ (crypto : Crypto) where
  unfoldable pub doh_named : DnsHandler → DohForward → Bytes → Bool → Option DohAnswer
  doh_named h f msg false = doh_failure f.query
  doh_named h f msg true =
      doh_answer f msg (blocked_ip h.config.firewall (parse_resolved_ipv4s msg))

  unfoldable pub doh_genuine : DnsHandler → DohForward → Bytes → Bool → Option DohAnswer
  doh_genuine h f msg false = doh_failure f.query
  doh_genuine h f msg true = do
    qs ← extract_questions msg
    doh_named h f msg (valid_0x20 f.expected_names qs)

  -- the callback for the first message; the socket is closed and its timer stopped
  unfoldable pub on_doh_message : ℕ → DnsHandler → DohForward → Bytes → Option DohAnswer
  on_doh_message now h f msg = verify_response crypto now msg >>= doh_genuine h f msg

-- the timer of three seconds, and an error of the socket
abbrev pub on_doh_timeout : DohForward → Option DohAnswer
on_doh_timeout f = doh_failure f.query

-- `handleDohRequest` behind the query: the reply with its status, or 502 where the promise is
-- rejected
pub data DohReply : Type 0 where
  bare : ℕ → DohReply
  ok : Bytes → DohReply

abbrev pub doh_reply : Option Bytes → DohReply
doh_reply none = bare 502
doh_reply (some response) = ok response

-- what a request comes to before any callback
pub data DohOutcome : Type 0 where
  answered : DohReply → DohOutcome
  waiting : DohForward → DohOutcome

abbrev pub outcome_of : DohPromise → DohOutcome
outcome_of (resolved response) = answered (ok response)
outcome_of (pending f) = waiting f

-- what a throwing `resolve` has done to the cache is left out
abbrev pub after_promise : DnsHandler → Option DohStep → DnsHandler × DohOutcome
after_promise h none = (h, answered (doh_reply none))
after_promise h (some s) = (s.handler, outcome_of s.promise)

module _ (digest : Text → Text) (base64url : Text → Bytes) where
  abbrev pub after_query : ℕ → (ℕ → ℕ) → Text → DnsHandler → DohQuery → DnsHandler × DohOutcome
  after_query now random client_ip h (status code) = (h, answered (bare code))
  after_query now random client_ip h (query_of query) =
      after_promise h (resolve_query_async digest now random query client_ip h)

  unfoldable pub handle_doh_request :
      ℕ → (ℕ → ℕ) → DohRequest → Text → DnsHandler → DnsHandler × DohOutcome
  handle_doh_request now random req client_ip h =
      let (h1, limited) = is_rate_limited now client_ip h in
      after_query now random client_ip h1 (doh_query base64url limited req)

unfoldable pub secure : Unit {0}
unfolding handling packets mixing serving doh_body doh_param doh_query doh_promise
    resolve_query_async doh_failure doh_answer doh_named doh_genuine on_doh_message
    handle_doh_request
secure = tt
