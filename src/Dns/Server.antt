-- ===== src/Dns/Server.antt =====
-- `resolve` of `DevDnsServer` (packages/core/src/dns-service.ts). `digest` is the hexadecimal
-- SHA-256 of node:crypto; `evaluateDomain` is the firewall's. `none` is a throw, or an eviction
-- loop that does not end.
pub mod Guards
pub mod Refusal
pub mod Gathering
pub mod Answers
pub mod Invariant
mod Tests
use zonzon.Base.{
  ℕ, zero, suc, ◌+◌, ◌/◌, ◌%◌, Bool, true, false, not, ◌&&◌, ◌||◌, Option, none, some, List, [],
  ◌∷◌, ◌++◌, map, ltb, ◌==◌, if◌then◌else◌, ◌>>=◌, length, bit_and, any,
}
use zonzon.Base.Text.{Text, codes, join, normalize_host}
use zonzon.Base.Bytes.{Bytes, u16_at, utf8}
use zonzon.Types.{
  ServerConfig, HostConfig, FirewallConfig, rcode_noerror, rcode_nxdomain, rcode_refused,
}
use zonzon.Firewall.{Verdict, permit, block, evaluate_domain, firewall}
use zonzon.Dns.Question.{ParsedQuestion, extract_questions, questions}
use zonzon.Dns.Packet.{
  build_response_packet, build_no_error_response, generate_error_response, packets,
}
use zonzon.Dns.Cache.{CacheEntry, DevDnsServer, get_from_cache, add_to_cache, caching}
use zonzon.Dns.Hosts.{find_host_config, hosting}
use zonzon.Dns.Records.{build_answers, recording}

-- What goes to the audit log.
pub data AuditEvent : Type 0 where
  dns : Text → List ParsedQuestion → ℕ → Bool → AuditEvent
  denied : Text → Text → AuditEvent

-- `reply` is `none` where the query is left to the fallback resolver
pub record Resolution : Type 0 where
  pub reply : Option Bytes
  pub server : DevDnsServer
  pub events : List AuditEvent

abbrev hex_digit : ℕ → ℕ
hex_digit n = if ltb n 10 then 48 + n else 87 + n

unfoldable pub hex : Bytes → Text
hex [] = []
hex (b ∷ s) = hex_digit (b / 16) ∷ hex_digit (b % 16) ∷ hex s

-- the decimal digits of a number below 10 ^ fuel
unfoldable pub decimal : ℕ → ℕ → Text
decimal zero n = []
decimal (suc fuel) n =
    let front = decimal fuel (n / 10) in
    if ltb n 10 then (48 + n) ∷ [] else front ++ ((48 + n % 10) ∷ [])

unfoldable pub question_key : ParsedQuestion → Text
question_key q = hex (utf8 q.name) ++ (b':' ∷ decimal 5 q.type)

unfoldable pub raw_key : List ParsedQuestion → Text
raw_key qs = join b'|' (map question_key qs)

-- The variables of the loop over the questions.
pub record Found : Type 0 where
  pub answers : List Bytes
  pub all_questions_unknown : Bool

abbrev pub host_answers : ParsedQuestion → Option HostConfig → Found → Option Found
host_answers q none found = some found
host_answers q (some host) found = do
  more ← build_answers host.records q.type
  some (record { answers = found.answers ++ more; all_questions_unknown = false })

unfoldable pub look_up : ServerConfig → List ParsedQuestion → Found → Option Found
look_up config [] found = some found
look_up config (q ∷ qs) found = do
  found1 ← host_answers q (find_host_config (normalize_host q.name) config.hosts) found
  look_up config qs found1

abbrev pub is_block : Verdict → Bool
is_block permit = false
is_block block = true

-- some question is denied
unfoldable pub any_denied : Option FirewallConfig → List ParsedQuestion → Bool
any_denied fw qs = any (λ q. is_block (evaluate_domain q.name fw)) qs

-- a query that is a response, asks for no recursion, or has sections that a query has not
unfoldable pub is_ignored : Bytes → Bool
is_ignored query =
    ltb (length query) 12
    || not (bit_and (u16_at query 2) 0x8000 == 0)
    || bit_and (u16_at query 2) 0x0100 == 0
    || u16_at query 4 == 0
    || ltb 0 (u16_at query 6)
    || ltb 0 (u16_at query 8)

abbrev pub names : List ParsedQuestion → Text
names [] = []
names (q ∷ []) = q.name
names (q ∷ r ∷ qs) = q.name ++ (b',' ∷ b' ' ∷ names (r ∷ qs))

abbrev pub is_empty : List Bytes → Bool
is_empty [] = true
is_empty (answer ∷ answers) = false

abbrev pub no_answers : Found
no_answers = record { answers = []; all_questions_unknown = true }

abbrev pub respond : Bytes → DevDnsServer → List AuditEvent → Option Resolution
respond reply server events = some (record { reply = some reply; server = server; events = events })

-- the response is built, cached and logged
abbrev pub respond_cached :
    ℕ → Text → Text → List ParsedQuestion → ℕ → DevDnsServer → Option Bytes → Option Resolution
respond_cached now key source qs rcode s response = do
  reply ← response
  s1 ← add_to_cache now key reply s
  respond reply s1 (dns source qs rcode false ∷ [])

-- a string that is there and not empty
abbrev pub is_set : Option Text → Bool
is_set none = false
is_set (some []) = false
is_set (some (c ∷ s)) = true

-- a query for which no question has an entry
unfoldable pub resolve_unknown :
    ℕ → Text → Bytes → Text → List ParsedQuestion → DevDnsServer → Option Resolution
resolve_unknown now key query source qs s =
    let refusal = generate_error_response query rcode_refused >>= λ reply.
    respond reply s (denied source (names qs) ∷ []) in
    let missing =
      respond_cached now key source qs rcode_nxdomain s
        (generate_error_response query rcode_nxdomain) in
    if any_denied s.config.firewall qs
    then refusal
    else if is_set s.config.fallback_dns
    then some (record { reply = none; server = s; events = [] })
    else missing

-- from the loop over the questions on
unfoldable pub resolve_fresh :
    ℕ → Text → Bytes → Text → List ParsedQuestion → DevDnsServer → Option Resolution
resolve_fresh now key query source qs s = look_up s.config qs no_answers >>= λ found.
    let unknown = resolve_unknown now key query source qs s in
    let answered = respond_cached now key source qs rcode_noerror s (
      build_response_packet (u16_at query 0) (u16_at query 2) rcode_noerror (length qs) qs
        found.answers) in
    let empty =
      respond_cached now key source qs rcode_noerror s
        (build_no_error_response (u16_at query 0) (u16_at query 2) qs) in
    if not (is_empty found.answers)
    then answered
    else if found.all_questions_unknown
    then unknown
    else empty

abbrev pub cached_rcode : Bytes → ℕ
cached_rcode response = if ltb (length response) 4 then 0 else bit_and (u16_at response 2) 0xf

-- what the look-up in the cache has given, and the server after it
unfoldable pub resolve_cached :
    ℕ
    → Text
    → Bytes
    → Text
    → List ParsedQuestion
    → Option CacheEntry × DevDnsServer
    → Option Resolution
resolve_cached now key query source qs (some entry, s) =
    respond entry.response s (dns source qs (cached_rcode entry.response) true ∷ [])
resolve_cached now key query source qs (none, s) =
    let nothing = generate_error_response query rcode_nxdomain >>= λ reply. respond reply s [] in
    let fresh = resolve_fresh now key query source qs s in if length qs == 0 then nothing else fresh

module _ (digest : Text → Text) where
  unfoldable pub resolve : ℕ → Bytes → Text → DevDnsServer → Option Resolution
  resolve now query source s =
      let asked = extract_questions query >>= λ qs.
      resolve_cached now (digest (raw_key qs)) query source qs
        (get_from_cache now (digest (raw_key qs)) s) in
      if is_ignored query then respond [] s [] else asked

unfoldable pub serving : Unit {0}
unfolding questions packets caching hosting recording firewall hex decimal question_key raw_key
    look_up any_denied is_ignored resolve_unknown resolve_fresh resolve_cached resolve
serving = tt
