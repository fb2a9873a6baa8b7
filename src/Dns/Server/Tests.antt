-- ===== src/Dns/Server/Tests.antt =====
-- A server that hosts `a.b` and denies `x.y`, asked for `A.b` and for `x.y`.
use zonzon.Base.{◌≡◌, refl, false, none, some, List, [], ◌∷◌, map, arith}
use zonzon.Base.Text.{Text, codes}
use zonzon.Base.Bytes.{Bytes}
use zonzon.Wire.{wire}
use zonzon.Dns.Packet.{combined_flags}
use zonzon.Dns.Packet.Errors.{message, Replies}
use zonzon.Types.{rcode_refused, ServerConfig, FirewallConfig, HostConfig, a, allow, rcode_noerror}
use zonzon.Dns.Question.{ParsedQuestion, extract_questions, questions}
use zonzon.Dns.Packet.Tests.{
  query, asked, asked-IsQuestion, asked-Replies, answers, answers-IsAnswer,
}
use zonzon.Dns.Cache.{DevDnsServer, get_from_cache, add_to_cache, caching}
use zonzon.Dns.Cache.Bounds.{IsValid}
use zonzon.Dns.Cache.Lifetime.{with_ttl}
use zonzon.Dns.Server.{dns, denied, Resolution, resolve, is_ignored, raw_key, serving}
use zonzon.Dns.Server.Guards.{FallsBack, resolve-FallsBack}
use zonzon.Dns.Server.Refusal.{resolve_refused}
use zonzon.Dns.Server.Answers.{Hosted, answer_message, resolve_answers, resolve_repeats}

abbrev host : HostConfig
host = record {
  records = a (codes "1.2.3.4") ∷ [];
  http_proxy = none;
  tls_proxy = none;
  redirect = none;
}

abbrev rules : FirewallConfig
rules = record {
  default_policy = allow;
  allowlist_domains = none;
  blocklist_domains = some (codes "x.y" ∷ []);
  allowlist_ranges = none;
  blocklist_ranges = none;
  allowlist_ips = none;
  blocklist_ips = none;
}

abbrev config : ServerConfig
config = record {
  port = 53;
  http_port = none;
  https_port = none;
  tls = none;
  dot_port = none;
  doh_port = none;
  fallback_dns = some (codes "9.9.9.9");
  firewall = some rules;
  dns_cache_max_size = some 2;
  dns_cache_ttl_ms = some 5000;
  max_tcp_connections = none;
  tcp_idle_timeout_ms = none;
  rate_limit_max_requests = none;
  rate_limit_window_ms = none;
  hosts = (codes "a.b", host) ∷ [];
}

abbrev server : DevDnsServer
server = record { config = config; cache_map = []; dns_cache_max_size = 2; dns_cache_ttl_ms = 5000 }

server-IsValid : IsValid server
server-IsValid = record { positive = omega arith; bounded = omega arith; distinct = tt }

-- stands for the digest: the key itself
abbrev plain : Text → Text
plain key = key

abbrev source : Text
source = codes "10.0.0.9"

key_lem : raw_key asked ≡ codes "412e62:1"
unfolding serving
key_lem = refl

query-Hosted : Hosted query config asked answers
unfolding serving
query-Hosted = record {
  read = refl;
  parsed = refl;
  questions = asked-IsQuestion;
  replies = asked-Replies;
  one = omega arith;
  valid = answers-IsAnswer;
  whole = refl;
  found = (answers, [], refl, (refl, tt), refl);
  room = omega arith;
}

missed : (get_from_cache 0 (plain (raw_key asked)) server).0 ≡ none
unfolding caching
missed = refl

resolve_answers_example :
    (s' : DevDnsServer) × (add_to_cache 0
        (plain (raw_key asked))
        (answer_message query asked answers)
        (get_from_cache 0 (plain (raw_key asked)) server).1
      ≡ some s')
    × (resolve plain 0 query source server
        ≡ some (record {
          reply = some (answer_message query asked answers);
          server = s';
          events = dns source asked rcode_noerror false ∷ [];
        }))
resolve_answers_example =
    resolve_answers plain 0 query source server asked answers query-Hosted server-IsValid
      (omega arith) missed

-- the same question with the id 0x5678
abbrev second_query : Bytes
second_query =
    0x56 ∷ 0x78 ∷ 1 ∷ 0 ∷ 0 ∷ 1 ∷ 0 ∷ 0 ∷ 0 ∷ 0 ∷ 0 ∷ 0 ∷ 1 ∷ b'A' ∷ 1 ∷ b'b' ∷ 0 ∷ 0 ∷ 1 ∷ 0 ∷ 1
    ∷ []

second_parsed : extract_questions second_query ≡ some asked
unfolding questions
second_parsed = refl

second_read : is_ignored second_query ≡ false
unfolding serving
second_read = refl

abbrev first_resolution : Resolution
first_resolution = record {
  reply = some (answer_message query asked answers);
  server = record server {
    cache_map =
        (
          codes "412e62:1",
          record {
            response = answer_message query asked (map (with_ttl 5) answers);
            inserted_at = 0;
            ttl_ms = 5000;
          },
        )
        ∷ [];
  };
  events = dns source asked rcode_noerror false ∷ [];
}

first_resolved : resolve plain 0 query source server ≡ some first_resolution
unfolding serving
first_resolved = refl

resolve_repeats_example :
    (r' : Resolution) × (resolve plain 4999 second_query source first_resolution.server ≡ some r')
    × (r'.reply ≡ some (answer_message query asked (map (with_ttl 5) answers)))
resolve_repeats_example =
    resolve_repeats plain 0 query source server asked answers query-Hosted server-IsValid
      (omega arith) missed 4999 second_query source first_resolution first_resolved (omega arith)
      (omega arith) second_read second_parsed

-- a query for `z`, which nothing hosts and nothing denies
abbrev foreign_query : Bytes
foreign_query = 0 ∷ 1 ∷ 1 ∷ 0 ∷ 0 ∷ 1 ∷ 0 ∷ 0 ∷ 0 ∷ 0 ∷ 0 ∷ 0 ∷ 1 ∷ b'z' ∷ 0 ∷ 0 ∷ 1 ∷ 0 ∷ 1 ∷ []

abbrev left_over : Resolution
left_over = record { reply = none; server = server; events = [] }

foreign_resolved : resolve plain 0 foreign_query source server ≡ some left_over
unfolding serving
foreign_resolved = refl

resolve-FallsBack_example :
    (qs : List ParsedQuestion) × (extract_questions foreign_query ≡ some qs) × FallsBack config qs
resolve-FallsBack_example =
    resolve-FallsBack plain 0 foreign_query source server left_over foreign_resolved refl

-- a query for `z` and for `x.y`, of which the second is denied
abbrev two_query : Bytes
two_query =
    0 ∷ 2 ∷ 1 ∷ 0 ∷ 0 ∷ 2 ∷ 0 ∷ 0 ∷ 0 ∷ 0 ∷ 0 ∷ 0 ∷ 1 ∷ b'z' ∷ 0 ∷ 0 ∷ 1 ∷ 0 ∷ 1 ∷ 1 ∷ b'x' ∷ 1
    ∷ b'y' ∷ 0 ∷ 0 ∷ 1 ∷ 0 ∷ 1 ∷ []

abbrev first : ParsedQuestion
first = record { name = codes "z"; type = 1; next_offset = 19 }

abbrev second : ParsedQuestion
second = record { name = codes "x.y"; type = 1; next_offset = 28 }

two_parsed : extract_questions two_query ≡ some (first ∷ second ∷ [])
unfolding serving
two_parsed = refl

two-Replies : Replies 2 0x100 (first ∷ second ∷ [])
unfolding wire
two-Replies = record {
  id_word = omega arith;
  flags_word = omega arith;
  fits = (
    record { short = (omega arith, tt); word = omega arith },
    (record { short = (omega arith, (omega arith, tt)); word = omega arith }, tt),
  );
  room = omega arith;
}

resolve_refused_example :
    resolve plain 0 two_query source server
    ≡ some (record {
      reply = some (message 2 (combined_flags 0x100 rcode_refused) 0 (first ∷ second ∷ []));
      server = server;
      events = denied source (codes "z, x.y") ∷ [];
    })
unfolding serving
resolve_refused_example =
    resolve_refused plain 0 two_query source server (first ∷ []) [] second refl two_parsed
      two-Replies refl (refl, (refl, tt)) refl
