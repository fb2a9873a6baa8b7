-- ===== src/Dns/Server/Answers.antt =====
-- A query for hosted names: its reply, and the reply to the same question asked again.
use zonzon.Base.{
  ℕ, ◌+◌, ◌/◌, ◌≤◌, ◌<◌, max, ◌≡◌, ◌∙◌, refl, sym, false, Option, none, some, List, [], ◌∷◌, ◌++◌,
  map, arith, length, length-map, ◌==◌, some-eq-some, ap, All,
}
use zonzon.Base.Text.{Text}
use zonzon.Base.Bytes.{Bytes, u16_at}
use zonzon.Types.{ServerConfig, rcode_noerror}
use zonzon.Wire.{allocated}
use zonzon.Dns.Question.{ParsedQuestion, extract_questions}
use zonzon.Dns.Question.RoundTrip.{IsQuestion, questions_bytes}
use zonzon.Dns.Packet.{combined_flags, build_response_packet}
use zonzon.Dns.Packet.Errors.{message, Replies, questions_count}
use zonzon.Dns.Packet.Answers.{
  Answer, IsAnswer, entry_bytes, answers_bytes, answers_count, kept, build_response_packet-message,
}
use zonzon.Dns.Cache.{CacheEntry, DevDnsServer, get_from_cache, add_to_cache, rewrite_response_ttl}
use zonzon.Dns.Cache.Bounds.{IsValid, get_from_cache-IsValid, add_to_cache-IsValid}
use zonzon.Dns.Cache.Lifetime.{with_ttl, rewrite_response_ttl-message}
use zonzon.Dns.Cache.Freshness.{get_from_cache-add_to_cache}
use zonzon.Dns.Server.Guards.{get_from_cache-config}
use zonzon.Dns.Server.Gathering.{Gathered, look_up-Gathered}
use zonzon.Dns.Server.{
  Resolution, dns, resolve, resolve_cached, resolve_fresh, is_ignored, raw_key, no_answers,
  is_empty,
}

-- What a query asks, and what the configuration has for it.
pub record Hosted (query : Bytes) (config : ServerConfig) (qs : List ParsedQuestion)
    (answers : List Answer) : Type 0 where
  pub read : is_ignored query ≡ false
  pub parsed : extract_questions query ≡ some qs
  pub questions : All IsQuestion qs
  pub replies : Replies (u16_at query 0) (u16_at query 2) qs
  pub one : 1 ≤ length answers
  pub valid : All IsAnswer answers
  pub whole : kept answers ≡ answers
  pub found : Gathered config qs answers
  pub room : 12 + length (questions_bytes qs) + length (answers_bytes answers) ≤ allocated

-- The reply with the id and flags of a query.
abbrev pub answer_message : Bytes → List ParsedQuestion → List Answer → Bytes
answer_message query qs answers =
    message (u16_at query 0) (combined_flags (u16_at query 2) rcode_noerror) (length answers) qs
    ++ answers_bytes answers

-- the TTL of a cached reply, in seconds
abbrev pub cached_ttl : ℕ → ℕ
cached_ttl ttl_ms = max 1 (ttl_ms / 1000)

module _ (query : Bytes) (config : ServerConfig) (qs : List ParsedQuestion) (answers : List Answer)
    (h : Hosted query config qs answers) where
  built :
      build_response_packet
        (u16_at query 0)
        (u16_at query 2)
        rcode_noerror
        (length qs)
        qs
        (map entry_bytes answers)
      ≡ some (answer_message query qs answers)
  built =
      let said =
        build_response_packet-message (u16_at query 0) (u16_at query 2) rcode_noerror qs answers
          (omega arith) h.replies h.valid (rw h.whole h.room) in
      rw h.whole at said

  rewritten :
      (ms : ℕ)
      → cached_ttl ms < 4294967296
      → rewrite_response_ttl (answer_message query qs answers) (cached_ttl ms)
        ≡ some (answer_message query qs (map (with_ttl (cached_ttl ms)) answers))
  rewritten ms word =
      let few : length qs < 65536 = omega (arith, questions_count qs, h.room) in
      let some_answers : length answers < 65536 = omega (arith, answers_count answers, h.room) in
      rw (length-map answers (with_ttl (cached_ttl ms))) (
        rewrite_response_ttl-message (u16_at query 0)
          (combined_flags (u16_at query 2) rcode_noerror) (cached_ttl ms) qs answers few
          some_answers word h.questions h.valid)

  some_question : 1 ≤ length qs
  some_question = asked qs answers h.one h.found
    where
      asked :
          (qs : List ParsedQuestion) (answers : List Answer)
          → 1 ≤ length answers
          → Gathered config qs answers
          → 1 ≤ length qs
      asked [] answers one e = absurd (omega (arith, ap length e))
      asked (q ∷ qs) answers one e = omega arith

fresh_answered :
    (now : ℕ) (key source : Text) (query : Bytes) (qs : List ParsedQuestion) (answers : List Answer)
    (s : DevDnsServer)
    → Hosted query s.config qs answers
    → IsValid s
    → cached_ttl s.dns_cache_ttl_ms < 4294967296
    → (s' : DevDnsServer) × (add_to_cache now key (answer_message query qs answers) s ≡ some s')
      × (resolve_fresh now key query source qs s
          ≡ some (record {
            reply = some (answer_message query qs answers);
            server = s';
            events = dns source qs rcode_noerror false ∷ [];
          }))
unfolding resolve_fresh
fresh_answered now key source query qs answers s h v word =
    let (s', e, v') =
      add_to_cache-IsValid now key s v _ _
        (rewritten query s.config qs answers h s.dns_cache_ttl_ms word) in
    let full : is_empty (map entry_bytes answers) ≡ false = some_entries answers h.one in
    let (f, looked, all_) = look_up-Gathered s.config qs no_answers answers h.found in
    (s', e, rw (looked, all_, full, built query s.config qs answers h, e) refl)
  where
    some_entries :
        (answers : List Answer) → 1 ≤ length answers → is_empty (map entry_bytes answers) ≡ false
    some_entries [] one = absurd (omega arith)
    some_entries (a ∷ rest) one = refl

get_from_cache-ttl :
    (now : ℕ) (key : Text) (s : DevDnsServer)
    → (get_from_cache now key s).1.dns_cache_ttl_ms ≡ s.dns_cache_ttl_ms
unfolding get_from_cache
get_from_cache-ttl now key s = ground arith

miss_answered :
    (now : ℕ) (key source : Text) (query : Bytes) (qs : List ParsedQuestion) (answers : List Answer)
    (cached : Option CacheEntry × DevDnsServer)
    → cached.0 ≡ none
    → Hosted query cached.1.config qs answers
    → IsValid cached.1
    → cached_ttl cached.1.dns_cache_ttl_ms < 4294967296
    → (s' : DevDnsServer) × (add_to_cache now key (answer_message query qs answers) cached.1
        ≡ some s')
      × (resolve_cached now key query source qs cached
          ≡ some (record {
            reply = some (answer_message query qs answers);
            server = s';
            events = dns source qs rcode_noerror false ∷ [];
          }))
unfolding resolve_cached
miss_answered now key source query qs answers (some entry, s) miss h v word =
    absurd (ground (arith, miss))
miss_answered now key source query qs answers (none, s) miss h v word =
    let asked : (length qs == 0) ≡ false =
      ground (arith, some_question query s.config qs answers h) in
    rw asked (fresh_answered now key source query qs answers s h v word)

hit_replies :
    (now : ℕ) (key source : Text) (query : Bytes) (qs : List ParsedQuestion)
    (cached : Option CacheEntry × DevDnsServer) (entry : CacheEntry)
    → cached.0 ≡ some entry
    → (r : Resolution) × (resolve_cached now key query source qs cached ≡ some r)
      × (r.reply ≡ some entry.response)
unfolding resolve_cached
hit_replies now key source query qs (none, s) entry e = absurd (ground (arith, e))
hit_replies now key source query qs (some other, s) entry e =
    (_, refl, ap (λ x. some x.response) (some-eq-some e))

module _ (digest : Text → Text) (now : ℕ) (query : Bytes) (source : Text) (s : DevDnsServer)
    (qs : List ParsedQuestion) (answers : List Answer) (h : Hosted query s.config qs answers)
    (v : IsValid s) (word : cached_ttl s.dns_cache_ttl_ms < 4294967296)
    (miss : (get_from_cache now (digest (raw_key qs)) s).0 ≡ none) where
  -- A query that is not ignored, not in the cache and for which the configuration has an answer is
  -- answered, behind its own id and questions, with the answers of all its questions in their order:
  -- for each question those of the records of its type in the entry that its name has, one for each
  -- record. The reply is put into the cache, and it is logged. The conditions: the questions and
  -- answers can be written and have room in 4096 bytes, the cache is valid, and its TTL in seconds
  -- is below 2 ^ 32.
  pub resolve_answers :
      (s' : DevDnsServer) × (add_to_cache now
          (digest (raw_key qs))
          (answer_message query qs answers)
          (get_from_cache now (digest (raw_key qs)) s).1
        ≡ some s')
      × (resolve digest now query source s
          ≡ some (record {
            reply = some (answer_message query qs answers);
            server = s';
            events = dns source qs rcode_noerror false ∷ [];
          }))
  unfolding resolve
  resolve_answers =
      let key = digest (raw_key qs) in
      let same = get_from_cache-config now key s in
      let ttl = get_from_cache-ttl now key s in
      rw (h.read, h.parsed)
        (miss_answered now key source query qs answers (get_from_cache now key s) miss (rw same h)
          (get_from_cache-IsValid now key s v) (rw ttl word))

  -- After such a query, let the next query that the server resolves, with no other in between, have
  -- the same questions and come before the entry's time is over. It gets the first query's reply,
  -- the id of the first query included, with the cache's TTL in the answers.
  pub resolve_repeats :
      (later : ℕ) (query' : Bytes) (source' : Text) (r : Resolution)
      → resolve digest now query source s ≡ some r
      → 0 < s.dns_cache_ttl_ms
      → later < now + s.dns_cache_ttl_ms
      → is_ignored query' ≡ false
      → extract_questions query' ≡ some qs
      → (r' : Resolution) × (resolve digest later query' source' r.server ≡ some r')
        × (r'.reply
            ≡ some
                (answer_message query qs (map (with_ttl (cached_ttl s.dns_cache_ttl_ms)) answers)))
  unfolding resolve
  resolve_repeats later query' source' r e on soon read parsed =
      let key = digest (raw_key qs) in
      let s1 = (get_from_cache now key s).1 in
      let ttl = get_from_cache-ttl now key s in
      let (s', added, answered) = resolve_answers in
      let same : r.server ≡ s' = ap (λ x. x.server) (some-eq-some (sym e ∙ answered)) in
      let stored = rewritten query s.config qs answers h s.dns_cache_ttl_ms word in
      let (entry, hit, kept_reply) =
        (get_from_cache-add_to_cache now later key (answer_message query qs answers) _ s1 s'
            (rw ttl on) (rw ttl stored) added).1
          (rw ttl soon) in
      let (r', e', f) =
        hit_replies later key source' query' qs (get_from_cache later key s') entry hit in
      rw (same, read, parsed) (r', e', f ∙ ap some kept_reply)
