-- ===== src/Dns/Server/Refusal.antt =====
-- The refusal of a denied name by `resolve`.
use zonzon.Base.{
  ◌++◌, ◌||◌, Bool, length-append, ℕ, ◌≤◌, ◌≡◌, refl, true, false, Option, none, some, List, [],
  ◌∷◌, arith, length, ◌==◌, All,
}
use zonzon.Base.Text.{Text}
use zonzon.Base.Bytes.{Bytes, u16_at}
use zonzon.Types.{FirewallConfig, ServerConfig, rcode_refused}
use zonzon.Dns.Question.{ParsedQuestion, extract_questions}
use zonzon.Firewall.{block, evaluate_domain}
use zonzon.Dns.Packet.{combined_flags, generate_error_response}
use zonzon.Dns.Packet.Errors.{message, Replies, generate_error_response-message}
use zonzon.Dns.Cache.{CacheEntry, DevDnsServer, get_from_cache}
use zonzon.Dns.Server.{
  resolve, resolve_cached, resolve_fresh, resolve_unknown, is_ignored, raw_key, look_up, no_answers,
  any_denied, is_block, Found, names, denied,
}
use zonzon.Dns.Server.Guards.{Unhosted, get_from_cache-config}

look_up-Unhosted :
    (config : ServerConfig) (qs : List ParsedQuestion) (found : Found)
    → All (Unhosted config) qs
    → look_up config qs found ≡ some found
unfolding look_up
look_up-Unhosted config [] found u = refl
look_up-Unhosted config (q ∷ qs) found (u, us) = rw u (look_up-Unhosted config qs found us)

miss_refused :
    (now : ℕ) (key source : Text) (query : Bytes) (qs : List ParsedQuestion) (reply : Bytes)
    (cached : Option CacheEntry × DevDnsServer)
    → 1 ≤ length qs
    → cached.0 ≡ none
    → All (Unhosted cached.1.config) qs
    → any_denied cached.1.config.firewall qs ≡ true
    → generate_error_response query rcode_refused ≡ some reply
    → resolve_cached now key query source qs cached
      ≡ some
          (record { reply = some reply; server = cached.1; events = denied source (names qs) ∷ [] })
unfolding resolve_cached resolve_fresh resolve_unknown
miss_refused now key source query qs reply (some entry, s) one miss u no_entry built =
    absurd (ground (arith, miss))
miss_refused now key source query qs reply (none, s) one miss u no_entry built =
    let asked : (length qs == 0) ≡ false = ground arith in
    rw (asked, look_up-Unhosted s.config qs no_answers u, no_entry, built) refl

long : (query : Bytes) → is_ignored query ≡ false → 12 ≤ length query
unfolding is_ignored
long query h = ground (arith, h)

or_true : (b : Bool) → (b || true) ≡ true
or_true true = refl
or_true false = refl

-- One denied question is enough, wherever it stands.
any_denied_at :
    (fw : Option FirewallConfig) (before after : List ParsedQuestion) (q : ParsedQuestion)
    → evaluate_domain q.name fw ≡ block
    → any_denied fw (before ++ (q ∷ after)) ≡ true
unfolding any_denied
any_denied_at fw [] after q e = rw e refl
any_denied_at fw (p ∷ before) after q e =
    rw (any_denied_at fw before after q e) (or_true (is_block (evaluate_domain p.name fw)))

-- A query that is not in the cache and whose names have no entry is refused if the firewall denies
-- any one of them, wherever it stands among the questions and whether or not there is a fallback:
-- the reply has the query's id and questions and the code REFUSED and no answers, the server is as
-- the look-up in the cache leaves it, so that the reply is not cached, and the denial is logged. The
-- questions fit into a reply.
pub resolve_refused :
    (digest : Text → Text) (now : ℕ) (query : Bytes) (source : Text) (s : DevDnsServer)
    (before after : List ParsedQuestion) (q : ParsedQuestion)
    → is_ignored query ≡ false
    → extract_questions query ≡ some (before ++ (q ∷ after))
    → Replies (u16_at query 0) (u16_at query 2) (before ++ (q ∷ after))
    → (get_from_cache now (digest (raw_key (before ++ (q ∷ after)))) s).0 ≡ none
    → All (Unhosted s.config) (before ++ (q ∷ after))
    → evaluate_domain q.name s.config.firewall ≡ block
    → resolve digest now query source s
      ≡ some (record {
        reply = some (
            message
              (u16_at query 0)
              (combined_flags (u16_at query 2) rcode_refused)
              0
              (before ++ (q ∷ after)));
        server = (get_from_cache now (digest (raw_key (before ++ (q ∷ after)))) s).1;
        events = denied source (names (before ++ (q ∷ after))) ∷ [];
      })
unfolding resolve
resolve_refused digest now query source s before after q read parsed fits miss u bad =
    let qs = before ++ (q ∷ after) in
    let key = digest (raw_key qs) in
    let same = get_from_cache-config now key s in
    let built =
      generate_error_response-message query rcode_refused qs (long query read) (omega arith) parsed
        fits in
    rw (read, parsed)
      (miss_refused now key source query qs _ (get_from_cache now key s)
        (omega (arith, length-append before (q ∷ after))) miss (rw same u)
        (rw same (any_denied_at s.config.firewall before after q bad)) built)
