-- ===== src/Dns/Server/Guards.antt =====
-- When `resolve` refuses a query, and when it leaves it to the fallback resolver.
use zonzon.Base.{
  ℕ, ◌≡◌, ◌≢◌, ◌∙◌, refl, sym, true, false, Option, none, some, List, [], ◌∷◌, arith, Option-cases,
  Bool-cases, inl, inr, length, ◌==◌, >>=-eq-some, some-eq-some, ap, All,
}
use zonzon.Base.Text.{Text, normalize_host}
use zonzon.Base.Bytes.{Bytes}
use zonzon.Types.{ServerConfig, FirewallConfig, rcode_noerror, rcode_nxdomain, rcode_refused}
use zonzon.Firewall.{Verdict, permit, block, evaluate_domain}
use zonzon.Dns.Question.{ParsedQuestion, extract_questions}
use zonzon.Dns.Packet.{generate_error_response}
use zonzon.Dns.Cache.{CacheEntry, DevDnsServer, get_from_cache, add_to_cache}
use zonzon.Dns.Hosts.{find_host_config}
use zonzon.Dns.Records.{build_answers}
use zonzon.Dns.Server.{
  Resolution, respond_cached, resolve, resolve_cached, resolve_fresh, resolve_unknown, is_ignored,
  raw_key, look_up, host_answers, no_answers, any_denied, is_block, is_set, is_empty, Found,
}

abbrev pub Unhosted : ServerConfig → ParsedQuestion → Type 0
Unhosted config q = find_host_config (normalize_host q.name) config.hosts ≡ none

abbrev pub Permitted : Option FirewallConfig → ParsedQuestion → Type 0
Permitted fw q = evaluate_domain q.name fw ≡ permit

look_up_unknown :
    (config : ServerConfig) (qs : List ParsedQuestion) (found f : Found)
    → look_up config qs found ≡ some f
    → f.all_questions_unknown ≡ true
    → (found.all_questions_unknown ≡ true) × All (Unhosted config) qs
unfolding look_up
look_up_unknown config [] found f e u = (rw (some-eq-some e) u, tt)
look_up_unknown config (q ∷ qs) found f e u =
    let (found1, e1, e2) =
      >>=-eq-some (host_answers q (find_host_config (normalize_host q.name) config.hosts) found) _
        e in
    let (u1, rest) = look_up_unknown config qs found1 f e2 u in
    elim (Option-cases (find_host_config (normalize_host q.name) config.hosts)) [
      | inl missing ↦ (rw (some-eq-some (rw missing at e1)) u1, (missing, rest))
      | inr (host, hit) ↦
          let (more, e3, e4) = >>=-eq-some (build_answers host.records q.type) _ (rw hit at e1) in
          absurd (ground (arith, ap (λ x. x.all_questions_unknown) (some-eq-some e4), u1))
    ]

permit_of : (v : Verdict) → is_block v ≡ false → v ≡ permit
permit_of permit e = refl
permit_of block e = cc

any_denied_none :
    (fw : Option FirewallConfig) (qs : List ParsedQuestion)
    → any_denied fw qs ≡ false
    → All (Permitted fw) qs
unfolding any_denied
any_denied_none fw [] e = tt
any_denied_none fw (q ∷ qs) e = (
  permit_of (evaluate_domain q.name fw) (ground (arith, e)),
  any_denied_none fw qs (ground (arith, e)),
)

pub get_from_cache-config :
    (now : ℕ) (key : Text) (s : DevDnsServer) → (get_from_cache now key s).1.config ≡ s.config
unfolding get_from_cache
get_from_cache-config now key s = ground arith

-- A reply was made.
abbrev Speaks : Option Resolution → Type 0
Speaks o = (r : Resolution) → o ≡ some r → r.reply ≢ none

said : (reply : Bytes) (r t : Resolution) → r.reply ≡ some reply → some r ≡ some t → t.reply ≢ none
said reply r t e f h =
    let g : some reply ≡ none = sym e ∙ (ap (λ x. x.reply) (some-eq-some f) ∙ h) in
    absurd (ground (arith, g))

respond_cached-Speaks :
    (now : ℕ) (key source : Text) (qs : List ParsedQuestion) (rcode : ℕ) (s : DevDnsServer)
    (response : Option Bytes)
    → Speaks (respond_cached now key source qs rcode s response)
respond_cached-Speaks now key source qs rcode s response r e h =
    let (reply, e1, e2) = >>=-eq-some response _ e in
    let (s1, e3, e4) = >>=-eq-some (add_to_cache now key reply s) _ e2 in said reply _ r refl e4 h

-- What is known where a query with these questions is left to the fallback resolver.
pub record FallsBack (config : ServerConfig) (asked : List ParsedQuestion) : Type 0 where
  pub unhosted : All (Unhosted config) asked
  pub permitted : All (Permitted config.firewall) asked
  pub configured : is_set config.fallback_dns ≡ true

module _ (now : ℕ) (key source : Text) (query : Bytes) (qs : List ParsedQuestion) where
  unknown_falls_back :
      (s : DevDnsServer) (r : Resolution)
      → resolve_unknown now key query source qs s ≡ some r
      → r.reply ≡ none
      → All (Permitted s.config.firewall) qs × (is_set s.config.fallback_dns ≡ true)
  unfolding resolve_unknown
  unknown_falls_back s r e h = elim (Bool-cases (any_denied s.config.firewall qs)) [
    | inl refused ↦
        let (reply, e1, e2) =
          >>=-eq-some (generate_error_response query rcode_refused) _ (rw refused at e) in
        absurd (said reply _ r refl e2 h)
    | inr clear ↦ elim (Bool-cases (is_set s.config.fallback_dns)) [
      | inl set ↦ (any_denied_none s.config.firewall qs clear, set)
      | inr unset ↦
          absurd (
            respond_cached-Speaks now key source qs rcode_nxdomain s _ r (rw (clear, unset) at e) h)
    ]
  ]

  fresh-FallsBack :
      (s : DevDnsServer) (r : Resolution)
      → resolve_fresh now key query source qs s ≡ some r
      → r.reply ≡ none
      → FallsBack s.config qs
  unfolding resolve_fresh
  fresh-FallsBack s r e h =
      let (found, e1, e2) = >>=-eq-some (look_up s.config qs no_answers) _ e in
      elim (Bool-cases (is_empty found.answers)) [
        | inr full ↦
            absurd (respond_cached-Speaks now key source qs rcode_noerror s _ r (rw full at e2) h)
        | inl empty ↦ elim (Bool-cases found.all_questions_unknown) [
          | inr known ↦ absurd (
              respond_cached-Speaks now key source qs rcode_noerror s _ r (rw (empty, known) at e2)
                h)
          | inl unknown ↦
              let (permitted, configured) = unknown_falls_back s r (rw (empty, unknown) at e2) h in
              record {
                unhosted = (look_up_unknown s.config qs no_answers found e1 unknown).1;
                permitted = permitted;
                configured = configured;
              }
        ]
      ]

  cached-FallsBack :
      (cached : Option CacheEntry × DevDnsServer) (r : Resolution)
      → resolve_cached now key query source qs cached ≡ some r
      → r.reply ≡ none
      → FallsBack cached.1.config qs
  unfolding resolve_cached
  cached-FallsBack (some entry, s) r e h = absurd (said entry.response _ r refl e h)
  cached-FallsBack (none, s) r e h = elim (Bool-cases (length qs == 0)) [
    | inl nothing ↦
        let (reply, e1, e2) =
          >>=-eq-some (generate_error_response query rcode_nxdomain) _ (rw nothing at e) in
        absurd (said reply _ r refl e2 h)
    | inr asked ↦ fresh-FallsBack s r (rw asked at e) h
  ]

-- A query is left to the fallback resolver only if no entry of the configuration hosts any of its
-- names, the firewall denies none of them, and a fallback is configured.
pub resolve-FallsBack :
    (digest : Text → Text) (now : ℕ) (query : Bytes) (source : Text) (s : DevDnsServer)
    (r : Resolution)
    → resolve digest now query source s ≡ some r
    → r.reply ≡ none
    → (qs : List ParsedQuestion) × (extract_questions query ≡ some qs) × FallsBack s.config qs
unfolding resolve
resolve-FallsBack digest now query source s r e h = elim (Bool-cases (is_ignored query)) [
  | inl ignored ↦ absurd (said [] _ r refl (rw ignored at e) h)
  | inr read ↦
      let (qs, e1, e2) = >>=-eq-some (extract_questions query) _ (rw read at e) in
      let key = digest (raw_key qs) in
      let back = cached-FallsBack now key source query qs (get_from_cache now key s) r e2 h in
      (qs, e1, rw (get_from_cache-config now key s) at back)
]
