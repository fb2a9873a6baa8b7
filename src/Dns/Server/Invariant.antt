-- ===== src/Dns/Server/Invariant.antt =====
-- The invariant of the server across `resolve`.
use zonzon.Base.{
  ℕ, ◌≡◌, refl, Option, none, some, List, Bool-cases, inl, inr, length, ◌==◌, >>=-eq-some,
  some-eq-some,
}
use zonzon.Base.Text.{Text}
use zonzon.Base.Bytes.{Bytes}
use zonzon.Types.{rcode_noerror, rcode_nxdomain, rcode_refused}
use zonzon.Dns.Question.{ParsedQuestion, extract_questions}
use zonzon.Dns.Packet.{generate_error_response}
use zonzon.Dns.Cache.{CacheEntry, DevDnsServer, add_to_cache}
use zonzon.Dns.Cache.Bounds.{IsValid, get_from_cache-IsValid, add_to_cache_kept}
use zonzon.Dns.Server.{
  Resolution, respond_cached, resolve, resolve_cached, resolve_fresh, resolve_unknown, is_ignored,
  raw_key, look_up, no_answers, any_denied, is_set, is_empty,
}

abbrev Kept : Option Resolution → Type 0
Kept o = (r : Resolution) → o ≡ some r → IsValid r.server

Kept-same :
    (s : DevDnsServer) (r t : Resolution)
    → IsValid s
    → r.server ≡ s
    → some r ≡ some t
    → IsValid t.server
Kept-same s r t v same e = rw (← some-eq-some e, same) v

module _ (now : ℕ) (key source : Text) (qs : List ParsedQuestion) (s : DevDnsServer)
    (v : IsValid s) where
  respond_cached-Kept :
      (rcode : ℕ) (response : Option Bytes)
      → Kept (respond_cached now key source qs rcode s response)
  respond_cached-Kept rcode response r e =
      let (reply, e1, e2) = >>=-eq-some response _ e in
      let (s1, e3, e4) = >>=-eq-some (add_to_cache now key reply s) _ e2 in
      Kept-same s1 _ r (add_to_cache_kept now key s v reply s1 e3) refl e4

  resolve_unknown-Kept : (query : Bytes) → Kept (resolve_unknown now key query source qs s)
  unfolding resolve_unknown
  resolve_unknown-Kept query r e = elim (Bool-cases (any_denied s.config.firewall qs)) [
    | inl denied ↦
        let (reply, e1, e2) =
          >>=-eq-some (generate_error_response query rcode_refused) _ (rw denied at e) in
        Kept-same s _ r v refl e2
    | inr clear ↦ elim (Bool-cases (is_set s.config.fallback_dns)) [
      | inl set ↦ Kept-same s _ r v refl (rw (clear, set) at e)
      | inr unset ↦
          respond_cached-Kept rcode_nxdomain (generate_error_response query rcode_nxdomain) r
            (rw (clear, unset) at e)
    ]
  ]

  resolve_fresh-Kept : (query : Bytes) → Kept (resolve_fresh now key query source qs s)
  unfolding resolve_fresh
  resolve_fresh-Kept query r e =
      let (found, e1, e2) = >>=-eq-some (look_up s.config qs no_answers) _ e in
      elim (Bool-cases (is_empty found.answers)) [
        | inr some_answers ↦ respond_cached-Kept rcode_noerror _ r (rw some_answers at e2)
        | inl empty ↦ elim (Bool-cases found.all_questions_unknown) [
          | inl unknown ↦ resolve_unknown-Kept query r (rw (empty, unknown) at e2)
          | inr known ↦ respond_cached-Kept rcode_noerror _ r (rw (empty, known) at e2)
        ]
      ]

resolve_cached-Kept :
    (now : ℕ) (key : Text) (query : Bytes) (source : Text) (qs : List ParsedQuestion)
    (cached : Option CacheEntry × DevDnsServer)
    → IsValid cached.1
    → Kept (resolve_cached now key query source qs cached)
unfolding resolve_cached
resolve_cached-Kept now key query source qs (some entry, s) v r e = Kept-same s _ r v refl e
resolve_cached-Kept now key query source qs (none, s) v r e = elim (Bool-cases (length qs == 0)) [
  | inl nothing ↦
      let (reply, e1, e2) =
        >>=-eq-some (generate_error_response query rcode_nxdomain) _ (rw nothing at e) in
      Kept-same s _ r v refl e2
  | inr asked ↦ resolve_fresh-Kept now key source qs s v query r (rw asked at e)
]

-- Whatever a query does, a resolution leaves a cache within its configured size, with each key
-- once.
pub resolve-IsValid :
    (digest : Text → Text) (now : ℕ) (query : Bytes) (source : Text) (s : DevDnsServer)
    (r : Resolution)
    → IsValid s
    → resolve digest now query source s ≡ some r
    → IsValid r.server
unfolding resolve
resolve-IsValid digest now query source s r v e = elim (Bool-cases (is_ignored query)) [
  | inl ignored ↦ Kept-same s _ r v refl (rw ignored at e)
  | inr read ↦
      let (qs, e1, e2) = >>=-eq-some (extract_questions query) _ (rw read at e) in
      resolve_cached-Kept now (digest (raw_key qs)) query source qs _
        (get_from_cache-IsValid now (digest (raw_key qs)) s v) r e2
]
