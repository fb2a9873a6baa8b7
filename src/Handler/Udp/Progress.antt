-- ===== src/Handler/Udp/Progress.antt =====
-- Every event keeps the table of pending queries valid, and the events of its sockets empty it.
use mathlib.Core.Path.{subst}
use zonzon.Base.{
  ℕ, ◌≡◌, refl, sym, ap, ◌⊎◌, inl, inr, Bool, false, Option, none, some, List, [], ◌∷◌, ◌==◌,
  Bool-cases, ◌>>=◌, >>=-eq-some, some-eq-some, find,
}
use zonzon.Base.Text.{Text}
use zonzon.Base.Bytes.{Bytes}
use zonzon.Types.{rcode_servfail, rcode_nxdomain}
use zonzon.RateLimiter.{RateLimiter}
use zonzon.Dns.Packet.{generate_error_response}
use zonzon.Dns.Server.{resolve, is_set, AuditEvent, Resolution}
use zonzon.Dnssec.{Crypto}
use zonzon.Handler.{RemoteInfo, Forward, DnsHandler, count_request, is_rate_limited}
use zonzon.Handler.Udp.{
  Outcome, silent, send, close_forward, on_udp_message, on_udp_timeout, on_udp_error, or_silent,
  after_resolve, resolved, or_unresolved, handle_udp_message, Event, datagram, message, timeout,
  failure, at_socket, call_back, step, run,
}
use zonzon.Handler.Udp.Relay.{on_udp_message_lem}
use zonzon.Handler.Udp.Timeouts.{IsValid, forward_udp_query-IsValid, close_forward-IsValid}

or_silent-IsValid :
    (h : DnsHandler) (r : Option Outcome)
    → IsValid h
    → ((o : Outcome) → r ≡ some o → IsValid o.handler)
    → IsValid (or_silent h r).handler
or_silent-IsValid h none v each = v
or_silent-IsValid h (some o) v each = each o refl

module _ (random : ℕ → ℕ) (ephemeral_id tracking_id : ℕ) (query : Bytes) (rinfo : RemoteInfo) where
  after_resolve-IsValid :
      (h : DnsHandler) (events : List AuditEvent) (reply : Option Bytes)
      → IsValid h
      → IsValid (after_resolve random ephemeral_id tracking_id query rinfo h events reply).handler
  unfolding after_resolve
  after_resolve-IsValid h events (some []) v = v
  after_resolve-IsValid h events (some (b ∷ response)) v = v
  after_resolve-IsValid h events none v = elim (Bool-cases (is_set h.fallback_dns)) [
    | inl set_ ↦ rw set_ (
        or_silent-IsValid h _ v
          (λ o. forward_udp_query-IsValid random ephemeral_id tracking_id query rinfo h o v))
    | inr none_ ↦ rw none_ (
        or_silent-IsValid h
          (generate_error_response query rcode_nxdomain >>= λ nx. some (send h rinfo nx)) v
          (λ o e.
            let (nx, _, made) =
              >>=-eq-some (generate_error_response query rcode_nxdomain)
                (λ nx. some (send h rinfo nx)) e in
            subst (λ (t : Outcome). IsValid t.handler) {x = send h rinfo nx} (some-eq-some made) v))
  ]

  or_unresolved-IsValid :
      (h : DnsHandler) (r : Option Resolution)
      → IsValid h
      → IsValid (or_unresolved h (resolved random ephemeral_id tracking_id query rinfo h) r).handler
  or_unresolved-IsValid h none v = v
  or_unresolved-IsValid h (some r) v =
      after_resolve-IsValid (record h { server = r.server }) r.events r.reply
        (record { bounded = v.bounded; watched = v.watched; numbered = v.numbered })

count_request-IsValid :
    (now : ℕ) (ip : Text) (h : DnsHandler) (limiter : Option RateLimiter)
    → IsValid h
    → IsValid (count_request now ip h limiter).0
unfolding count_request
count_request-IsValid now ip h none v = v
count_request-IsValid now ip h (some limiter) v = record {
  bounded = v.bounded;
  watched = v.watched;
  numbered = v.numbered;
}

handle_udp_message-IsValid :
    (digest : Text → Text) (now : ℕ) (random : ℕ → ℕ) (ephemeral_id tracking_id : ℕ) (query : Bytes)
    (rinfo : RemoteInfo) (h : DnsHandler)
    → IsValid h
    → IsValid (handle_udp_message digest now random ephemeral_id tracking_id query rinfo h).handler
unfolding handle_udp_message is_rate_limited
handle_udp_message-IsValid digest now random ephemeral_id tracking_id query rinfo h v =
    let (h1, limited) = count_request now rinfo.address h h.rate_limiter in
    let v1 : IsValid h1 = count_request-IsValid now rinfo.address h h.rate_limiter v in
    elim (Bool-cases limited) [
      | inl over ↦ rw over v1
      | inr under ↦ rw under (
          or_unresolved-IsValid random ephemeral_id tracking_id query rinfo h1
            (resolve digest now query rinfo.address h1.server) v1)
    ]

-- What a socket's event does to the handler: nothing, if it is closed, and else it closes it.
abbrev pub AfterSocket : ℕ → DnsHandler → DnsHandler → Type 0
AfterSocket socket h h' =
    ((find (λ f. f.socket == socket) h.forwards ≡ none) × (h' ≡ h))
    ⊎ ((f : Forward) × (find (λ f. f.socket == socket) h.forwards ≡ some f)
        × (h' ≡ close_forward f h))

handler_eq : (o p : Outcome) → some o ≡ some p → p.handler ≡ o.handler
handler_eq o p e = sym (ap (λ (t : Outcome). t.handler) (some-eq-some e))

at_socket-AfterSocket :
    (socket : ℕ) (h : DnsHandler) (callback : Forward → Option Outcome) (o : Outcome)
    → ((f : Forward) → callback f ≡ some o → o.handler ≡ close_forward f h)
    → at_socket socket h callback ≡ some o
    → AfterSocket socket h o.handler
unfolding at_socket
at_socket-AfterSocket socket h callback o closes e =
    called (find (λ f. f.socket == socket) h.forwards) refl e
  where
    called :
        (found : Option Forward)
        → find (λ f. f.socket == socket) h.forwards ≡ found
        → call_back h callback found ≡ some o
        → AfterSocket socket h o.handler
    called none closed e = inl (closed, handler_eq (silent h) o e)
    called (some f) found e = inr (f, found, closes f e)

-- the socket whose event it is
abbrev pub socket_of : Event → Option ℕ
socket_of (datagram now random ephemeral_id tracking_id query rinfo) = none
socket_of (message now socket msg) = some socket
socket_of (timeout socket) = some socket
socket_of (failure socket) = some socket

abbrev pub fires : ℕ → Option ℕ → Bool
fires socket none = false
fires socket (some n) = n == socket

on_udp_timeout_closes :
    (f : Forward) (h : DnsHandler) (o : Outcome)
    → on_udp_timeout f h ≡ some o
    → o.handler ≡ close_forward f h
unfolding on_udp_timeout
on_udp_timeout_closes f h o e =
    let (reply, _, made) = >>=-eq-some (generate_error_response f.query rcode_servfail) _ e in
    handler_eq (send (close_forward f h) f.client_info reply) o made

module _ (digest : Text → Text) (crypto : Crypto) where
  pub step-AfterSocket :
      (e : Event) (socket : ℕ) (h : DnsHandler) (o : Outcome)
      → socket_of e ≡ some socket
      → step digest crypto e h ≡ some o
      → AfterSocket socket h o.handler
  unfolding step on_udp_error
  step-AfterSocket (datagram now random ephemeral_id tracking_id query rinfo) socket h o at s = cc
  step-AfterSocket (message now n msg) socket h o at s =
      subst (λ k. AfterSocket k h o.handler) (some-eq-some at)
        (at_socket-AfterSocket n h (λ f. on_udp_message crypto now f msg h) o
          (λ f e. (on_udp_message_lem crypto now f msg h o e).0) s)
  step-AfterSocket (timeout n) socket h o at s =
      subst (λ k. AfterSocket k h o.handler) (some-eq-some at)
        (at_socket-AfterSocket n h (λ f. on_udp_timeout f h) o
          (λ f e. on_udp_timeout_closes f h o e) s)
  step-AfterSocket (failure n) socket h o at s =
      subst (λ k. AfterSocket k h o.handler) (some-eq-some at)
        (at_socket-AfterSocket n h (λ f. on_udp_error f h) o
          (λ f e. handler_eq (silent (close_forward f h)) o e) s)

  AfterSocket-IsValid :
      (socket : ℕ) (h h' : DnsHandler) → IsValid h → AfterSocket socket h h' → IsValid h'
  AfterSocket-IsValid socket h h' v (inl (_, e)) = subst IsValid (sym e) v
  AfterSocket-IsValid socket h h' v (inr (f, found, e)) =
      subst IsValid (sym e) (close_forward-IsValid socket f h v found)

  -- Every event keeps the number of pending queries within the limit, an open socket for each of
  -- them, and the sockets apart.
  pub step-IsValid :
      (e : Event) (h : DnsHandler) (o : Outcome)
      → IsValid h
      → step digest crypto e h ≡ some o
      → IsValid o.handler
  unfolding step
  step-IsValid (datagram now random ephemeral_id tracking_id query rinfo) h o v s =
      subst (λ (t : Outcome). IsValid t.handler) (some-eq-some s)
        (handle_udp_message-IsValid digest now random ephemeral_id tracking_id query rinfo h v)
  step-IsValid (message now n msg) h o v s =
      AfterSocket-IsValid n h o.handler v (step-AfterSocket (message now n msg) n h o refl s)
  step-IsValid (timeout n) h o v s =
      AfterSocket-IsValid n h o.handler v (step-AfterSocket (timeout n) n h o refl s)
  step-IsValid (failure n) h o v s =
      AfterSocket-IsValid n h o.handler v (step-AfterSocket (failure n) n h o refl s)

  -- A handler is valid if at most 2000 queries are pending, each of them has
  -- an open socket, and the open sockets have different numbers, below the next one. From a valid
  -- handler, every sequence of datagrams, replies, timeouts and socket errors that does not throw
  -- leaves a valid one.
  pub run-IsValid :
      (es : List Event) (h h' : DnsHandler)
      → IsValid h
      → run digest crypto es h ≡ some h'
      → IsValid h'
  unfolding run
  run-IsValid [] h h' v r = subst IsValid (some-eq-some r) v
  run-IsValid (e ∷ es) h h' v r =
      let (o, s, rest) = >>=-eq-some (step digest crypto e h) _ r in
      run-IsValid es o.handler h' (step-IsValid e h o v s) rest
