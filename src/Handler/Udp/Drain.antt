-- ===== src/Handler/Udp/Drain.antt =====
-- The events of its sockets empty the table of pending queries.
use mathlib.Core.Path.{subst}
use zonzon.Base.{
  ℕ, ◌≡◌, refl, sym, ap, ◌∙◌, ◌≢◌, inl, inr, true, false, none, some, List, [], ◌∷◌, arith, ltb,
  ◌==◌, ==_iff, Bool-cases, >>=-eq-some, some-eq-some, Option-cases, length, All, any, find,
}
use zonzon.Base.Text.{Text}
use zonzon.Base.Bytes.{Bytes, u16_at}
use zonzon.Dnssec.{Crypto}
use zonzon.Handler.{Forward, Pending, DnsHandler}
use zonzon.Handler.Udp.{
  silent, close_forward, on_udp_message, Event, message, timeout, at_socket, step, run,
}
use zonzon.Handler.Udp.Timeouts.{IsValid, found_socket, others, Watched}
use zonzon.Handler.Udp.Progress.{socket_of, fires, AfterSocket, step-AfterSocket, step-IsValid}

-- Each of the events is one of a socket, and each open socket has one among them.
abbrev pub Cover : List Event → List Forward → Type 0
Cover es [] = Unit
Cover es (f ∷ fs) = (any (λ e. fires f.socket (socket_of e)) es ≡ true) × Cover es fs

abbrev pub OfSockets : List Event → Type 0
OfSockets = All (λ e. socket_of e ≢ none)

others_none :
    (socket : ℕ) (fs : List Forward)
    → find (λ f. f.socket == socket) fs ≡ none
    → others socket fs ≡ fs
others_none socket [] e = refl
others_none socket (f ∷ fs) e = elim (Bool-cases (f.socket == socket)) [
  | inl here ↦ cc (rw here at e)
  | inr there ↦ rw there (ap (◌∷◌ f) (others_none socket fs (rw there at e)))
]

AfterSocket-forwards :
    (socket : ℕ) (h h' : DnsHandler)
    → AfterSocket socket h h'
    → h'.forwards ≡ others socket h.forwards
unfolding close_forward
AfterSocket-forwards socket h h' (inl (closed, e)) =
    ap (λ (t : DnsHandler). t.forwards) e ∙ sym (others_none socket h.forwards closed)
AfterSocket-forwards socket h h' (inr (f, found, e)) =
    ap (λ (t : DnsHandler). t.forwards) e
    ∙ ap (λ n. others n h.forwards) (found_socket socket h.forwards f found)

Cover-others :
    (e : Event) (es : List Event) (socket : ℕ) (fs : List Forward)
    → socket_of e ≡ some socket
    → Cover (e ∷ es) fs
    → Cover es (others socket fs)
Cover-others e es socket [] at c = tt
Cover-others e es socket (f ∷ fs) at c = elim (Bool-cases (f.socket == socket)) [
  | inl here ↦ rw here (Cover-others e es socket fs at c.1)
  | inr there ↦
      let first : fires f.socket (socket_of e) ≡ false = rw at (ground arith) in
      rw there (rw first at c.0, Cover-others e es socket fs at c.1)
]

Cover-nil : (fs : List Forward) → Cover [] fs → fs ≡ []
Cover-nil [] c = refl
Cover-nil (f ∷ fs) c = cc c.0

Watched-nil : (m : Pending) → Watched [] m → m ≡ []
Watched-nil [] w = refl
Watched-nil ((id, entry) ∷ m) w = absurd w.0

-- From a valid handler, let only sockets have events, replies, errors and the ends of their three
-- seconds, while no new datagram of a client comes. Once each open socket has had one, and none of
-- them has thrown, no query is pending and no socket is open.
pub run_drains :
    (digest : Text → Text) (crypto : Crypto) (es : List Event) (h h' : DnsHandler)
    → IsValid h
    → OfSockets es
    → Cover es h.forwards
    → run digest crypto es h ≡ some h'
    → (h'.pending_upstream_queries ≡ []) × (h'.forwards ≡ [])
unfolding run
run_drains digest crypto [] h h' v k c r =
    let same = some-eq-some r in
    let empty = Cover-nil h.forwards c in
    (
      ap (λ (t : DnsHandler). t.pending_upstream_queries) (sym same)
          ∙ Watched-nil h.pending_upstream_queries
              (subst (λ fs. Watched fs h.pending_upstream_queries) empty v.watched),
      ap (λ (t : DnsHandler). t.forwards) (sym same) ∙ empty,
    )
run_drains digest crypto (e ∷ es) h h' v k c r =
    let (o, s, rest) = >>=-eq-some (step digest crypto e h) _ r in
    elim (Option-cases (socket_of e)) [
      | inl none_ ↦ absurd (k.0 none_)
      | inr (socket, at) ↦
          run_drains digest crypto es o.handler h' (step-IsValid digest crypto e h o v s) k.1
            (subst (Cover es)
              (sym (
                AfterSocket-forwards socket h o.handler
                  (step-AfterSocket digest crypto e socket h o at s)))
              (Cover-others e es socket h.forwards at c))
            rest
    ]

forged_closes :
    (crypto : Crypto) (now : ℕ) (f : Forward) (msg : Bytes) (h : DnsHandler)
    → u16_at msg 0 ≢ f.ephemeral_id
    → on_udp_message crypto now f msg h ≡ some (silent (close_forward f h))
unfolding on_udp_message
forged_closes crypto now f msg h other = elim (Bool-cases (ltb (length msg) 2)) [
  | inl short ↦ rw short refl
  | inr long ↦ elim (Bool-cases (u16_at msg 0 == f.ephemeral_id)) [
    | inl same ↦ absurd (other ((==_iff _ _).0 same))
    | inr differs ↦ rw (long, differs) refl
  ]
]

find_others :
    (socket : ℕ) (fs : List Forward) → find (λ f. f.socket == socket) (others socket fs) ≡ none
find_others socket [] = refl
find_others socket (f ∷ fs) = elim (Bool-cases (f.socket == socket)) [
  | inl here ↦ rw here (find_others socket fs)
  | inr there ↦ rw (there, there) (find_others socket fs)
]

-- The bug: a datagram with another id, from whomever it comes, closes a forwarded query, and its
-- client gets neither a reply nor, when the time is up, an error.
pub step_forged :
    (digest : Text → Text) (crypto : Crypto) (now socket : ℕ) (msg : Bytes) (f : Forward)
    (h : DnsHandler)
    → IsValid h
    → find (λ g. g.socket == socket) h.forwards ≡ some f
    → u16_at msg 0 ≢ f.ephemeral_id
    → (step digest crypto (message now socket msg) h ≡ some (silent (close_forward f h)))
      × (step digest crypto (timeout socket) (close_forward f h)
          ≡ some (silent (close_forward f h)))
unfolding step at_socket close_forward
step_forged digest crypto now socket msg f h v found other = (
  rw (found, at_socket) (forged_closes crypto now f msg h other),
  rw
      (
        ap (λ n. others n h.forwards) (found_socket socket h.forwards f found),
        find_others socket h.forwards,
        at_socket,
      )
      refl,
)
