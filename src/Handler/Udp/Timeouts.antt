-- ===== src/Handler/Udp/Timeouts.antt =====
-- Which queries are pending: at most the limit, each with an open socket whose timer will close it.
use zonzon.Base.{
  ℕ, ◌+◌, ◌<◌, ◌≤◌, ◌≡◌, refl, sym, ap, ◌∙◌, ◌≢◌, ◌⊎◌, inl, inr, not, some, List, [], ◌∷◌, arith,
  ltb, leb, ◌==◌, ==_iff, Bool-cases, >>=-eq-some, some-eq-some, length, filter, find,
}
use mathlib.Core.Path.{subst}
use zonzon.Base.Bytes.{Bytes, be16, blit}
use zonzon.Dns.Packet.{append_edns0_do_bit}
use zonzon.Dns.Mixing.{apply_0x20_encoding}
use zonzon.Dns.Server.{is_set}
use zonzon.Handler.{
  RemoteInfo, PendingUdpQuery, Forward, Pending, DnsHandler, max_concurrent_udp_forwards,
  may_forward,
}
use zonzon.Handler.Udp.{
  Outcome, silent, delete_pending, set_pending, new_forward, open_forward, forward_udp_query,
  close_forward,
}

-- Some open socket holds the tracking id.
abbrev pub HasSocket : ℕ → List Forward → Type 0
HasSocket id [] = ⊥
HasSocket id (f ∷ fs) = (f.tracking_id ≡ id) ⊎ HasSocket id fs

-- Sockets have falling numbers under the bound, so no two have the same.
abbrev pub Below : ℕ → List Forward → Type 0
Below n [] = Unit
Below n (f ∷ fs) = (f.socket < n) × Below f.socket fs

abbrev pub Watched : List Forward → Pending → Type 0
Watched fs [] = Unit
Watched fs ((id, entry) ∷ m) = HasSocket id fs × Watched fs m

pub record IsValid (h : DnsHandler) : Type 0 where
  pub bounded : length h.pending_upstream_queries ≤ max_concurrent_udp_forwards
  pub watched : Watched h.forwards h.pending_upstream_queries
  pub numbered : Below h.next_socket h.forwards

length-delete_pending-le : (id : ℕ) (m : Pending) → length (delete_pending id m) ≤ length m
unfolding delete_pending
length-delete_pending-le id [] = omega arith
length-delete_pending-le id ((other, entry) ∷ m) = ground (arith, length-delete_pending-le id m)

length-set_pending-le :
    (id : ℕ) (entry : PendingUdpQuery) (m : Pending)
    → length (set_pending id entry m) ≤ length m + 1
unfolding set_pending
length-set_pending-le id entry [] = omega arith
length-set_pending-le id entry ((other, old) ∷ m) = ground (arith, length-set_pending-le id entry m)

Watched-cons : (f : Forward) (fs : List Forward) (m : Pending) → Watched fs m → Watched (f ∷ fs) m
Watched-cons f fs [] w = tt
Watched-cons f fs ((id, entry) ∷ m) w = (inr w.0, Watched-cons f fs m w.1)

set_pending-Watched :
    (id : ℕ) (entry : PendingUdpQuery) (fs : List Forward) (m : Pending)
    → HasSocket id fs
    → Watched fs m
    → Watched fs (set_pending id entry m)
unfolding set_pending
set_pending-Watched id entry fs [] s w = (s, tt)
set_pending-Watched id entry fs ((other, old) ∷ m) s w =
    ground (arith, set_pending-Watched id entry fs m s w.1)

-- the sockets but one
abbrev pub others : ℕ → List Forward → List Forward
others socket = filter (λ g. not (g.socket == socket))

Below-mono : (m n : ℕ) (fs : List Forward) → m ≤ n → Below m fs → Below n fs
Below-mono m n [] h b = tt
Below-mono m n (f ∷ fs) h b = (omega arith, b.1)

others-Below : (socket n : ℕ) (fs : List Forward) → Below n fs → Below n (others socket fs)
others-Below socket n [] b = tt
others-Below socket n (f ∷ fs) b =
    ground (arith, others-Below socket f.socket fs b.1, Below-mono f.socket n (others socket fs))

-- the only socket with a number holds the only id that loses its socket
find-Below :
    (socket n : ℕ) (fs : List Forward) (f : Forward)
    → Below n fs
    → n ≤ socket
    → find (λ g. g.socket == socket) fs ≡ some f
    → ⊥
find-Below socket n [] f b h e = cc
find-Below socket n (g ∷ fs) f b h e = ground (arith, find-Below socket g.socket fs f b.1)

others_all : (socket n : ℕ) (fs : List Forward) → Below n fs → n ≤ socket → others socket fs ≡ fs
others_all socket n [] b h = refl
others_all socket n (g ∷ fs) b h = ground (arith, others_all socket g.socket fs b.1)

others-HasSocket :
    (socket n id : ℕ) (fs : List Forward) (f : Forward)
    → Below n fs
    → find (λ g. g.socket == socket) fs ≡ some f
    → id ≢ f.tracking_id
    → HasSocket id fs
    → HasSocket id (others socket fs)
others-HasSocket socket n id [] f b e d s = s
others-HasSocket socket n id (g ∷ fs) f b e d (inl t) = elim (Bool-cases (g.socket == socket)) [
  | inl here ↦
      absurd (d (sym t ∙ ap (λ (q : Forward). q.tracking_id) (some-eq-some (rw here at e))))
  | inr there ↦ rw there (inl t)
]
others-HasSocket socket n id (g ∷ fs) f b e d (inr s) = elim (Bool-cases (g.socket == socket)) [
  | inl here ↦ rw here (
      subst (HasSocket id)
        (sym (others_all socket g.socket fs b.1 (omega (arith, (==_iff g.socket socket).0 here))))
        s)
  | inr there ↦ rw there (inr (others-HasSocket socket g.socket id fs f b.1 (rw there at e) d s))
]

delete_pending-Watched :
    (socket n : ℕ) (fs : List Forward) (f : Forward) (m : Pending)
    → Below n fs
    → find (λ g. g.socket == socket) fs ≡ some f
    → Watched fs m
    → Watched (others socket fs) (delete_pending f.tracking_id m)
unfolding delete_pending
delete_pending-Watched socket n fs f [] b e w = tt
delete_pending-Watched socket n fs f ((id, entry) ∷ m) b e w =
    elim (Bool-cases (id == f.tracking_id)) [
      | inl gone ↦ rw gone (delete_pending-Watched socket n fs f m b e w.1)
      | inr kept ↦ rw kept (
        others-HasSocket socket n id fs f b e (λ q. cc ((==_iff id f.tracking_id).1 q, kept)) w.0,
        delete_pending-Watched socket n fs f m b e w.1,
      )
    ]

-- the socket that `find` gives has the number
pub found_socket :
    (socket : ℕ) (fs : List Forward) (f : Forward)
    → find (λ g. g.socket == socket) fs ≡ some f
    → f.socket ≡ socket
found_socket socket [] f e = cc
found_socket socket (g ∷ fs) f e = elim (Bool-cases (g.socket == socket)) [
  | inl here ↦
      ap (λ (q : Forward). q.socket) (sym (some-eq-some (rw here at e)))
      ∙ (==_iff g.socket socket).0 here
  | inr there ↦ found_socket socket fs f (rw there at e)
]

pub close_forward-IsValid :
    (socket : ℕ) (f : Forward) (h : DnsHandler)
    → IsValid h
    → find (λ g. g.socket == socket) h.forwards ≡ some f
    → IsValid (close_forward f h)
unfolding close_forward
close_forward-IsValid socket f h v e =
    let same = found_socket socket h.forwards f e in
    record {
      bounded =
          omega
            (arith, v.bounded, length-delete_pending-le f.tracking_id h.pending_upstream_queries);
      watched = rw same (
          delete_pending-Watched socket h.next_socket h.forwards f h.pending_upstream_queries
            v.numbered e v.watched);
      numbered = others-Below f.socket h.next_socket h.forwards v.numbered;
    }

open_forward-IsValid :
    (f : Forward) (h : DnsHandler) (dnssec_query : Bytes)
    → IsValid h
    → length h.pending_upstream_queries < max_concurrent_udp_forwards
    → f.socket ≡ h.next_socket
    → IsValid (open_forward f h dnssec_query).handler
unfolding open_forward
open_forward-IsValid f h dnssec_query v room e =
    let entry : PendingUdpQuery = record { rinfo = f.client_info; original_id = f.original_id } in
    record {
      bounded = omega (arith, length-set_pending-le f.tracking_id entry h.pending_upstream_queries);
      watched =
          set_pending-Watched f.tracking_id entry (f ∷ h.forwards) h.pending_upstream_queries
            (inl refl) (Watched-cons f h.forwards h.pending_upstream_queries v.watched);
      numbered = (omega arith, rw e v.numbered);
    }

pub unchanged :
    (h : DnsHandler) (o : Outcome) → IsValid h → some (silent h) ≡ some o → IsValid o.handler
unchanged h o v e = subst (λ (t : Outcome). IsValid t.handler) (some-eq-some e) v

pub forward_udp_query-IsValid :
    (random : ℕ → ℕ) (ephemeral_id tracking_id : ℕ) (query : Bytes) (client_info : RemoteInfo)
    (h : DnsHandler) (o : Outcome)
    → IsValid h
    → forward_udp_query random ephemeral_id tracking_id query client_info h ≡ some o
    → IsValid o.handler
unfolding forward_udp_query
forward_udp_query-IsValid random ephemeral_id tracking_id query client_info h o v e =
    elim (Bool-cases (is_set h.fallback_dns)) [
      | inr none_ ↦ unchanged h o v (rw none_ at e)
      | inl set_ ↦ elim (Bool-cases (may_forward h.config.firewall client_info.address)) [
        | inr denied_ ↦ unchanged h o v (rw (set_, denied_) at e)
        | inl trusted ↦
            elim (Bool-cases
              (leb max_concurrent_udp_forwards (length h.pending_upstream_queries))) [
                | inl full ↦ unchanged h o v (rw (set_, trusted, full) at e)
                | inr room ↦ elim (Bool-cases (ltb (length query) 2)) [
                  | inl short ↦ unchanged h o v (rw (set_, trusted, room, short) at e)
                  | inr long ↦
                      let ((encoded, names), _, e1) =
                        >>=-eq-some (apply_0x20_encoding random query) _
                          (rw (set_, trusted, room, long) at e) in
                      let (dnssec_query, _, e2) =
                        >>=-eq-some (append_edns0_do_bit (blit encoded 0 (be16 ephemeral_id))) _
                          e1 in
                      subst (λ (t : Outcome). IsValid t.handler) (some-eq-some e2)
                        (open_forward-IsValid
                          (new_forward ephemeral_id tracking_id query client_info h names) h
                          dnssec_query v (ground arith) refl)
                ]
              ]
      ]
    ]
