-- ===== src/Handler/Doh/Replies.antt =====
-- What the promise of a query over HTTPS is resolved with.
use zonzon.Base.{ℕ, ◌≡◌, ◌⊎◌, true, some, List, All}
use zonzon.Base.Text.{Text}
use zonzon.Base.Bytes.{Bytes}
use zonzon.Types.{rcode_servfail, rcode_refused}
use zonzon.Firewall.{permit, evaluate_ip}
use zonzon.Dns.Question.{ParsedQuestion, extract_questions}
use zonzon.Dns.Packet.{generate_error_response}
use zonzon.Dnssec.{Crypto}
use zonzon.Dnssec.Validation.{verify_response}
use zonzon.Handler.{DnsHandler, parse_resolved_ipv4s}
use zonzon.Handler.Replies.{names_of}
use zonzon.Handler.Doh.{DohForward, DohAnswer}

module _ (crypto : Crypto) (now : ℕ) (h : DnsHandler) (f : DohForward) where
  -- No signature in the reply is bad, its questions have the names of the query in the spelling
  -- that was drawn, and the firewall permits each IPv4 address in its answers. Its id is not asked.
  abbrev pub IsVetted : Bytes → Type 0
  IsVetted msg =
      (verify_response crypto now msg ≡ some true)
      × ((qs : List ParsedQuestion) × (extract_questions msg ≡ some qs)
          × (names_of qs ≡ f.expected_names))
      × All (λ ip. evaluate_ip ip h.config.firewall ≡ permit) (parse_resolved_ipv4s msg)

  -- an error reply to the query, with SERVFAIL or REFUSED
  abbrev pub IsFault : DohAnswer → Type 0
  IsFault a =
      (generate_error_response f.query rcode_servfail ≡ some a.reply)
      ⊎ (generate_error_response f.query rcode_refused ≡ some a.reply)

  -- Either the message is vetted and is the reply, or it is not and the reply is a fault.
  abbrev pub IsJudged : Bytes → DohAnswer → Type 0
  IsJudged msg a = (IsVetted msg × (a.reply ≡ msg)) ⊎ ((¬ IsVetted msg) × IsFault a)
