-- ===== src/Handler/Replies.antt =====
-- What the tests on an upstream reply say: its names, and the addresses in it.
use zonzon.Base.{
  suc, ◌≡◌, refl, ap, ◌↔◌, ◌⊎◌, inl, inr, true, Option, none, some, List, [], ◌∷◌, arith,
  some-eq-some, length, map, All,
}
use mathlib.Core.Path.{subst}
use zonzon.Base.Text.{Text, text_eq_iff, text_eq_refl}
use zonzon.Types.{FirewallConfig}
use zonzon.Firewall.{Verdict, permit, block, evaluate_ip}
use zonzon.Dns.Question.{ParsedQuestion}
use zonzon.Handler.{same_names, valid_0x20, blocked_ip}

abbrev pub names_of : List ParsedQuestion → List Text
names_of = map (λ q. q.name)

same_names-eq :
    (names : List Text) (qs : List ParsedQuestion)
    → length names ≡ length qs
    → same_names names qs ≡ true
    → names_of qs ≡ names
unfolding same_names
same_names-eq [] [] e h = refl
same_names-eq [] (q ∷ qs) e h = absurd (omega arith)
same_names-eq (name ∷ names) [] e h = cc
same_names-eq (name ∷ names) (q ∷ qs) e h =
    ground (arith, text_eq_iff q.name name, same_names-eq names qs (omega arith))

same_names_refl : (qs : List ParsedQuestion) → same_names (names_of qs) qs ≡ true
unfolding same_names
same_names_refl [] = refl
same_names_refl (q ∷ qs) = ground (arith, text_eq_refl q.name, same_names_refl qs)

length-names_of : (qs : List ParsedQuestion) → length (names_of qs) ≡ length qs
length-names_of [] = refl
length-names_of (q ∷ qs) = ap suc (length-names_of qs)

-- The names of the questions are the expected ones, spelling and order included.
pub valid_0x20_iff :
    (names : List Text) (qs : List ParsedQuestion)
    → (valid_0x20 names qs ≡ true) ↔ (names_of qs ≡ names)
unfolding valid_0x20
valid_0x20_iff names qs = (
  λ h. ground (arith, same_names-eq names qs),
  λ e. rw (← e) (ground (arith, same_names_refl qs, length-names_of qs)),
)

Verdict-cases : (v : Verdict) → (v ≡ permit) ⊎ (v ≡ block)
Verdict-cases permit = inl refl
Verdict-cases block = inr refl

-- No address is blocked exactly when the firewall permits each.
pub blocked_ip-none :
    (fw : Option FirewallConfig) (ips : List Text)
    → (blocked_ip fw ips ≡ none) ↔ All (λ ip. evaluate_ip ip fw ≡ permit) ips
unfolding blocked_ip
blocked_ip-none fw [] = ((λ e. tt), λ e. refl)
blocked_ip-none fw (ip ∷ ips) = elim (Verdict-cases (evaluate_ip ip fw)) [
  | inl yes_ ↦
      rw yes_ ((λ e. (refl, (blocked_ip-none fw ips).0 e)), λ h. (blocked_ip-none fw ips).1 h.1)
  | inr no_ ↦ rw no_ ((λ e. cc), λ h. cc h.0)
]

pub blocked_ip-some :
    (fw : Option FirewallConfig) (ips : List Text) (ip : Text)
    → blocked_ip fw ips ≡ some ip
    → evaluate_ip ip fw ≡ block
unfolding blocked_ip
blocked_ip-some fw [] ip e = cc
blocked_ip-some fw (x ∷ ips) ip e = elim (Verdict-cases (evaluate_ip x fw)) [
  | inl yes_ ↦ blocked_ip-some fw ips ip (rw yes_ at e)
  | inr no_ ↦ subst (λ t. evaluate_ip t fw ≡ block) (some-eq-some (rw no_ at e)) no_
]
