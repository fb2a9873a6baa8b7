-- ===== src/Dnssec/Canonical.antt =====
-- The canonical order of a signed set of records, and what a signature does not depend on.
use mathlib.Core.Logic.{∥∥₁_elim}
use mathlib.Core.Path.{ap₂, subst}
use mathlib.Core.Option
use mathlib.Core.Bool.{Bool-set}
use mathlib.Core.List.{Perm, Permᴰ}
use mathlib.Core.List.Perm
use zonzon.Base.{
  ℕ, ◌≡◌, refl, sym, ◌∙◌, ◌≢◌, inl, inr, true, false, List, [], ◌∷◌, arith, All, Bool-cases,
}
use zonzon.Base.Bytes.{Bytes}
use zonzon.Dnssec.{ParsedRecord, Rrsig, Dnskey, Crypto}
use zonzon.Dnssec.Validation.{at_most, insert_record, sort, payload_of, verify_signature}

at_most_total : (a b : Bytes) → at_most a b ≡ false → at_most b a ≡ true
unfolding at_most
at_most_total [] b h = cc
at_most_total (x ∷ a) [] h = refl
at_most_total (x ∷ a) (y ∷ b) h = ground (arith, at_most_total a b)

at_most_antisym : (a b : Bytes) → at_most a b ≡ true → at_most b a ≡ true → a ≡ b
unfolding at_most
at_most_antisym [] [] h k = refl
at_most_antisym [] (y ∷ b) h k = cc
at_most_antisym (x ∷ a) [] h k = cc
at_most_antisym (x ∷ a) (y ∷ b) h k = ground (arith, at_most_antisym a b)

at_most_trans : (a b c : Bytes) → at_most a b ≡ true → at_most b c ≡ true → at_most a c ≡ true
unfolding at_most
at_most_trans [] b c h k = refl
at_most_trans (x ∷ a) [] c h k = cc
at_most_trans (x ∷ a) (y ∷ b) [] h k = cc
at_most_trans (x ∷ a) (y ∷ b) (z ∷ c) h k = ground (arith, at_most_trans a b c)

-- Each record's data is at most that of the next.
abbrev pub Ordered : List ParsedRecord → Type 0
Ordered [] = Unit
Ordered (r ∷ []) = Unit
Ordered (r ∷ s ∷ l) = (at_most r.rdata s.rdata ≡ true) × Ordered (s ∷ l)

insert_record-Ordered :
    (r : ParsedRecord) (l : List ParsedRecord) → Ordered l → Ordered (insert_record r l)
unfolding insert_record
insert_record-Ordered r [] o = tt
insert_record-Ordered r (s ∷ []) o = ground (arith, at_most_total r.rdata s.rdata)
insert_record-Ordered r (s ∷ t ∷ l) o = ground (
  arith,
  at_most_total r.rdata s.rdata,
  at_most_total r.rdata t.rdata,
  insert_record-Ordered r (t ∷ l) o.1,
)

insert_record-perm : (r : ParsedRecord) (l : List ParsedRecord) → Perm (insert_record r l) (r ∷ l)
unfolding insert_record
insert_record-perm r [] = Perm.rfl
insert_record-perm r (s ∷ l) = elim (Bool-cases (at_most r.rdata s.rdata)) [
  | inl first ↦ rw first Perm.rfl
  | inr later ↦ rw later (Perm.trans (Perm.cons s (insert_record-perm r l)) (Perm.swap r s l))
]

sort-Ordered : (l : List ParsedRecord) → Ordered (sort l)
unfolding sort
sort-Ordered [] = tt
sort-Ordered (r ∷ l) = insert_record-Ordered r (sort l) (sort-Ordered l)

sort-perm : (l : List ParsedRecord) → Perm (sort l) l
unfolding sort
sort-perm [] = Perm.nil
sort-perm (r ∷ l) = Perm.trans (insert_record-perm r (sort l)) (Perm.cons r (sort-perm l))

-- The records of a set are signed in the order of their data, byte by byte with a prefix first,
-- and none is lost or made up.
pub sort_lem : (l : List ParsedRecord) → Ordered (sort l) × Perm (sort l) l
sort_lem l = (sort-Ordered l, sort-perm l)

insert_record_comm_lt :
    (r s : ParsedRecord) (l : List ParsedRecord)
    → at_most r.rdata s.rdata ≡ true
    → at_most s.rdata r.rdata ≡ false
    → insert_record r (insert_record s l) ≡ insert_record s (insert_record r l)
unfolding insert_record
insert_record_comm_lt r s [] h k = ground arith
insert_record_comm_lt r s (t ∷ l) h k =
    ground (arith, at_most_trans r.rdata s.rdata t.rdata, insert_record_comm_lt r s l h k)

insert_record_comm :
    (r s : ParsedRecord) (l : List ParsedRecord)
    → r.rdata ≢ s.rdata
    → insert_record r (insert_record s l) ≡ insert_record s (insert_record r l)
insert_record_comm r s l other = elim (Bool-cases (at_most r.rdata s.rdata)) [
  | inl up ↦ elim (Bool-cases (at_most s.rdata r.rdata)) [
    | inl down ↦ absurd (other (at_most_antisym r.rdata s.rdata up down))
    | inr strict ↦ insert_record_comm_lt r s l up strict
  ]
  | inr down ↦ sym (insert_record_comm_lt s r l (at_most_total r.rdata s.rdata down) down)
]

-- No two records have the same data.
abbrev pub HasDistinctData : List ParsedRecord → Type 0
HasDistinctData [] = Unit
HasDistinctData (r ∷ l) = All (λ s. r.rdata ≢ s.rdata) l × HasDistinctData l

All-permᴰ : (P : ParsedRecord → Type 0) {l m : List ParsedRecord} → Permᴰ l m → All P l → All P m
All-permᴰ P Permᴰ.nil h = h
All-permᴰ P (Permᴰ.cons e p) h = (subst P e h.0, All-permᴰ P p h.1)
All-permᴰ P (Permᴰ.swap e f) h = (subst P f h.1.0, (subst P e h.0, h.1.1))
All-permᴰ P (Permᴰ.trans p q) h = All-permᴰ P q (All-permᴰ P p h)

HasDistinctData-permᴰ :
    {l m : List ParsedRecord} → Permᴰ l m → HasDistinctData l → HasDistinctData m
HasDistinctData-permᴰ Permᴰ.nil u = u
HasDistinctData-permᴰ {m = y ∷ m} (Permᴰ.cons e p) u =
    (subst (λ x. All (λ s. x.rdata ≢ s.rdata) m) e (All-permᴰ _ p u.0), HasDistinctData-permᴰ p u.1)
HasDistinctData-permᴰ {l = x ∷ y ∷ l} {m = y' ∷ x' ∷ m} (Permᴰ.swap e f) u = (
  (
    subst (λ t. t.rdata ≢ x'.rdata) f (subst (λ t. y.rdata ≢ t.rdata) e (λ q. u.0.0 (sym q))),
    subst (λ t. All (λ s. t.rdata ≢ s.rdata) l) f u.1.0,
  ),
  (subst (λ t. All (λ s. t.rdata ≢ s.rdata) l) e u.0.1, u.1.1),
)
HasDistinctData-permᴰ (Permᴰ.trans p q) u = HasDistinctData-permᴰ q (HasDistinctData-permᴰ p u)

sort-permᴰ : {l m : List ParsedRecord} → Permᴰ l m → HasDistinctData l → sort l ≡ sort m
unfolding sort
sort-permᴰ Permᴰ.nil u = refl
sort-permᴰ (Permᴰ.cons e p) u = ap₂ insert_record e (sort-permᴰ p u.1)
sort-permᴰ {l = x ∷ y ∷ l} (Permᴰ.swap e f) u =
    insert_record_comm x y (sort l) u.0.0
    ∙ ap₂ (λ s t. insert_record s (insert_record t (sort l))) f e
sort-permᴰ (Permᴰ.trans p q) u = sort-permᴰ p u ∙ sort-permᴰ q (HasDistinctData-permᴰ p u)

-- The order in which the records of a set stand in the response changes no verdict on a signature
-- over it, where no two of them have the same data.
pub verify_signature_order :
    (c : Crypto) (now : ℕ) (rrsig : Rrsig) (rrset other : List ParsedRecord) (dnskey : Dnskey)
    → Perm rrset other
    → HasDistinctData rrset
    → verify_signature c now rrsig rrset dnskey ≡ verify_signature c now rrsig other dnskey
unfolding verify_signature payload_of
verify_signature_order c now rrsig rrset other dnskey p u =
    ∥∥₁_elim p (Option.is_set Bool-set _ _) (λ d. rw (sort-permᴰ d u) refl)
