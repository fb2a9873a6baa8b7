-- ===== src/Dns/Server/Gathering.antt =====
-- What the loop over the questions of `resolve` collects: the answers of the hosts' records.
use zonzon.Base.{
  ◌≡◌, ◌∙◌, refl, sym, ap, false, Option, none, some, List, [], ◌∷◌, ◌++◌, map, filter, ◌==◌,
  Bool-cases, inl, inr, append-nil, append_assoc, ◌>>=◌, ℕ,
}
use zonzon.Base.Text.{normalize_host}
use zonzon.Types.{DnsRecord, HostConfig, ServerConfig}
use zonzon.Dns.Question.{ParsedQuestion}
use zonzon.Dns.Packet.Answers.{Answer, entry_bytes}
use zonzon.Dns.Hosts.{find_host_config, to_type_number}
use zonzon.Dns.Records.{build_single_answer, build_answers}
use zonzon.Dns.Server.{Found, host_answers, look_up}

-- One answer for each of the records.
abbrev pub Each : List DnsRecord → List Answer → Type 0
Each [] [] = Unit
Each [] (a ∷ answers) = ⊥
Each (r ∷ records) [] = ⊥
Each (r ∷ records) (a ∷ answers) =
    (build_single_answer r ≡ some (entry_bytes a)) × Each records answers

-- The answers for a question: none without an entry, else those of the entry's records of its type.
abbrev pub OfHost : ParsedQuestion → Option HostConfig → List Answer → Type 0
OfHost q none own = own ≡ []
OfHost q (some host) own = Each (filter (λ r. to_type_number r == q.type) host.records) own

-- The answers for all the questions, in their order.
abbrev pub Gathered : ServerConfig → List ParsedQuestion → List Answer → Type 0
Gathered config [] answers = answers ≡ []
Gathered config (q ∷ qs) answers =
    (own : List Answer) × (rest : List Answer) × (answers ≡ own ++ rest)
    × OfHost q (find_host_config (normalize_host q.name) config.hosts) own
    × Gathered config qs rest

build_answers-Each :
    (records : List DnsRecord) (type : ℕ) (own : List Answer)
    → Each (filter (λ r. to_type_number r == type) records) own
    → build_answers records type ≡ some (map entry_bytes own)
unfolding build_answers
build_answers-Each [] type [] h = refl
build_answers-Each [] type (a ∷ own) h = absurd h
build_answers-Each (r ∷ records) type own h = elim (Bool-cases (to_type_number r == type)) [
  | inr other ↦ rw other (build_answers-Each records type own (rw other at h))
  | inl same ↦ rw same (first (build_answers-Each records type) own (rw same at h))
]
  where
    first :
        ((own : List Answer)
          → Each (filter (λ r. to_type_number r == type) records) own
          → build_answers records type ≡ some (map entry_bytes own))
        → (own : List Answer) → Each (r ∷ filter (λ r. to_type_number r == type) records) own
        → (build_single_answer r >>= λ answer.
            build_answers records type >>= λ more. some (answer ∷ more))
          ≡ some (map entry_bytes own)
    first rest [] h = absurd h
    first rest (a ∷ own) h = rw (h.0, rest own h.1) refl

host_answers-OfHost :
    (q : ParsedQuestion) (host : Option HostConfig) (found : Found) (own : List Answer)
    → OfHost q host own
    → (f : Found) × (host_answers q host found ≡ some f)
      × (f.answers ≡ found.answers ++ map entry_bytes own)
host_answers-OfHost q none found own h = (found, refl, rw h (sym (append-nil found.answers)))
host_answers-OfHost q (some host) found own h = (
  record { answers = found.answers ++ map entry_bytes own; all_questions_unknown = false },
  rw (build_answers-Each host.records q.type own h) refl,
  refl,
)

map-append :
    (xs ys : List Answer) → map entry_bytes (xs ++ ys) ≡ map entry_bytes xs ++ map entry_bytes ys
map-append [] ys = refl
map-append (x ∷ xs) ys = ap (λ t. entry_bytes x ∷ t) (map-append xs ys)

-- The loop over the questions collects the answers of them all.
pub look_up-Gathered :
    (config : ServerConfig) (qs : List ParsedQuestion) (found : Found) (answers : List Answer)
    → Gathered config qs answers
    → (f : Found) × (look_up config qs found ≡ some f)
      × (f.answers ≡ found.answers ++ map entry_bytes answers)
unfolding look_up
look_up-Gathered config [] found answers h = (found, refl, rw h (sym (append-nil found.answers)))
look_up-Gathered config (q ∷ qs) found answers (own, rest, whole, here, later) =
    let host = find_host_config (normalize_host q.name) config.hosts in
    let (f1, e1, a1) = host_answers-OfHost q host found own here in
    let (f, e, a) = look_up-Gathered config qs f1 rest later in
    (
      f,
      rw e1 e,
      a
          ∙ rw (a1, whole, map-append own rest)
              (append_assoc found.answers (map entry_bytes own) (map entry_bytes rest)),
    )
