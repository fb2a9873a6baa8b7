-- ===== src/Dns/Hosts/Priority.antt =====
-- Which entry of the configuration a name is answered from.
use zonzon.Base.{
  ◌≢◌, ◌↔◌, ◌++◌, ◌∙◌, refl, sym, ap, true, false, Option, All, Bool-cases, some-eq-some, ℕ, zero,
  suc, ◌<◌, ◌≡◌, none, some, List, [], ◌∷◌, arith, length, drop, Option-cases, inl, inr,
}
use zonzon.Base.Text.{Text, codes, split, text_eq, text_eq_iff, starts_with, to_lower}
use zonzon.Base.OrderedMap.{get}
use zonzon.Types.{HostConfig, Hosts}
use zonzon.Dns.Hosts.{is_exact_key, find_exact, wildcard_key, find_wildcard, find_host_config}

-- The wildcard entry of the longest suffix of the labels that has one.
pub record Longest (labels : List Text) (hosts : Hosts) (h : HostConfig) : Type 0 where
  pub at : ℕ
  pub inside : at < length labels
  pub found : get (wildcard_key (drop at labels)) hosts ≡ some h
  pub first : (i : ℕ) → i < at → get (wildcard_key (drop i labels)) hosts ≡ none

true-ne-false : true ≢ false
true-ne-false e = cc

-- No suffix of the labels has a wildcard entry.
abbrev pub NoWildcard : List Text → Hosts → Type 0
NoWildcard labels hosts =
    (i : ℕ) → i < length labels → get (wildcard_key (drop i labels)) hosts ≡ none

find_wildcard_sound :
    (labels : List Text) (hosts : Hosts) (h : HostConfig)
    → find_wildcard labels hosts ≡ some h
    → Longest labels hosts h
unfolding find_wildcard
find_wildcard_sound [] hosts h e = absurd (ground arith)
find_wildcard_sound (l ∷ ls) hosts h e = elim (Option-cases (get (wildcard_key (l ∷ ls)) hosts)) [
  | inr (v, hit) ↦ record {
    at = 0;
    inside = omega arith;
    found = ground (arith, hit, e);
    first = λ i less. absurd (omega arith);
  }
  | inl miss ↦
      let rest = find_wildcard_sound ls hosts h (ground (arith, miss, e)) in
      record {
        at = suc rest.at;
        inside = omega (arith, rest.inside);
        found = rest.found;
        first = λ i less. shifted l ls hosts miss rest.at rest.first i less;
      }
]
  where
    shifted :
        (l : Text) (ls : List Text) (hosts : Hosts)
        (miss : get (wildcard_key (l ∷ ls)) hosts ≡ none) (n : ℕ)
        (f : (i : ℕ) → i < n → get (wildcard_key (drop i ls)) hosts ≡ none) (i : ℕ)
        → i < suc n
        → get (wildcard_key (drop i (l ∷ ls))) hosts ≡ none
    shifted l ls hosts miss n f zero less = miss
    shifted l ls hosts miss n f (suc i) less = f i (omega arith)

find_wildcard-none :
    (labels : List Text) (hosts : Hosts)
    → find_wildcard labels hosts ≡ none
    → NoWildcard labels hosts
unfolding find_wildcard
find_wildcard-none [] hosts e i less = absurd (omega arith)
find_wildcard-none (l ∷ ls) hosts e zero less = ground (arith, e)
find_wildcard-none (l ∷ ls) hosts e (suc i) less =
    find_wildcard-none ls hosts (ground (arith, e)) i (omega arith)

-- A key that stands for the name itself: no wildcard, and the name once its letters are lowered.
abbrev pub IsOwnKey : Text → Text → Type 0
IsOwnKey name key =
    (key ≢ codes "*") × (starts_with key (codes "*.") ≡ false) × (to_lower key ≡ name)

-- the first entry with such a key
pub record Own (name : Text) (hosts : Hosts) (h : HostConfig) : Type 0 where
  pub before : Hosts
  pub key : Text
  pub after : Hosts
  pub stands : hosts ≡ before ++ ((key, h) ∷ after)
  pub own : IsOwnKey name key
  pub first : All (λ e. IsOwnKey name e.0 → ⊥) before

abbrev pub NoOwn : Text → Hosts → Type 0
NoOwn name hosts = All (λ e. IsOwnKey name e.0 → ⊥) hosts

is_exact_key_iff : (key name : Text) → (is_exact_key key name ≡ true) ↔ IsOwnKey name key
is_exact_key_iff key name = (
  (λ e. (
    (λ same. ground (arith, (text_eq_iff key (codes "*")).1 same, e)),
    ground (arith, e),
    (text_eq_iff (to_lower key) name).0 (ground (arith, e)),
  )),
  λ (n, s, l).
      let other : text_eq key (codes "*") ≡ false =
        ground (arith, (text_eq_iff key (codes "*")).0, n) in
      let same = (text_eq_iff (to_lower key) name).1 l in rw (other, s, same) refl,
)

find_exact_sound :
    (name : Text) (hosts : Hosts) (h : HostConfig)
    → find_exact name hosts ≡ some h
    → Own name hosts h
unfolding find_exact
find_exact_sound name [] h e = absurd (ground (arith, e))
find_exact_sound name ((key, value) ∷ hosts) h e = elim (Bool-cases (is_exact_key key name)) [
  | inl own ↦ record {
    before = [];
    key = key;
    after = hosts;
    stands = ap (λ v. (key, v) ∷ hosts) (some-eq-some (rw own at e));
    own = (is_exact_key_iff key name).0 own;
    first = tt;
  }
  | inr other ↦
      let rest = find_exact_sound name hosts h (rw other at e) in
      record {
        before = (key, value) ∷ rest.before;
        key = rest.key;
        after = rest.after;
        stands = ap (λ t. (key, value) ∷ t) rest.stands;
        own = rest.own;
        first =
            ((λ own. true-ne-false (sym ((is_exact_key_iff key name).1 own) ∙ other)), rest.first);
      }
]

find_exact-NoOwn : (name : Text) (hosts : Hosts) → find_exact name hosts ≡ none → NoOwn name hosts
unfolding find_exact
find_exact-NoOwn name [] e = tt
find_exact-NoOwn name ((key, value) ∷ hosts) e = elim (Bool-cases (is_exact_key key name)) [
  | inl own ↦ absurd (ground (arith, rw own at e))
  | inr other ↦ (
    (λ own. true-ne-false (sym ((is_exact_key_iff key name).1 own) ∙ other)),
    find_exact-NoOwn name hosts (rw other at e),
  )
]

-- The kinds of entry in the order of their precedence, and what is found.
pub data Source (name : Text) (hosts : Hosts) (r : Option HostConfig) : Type 0 where
  exact : (h : HostConfig) → r ≡ some h → Own name hosts h → Source name hosts r
  wildcard :
      (h : HostConfig)
      → r ≡ some h
      → NoOwn name hosts
      → Longest (split b'.' name) hosts h
      → Source name hosts r
  otherwise :
      r ≡ get (codes "*") hosts
      → NoOwn name hosts
      → NoWildcard (split b'.' name) hosts
      → Source name hosts r

-- A name is answered from its own entry, the first whose key is no wildcard and is in lower case the
-- name, if it has one; else from the wildcard entry of its longest suffix that has one (the whole
-- name counts as a suffix); else from `*`, and from none where there is no `*`.
pub find_host_config-Source :
    (name : Text) (hosts : Hosts) → Source name hosts (find_host_config name hosts)
unfolding find_host_config
find_host_config-Source name hosts = elim (Option-cases (find_exact name hosts)) [
  | inr (h, hit) ↦ exact h (ground (arith, hit)) (find_exact_sound name hosts h hit)
  | inl miss ↦ elim (Option-cases (find_wildcard (split b'.' name) hosts)) [
    | inr (h, hit) ↦
        wildcard h (ground (arith, miss, hit)) (find_exact-NoOwn name hosts miss)
          (find_wildcard_sound _ hosts h hit)
    | inl gone ↦
        otherwise (ground (arith, miss, gone)) (find_exact-NoOwn name hosts miss)
          (find_wildcard-none _ hosts gone)
  ]
]
