-- ===== src/Base/OrderedMap.antt =====
-- A JavaScript `Map` with string keys: its entries in the order of their insertion. Setting a key
-- that is there keeps its place.
use Prim.Native.Nat.{◌+◌, ◌≤◌, ◌<◌}
use mathlib.Core.Path.{◌≡◌, refl}
use mathlib.Core.Option.{Option, none, some}
use mathlib.Core.List.{List, [], ◌∷◌}
use native.Mathlib.Omega.{arith}
use zonzon.Base.Tests.{if◌then◌else◌}
use zonzon.Base.Lists.{length}
use zonzon.Base.Text.{Text, text_eq, text_eq_iff, text_eq_refl}

abbrev pub OrderedMap {ℓ} : Type ℓ → Type ℓ
OrderedMap V = List (Text × V)

module _ {ℓ} {V : Type ℓ} where
  unfoldable pub get : Text → OrderedMap V → Option V
  get k [] = none
  get k ((j, v) ∷ m) = if text_eq j k then some v else get k m

  unfoldable pub set_key : Text → V → OrderedMap V → OrderedMap V
  set_key k v [] = (k, v) ∷ []
  set_key k v ((j, w) ∷ m) = if text_eq j k then (j, v) ∷ m else (j, w) ∷ set_key k v m

  unfoldable pub delete : Text → OrderedMap V → OrderedMap V
  delete k [] = []
  delete k ((j, v) ∷ m) = if text_eq j k then delete k m else (j, v) ∷ delete k m

  -- `map.delete(map.keys().next().value)`
  unfoldable pub delete_oldest : OrderedMap V → OrderedMap V
  unfolding delete
  delete_oldest [] = []
  delete_oldest ((k, v) ∷ m) = delete k ((k, v) ∷ m)

  -- Every key stands once.
  abbrev pub Distinct : OrderedMap V → Type ℓ
  Distinct [] = Unit
  Distinct ((k, v) ∷ m) = (get k m ≡ none) × Distinct m

  get_nil : (k : Text) → get k [] ≡ none
  unfolding get
  get_nil k = refl

  pub get-set_key :
      (k j : Text) (v : V) (m : OrderedMap V)
      → get j (set_key k v m) ≡ (if text_eq k j then some v else get j m)
  unfolding get set_key
  get-set_key k j v [] = refl
  get-set_key k j v ((i, w) ∷ m) = ground (
    arith,
    text_eq_iff i k,
    text_eq_iff i j,
    text_eq_iff k j,
    text_eq_refl k,
    get-set_key k j v m,
  )

  pub get-delete :
      (k j : Text) (m : OrderedMap V) → get j (delete k m) ≡ (if text_eq k j then none else get j m)
  unfolding get delete
  get-delete k j [] = ground arith
  get-delete k j ((i, w) ∷ m) =
      ground (arith, text_eq_iff i k, text_eq_iff i j, text_eq_iff k j, get-delete k j m)

  pub length-set_key-le :
      (k : Text) (v : V) (m : OrderedMap V) → length (set_key k v m) ≤ length m + 1
  unfolding set_key
  length-set_key-le k v [] = omega arith
  length-set_key-le k v ((j, w) ∷ m) = ground (arith, length-set_key-le k v m)

  pub length-set_key :
      (k : Text) (v w : V) (m : OrderedMap V) → get k m ≡ some w → length (set_key k v m) ≡ length m
  unfolding get set_key
  length-set_key k v w [] h = absurd (ground arith)
  length-set_key k v w ((j, u) ∷ m) h = ground (arith, length-set_key k v w m)

  pub length-delete-le : (k : Text) (m : OrderedMap V) → length (delete k m) ≤ length m
  unfolding delete
  length-delete-le k [] = omega arith
  length-delete-le k ((j, w) ∷ m) = ground (arith, length-delete-le k m)

  pub length-delete-lt :
      (k : Text) (v : V) (m : OrderedMap V) → get k m ≡ some v → length (delete k m) < length m
  unfolding get delete
  length-delete-lt k v [] h = absurd (ground arith)
  length-delete-lt k v ((j, w) ∷ m) h = ground (arith, length-delete-lt k v m, length-delete-le k m)

  pub length-delete_oldest : (m : OrderedMap V) → 1 ≤ length m → length (delete_oldest m) < length m
  unfolding delete_oldest
  length-delete_oldest [] h = absurd (omega arith)
  length-delete_oldest ((k, v) ∷ m) h = ground (arith, text_eq_refl k, length-delete-le k m)

  pub delete-Distinct : (k : Text) (m : OrderedMap V) → Distinct m → Distinct (delete k m)
  unfolding delete
  delete-Distinct k [] d = tt
  delete-Distinct k ((j, w) ∷ m) d = ground (arith, delete-Distinct k m d.1, get-delete k j m)

  pub set_key-Distinct :
      (k : Text) (v : V) (m : OrderedMap V) → Distinct m → Distinct (set_key k v m)
  unfolding set_key
  set_key-Distinct k v [] d = (get_nil k, tt)
  set_key-Distinct k v ((j, w) ∷ m) d =
      ground
        (arith, set_key-Distinct k v m d.1, get-set_key k j v m, text_eq_iff j k, text_eq_iff k j)

  pub delete_oldest-Distinct : (m : OrderedMap V) → Distinct m → Distinct (delete_oldest m)
  unfolding delete_oldest
  delete_oldest-Distinct [] d = tt
  delete_oldest-Distinct ((k, v) ∷ m) d = delete-Distinct k ((k, v) ∷ m) d

  module _ {κ} (P : V → Type κ) where
    abbrev pub Values : OrderedMap V → Type κ
    Values [] = Unit
    Values ((k, v) ∷ m) = P v × Values m

    pub get-Values : (k : Text) (v : V) (m : OrderedMap V) → Values m → get k m ≡ some v → P v
    unfolding get
    get-Values k v [] h e = absurd (ground arith)
    get-Values k v ((j, w) ∷ m) h e = ground (arith, get-Values k v m h.1)

    pub set_key-Values :
        (k : Text) (v : V) (m : OrderedMap V) → P v → Values m → Values (set_key k v m)
    unfolding set_key
    set_key-Values k v [] p h = (p, tt)
    set_key-Values k v ((j, w) ∷ m) p h = ground (arith, set_key-Values k v m p h.1)

    pub delete-Values : (k : Text) (m : OrderedMap V) → Values m → Values (delete k m)
    unfolding delete
    delete-Values k [] h = tt
    delete-Values k ((j, w) ∷ m) h = ground (arith, delete-Values k m h.1)

unfoldable pub maps : Unit {0}
unfolding get set_key delete delete_oldest
maps = tt
