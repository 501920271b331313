-- ===== src/Base/Eq.antt =====
-- Equality tests as an interface, and Python's `dict` over keys that have one: an association
-- list in insertion order, where writing an old key keeps its place.
use Prim.Native.Nat.{ℕ}
use mathlib.Core.Path.{◌≡◌, refl}
use mathlib.Core.Logic.{◌↔◌}
use mathlib.Core.Bool.{Bool, true, false}
use mathlib.Core.Option.{Option, none, some}
use mathlib.Core.List.{List, [], ◌∷◌, map}
use native.Mathlib.Omega.{arith}
use twin_services.Base.Tests.{◌==◌, if◌then◌else◌}
use twin_services.Base.Strings.{Text, text_eq, text_eq_iff}

pub record Eq {ℓ} (K : Type ℓ) : Type ℓ where
  pub beq : K → K → Bool
  pub beq_iff : (j k : K) → (beq j k ≡ true) ↔ (j ≡ k)

instance abbrev pub text_is_eq : Eq Text
text_is_eq = record { beq = text_eq; beq_iff = text_eq_iff }

pub nat_beq_iff : (a b : ℕ) → ((a == b) ≡ true) ↔ (a ≡ b)
nat_beq_iff a b = ground arith

instance abbrev pub nat_is_eq : Eq ℕ
nat_is_eq = record { beq = ◌==◌; beq_iff = nat_beq_iff }

abbrev pub Dict {ℓ κ} : Type ℓ → Type κ → Type (ℓ ⊔ κ)
Dict K V = List (K × V)

module _ {ℓ κ} {K : Type ℓ} {V : Type κ} ⦃e : Eq K⦄ where
  -- d.get(k)
  unfoldable pub lookup : K → Dict K V → Option V
  lookup k [] = none
  lookup k ((j, v) ∷ d) = if e.beq j k then some v else lookup k d

  -- d[k] = v
  unfoldable pub insert : K → V → Dict K V → Dict K V
  insert k v [] = (k, v) ∷ []
  insert k v ((j, w) ∷ d) = if e.beq j k then (j, v) ∷ d else (j, w) ∷ insert k v d

  -- d.pop(k, None)
  unfoldable pub remove : K → Dict K V → Dict K V
  remove k [] = []
  remove k ((j, v) ∷ d) = if e.beq j k then d else (j, v) ∷ remove k d

  -- `k in d`
  unfoldable pub contains : K → Dict K V → Bool
  unfolding lookup
  contains k d = elim (lookup k d) [ none ↦ false | some _ ↦ true ]

  pub lookup-insert :
      (k j : K) (v : V) (d : Dict K V)
      → lookup j (insert k v d) ≡ (if e.beq k j then some v else lookup j d)
  unfolding lookup insert
  lookup-insert k j v [] = refl
  lookup-insert k j v ((i, w) ∷ d) =
      ground (arith, e.beq_iff k j, e.beq_iff i k, e.beq_iff i j, lookup-insert k j v d)

  pub lookup-insert_self : (k : K) (v : V) (d : Dict K V) → lookup k (insert k v d) ≡ some v
  lookup-insert_self k v d = rw (lookup-insert, (e.beq_iff k k).1 refl)

  -- Writing a key that is there keeps the keys and their order.
  pub keys-insert :
      (k : K) (v : V) (d : Dict K V)
      → contains k d ≡ true
      → map (λ p. p.0) (insert k v d) ≡ map (λ p. p.0) d
  unfolding contains insert
  keys-insert k v [] h = cc
  keys-insert k v ((j, w) ∷ d) h = ground (arith, keys-insert k v d)

  pub contains-insert :
      (k j : K) (v : V) (d : Dict K V) → contains j d ≡ true → contains j (insert k v d) ≡ true
  unfolding contains
  contains-insert k j v d h = ground (arith, lookup-insert k j v d)

  pub contains_of-lookup :
      (k : K) (v : V) (d : Dict K V) → lookup k d ≡ some v → contains k d ≡ true
  unfolding contains
  contains_of-lookup k v d h = rw (h, contains)

  pub lookup_of-contains :
      (k : K) (d : Dict K V) → contains k d ≡ true → (v : V) × (lookup k d ≡ some v)
  unfolding contains
  lookup_of-contains k d h = ground arith

-- The same dictionary with every value changed.
abbrev pub map_values {ℓ κ} : {K : Type ℓ} {V W : Type κ} → (V → W) → Dict K V → Dict K W
map_values f [] = []
map_values f ((k, v) ∷ d) = (k, f v) ∷ map_values f d

module _ {ℓ κ} {K : Type ℓ} {V W : Type κ} ⦃e : Eq K⦄ (f : V → W) where
  pub map_values-insert :
      (k : K) (v : V) (d : Dict K V) → map_values f (insert k v d) ≡ insert k (f v) (map_values f d)
  unfolding insert
  map_values-insert k v [] = refl
  map_values-insert k v ((j, w) ∷ d) = ground (arith, map_values-insert k v d)

  pub map_values-remove :
      (k : K) (d : Dict K V) → map_values f (remove k d) ≡ remove k (map_values f d)
  unfolding remove
  map_values-remove k [] = refl
  map_values-remove k ((j, w) ∷ d) = ground (arith, map_values-remove k d)

  pub lookup-map_values :
      (k : K) (d : Dict K V)
      → lookup k (map_values f d) ≡ elim (lookup k d) [ none ↦ none | some v ↦ some (f v) ]
  unfolding lookup
  lookup-map_values k [] = refl
  lookup-map_values k ((j, w) ∷ d) = ground (arith, lookup-map_values k d)
