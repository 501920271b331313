-- ===== src/Base/Result.antt =====
-- Code that may raise: a result or the exception that left it. The kinds are those that the
-- services raise or catch.
use mathlib.Core.Path.{◌≡◌, refl}
use mathlib.Core.Logic.{◌⊎◌, inl, inr}
use mathlib.Core.Bool.{Bool, true, false}
use twin_services.Base.Tests.{if◌then◌else◌}
use mathlib.Core.Option.{Option, none, some}
use mathlib.Core.List.{List, [], ◌∷◌}

pub data Exc : Type 0 where
  value_error key_error zero_division overflow_error validation_error : Exc
  mqtt_error broker_unavailable queue_full queue_empty assertion_error index_error : Exc

pub data Result {ℓ} (V : Type ℓ) : Type ℓ where
  raise : Exc → Result V
  ok : V → Result V

-- The rest of the code runs on the value; an exception leaves it out.
module _ {ℓ κ} {V : Type ℓ} {W : Type κ} where
  infixl 5 ◌>>=◌
  abbrev pub ◌>>=◌ : Result V → (V → Result W) → Result W
  raise x >>= rest = raise x
  ok v >>= rest = rest v

module _ {ℓ} {A : Type ℓ} where
  abbrev pub or_raise : Option A → Exc → Result A
  or_raise none x = raise x
  or_raise (some a) x = ok a

  pub or_raise-eq-ok : (o : Option A) (x : Exc) {a : A} → or_raise o x ≡ ok a → o ≡ some a
  or_raise-eq-ok none x h = cc
  or_raise-eq-ok (some b) x h = cc

  pub ok-injective : {a b : A} → ok a ≡ ok b → a ≡ b
  ok-injective h = cc

  pub Result-cases : (r : Result A) → ((a : A) × (r ≡ ok a)) ⊎ ((x : Exc) × (r ≡ raise x))
  Result-cases (ok a) = inl (a, refl)
  Result-cases (raise x) = inr (x, refl)

-- The code returns a value.
abbrev pub Total {ℓ} : {A : Type ℓ} → Result A → Type ℓ
Total {A} m = (a : A) × (m ≡ ok a)

pub Total-if {ℓ} :
    {A : Type ℓ} (b : Bool) (m n : Result A) → Total m → Total n → Total (if b then m else n)
Total-if true m n p q = p
Total-if false m n p q = q

module _ {ℓ κ} {A : Type ℓ} {B : Type κ} where
  pub Total-bind :
      (m : Result A) (f : A → Result B) → Total m → ((a : A) → Total (f a)) → Total (m >>= f)
  Total-bind (ok a) f p q = q a
  Total-bind (raise x) f p q = cc p.1

  -- `[f(x) for x in xs]`: the first exception ends it.
  abbrev pub map_result : (A → Result B) → List A → Result (List B)
  map_result f [] = ok []
  map_result f (x ∷ xs) = f x >>= λ y. map_result f xs >>= λ ys. ok (y ∷ ys)

-- Code that returned went through both of its parts.
module _ {ℓ κ} {V : Type ℓ} {W : Type κ} where
  pub >>=-eq-ok :
      (first : Result V) (rest : V → Result W) {w : W}
      → (first >>= rest) ≡ ok w
      → (v : V) × (first ≡ ok v) × (rest v ≡ ok w)
  >>=-eq-ok (raise x) rest returned = cc
  >>=-eq-ok (ok v) rest returned = (v, refl, returned)
