-- ===== src/Base/Pick.antt =====
-- Taking one item out of a list.
use mathlib.Core.List.{Perm}
use mathlib.Core.List.Perm
use mathlib.Core.Nat as Unary
use mathlib.Core.List
use mathlib.Core.Path.{◌≡◌, refl, subst, ap, sym, ◌∙◌}
use mathlib.Core.Logic.{inl, inr}
use mathlib.Core.Option.{Option, none, some}
use mathlib.Core.List.{List, [], ◌∷◌, ◌++◌}
use Prim.Native.Nat.{ℕ, zero, suc}
use native.Mathlib.Omega.{arith}
use twin_services.Base.Tests.{Option-cases}
use twin_services.Base.Lists.{length}

-- The item at an index, and the others.
unfoldable pub pick : {A : Type 0} → ℕ → List A → Option (A × List A)
pick n [] = none
pick zero (x ∷ xs) = some (x, xs)
pick (suc n) (x ∷ xs) = elim (pick n xs) [ none ↦ none | some (y, ys) ↦ some (y, x ∷ ys) ]

pub pick-length :
    {A : Type 0} (i : ℕ) (xs : List A) (x : A) (rest : List A)
    → pick i xs ≡ some (x, rest)
    → length xs ≡ suc (length rest)
unfolding pick
pick-length i [] x rest h = cc
pick-length zero (y ∷ ys) x rest h = ground arith
pick-length (suc i) (y ∷ ys) x rest h = elim (Option-cases (pick i ys)) [
  | inl e ↦ ground arith
  | inr ((z, zs), e) ↦ ground (arith, pick-length i ys z zs e)
]

pub pick-Perm :
    {A : Type 0} (i : ℕ) (xs : List A) (x : A) (rest : List A)
    → pick i xs ≡ some (x, rest)
    → Perm (x ∷ rest) xs
unfolding pick
pick-Perm i [] x rest h = cc
pick-Perm zero (y ∷ ys) x rest h =
    let same : x ∷ rest ≡ y ∷ ys = cc in subst (Perm (x ∷ rest)) same (Perm.refl _)
pick-Perm (suc i) (y ∷ ys) x rest h = elim (Option-cases (pick i ys)) [
  | inl e ↦ ground arith
  | inr ((z, zs), e) ↦
      let same : z ∷ y ∷ zs ≡ x ∷ rest = ground arith in
      subst (λ l. Perm l (y ∷ ys)) same
        (Perm.trans (Perm.swap y z zs) (Perm.cons y (pick-Perm i ys z zs e)))
]

-- The last item, and what is behind it.
pub pick-last : {A : Type 0} (xs : List A) (x : A) → pick (length xs) (xs ++ x ∷ []) ≡ some (x, xs)
unfolding pick
pick-last [] x = refl
pick-last (y ∷ xs) x = rw (pick-last xs x) refl

pub pick-length-none : {A : Type 0} (xs : List A) → pick (length xs) xs ≡ none
unfolding pick
pick-length-none [] = refl
pick-length-none (y ∷ xs) = rw (pick-length-none xs) refl

-- The library measures lists in unary numbers.
of_unary : Unary.ℕ → ℕ
of_unary Unary.zero = zero
of_unary (Unary.suc n) = suc (of_unary n)

length-of_unary : {A : Type 0} (xs : List A) → length xs ≡ of_unary (List.length xs)
unfolding of_unary
length-of_unary [] = refl
length-of_unary (x ∷ xs) = ap suc (length-of_unary xs)

pub Perm-length : {A : Type 0} {xs ys : List A} → Perm xs ys → length xs ≡ length ys
Perm-length {xs = xs} {ys = ys} p =
    length-of_unary xs ∙ ap of_unary (Perm.length-eq p) ∙ sym (length-of_unary ys)
