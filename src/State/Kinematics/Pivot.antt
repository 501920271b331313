-- ===== src/State/Kinematics/Pivot.antt =====
-- The largest-pivot branches of `_quaternion_from_rotation`, in exact arithmetic.
use twin_services.Base.{ℕ, ◌≡◌, sym, ap, ◌∙◌, true, false, ◌&&◌, arith, Bool-cases, inl, inr}
use twin_services.Base.Int.{ℤ, pos, ◌+ℤ◌, ◌-ℤ◌, ◌≤ℤ◌, ltb_ℤ, int_laws, lt_of-ltb_ℤ, le_of-ltb_ℤ}
use twin_services.Base.Result.{ok, ◌>>=◌, Total, Total-if}
use twin_services.Floats.{Floats}
use twin_services.State.Kinematics.{
  Matrix, i0, i1, i2, zero, one, trace, twice_root, pivot, over3, quarter, components,
  quaternion_from_rotation,
}

-- Floats read as exact multiples of one unit: addition and comparison are those of the integers,
-- and a root of at least 1 is a divisor. Rounding is left out.
pub record IsExact (fl : Floats) : Type 0 where
  pub units : fl.F → ℤ
  pub one_units : ℕ
  pub units_of_zero : units (fl.literal (pos 0) 1) ≡ pos 0
  pub units_of_one : units (fl.literal (pos 10) 1) ≡ pos one_units
  pub units-add : (a b : fl.F) → units (fl.add a b) ≡ units a +ℤ units b
  pub units-sub : (a b : fl.F) → units (fl.sub a b) ≡ units a -ℤ units b
  pub lt_units : (a b : fl.F) → fl.lt a b ≡ ltb_ℤ (units a) (units b)
  pub root :
      (x : fl.F)
      → pos one_units ≤ℤ units x
      → (s : fl.F) × (twice_root fl x ≡ ok s) × ((a : fl.F) → Total (fl.div a s))

module _ (fl : Floats) (exact : IsExact fl) where
  open exact use {
    units, one_units, units_of_zero, units_of_one, units-add, units-sub, lt_units, root,
  }

  not_less : (a b : fl.F) → fl.lt a b ≡ false → units b ≤ℤ units a
  not_less a b h = le_of-ltb_ℤ (units a) (units b) (sym (lt_units a b) ∙ h)

  less : (a b : fl.F) → fl.lt a b ≡ true → units a ≤ℤ units b
  less a b h = let p = lt_of-ltb_ℤ (units a) (units b) (sym (lt_units a b) ∙ h) in omega (arith, p)

  module _ (x y z : fl.F) where
    sum3_units : units (fl.add (fl.add x y) z) ≡ (units x +ℤ units y) +ℤ units z
    sum3_units = units-add _ _ ∙ ap (λ n. n +ℤ units z) (units-add x y)

    diff3_units :
        units (fl.add (one fl) (fl.sub (fl.sub x y) z))
        ≡ pos one_units +ℤ ((units x -ℤ units y) -ℤ units z)
    diff3_units = units-add _ _ ∙ rw (units_of_one, units-sub (fl.sub x y) z, units-sub x y)

  -- A number that is the largest of three with a sum of 0 or less is at least their sum.
  diff3_ge :
      (x y z : fl.F)
      → ((units x +ℤ units y) +ℤ units z) ≤ℤ pos 0
      → units y ≤ℤ units x
      → units z ≤ℤ units x
      → pos one_units ≤ℤ units (fl.add (one fl) (fl.sub (fl.sub x y) z))
  diff3_ge x y z t p q = rw diff3_units (omega int_laws)

  sum_le_zero :
      (x y z : fl.F)
      → fl.lt (zero fl) (fl.add (fl.add x y) z) ≡ false
      → ((units x +ℤ units y) +ℤ units z) ≤ℤ pos 0
  sum_le_zero x y z h =
      rw (sum3_units x y z, units_of_zero) at (not_less (zero fl) (fl.add (fl.add x y) z) h)

  sum_ge_one : (t : fl.F) → units (zero fl) ≤ℤ units t → pos one_units ≤ℤ units (fl.add t (one fl))
  sum_ge_one t h =
      let p = rw units_of_zero at h in rw (units-add, units_of_one) (omega (int_laws, p))

  -- Whatever the matrix, the number under the root is at least 1, in exact arithmetic.
  pub pivot_ge_one : (r : Matrix fl.F) → pos one_units ≤ℤ units (pivot fl r)
  unfolding pivot
  pivot_ge_one r = elim (Bool-cases (fl.lt (zero fl) (trace fl r))) [
    | inl p ↦ rw p (sum_ge_one (trace fl r) (less (zero fl) (trace fl r) p))
    | inr np ↦
        let t = sum_le_zero x y z np in
        elim (Bool-cases (fl.lt y x)) [
          | inl yx ↦ elim (Bool-cases (fl.lt z x)) [
            | inl zx ↦ rw (np, yx, zx) (diff3_ge x y z t (less y x yx) (less z x zx))
            | inr nzx ↦ elim (Bool-cases (fl.lt z y)) [
              | inl zy ↦
                  rw (np, yx, nzx, zy)
                    (diff3_ge y x z (omega (int_laws, t))
                      (omega (arith, not_less z x nzx, less z y zy)) (less z y zy))
              | inr nzy ↦
                  rw (np, yx, nzx, nzy)
                    (diff3_ge z x y (omega (int_laws, t)) (not_less z x nzx) (not_less z y nzy))
            ]
          ]
          | inr nyx ↦ elim (Bool-cases (fl.lt z y)) [
            | inl zy ↦
                rw (np, nyx, zy)
                  (diff3_ge y x z (omega (int_laws, t)) (not_less y x nyx) (less z y zy))
            | inr nzy ↦
                rw (np, nyx, nzy)
                  (diff3_ge z x y (omega (int_laws, t))
                    (omega (arith, not_less y x nyx, not_less z y nzy)) (not_less z y nzy))
          ]
        ]
  ]
    where
      x : fl.F
      x = r i0 i0

      y : fl.F
      y = r i1 i1

      z : fl.F
      z = r i2 i2

  finish :
      (s : fl.F)
      → ((a : fl.F) → Total (fl.div a s))
      → (a b c : fl.F) (f : fl.F × fl.F × fl.F → fl.F × fl.F × fl.F × fl.F)
      → Total (over3 fl s a b c >>= λ t. ok (f t))
  finish s divides a b c f =
      let (x, ex) = divides a in
      let (y, ey) = divides b in let (z, ez) = divides c in (f (x, y, z), rw (ex, ey, ez))

  components_total :
      (r : Matrix fl.F) (s : fl.F) → ((a : fl.F) → Total (fl.div a s)) → Total (components fl r s)
  unfolding components
  components_total r s divides =
      Total-if (fl.lt (zero fl) (trace fl r)) _ _
        (finish s divides (fl.sub (r i2 i1) (r i1 i2)) (fl.sub (r i0 i2) (r i2 i0))
          (fl.sub (r i1 i0) (r i0 i1)) (λ t. (t.0, t.1, t.2, quarter fl s)))
        (Total-if (fl.lt (r i1 i1) (r i0 i0) && fl.lt (r i2 i2) (r i0 i0)) _ _
          (finish s divides (fl.add (r i0 i1) (r i1 i0)) (fl.add (r i0 i2) (r i2 i0))
            (fl.sub (r i2 i1) (r i1 i2)) (λ t. (quarter fl s, t.0, t.1, t.2)))
          (Total-if (fl.lt (r i2 i2) (r i1 i1)) _ _
            (finish s divides (fl.add (r i0 i1) (r i1 i0)) (fl.add (r i1 i2) (r i2 i1))
              (fl.sub (r i0 i2) (r i2 i0)) (λ t. (t.0, quarter fl s, t.1, t.2)))
            (finish s divides (fl.add (r i0 i2) (r i2 i0)) (fl.add (r i1 i2) (r i2 i1))
              (fl.sub (r i1 i0) (r i0 i1)) (λ t. (t.0, t.1, quarter fl s, t.2)))))

  -- So in exact arithmetic every matrix has a quaternion: no branch takes the root of a negative
  -- number or divides by zero.
  pub quaternion_total : (r : Matrix fl.F) → Total (quaternion_from_rotation fl r)
  unfolding quaternion_from_rotation
  quaternion_total r =
      let (s, es, divides) = root (pivot fl r) (pivot_ge_one r) in
      let (q, eq) = components_total r s divides in (q, rw es eq)
