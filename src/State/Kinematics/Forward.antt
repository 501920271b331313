-- ===== src/State/Kinematics/Forward.antt =====
-- `forward`: when it yields a pose and when it raises.
use twin_services.Base.{◌≡◌, refl, ◌≢◌, arith, List, [], ◌∷◌, length, ◌++◌, inl, inr}
use twin_services.Base.Result.{raise, value_error, Exc, Total, Total-bind, Result-cases}
use twin_services.Floats.{Floats}
use twin_services.State.Kinematics.{
  Matrix, DhRow, zero, eye, dh_row, dh_table, dh_transform, quaternion_from_rotation, chain,
  forward,
}
use twin_services.State.Kinematics.Pivot.{IsExact, quaternion_total}

module _ (fl : Floats) where
  open fl use {F, cos, sin, half_pi, neg}

  -- An angle that `math.cos` and `math.sin` accept.
  abbrev pub HasCosine : F → Type 0
  HasCosine theta = Total (cos theta) × Total (sin theta)

  -- The three twists of the table.
  abbrev pub TwistsHaveCosines : Type 0
  TwistsHaveCosines = HasCosine (zero fl) × HasCosine half_pi × HasCosine (neg half_pi)

  abbrev pub AllCosines : List F → Type 0
  AllCosines [] = Unit
  AllCosines (theta ∷ thetas) = HasCosine theta × AllCosines thetas

  abbrev RowsHaveCosines : List (DhRow F) → Type 0
  RowsHaveCosines [] = Unit
  RowsHaveCosines (p ∷ ps) = HasCosine p.alpha × RowsHaveCosines ps

  dh_table-cosines : TwistsHaveCosines → RowsHaveCosines (dh_table fl)
  unfolding dh_table dh_row
  dh_table-cosines (z, h, n) = (h, (z, (z, (h, (n, (z, tt))))))

  dh_transform_total :
      (theta : F) (p : DhRow F)
      → HasCosine theta
      → HasCosine p.alpha
      → Total (dh_transform fl theta p)
  unfolding dh_transform
  dh_transform_total theta p (ct, st) (ca, sa) = Total-bind (cos theta) _ ct λ c.
      Total-bind (sin theta) _ st
        λ s. Total-bind (cos p.alpha) _ ca λ c'. Total-bind (sin p.alpha) _ sa λ s'. (_, refl)

  module _ (matmul : Matrix F → Matrix F → Matrix F) where
    chain_total :
        (t : Matrix F) (thetas : List F) (ps : List (DhRow F))
        → length thetas ≡ length ps
        → AllCosines thetas
        → RowsHaveCosines ps
        → Total (chain fl matmul t thetas ps)
    unfolding chain
    chain_total t [] [] e c r = (t, refl)
    chain_total t [] (p ∷ ps) e c r = absurd (omega arith)
    chain_total t (theta ∷ thetas) [] e c r = absurd (omega arith)
    chain_total t (theta ∷ thetas) (p ∷ ps) e c r =
        let (m, em) = dh_transform_total theta p c.0 r.0 in
        let (t', et) = chain_total (matmul t m) thetas ps (omega arith) c.1 r.1 in (t', rw (em, et))

    -- `forward` raises ValueError if the number of angles is not six.
    pub forward_wrong_length :
        (angles : List F) → length angles ≢ 6 → forward fl matmul angles ≡ raise value_error
    unfolding forward dh_table
    forward_wrong_length angles n = ground arith

    forward_of :
        IsExact fl
        → (angles : List F) → length angles ≡ 6
        → Total (chain fl matmul (eye fl) angles (dh_table fl))
        → Total (forward fl matmul angles)
    unfolding forward dh_table
    forward_of exact angles e total = rw e (
        Total-bind (chain fl matmul (eye fl) angles (dh_table fl)) _ total λ t.
          Total-bind (quaternion_from_rotation fl t) _ (quaternion_total fl exact t) λ q. (_, refl))

    -- In exact arithmetic, `forward` yields a pose for any six angles that have cosines and sines,
    -- if the twists of the table have theirs: whatever the product of matrices returns, no root of
    -- a negative number is taken and nothing is divided by zero.
    pub forward_total :
        IsExact fl
        → TwistsHaveCosines
        → (angles : List F) → length angles ≡ 6
        → AllCosines angles
        → Total (forward fl matmul angles)
    unfolding dh_table
    forward_total exact twists angles e c =
        forward_of exact angles e
          (chain_total (eye fl) angles (dh_table fl) e c (dh_table-cosines twists))

    -- An angle among six without a cosine ends the call with an exception.
    pub chain_raises :
        (t : Matrix F) (before : List F) (theta : F) (after : List F) (ps : List (DhRow F))
        {x : Exc}
        → length (before ++ theta ∷ after) ≡ length ps
        → cos theta ≡ raise x
        → (y : Exc) × (chain fl matmul t (before ++ theta ∷ after) ps ≡ raise y)
    unfolding chain dh_transform
    chain_raises t [] theta after [] e h = absurd (omega arith)
    chain_raises t [] theta after (p ∷ ps) {x} e h = (x, rw h)
    chain_raises t (a ∷ before) theta after [] e h = absurd (omega arith)
    chain_raises t (a ∷ before) theta after (p ∷ ps) e h =
        elim (Result-cases (dh_transform fl a p)) [
          | inl (m, em) ↦
              let (y, ey) = chain_raises (matmul t m) before theta after ps (omega arith) h in
              (y, rw (em, ey))
          | inr (y, ey) ↦ (y, rw ey)
        ]

    forward_of_raise :
        (angles : List F) (y : Exc)
        → length angles ≡ 6
        → chain fl matmul (eye fl) angles (dh_table fl) ≡ raise y
        → forward fl matmul angles ≡ raise y
    unfolding forward dh_table
    forward_of_raise angles y e h = rw (e, h)

    -- `forward` raises if an angle has no cosine, as an infinite one in Python.
    pub forward_raises :
        (before : List F) (theta : F) (after : List F) {x : Exc}
        → length (before ++ theta ∷ after) ≡ 6
        → cos theta ≡ raise x
        → (y : Exc) × (forward fl matmul (before ++ theta ∷ after) ≡ raise y)
    unfolding dh_table
    forward_raises before theta after e h =
        let (y, ey) = chain_raises (eye fl) before theta after (dh_table fl) e h in
        (y, forward_of_raise (before ++ theta ∷ after) y e ey)
