-- ===== src/State/Kinematics.antt =====
-- services/state-svc/src/state_svc/kinematics.py. A matrix is a function of its indices; numpy's
-- product is a parameter, since its order of summation is its own.
pub mod Pivot
pub mod Forward
use twin_services.Base.{ℕ, Bool, true, false, ◌&&◌, List, [], ◌∷◌, length, ◌==◌, if◌then◌else◌}
use twin_services.Base.Int.{ℤ, pos, negsuc}
use twin_services.Base.Result.{Result, ok, raise, value_error, ◌>>=◌}
use twin_services.Floats.{Floats}

pub data Index : Type 0 where
  i0 i1 i2 i3 : Index

abbrev pub Matrix : Type 0 → Type 0
Matrix F = Index → Index → F

pub record Pose (F : Type 0) : Type 0 where
  pub x : F
  pub y : F
  pub z : F
  pub qx : F
  pub qy : F
  pub qz : F
  pub qw : F

-- A row of the DH table: `_D`, `_A` and `_ALPHA` at one joint.
pub record DhRow (F : Type 0) : Type 0 where
  pub d : F
  pub a : F
  pub alpha : F

-- The last argument of each is the column.
abbrev row : {F : Type 0} → F → F → F → F → Index → F
row a b c d i0 = a
row a b c d i1 = b
row a b c d i2 = c
row a b c d i3 = d

abbrev rows : {F : Type 0} → (Index → F) → (Index → F) → (Index → F) → (Index → F) → Matrix F
rows a b c d i0 = a
rows a b c d i1 = b
rows a b c d i2 = c
rows a b c d i3 = d

module _ (fl : Floats) where
  open fl use {F, literal, add, sub, mul, neg, div, lt, sqrt, cos, sin, half_pi}

  abbrev pub zero : F
  zero = literal (pos 0) 1

  abbrev pub one : F
  one = literal (pos 10) 1

  abbrev pub two : F
  two = literal (pos 20) 1

  dh_row : F → F → F → DhRow F
  dh_row d a alpha = record { d = d; a = a; alpha = alpha }

  -- The published UR5 parameters, in joint order.
  unfoldable pub dh_table : List (DhRow F)
  unfolding dh_row
  dh_table =
      dh_row (literal (pos 89159) 6) zero half_pi
      ∷ dh_row zero (literal (negsuc 424) 3) zero
      ∷ dh_row zero (literal (negsuc 39224) 5) zero
      ∷ dh_row (literal (pos 10915) 5) zero half_pi
      ∷ dh_row (literal (pos 9465) 5) zero (neg half_pi)
      ∷ dh_row (literal (pos 823) 4) zero zero
      ∷ []

  -- `np.eye(4)`
  unfoldable pub eye : Matrix F
  eye =
      rows (row one zero zero zero) (row zero one zero zero) (row zero zero one zero)
        (row zero zero zero one)

  unfoldable pub dh_transform : F → DhRow F → Result (Matrix F)
  dh_transform theta p = cos theta >>= λ ct. sin theta >>= λ st. cos p.alpha >>= λ ca.
      sin p.alpha >>= λ sa. ok (
        rows (row ct (mul (neg st) ca) (mul st sa) (mul p.a ct))
          (row st (mul ct ca) (mul (neg ct) sa) (mul p.a st)) (row zero sa ca p.d)
          (row zero zero zero one))

  -- `float(n) / s` for the three quotients of a branch
  abbrev pub over3 : F → F → F → F → Result (F × F × F)
  over3 s a b c = div a s >>= λ x. div b s >>= λ y. div c s >>= λ z. ok (x, y, z)

  -- `math.sqrt(pivot) * 2.0`
  abbrev pub twice_root : F → Result F
  twice_root pivot = sqrt pivot >>= λ s. ok (mul s two)

  abbrev pub quarter : F → F
  quarter s = mul (literal (pos 25) 2) s

  abbrev pub trace : Matrix F → F
  trace r = add (add (r i0 i0) (r i1 i1)) (r i2 i2)

  -- What stands under the root in each branch.
  unfoldable pub pivot : Matrix F → F
  pivot r =
      if lt zero (trace r)
      then add (trace r) one
      else if lt (r i1 i1) (r i0 i0) && lt (r i2 i2) (r i0 i0)
      then add one (sub (sub (r i0 i0) (r i1 i1)) (r i2 i2))
      else if lt (r i2 i2) (r i1 i1)
      then add one (sub (sub (r i1 i1) (r i0 i0)) (r i2 i2))
      else add one (sub (sub (r i2 i2) (r i0 i0)) (r i1 i1))

  -- The components of the quaternion, for the root `s` of the branch.
  unfoldable pub components : Matrix F → F → Result (F × F × F × F)
  components r s =
      if lt zero (trace r)
      then (over3 s (sub (r i2 i1) (r i1 i2)) (sub (r i0 i2) (r i2 i0)) (sub (r i1 i0) (r i0 i1))
          >>= λ (x, y, z). ok (x, y, z, quarter s))
      else if lt (r i1 i1) (r i0 i0) && lt (r i2 i2) (r i0 i0)
      then (over3 s (add (r i0 i1) (r i1 i0)) (add (r i0 i2) (r i2 i0)) (sub (r i2 i1) (r i1 i2))
          >>= λ (y, z, w). ok (quarter s, y, z, w))
      else if lt (r i2 i2) (r i1 i1)
      then (over3 s (add (r i0 i1) (r i1 i0)) (add (r i1 i2) (r i2 i1)) (sub (r i0 i2) (r i2 i0))
          >>= λ (x, z, w). ok (x, quarter s, z, w))
      else (over3 s (add (r i0 i2) (r i2 i0)) (add (r i1 i2) (r i2 i1)) (sub (r i1 i0) (r i0 i1))
          >>= λ (x, y, w). ok (x, y, quarter s, w))

  -- `_quaternion_from_rotation`: every branch takes the root of its pivot first.
  unfoldable pub quaternion_from_rotation : Matrix F → Result (F × F × F × F)
  quaternion_from_rotation r = twice_root (pivot r) >>= λ s. components r s

  -- The loop of `forward`; `zip(strict=True)` raises if the lists differ in length.
  unfoldable pub chain :
      (Matrix F → Matrix F → Matrix F) → Matrix F → List F → List (DhRow F) → Result (Matrix F)
  chain matmul t [] [] = ok t
  chain matmul t (theta ∷ thetas) (p ∷ ps) =
      dh_transform theta p >>= λ m. chain matmul (matmul t m) thetas ps
  chain matmul t _ _ = raise value_error

  unfoldable pub forward : (Matrix F → Matrix F → Matrix F) → List F → Result (Pose F)
  unfolding chain
  forward matmul joint_angles =
      if length joint_angles == length dh_table
      then (chain matmul eye joint_angles dh_table >>= λ t.
          quaternion_from_rotation t >>= λ (qx, qy, qz, qw).
          ok (record { x = t i0 i3; y = t i1 i3; z = t i2 i3; qx = qx; qy = qy; qz = qz; qw = qw }))
      else raise value_error
