-- ===== src/Contracts/Vocabulary.antt =====
-- contracts/src/contracts/models.py: the schema version, the joint names and the two enums.
use twin_services.Base.{
  Text, codes, ℕ, ◌≡◌, ◌↔◌, Bool, true, false, List, [], ◌∷◌, arith, text_eq, if◌then◌else◌,
}
use twin_services.Base.Eq.{Eq}
use twin_services.Base.Result.{Result, ok, raise, value_error}

abbrev pub schema_version : ℕ
schema_version = 1

-- `UR5_JOINT_NAMES`
abbrev pub ur5_joint_names : List Text
ur5_joint_names =
    codes "shoulder_pan_joint"
    ∷ codes "shoulder_lift_joint"
    ∷ codes "elbow_joint"
    ∷ codes "wrist_1_joint"
    ∷ codes "wrist_2_joint"
    ∷ codes "wrist_3_joint"
    ∷ []

pub data JointField : Type 0 where
  position velocity effort : JointField

-- The `value` of the `StrEnum`, which is also how an f-string writes it.
abbrev pub field_value : JointField → Text
field_value position = codes "position"
field_value velocity = codes "velocity"
field_value effort = codes "effort"

-- `JointField(value)`
unfoldable pub joint_field : Text → Result JointField
unfolding text_eq
joint_field t =
    if text_eq t (codes "position")
    then ok position
    else if text_eq t (codes "velocity")
    then ok velocity
    else if text_eq t (codes "effort")
    then ok effort
    else raise value_error

abbrev pub field_eq : JointField → JointField → Bool
field_eq position position = true
field_eq velocity velocity = true
field_eq effort effort = true
field_eq _ _ = false

pub field_eq_iff : (f g : JointField) → (field_eq f g ≡ true) ↔ (f ≡ g)
field_eq_iff f g = ground arith

-- `is` on the enum
instance abbrev pub field_is_eq : Eq JointField
field_is_eq = record { beq = field_eq; beq_iff = field_eq_iff }

pub data CommandKind : Type 0 where
  home move_joints : CommandKind

abbrev pub kind_value : CommandKind → Text
kind_value home = codes "home"
kind_value move_joints = codes "move_joints"
