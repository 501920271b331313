-- ===== src/Contracts/Topics.antt =====
-- The topics of contracts/src/contracts/models.py: the f-strings that build them, and the regular
-- expression that takes a telemetry topic apart. A group `[^/]+` is followed by a literal that
-- begins with a slash, so only its longest match can succeed and there is nothing to backtrack.
pub mod Matching
pub mod Language
use mathlib.Core.Option.{Option, none, some}
use twin_services.Base.{Text, codes, Bool, true, false, [], ◌∷◌, ◌++◌, ◌==◌, if◌then◌else◌}
use twin_services.Base.Result.{Result, ok, raise, value_error, or_raise, ◌>>=◌}
use twin_services.Contracts.Vocabulary.{
  JointField, position, velocity, effort, field_value, joint_field,
}

unfoldable pub telemetry_topic : Text → Text → JointField → Text
telemetry_topic asset joint field =
    codes "twin/" ++ (asset ++ (codes "/joint/" ++ (joint ++ (codes "/" ++ field_value field))))

unfoldable pub telemetry_wildcard : Text → Text
telemetry_wildcard asset = codes "twin/" ++ (asset ++ codes "/joint/+/+")

unfoldable pub command_topic : Text → Text
command_topic asset = codes "twin/" ++ (asset ++ codes "/cmd/joints")

-- A literal of the expression: what stands behind it.
literal : Text → Text → Option Text
literal [] s = some s
literal (p ∷ ps) [] = none
literal (p ∷ ps) (c ∷ s) = if c == p then literal ps s else none

-- `[^/]*`, and the rest.
segment : Text → Text × Text
segment [] = ([], [])
segment (c ∷ s) = let (a, r) = segment s in if c == b'/' then ([], c ∷ s) else (c ∷ a, r)

nonempty : Text × Text → Option (Text × Text)
nonempty ([], r) = none
nonempty (c ∷ a, r) = some (c ∷ a, r)

-- `[^/]+`
group : Text → Option (Text × Text)
unfolding segment nonempty
group s = nonempty (segment s)

-- `$` holds at the end of the text, and before a newline that ends it.
at_end : Text → Bool
at_end [] = true
at_end (c ∷ []) = c == b'\n'
at_end _ = false

-- One alternative of the last group, and `$`.
alternative : Text → Text → Bool
unfolding literal at_end
alternative word s = elim (literal word s) [ none ↦ false | some r ↦ at_end r ]

-- `(position|velocity|effort)$`
field_group : Text → Option Text
unfolding alternative
field_group s =
    if alternative (codes "position") s
    then some (codes "position")
    else if alternative (codes "velocity") s
    then some (codes "velocity")
    else if alternative (codes "effort") s
    then some (codes "effort")
    else none

-- The named groups of a match.
pub record Match : Type 0 where
  pub asset : Text
  pub joint : Text
  pub field : Text

abbrev and_then {ℓ κ} : {A : Type ℓ} {B : Type κ} → Option A → (A → Option B) → Option B
and_then none f = none
and_then (some a) f = f a

after_joint : Text → Text → Text → Option Match
unfolding literal field_group
after_joint asset joint s = and_then (literal (codes "/") s) λ r.
    and_then (field_group r) λ field. some (record { asset = asset; joint = joint; field = field })

after_asset : Text → Text → Option Match
unfolding literal group after_joint
after_asset asset s =
    and_then (literal (codes "/joint/") s)
      λ r. and_then (group r) λ (joint, r'). after_joint asset joint r'

-- `_TELEMETRY_TOPIC.match(topic)`
pub telemetry_match : Text → Option Match
unfolding literal group after_asset
telemetry_match topic =
    and_then (literal (codes "twin/") topic)
      λ r. and_then (group r) λ (asset, r'). after_asset asset r'

unfoldable pub parse_telemetry_topic : Text → Result (Text × Text × JointField)
parse_telemetry_topic topic = or_raise (telemetry_match topic) value_error >>= λ m.
    joint_field m.field >>= λ field. ok (m.asset, m.joint, field)
