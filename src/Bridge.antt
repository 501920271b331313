-- ===== src/Bridge.antt =====
-- bridge/src/bridge: `JointStateMessage` of models.py, and `publish_joint_states`, the message
-- handling of `command_worker` and `BridgeNode.publish_command` of main.py. MQTT and ROS publishers
-- are seen as the lists of what they were given.
pub mod Telemetry
pub mod Trajectory
pub mod Delivery
pub mod Pipeline
pub mod Commander
pub mod Node
use twin_services.Base.{
  ℕ, zero, suc, ◌+◌, ◌*◌, Text, Bool, true, false, ◌&&◌, Option, none, some, List, [], ◌∷◌, ◌++◌,
  map, length, ◌==◌, if◌then◌else◌,
}
use twin_services.Base.Eq.{Dict, lookup, text_is_eq}
use twin_services.Base.Int.{ℤ, pos, negsuc, ◌-ℤ◌}
use twin_services.Base.Result.{
  Result, ok, raise, index_error, key_error, assertion_error, validation_error, or_raise,
  map_result, ◌>>=◌,
}
use twin_services.Floats.{Floats}
use twin_services.Contracts.Vocabulary.{
  JointField, position, velocity, effort, CommandKind, home, move_joints, ur5_joint_names,
  schema_version as current_version,
}
use twin_services.Contracts.Topics.{telemetry_topic}
use twin_services.Contracts.Telemetry.{JointTelemetry, TelemetryJson, at_least}
use twin_services.Contracts.Command.{JointCommand, CommandJson, validate_command}

pub record JointStateMessage (F : Type 0) : Type 0 where
  pub stamp_ns : ℕ
  pub names : List Text
  pub positions : List F
  pub velocities : List F
  pub efforts : List F

-- What `_on_msg` reads from a `sensor_msgs/JointState`.
pub record JointState (F : Type 0) : Type 0 where
  pub sec : ℤ
  pub nanosec : ℕ
  pub name : List Text
  pub position : List F
  pub velocity : List F
  pub effort : List F

-- A publication on MQTT.
pub record Outgoing (Payload : Type 0) : Type 0 where
  pub topic : Text
  pub payload : Payload

-- `min_length=1`
abbrev at_least_one : List Text → Result (List Text)
at_least_one [] = raise validation_error
at_least_one (n ∷ ns) = ok (n ∷ ns)

-- `xs[i]`
unfoldable pub get_elem? : {A : Type 0} → List A → ℕ → Option A
get_elem? [] i = none
get_elem? (x ∷ xs) zero = some x
get_elem? (x ∷ xs) (suc i) = get_elem? xs i

unfoldable pub index : {A : Type 0} → List A → ℕ → Result A
index xs i = or_raise (get_elem? xs i) index_error

-- `sec * 1_000_000_000 + nanosec`, where `sec` may be negative.
abbrev pub stamp_of : ℤ → ℕ → ℤ
stamp_of (pos n) nanosec = pos (n * 1000000000 + nanosec)
stamp_of (negsuc n) nanosec = pos nanosec -ℤ pos (suc n * 1000000000)

module _ {F : Type 0} where
  -- `JointStateMessage(...)` in `_on_msg`; what does not validate is dropped there.
  unfoldable pub validate_state : JointState F → Result (JointStateMessage F)
  validate_state m = at_least 0 (stamp_of m.sec m.nanosec) >>= λ ns.
      at_least_one m.name >>= λ names. ok (record {
        stamp_ns = ns;
        names = names;
        positions = m.position;
        velocities = m.velocity;
        efforts = m.effort;
      })

  unfoldable pub field_lengths_match : JointStateMessage F → Bool
  field_lengths_match m =
      (length m.positions == length m.velocities)
      && (length m.velocities == length m.efforts)
      && (length m.efforts == length m.names)

module _ {F : Type 0} {is_finite : F → Bool} (json : TelemetryJson F is_finite) where
  open json use {Payload, write}

  -- `JointTelemetry(value=value, stamp_ns=stamp)`, written on its topic.
  unfoldable pub outgoing : Text → Text → JointField → F → ℕ → Outgoing Payload
  outgoing asset name field value stamp = record {
    topic = telemetry_topic asset name field;
    payload = write (record { schema_version = current_version; value = value; stamp_ns = stamp });
  }

  -- The loop over `enumerate(msg.names)`, from index `i`; the three values are read before the
  -- first of them is published.
  unfoldable pub publish_from :
      Text → JointStateMessage F → ℕ → List Text → Result (List (Outgoing Payload))
  unfolding outgoing index
  publish_from asset m i [] = ok []
  publish_from asset m i (name ∷ names) = index m.positions i >>= λ p. index m.velocities i >>= λ v.
      index m.efforts i >>= λ e. publish_from asset m (suc i) names >>= λ rest. ok (
        outgoing asset name position p m.stamp_ns
        ∷ outgoing asset name velocity v m.stamp_ns
        ∷ outgoing asset name effort e m.stamp_ns
        ∷ rest)

  -- `publish_joint_states`, with what it publishes.
  unfoldable pub publish_joint_states :
      Text → JointStateMessage F → Result (List (Outgoing Payload))
  unfolding publish_from field_lengths_match
  publish_joint_states asset m =
      if field_lengths_match m then publish_from asset m 0 m.names else ok []

-- `JointJointTrajectory` with its one point.
pub record JointTrajectory (F : Type 0) : Type 0 where
  pub joint_names : List Text
  pub positions : List F
  pub sec : ℤ
  pub nanosec : ℤ

module _ (fl : Floats) where
  open fl use {F, literal, mul, rem, truncate}

  -- The names and the positions of the point.
  unfoldable pub targets : CommandKind → Option (Dict Text F) → Result (List Text × List F)
  targets home positions = ok (ur5_joint_names, map (λ _. literal (pos 0) 1) ur5_joint_names)
  targets move_joints none = raise assertion_error
  targets move_joints (some d) =
      let names = map (λ (p : Text × F). p.0) d in
      map_result (λ n. or_raise (lookup n d) key_error) names >>= λ values. ok (names, values)

  -- `publish_command`
  unfoldable pub publish_command : JointCommand F → Result (JointTrajectory F)
  unfolding targets
  publish_command cmd = targets cmd.kind cmd.positions >>= λ (names, positions).
      truncate cmd.duration_s >>= λ sec. rem cmd.duration_s (literal (pos 10) 1) >>= λ fraction.
      truncate (mul fraction (literal (pos 1000000000) 0)) >>= λ nanosec.
      ok (record { joint_names = names; positions = positions; sec = sec; nanosec = nanosec })

  module _ (json : CommandJson fl) where
    judge_command : Result (JointCommand F) → Result (Option (JointTrajectory F))
    unfolding publish_command
    judge_command (raise _) = ok none
    judge_command (ok cmd) = publish_command cmd >>= λ t. ok (some t)

    -- One message of `command_worker`: what it hands to the controller, if anything. A payload that
    -- is neither bytes nor str is `none`.
    unfoldable pub forward_command : Option json.Payload → Result (Option (JointTrajectory F))
    unfolding judge_command
    forward_command none = ok none
    forward_command (some p) = judge_command (validate_command json p)
