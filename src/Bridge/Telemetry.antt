-- ===== src/Bridge/Telemetry.antt =====
-- From a joint state of ROS to the window of state-svc.
use twin_services.Base.{
  ℕ, zero, suc, ◌≡◌, refl, Text, Bool, true, some, List, [], ◌∷◌, ◌++◌, map, length, All, arith,
}
use twin_services.Base.Result.{ok}
use twin_services.Contracts.Vocabulary.{
  JointField, position, velocity, effort, ur5_joint_names, schema_version as current_version,
}
use twin_services.Contracts.Topics.Matching.{IsSegment}
use twin_services.Contracts.Topics.Language.{parse-telemetry_topic}
use twin_services.Contracts.Telemetry.{JointTelemetry, TelemetryJson}
use twin_services.Contracts.Telemetry.Laws.{validate-write}
use twin_services.State.Consumer.{Message, Verdict, accepted, elem, judge}
use twin_services.Bridge.{
  JointStateMessage, Outgoing, get_elem?, index, field_lengths_match, outgoing, publish_from,
  publish_joint_states,
}

module _ {F : Type 0} where
  -- One joint with its three values, as they stand beside each other in the four lists.
  abbrev pub columns : List Text → List F → List F → List F → List (Text × F × F × F)
  columns (n ∷ ns) (p ∷ ps) (v ∷ vs) (e ∷ es) = (n, p, v, e) ∷ columns ns ps vs es
  columns _ _ _ _ = []

  drop : ℕ → List F → List F
  drop zero xs = xs
  drop (suc n) [] = []
  drop (suc n) (x ∷ xs) = drop n xs

  get_elem?-drop :
      (i : ℕ) (xs : List F) (y : F) (ys : List F)
      → drop i xs ≡ y ∷ ys
      → (get_elem? xs i ≡ some y) × (drop (suc i) xs ≡ ys)
  unfolding get_elem? drop
  get_elem?-drop zero [] y ys h = cc
  get_elem?-drop zero (x ∷ xs) y ys h = ground arith
  get_elem?-drop (suc i) [] y ys h = cc
  get_elem?-drop (suc i) (x ∷ xs) y ys h = get_elem?-drop i xs y ys h

module _ {F : Type 0} {is_finite : F → Bool} (json : TelemetryJson F is_finite) (asset : Text) where
  open json use {Payload}

  abbrev pub three : ℕ → Text × F × F × F → List (Outgoing Payload)
  three stamp (n, p, v, e) =
      outgoing json asset n position p stamp
      ∷ outgoing json asset n velocity v stamp
      ∷ outgoing json asset n effort e stamp
      ∷ []

  abbrev pub all_three : ℕ → List (Text × F × F × F) → List (Outgoing Payload)
  all_three stamp [] = []
  all_three stamp (c ∷ cs) = three stamp c ++ all_three stamp cs

  publish_from-columns :
      (m : JointStateMessage F) (i : ℕ) (ns : List Text) (ps vs es : List F)
      → drop i m.positions ≡ ps
      → drop i m.velocities ≡ vs
      → drop i m.efforts ≡ es
      → length ps ≡ length ns
      → length vs ≡ length ns
      → length es ≡ length ns
      → publish_from json asset m i ns ≡ ok (all_three m.stamp_ns (columns ns ps vs es))
  unfolding publish_from index
  publish_from-columns m i [] ps vs es hp hv he lp lv le = refl
  publish_from-columns m i (n ∷ ns) [] vs es hp hv he lp lv le = absurd (omega arith)
  publish_from-columns m i (n ∷ ns) (p ∷ ps) [] es hp hv he lp lv le = absurd (omega arith)
  publish_from-columns m i (n ∷ ns) (p ∷ ps) (v ∷ vs) [] hp hv he lp lv le = absurd (omega arith)
  publish_from-columns m i (n ∷ ns) (p ∷ ps) (v ∷ vs) (e ∷ es) hp hv he lp lv le =
      let (gp, dp) = get_elem?-drop i m.positions p ps hp in
      let (gv, dv) = get_elem?-drop i m.velocities v vs hv in
      let (ge, de) = get_elem?-drop i m.efforts e es he in
      let rest =
        publish_from-columns m (suc i) ns ps vs es dp dv de (omega arith) (omega arith)
          (omega arith) in
      rw (gp, gv, ge, rest)

  lengths_equal :
      (m : JointStateMessage F)
      → field_lengths_match m ≡ true
      → (length m.positions ≡ length m.names)
        × (length m.velocities ≡ length m.names)
        × (length m.efforts ≡ length m.names)
  unfolding field_lengths_match
  lengths_equal m h = ground arith

  -- If the four lists of a joint state are equally long, `publish_joint_states` raises no
  -- IndexError and publishes, joint by joint in order, the position, the velocity and the effort of
  -- the joint on the topics of their fields, all with the stamp of the joint state.
  pub publish-columns :
      (m : JointStateMessage F)
      → field_lengths_match m ≡ true
      → publish_joint_states json asset m
        ≡ ok (all_three m.stamp_ns (columns m.names m.positions m.velocities m.efforts))
  unfolding publish_joint_states drop
  publish-columns m h =
      let (lp, lv, le) = lengths_equal m h in
      rw h (
        publish_from-columns m 0 m.names m.positions m.velocities m.efforts refl refl refl lp lv le)

  abbrev pub as_message : Outgoing Payload → Message Payload
  as_message o = record { topic = o.topic; payload = some o.payload }

  -- The joints of the columns are joints of the robot, and their values are finite.
  abbrev pub IsUsable : Text × F × F × F → Type 0
  IsUsable (n, p, v, e) =
      (elem n ur5_joint_names ≡ true)
      × IsSegment n
      × (is_finite p ≡ true)
      × (is_finite v ≡ true)
      × (is_finite e ≡ true)

  sample : ℕ → F → JointTelemetry F
  sample stamp value = record { schema_version = current_version; value = value; stamp_ns = stamp }

  -- The observations that state-svc is meant to make of the columns.
  abbrev pub verdicts : ℕ → List (Text × F × F × F) → List (Verdict F)
  verdicts stamp [] = []
  verdicts stamp ((n, p, v, e) ∷ cs) =
      accepted n position (record { schema_version = current_version; value = p; stamp_ns = stamp })
      ∷ accepted n velocity
          (record { schema_version = current_version; value = v; stamp_ns = stamp })
      ∷ accepted n effort (record { schema_version = current_version; value = e; stamp_ns = stamp })
      ∷ verdicts stamp cs

  pub judge-outgoing :
      (n : Text) (f : JointField) (x : F) (stamp : ℕ)
      → IsSegment asset
      → IsSegment n
      → elem n ur5_joint_names ≡ true
      → is_finite x ≡ true
      → judge json (as_message (outgoing json asset n f x stamp))
        ≡ accepted n f (record { schema_version = current_version; value = x; stamp_ns = stamp })
  unfolding judge outgoing sample
  judge-outgoing n f x stamp ha hn known fin = rw (
    parse-telemetry_topic asset n f ha hn,
    known,
    validate-write json (sample stamp x) (omega arith) fin,
  )

  -- What the bridge publishes of a joint state is what state-svc accepts: for an asset whose name
  -- is a text without a slash and joints of the robot with finite values, every message passes
  -- `_observe`'s tests and yields the joint, the field, the value and the stamp that the bridge read.
  pub judge-all_three :
      (stamp : ℕ) (cs : List (Text × F × F × F))
      → IsSegment asset
      → All IsUsable cs
      → map (λ o. judge json (as_message o)) (all_three stamp cs) ≡ verdicts stamp cs
  judge-all_three stamp [] ha u = refl
  judge-all_three stamp ((n, p, v, e) ∷ cs) ha ((known, seg, fp, fv, fe), us) = rw (
    judge-outgoing n position p stamp ha seg known fp,
    judge-outgoing n velocity v stamp ha seg known fv,
    judge-outgoing n effort e stamp ha seg known fe,
    judge-all_three stamp cs ha us,
  )
