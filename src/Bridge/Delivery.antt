-- ===== src/Bridge/Delivery.antt =====
-- A joint state on its whole way: from ROS over the messages of the bridge to the window of
-- state-svc and to the state that its broadcaster publishes.
pub mod Readings
pub mod Display
use twin_services.Base.{
  ℕ, Text, ◌≡◌, refl, ◌∙◌, true, false, Option, some, List, [], ◌∷◌, map, All, arith, text_eq,
  text_eq_iff,
}
use twin_services.Base.Eq.{contains, text_is_eq}
use twin_services.Base.Result.{ok, Total}
use twin_services.Floats.{Floats}
use twin_services.Contracts.Vocabulary.{
  JointField, position, velocity, effort, schema_version as current_version,
}
use twin_services.Contracts.Topics.Matching.{IsSegment}
use twin_services.Contracts.Telemetry.{TelemetryJson}
use twin_services.State.Window.{RollingWindow, readings}
use twin_services.State.Window.History.{Observation, observe_all}
use twin_services.State.Window.Latest.{newest, latest-observe_all, readings-gather}
use twin_services.State.Build.{Vendor}
use twin_services.State.Consumer.{Consumer, Event, message, elem, step, run}
use twin_services.State.Consumer.Account.{admitted_of, run-Adds}
use twin_services.Bridge.{JointStateMessage, Outgoing, field_lengths_match, publish_joint_states}
use twin_services.Bridge.Telemetry.{
  columns, all_three, as_message, IsUsable, judge-outgoing, publish-columns,
}

All-map :
    {A : Type 0} {P Q : A → Type 0} (xs : List A) → ((x : A) → P x → Q x) → All P xs → All Q xs
All-map [] f a = tt
All-map (x ∷ xs) f (p, a) = (f x p, All-map xs f a)

module _ {F : Type 0} where
  abbrev pub names_of : List (Text × F × F × F) → List Text
  names_of cs = map (λ (c : Text × F × F × F). c.0) cs

  -- No joint is named twice.
  abbrev pub AreDistinct : List (Text × F × F × F) → Type 0
  AreDistinct [] = Unit
  AreDistinct (c ∷ cs) = (elem c.0 (names_of cs) ≡ false) × AreDistinct cs

  abbrev seen : Text → JointField → F → ℕ → Observation F
  seen n f x stamp = record {
    joint = n;
    field = f;
    sample = record { schema_version = current_version; value = x; stamp_ns = stamp };
  }

  -- What state-svc is meant to see of the columns.
  abbrev pub observations : ℕ → List (Text × F × F × F) → List (Observation F)
  observations stamp [] = []
  observations stamp ((n, p, v, e) ∷ cs) =
      seen n position p stamp
      ∷ seen n velocity v stamp
      ∷ seen n effort e stamp
      ∷ observations stamp cs

module _ (fl : Floats) where
  open fl use {F, is_finite}

  elem-cons :
      (n m : Text) (ns : List Text)
      → elem n (m ∷ ns) ≡ false
      → (text_eq m n ≡ false) × (elem n ns ≡ false)
  unfolding elem
  elem-cons n m ns h = ground (arith, text_eq_iff n m, text_eq_iff m n)

  -- A joint that is not among the columns keeps what it had.
  newest_absent :
      (n : Text) (f : JointField) (stamp : ℕ) (cs : List (Text × F × F × F)) (old : Option F)
      → elem n (names_of cs) ≡ false
      → newest n f old (observations stamp cs) ≡ old
  newest_absent n f stamp [] old h = refl
  newest_absent n f stamp ((m, p, v, e) ∷ cs) old h =
      let (other, rest) = elem-cons n m (names_of cs) h in
      newest_absent n f stamp cs _ rest ∙ rw other refl

  -- The log ends with the values of the column, whatever was read before.
  abbrev EndsWith : List (Observation F) → Text × F × F × F → Type 0
  EndsWith os (n, p, v, e) =
      (old : Option F)
      → (newest n position old os ≡ some p)
        × (newest n velocity old os ≡ some v)
        × (newest n effort old os ≡ some e)

  observations-EndsWith :
      (stamp : ℕ) (cs : List (Text × F × F × F))
      → AreDistinct cs
      → All (EndsWith (observations stamp cs)) cs
  observations-EndsWith stamp [] d = tt
  observations-EndsWith stamp ((n, p, v, e) ∷ cs) (new, d) = (
    λ old. (
      newest_absent n position stamp cs _ new ∙ rw itself refl,
      newest_absent n velocity stamp cs _ new ∙ rw itself refl,
      newest_absent n effort stamp cs _ new ∙ rw itself refl,
    ),
    All-map cs (λ (m, q, w, g) ends old. ((ends _).0, (ends _).1, (ends _).2))
        (observations-EndsWith stamp cs d),
  )
    where
      itself : text_eq n n ≡ true
      itself = (text_eq_iff n n).1 refl

  -- After messages that end with the columns, the readings of a tracked joint are its column's.
  readings-EndsWith :
      (w : RollingWindow F) (os : List (Observation F)) (n : Text) (p v e : F)
      → contains n w.velocities ≡ true
      → EndsWith os (n, p, v, e)
      → readings fl (observe_all os w) n ≡ some (p, v, e)
  readings-EndsWith w os n p v e there ends =
      readings-gather fl (observe_all os w) n
      ∙ rw
          (
            latest-observe_all fl n position os w there ∙ (ends _).0,
            latest-observe_all fl n velocity os w there ∙ (ends _).1,
            latest-observe_all fl n effort os w there ∙ (ends _).2,
          )
          refl

  -- The readings of the column's joint are the column's values.
  abbrev pub Shows : RollingWindow F → Text × F × F × F → Type 0
  Shows w (n, p, v, e) = readings fl w n ≡ some (p, v, e)

  abbrev pub IsTracked : RollingWindow F → Text × F × F × F → Type 0
  IsTracked w (n, p, v, e) = contains n w.velocities ≡ true

  observations-Shows :
      (w : RollingWindow F) (os : List (Observation F)) (cs : List (Text × F × F × F))
      → All (IsTracked w) cs
      → All (EndsWith os) cs
      → All (Shows (observe_all os w)) cs
  observations-Shows w os [] t a = tt
  observations-Shows w os ((n, p, v, e) ∷ cs) t a =
      (readings-EndsWith w os n p v e t.0 a.0, observations-Shows w os cs t.1 a.1)

  module _ (vendor : Vendor F) (json : TelemetryJson F is_finite) (asset : Text) where
    -- The broker hands the publications to state-svc, in their order.
    abbrev pub as_events : List (Outgoing json.Payload) → List (Event json.Payload)
    as_events out = map (λ o. message (as_message json asset o)) out

    -- Messages alone never stop the service.
    pub run-messages :
        (out : List (Outgoing json.Payload)) (c : Consumer F)
        → Total (run fl vendor json (as_events out) c)
    unfolding run step
    run-messages [] c = (c, refl)
    run-messages (o ∷ out) c = run-messages out _

    pub admitted_of-as_events :
        (stamp : ℕ) (cs : List (Text × F × F × F))
        → IsSegment asset
        → All (IsUsable json asset) cs
        → admitted_of json (as_events (all_three json asset stamp cs)) ≡ observations stamp cs
    admitted_of-as_events stamp [] ha u = refl
    admitted_of-as_events stamp ((n, p, v, e) ∷ cs) ha ((known, seg, fp, fv, fe), us) =
        rw
          (
            judge-outgoing json asset n position p stamp ha seg known fp,
            judge-outgoing json asset n velocity v stamp ha seg known fv,
            judge-outgoing json asset n effort e stamp ha seg known fe,
            admitted_of-as_events stamp cs ha us,
          )
          refl

    pub run-Shows :
        (stamp : ℕ) (cs : List (Text × F × F × F)) (c c' : Consumer F)
        → IsSegment asset
        → All (IsUsable json asset) cs
        → AreDistinct cs
        → All (IsTracked c.window) cs
        → run fl vendor json (as_events (all_three json asset stamp cs)) c ≡ ok c'
        → All (Shows c'.window) cs
    run-Shows stamp cs c c' ha usable distinct tracked returns =
        let adds =
          run-Adds fl vendor json (as_events (all_three json asset stamp cs)) c c' returns in
        rw (adds.window, admitted_of-as_events stamp cs ha usable)
          (observations-Shows c.window (observations stamp cs) cs tracked
            (observations-EndsWith stamp cs distinct))

    -- The columns of a joint state.
    abbrev pub columns_of : JointStateMessage F → List (Text × F × F × F)
    columns_of m = columns m.names m.positions m.velocities m.efforts

    -- End to end, from the bridge into the window: for a joint state with four equally long lists,
    -- distinct joints of the robot, finite values and an asset name without a slash, the bridge
    -- publishes messages that state-svc, in any state in which it tracks those joints, takes in
    -- without raising; afterwards the readings of each joint are the position, the velocity and the
    -- effort that ROS gave for it.
    pub published-Shows :
        (m : JointStateMessage F) (c : Consumer F)
        → field_lengths_match m ≡ true
        → IsSegment asset
        → All (IsUsable json asset) (columns_of m)
        → AreDistinct (columns_of m)
        → All (IsTracked c.window) (columns_of m)
        → (out : List (Outgoing json.Payload)) × (publish_joint_states json asset m ≡ ok out)
          × ((c' : Consumer F) × (run fl vendor json (as_events out) c ≡ ok c')
              × All (Shows c'.window) (columns_of m))
    published-Shows m c lengths ha usable distinct tracked =
        let out = all_three json asset m.stamp_ns (columns_of m) in
        let (c', returns) = run-messages out c in
        (
          out,
          publish-columns json asset m lengths,
          (
            c',
            returns,
            run-Shows m.stamp_ns (columns_of m) c c' ha usable distinct tracked returns,
          ),
        )
