-- ===== src/Bridge/Delivery/Display.antt =====
-- A joint state from ROS up to the state that the broadcaster of state-svc publishes.
use twin_services.Base.{
  ℕ, Text, ◌<◌, ◌≡◌, refl, sym, ap, ◌∙◌, true, none, some, List, [], ◌∷◌, ◌++◌, All,
}
use mathlib.Core.Path.{subst}
use twin_services.Base.Eq.{text_is_eq}
use twin_services.Base.Result.{ok, ok-injective, Total, >>=-eq-ok}
use twin_services.Floats.{Floats}
use twin_services.Contracts.Vocabulary.{JointField, position, velocity, effort, ur5_joint_names}
use twin_services.Contracts.Topics.Matching.{IsSegment}
use twin_services.Contracts.Telemetry.{JointTelemetry, TelemetryJson}
use twin_services.State.Window.{RollingWindow, init, readings, snapshot}
use twin_services.State.Window.Start.{IsFresh, init-IsFresh}
use twin_services.State.Window.Snapshot.{Describes, snapshot-none_iff_Incomplete}
use twin_services.State.Window.Finite.{snapshot_total}
use twin_services.State.Window.Latest.{joints-observe_all}
use twin_services.State.Build.{Vendor, TwinState, uint64_size}
use twin_services.State.Build.Laws.{build_state-Reflects}
use twin_services.State.Hub.Mailbox.{board}
use twin_services.Config.{StateConfig}
use twin_services.State.Consumer.{
  start, Consumer, Verdict, bad_topic, bad_joint, bad_payload, accepted, judge, apply_verdict,
  Event, tick, elem, broadcast, observe_message, step, run,
}
use twin_services.State.Consumer.Account.{admitted_of, run-Adds}
use twin_services.State.Consumer.Broadcast.{broadcast-Broadcasts}
use twin_services.State.Consumer.Uptime.{
  IsTame, IsReady, IsAdmissible, start-IsReady, run-IsReady, build_state_ready,
}
use twin_services.Bridge.{
  JointStateMessage, Outgoing, outgoing, field_lengths_match, publish_joint_states,
}
use twin_services.Bridge.Telemetry.{
  all_three, as_message, IsUsable, judge-outgoing, publish-columns,
}
use twin_services.Bridge.Delivery.{
  names_of, AreDistinct, observations, Shows, as_events, admitted_of-as_events, run-Shows,
  columns_of,
}
use twin_services.Bridge.Delivery.Readings.{
  Displays, IsWhole, Incomplete-absurd, All-read, All-means, All-displayed, IsTracked-by_fresh,
}

module _ (fl : Floats) where
  open fl use {F, is_finite}

  module _ (json : TelemetryJson F is_finite) (asset : Text) (vendor : Vendor F) where
    run-append :
        (es fs : List (Event json.Payload)) (c c' : Consumer F)
        → run fl vendor json es c ≡ ok c'
        → run fl vendor json (es ++ fs) c ≡ run fl vendor json fs c'
    unfolding run
    run-append [] fs c c' h = ap (run fl vendor json fs) (ok-injective h)
    run-append (e ∷ es) fs c c' h =
        let (d, s, r) = >>=-eq-ok (step fl vendor json e c) (run fl vendor json es) h in
        rw s (run-append es fs d c' r)

    verdict-dirty :
        (v : Verdict F) (c : Consumer F) → c.dirty ≡ true → (apply_verdict v c).dirty ≡ true
    unfolding apply_verdict
    verdict-dirty bad_topic c d = d
    verdict-dirty bad_joint c d = d
    verdict-dirty bad_payload c d = d
    verdict-dirty (accepted j f m) c d = refl

    run-dirty :
        (out : List (Outgoing json.Payload)) (c c' : Consumer F)
        → c.dirty ≡ true
        → run fl vendor json (as_events fl vendor json asset out) c ≡ ok c'
        → c'.dirty ≡ true
    unfolding run step observe_message
    run-dirty [] c c' d h = ap (λ (x : Consumer F). x.dirty) (sym (ok-injective h)) ∙ d
    run-dirty (o ∷ out) c c' d h =
        run-dirty out _ c' (verdict-dirty (judge json (as_message json asset o)) _ d) h

    -- A message that is accepted marks the consumer.
    accepted-dirty :
        (v : Verdict F) (n : Text) (f : JointField) (m : JointTelemetry F) (c : Consumer F)
        → v ≡ accepted n f m
        → (apply_verdict v c).dirty ≡ true
    unfolding apply_verdict
    accepted-dirty v n f m c h = rw h refl

    columns-dirty :
        (stamp : ℕ) (cs : List (Text × F × F × F)) (j : Text) (c c' : Consumer F)
        → IsSegment asset
        → All (IsUsable json asset) cs
        → elem j (names_of cs) ≡ true
        → run fl vendor json (as_events fl vendor json asset (all_three json asset stamp cs)) c
          ≡ ok c'
        → c'.dirty ≡ true
    unfolding run step elem observe_message
    columns-dirty stamp [] j c c' ha u some_joint h = cc
    columns-dirty stamp ((n, p, v, e) ∷ cs) j c c' ha ((known, seg, fp, fv, fe), us) some_joint h =
        run-dirty
          (outgoing json asset n velocity v stamp
            ∷ outgoing json asset n effort e stamp
            ∷ all_three json asset stamp cs)
          _ c'
          (accepted-dirty _ n position _ _
            (judge-outgoing json asset n position p stamp ha seg known fp))
          h

    observations-IsAdmissible :
        (stamp : ℕ) (cs : List (Text × F × F × F))
        → stamp < uint64_size
        → All (IsUsable json asset) cs
        → All (IsAdmissible fl vendor) (observations stamp cs)
    observations-IsAdmissible stamp [] fits u = tt
    observations-IsAdmissible stamp ((n, p, v, e) ∷ cs) fits ((known, seg, fp, fv, fe), us) =
        ((fp, fits), ((fv, fits), ((fe, fits), observations-IsAdmissible stamp cs fits us)))

    -- A consumer that can serve and shows a reading for every joint publishes them all.
    displayed :
        IsTame fl
        → (cs : List (Text × F × F × F)) (c : Consumer F) → IsReady fl vendor c
        → c.dirty ≡ true
        → c.window.joints ≡ ur5_joint_names
        → All (IsUsable json asset) cs
        → IsWhole fl cs
        → All (Shows fl c.window) cs
        → (c' : Consumer F) × (st : TwinState F) × (step fl vendor json tick c ≡ ok c')
          × ((board c'.hub).latest ≡ some st)
          × All (Displays fl st.joints) cs
    unfolding step
    displayed tame cs c r dirty joints usable whole shows =
        by_snapshot (snapshot_total fl tame.means c.window r.servable.well_formed)
      where
        incomplete : snapshot fl c.window ≡ ok none → ⊥
        incomplete e =
            Incomplete-absurd fl c.window c.window.joints
              (subst (λ js. All (λ j. (t : F × F × F) × (readings fl c.window j ≡ some t)) js)
                (sym joints) (All-read fl c.window cs ur5_joint_names shows whole))
              ((snapshot-none_iff_Incomplete fl c.window
                  (All-means fl tame c.window c.window.joints r.servable.well_formed.tracked)).0
                e)

        by_snapshot :
            Total (snapshot fl c.window)
            → (c' : Consumer F) × (st : TwinState F) × (broadcast fl vendor c ≡ ok c')
              × ((board c'.hub).latest ≡ some st)
              × All (Displays fl st.joints) cs
        by_snapshot (none, e) = absurd (incomplete e)
        by_snapshot (some ss, e) =
            let (st, b) = build_state_ready fl vendor tame c r ss e in
            let (c', did) = broadcast-Broadcasts fl vendor c st dirty b r.mailboxes in
            let reflects =
              build_state-Reflects fl vendor c.config.asset_name c.window c.config.rms_window_s st
                b in
            (
              c',
              st,
              did.returns,
              ap (λ x. x.latest) did.delivered,
              All-displayed fl json asset c.window st.joints cs
                  (subst (λ js. Describes fl c.window js st.joints) joints reflects.described)
                  usable shows,
            )

    joints_kept :
        (config : StateConfig F) (w : RollingWindow F) (es : List (Event json.Payload))
        (c : Consumer F)
        → IsFresh ur5_joint_names w
        → run fl vendor json es (start config w) ≡ ok c
        → c.window.joints ≡ ur5_joint_names
    joints_kept config w es c fresh returns =
        ap (λ (u : RollingWindow F). u.joints)
          (run-Adds fl vendor json es (start config w) c returns).window
        ∙ joints-observe_all fl (admitted_of json es) (start config w).window
        ∙ (unfold start in fresh.joints)

    -- End to end, from ROS to the published state. Let a joint state have four equally long lists,
    -- name every joint of the robot and no joint twice, with finite values and a stamp below 2^64, let
    -- the name of the asset have no slash, and let the arithmetic be exact, with cosines and sines of
    -- finite numbers. Then the bridge publishes
    -- messages, and state-svc, started with a new window, takes them in and makes of them, in the
    -- next round of the broadcaster, a latest state whose position, velocity and effort of each
    -- joint are those that ROS gave for it, whatever the order in which ROS names the joints.
    pub joint_state-Displays :
        IsTame fl
        → (config : StateConfig F) (w : RollingWindow F) (m : JointStateMessage F)
        → init fl config.rms_window_s ur5_joint_names ≡ ok w
        → field_lengths_match m ≡ true
        → IsSegment asset
        → m.stamp_ns < uint64_size
        → All (IsUsable json asset) (columns_of fl vendor json asset m)
        → AreDistinct (columns_of fl vendor json asset m)
        → IsWhole fl (columns_of fl vendor json asset m)
        → (out : List (Outgoing json.Payload)) × (c' : Consumer F) × (st : TwinState F)
          × (publish_joint_states json asset m ≡ ok out)
          × (run fl vendor json (as_events fl vendor json asset out ++ tick ∷ []) (start config w)
              ≡ ok c')
          × ((board c'.hub).latest ≡ some st)
          × All (Displays fl st.joints) (columns_of fl vendor json asset m)
    joint_state-Displays tame config w m made lengths ha fits usable distinct whole =
        let fresh = init-IsFresh fl config.rms_window_s ur5_joint_names w made in
        let cs = columns_of fl vendor json asset m in
        let out = all_three json asset m.stamp_ns cs in
        let (c, returns, ready) =
          run-IsReady fl vendor tame json (as_events fl vendor json asset out) (start config w)
            (rw (admitted_of-as_events fl vendor json asset m.stamp_ns cs ha usable)
              (observations-IsAdmissible m.stamp_ns cs fits usable))
            (start-IsReady fl vendor config w fresh) in
        let shows =
          run-Shows fl vendor json asset m.stamp_ns cs (start config w) c ha usable distinct
            (unfold start in IsTracked-by_fresh fl json asset w cs fresh usable) returns in
        let (c', st, ticks, latest, shown) =
          displayed tame cs c ready
            (columns-dirty m.stamp_ns cs _ (start config w) c ha usable whole.0 returns)
            (joints_kept config w (as_events fl vendor json asset out) c fresh returns) usable whole
            shows in
        (
          out,
          c',
          st,
          publish-columns json asset m lengths,
          run-append (as_events fl vendor json asset out) (tick ∷ []) (start config w) c returns
              ∙ (unfold run in rw ticks refl),
          latest,
          shown,
        )
