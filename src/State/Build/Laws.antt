-- ===== src/State/Build/Laws.antt =====
-- What `build_state` promises.
use twin_services.Base.{
  ◌<◌, ◌≡◌, refl, sym, ap, ◌∙◌, Text, Option, none, some, List, ◌∷◌, ◌++◌, map, length, length-map,
  arith,
}
use mathlib.Core.Path.{subst}
use twin_services.Base.Result.{Exc, ok, raise, >>=-eq-ok, ok-injective}
use twin_services.Floats.{Floats}
use twin_services.Contracts.Vocabulary.{schema_version as current_version}
use twin_services.State.Window.{RollingWindow, JointSnapshot, snapshot}
use twin_services.State.Window.Snapshot.{Describes, snapshot_exactly-Describes, Describes-names}
use twin_services.State.Kinematics.{forward}
use twin_services.State.Kinematics.Pivot.{IsExact}
use twin_services.State.Kinematics.Forward.{
  AllCosines, TwistsHaveCosines, forward_total, forward_raises,
}
use twin_services.State.Build.{TwinState, Vendor, uint64_size, build_state, assemble, assemble_if}

-- The angles that `build_state` hands to `forward`.
abbrev pub positions : {F : Type 0} → List (JointSnapshot F) → List F
positions {F} ss = map (λ (s : JointSnapshot F). s.position_rad) ss

module _ (fl : Floats) (vendor : Vendor fl.F) where
  open fl use {F, cos}
  open vendor use {matmul, uint64, uint64_fits, uint64_too_large}

  -- What a client may rely on in a `TwinState` of a window.
  pub record Reflects (asset : Text) (w : RollingWindow F) (rms_window_s : F) (st : TwinState F)
      : Type 0 where
    pub version : st.schema_version ≡ current_version
    pub named : st.asset ≡ asset
    pub length_of_window : st.rms_window_s ≡ rms_window_s
    pub in_range : uint64 w.stamp_ns ≡ ok st.stamp_ns
    pub described : Describes fl w w.joints st.joints
    pub posed : forward fl matmul (positions st.joints) ≡ ok st.end_effector

  assemble-Reflects :
      (asset : Text) (w : RollingWindow F) (rms_window_s : F) (ss : List (JointSnapshot F))
      (st : TwinState F)
      → Describes fl w w.joints ss
      → assemble fl vendor asset w rms_window_s ss ≡ ok st
      → Reflects asset w rms_window_s st
  unfolding assemble
  assemble-Reflects asset w rms_window_s ss st d h =
      let (pose, p, rest) = >>=-eq-ok (forward fl matmul (positions ss)) _ h in
      let (stamp, s, done) = >>=-eq-ok (uint64 w.stamp_ns) _ rest in
      let is = ok-injective done in
      subst (Reflects asset w rms_window_s) is (record {
        version = refl;
        named = refl;
        length_of_window = refl;
        in_range = s;
        described = d;
        posed = p;
      })

  -- A state that `build_state` returns names the asset and the schema version, has the window's
  -- newest stamp as far as protobuf accepts it, the snapshot of every joint in the window's order,
  -- and the pose that `forward` computes from the positions in it.
  pub build_state-Reflects :
      (asset : Text) (w : RollingWindow F) (rms_window_s : F) (st : TwinState F)
      → build_state fl vendor asset w rms_window_s ≡ ok (some st)
      → Reflects asset w rms_window_s st
  unfolding build_state assemble_if
  build_state-Reflects asset w rms_window_s st h =
      let (o, found, rest) =
        >>=-eq-ok (snapshot fl w) (assemble_if fl vendor asset w rms_window_s) h in
      of_snapshot o found rest
    where
      of_snapshot :
          (o : Option (List (JointSnapshot F)))
          → snapshot fl w ≡ ok o
          → assemble_if fl vendor asset w rms_window_s o ≡ ok (some st)
          → Reflects asset w rms_window_s st
      of_snapshot none found rest = cc
      of_snapshot (some ss) found rest =
          let (st', made, done) = >>=-eq-ok (assemble fl vendor asset w rms_window_s ss) _ rest in
          assemble-Reflects asset w rms_window_s ss st
            ((snapshot_exactly-Describes fl w ss).0 found) (ground arith)

  -- In exact arithmetic `build_state` returns a state for a window of six joints with a snapshot,
  -- a stamp below 2^64 and positions that have cosines and sines.
  pub build_state_total :
      IsExact fl
      → TwistsHaveCosines fl
      → (asset : Text) (w : RollingWindow F) (rms_window_s : F) (ss : List (JointSnapshot F))
      → snapshot fl w ≡ ok (some ss)
      → length w.joints ≡ 6
      → w.stamp_ns < uint64_size
      → AllCosines fl (positions ss)
      → (st : TwinState F) × (build_state fl vendor asset w rms_window_s ≡ ok (some st))
  unfolding build_state assemble_if assemble
  build_state_total exact twists asset w rms_window_s ss found six fits cosines =
      let count : length (positions ss) ≡ 6 =
        six_positions w ss six ((snapshot_exactly-Describes fl w ss).0 found) in
      let (pose, p) = forward_total fl matmul exact twists (positions ss) count cosines in
      (
        record {
          schema_version = current_version;
          asset = asset;
          stamp_ns = w.stamp_ns;
          rms_window_s = rms_window_s;
          end_effector = pose;
          joints = ss;
        },
        rw (found, p, uint64_fits w.stamp_ns fits),
      )
    where
      six_positions :
          (w : RollingWindow F) (ss : List (JointSnapshot F))
          → length w.joints ≡ 6
          → Describes fl w w.joints ss
          → length (positions ss) ≡ 6
      six_positions w ss six d =
          length-map (λ (s : JointSnapshot F). s.position_rad) ss
          ∙ sym (length-map (λ (s : JointSnapshot F). s.name) ss)
          ∙ ap length (Describes-names fl w w.joints ss d)
          ∙ six

  -- `build_state` raises if a position among the six of the snapshot has no cosine, as an infinite
  -- one in Python.
  pub build_state_raises :
      (asset : Text) (w : RollingWindow F) (rms_window_s : F) (ss : List (JointSnapshot F))
      (before : List F) (theta : F) (after : List F) {x : Exc}
      → snapshot fl w ≡ ok (some ss)
      → positions ss ≡ before ++ theta ∷ after
      → length (before ++ theta ∷ after) ≡ 6
      → cos theta ≡ raise x
      → (y : Exc) × (build_state fl vendor asset w rms_window_s ≡ raise y)
  unfolding build_state assemble_if assemble
  build_state_raises asset w rms_window_s ss before theta after found at_theta six infinite =
      let (y, e) = forward_raises fl matmul before theta after six infinite in
      (y, rw (found, at_theta, e))
