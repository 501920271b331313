-- ===== src/State/Window.antt =====
-- services/state-svc/src/state_svc/window.py. A deque is a list with its front at the head. Stamps
-- are naturals, since the contract admits no other; the window's length and the cutoff may be
-- negative.
pub mod Pruning
pub mod Invariant
pub mod Start
pub mod History
pub mod Snapshot
pub mod Finite
pub mod Latest
pub mod Batch
use twin_services.Base.{
  ℕ, Text, ◌≡◌, ◌↔◌, Bool, true, false, ◌&&◌, Option, none, some, List, [], ◌∷◌, ◌++◌, map, max,
  length, arith, text_eq, text_eq_iff, if◌then◌else◌,
}
use twin_services.Base.Eq.{Eq, Dict, lookup, insert, text_is_eq}
use twin_services.Base.Int.{ℤ, pos, ◌-ℤ◌, ltb_ℤ}
use twin_services.Base.Result.{Result, ok, raise, key_error, or_raise, ◌>>=◌}
use twin_services.Floats.{Floats}
use twin_services.Contracts.Vocabulary.{
  JointField, position, velocity, effort, field_eq, field_eq_iff,
}
use twin_services.Contracts.Telemetry.{JointTelemetry}

-- The key `(joint, field)`.
pub record Channel : Type 0 where
  pub joint : Text
  pub field : JointField

abbrev channel_eq : Channel → Channel → Bool
channel_eq a b = text_eq a.joint b.joint && field_eq a.field b.field

pub channel_eq_iff : (a b : Channel) → (channel_eq a b ≡ true) ↔ (a ≡ b)
channel_eq_iff a b = ground (arith, text_eq_iff a.joint b.joint, field_eq_iff a.field b.field)

instance abbrev pub channel_is_eq : Eq Channel
channel_is_eq = record { beq = channel_eq; beq_iff = channel_eq_iff }

-- `deque[tuple[int, float]]`
abbrev pub History : Type 0 → Type 0
History F = List (ℕ × F)

pub record RollingWindow (F : Type 0) : Type 0 where
  pub window_ns : ℤ
  pub joints : List Text
  pub latest : Dict Channel F
  pub velocities : Dict Text (History F)
  pub stamp_ns : ℕ

pub record JointSnapshot (F : Type 0) : Type 0 where
  pub name : Text
  pub position_rad : F
  pub velocity_rad_s : F
  pub effort_nm : F
  pub velocity_rms : F

module _ {F : Type 0} where
  -- `{joint: deque() for joint in self._joints}`: a repeated name is one key.
  unfoldable pub empty_histories : List Text → Dict Text (History F) → Dict Text (History F)
  empty_histories [] d = d
  empty_histories (j ∷ js) d = empty_histories js (insert j [] d)

  -- `while history and history[0][0] < cutoff: history.popleft()`
  unfoldable pub prune : ℤ → History F → History F
  prune cutoff [] = []
  prune cutoff ((stamp, v) ∷ h) =
      if ltb_ℤ (pos stamp) cutoff then prune cutoff h else (stamp, v) ∷ h

  unfoldable pub remember :
      JointField → Text → History F → JointTelemetry F → RollingWindow F → RollingWindow F
  unfolding prune
  remember velocity joint history sample w =
      let cutoff = pos w.stamp_ns -ℤ w.window_ns in
      let longer = history ++ (sample.stamp_ns, sample.value) ∷ [] in
      record w { velocities = insert joint (prune cutoff longer) w.velocities }
  remember _ joint history sample w = w

  -- The history is read where the code tests for it; the `Channel` is the tuple `(joint, field)`.
  unfoldable pub observe : Text → JointField → JointTelemetry F → RollingWindow F → RollingWindow F
  unfolding remember
  observe joint field sample w = elim (lookup joint w.velocities) [
    | none ↦ w
    | some history ↦ remember field joint history sample (record w {
      latest = insert (record { joint = joint; field = field }) sample.value w.latest;
      stamp_ns = max w.stamp_ns sample.stamp_ns;
    })
  ]

module _ (fl : Floats) where
  open fl use {F, literal, mul, div, sum, sqrt, truncate, of_ℕ}

  -- `RollingWindow(window_s, joints)`; `int` may refuse the product.
  unfoldable pub init : F → List Text → Result (RollingWindow F)
  unfolding empty_histories
  init window_s joints = truncate (mul window_s (literal (pos 1000000000) 0)) >>= λ window_ns.
      ok (record {
        window_ns = window_ns;
        joints = joints;
        latest = [];
        velocities = empty_histories joints [];
        stamp_ns = 0;
      })

  -- `_velocity_rms`, on the history of the joint
  unfoldable pub rms : History F → Result F
  rms [] = ok (literal (pos 0) 1)
  rms (e ∷ h) =
      let squares = map (λ (s : ℕ × F). mul s.1 s.1) (e ∷ h) in
      div (sum squares) (of_ℕ (length (e ∷ h))) >>= λ mean. sqrt mean

  -- `self._velocities[joint]` raises KeyError for a joint without history.
  unfoldable pub velocity_rms : RollingWindow F → Text → Result F
  unfolding rms
  velocity_rms w joint = or_raise (lookup joint w.velocities) key_error >>= λ h. rms h

  abbrev channel : Text → JointField → Channel
  channel joint field = record { joint = joint; field = field }

  -- The three reads under `try`; a missing one makes the whole snapshot `None`.
  unfoldable pub readings : RollingWindow F → Text → Option (F × F × F)
  readings w joint = elim (lookup (channel joint position) w.latest) [
    | none ↦ none
    | some p ↦ elim (lookup (channel joint velocity) w.latest) [
      | none ↦ none
      | some v ↦ elim (lookup (channel joint effort) w.latest) [
        | none ↦ none
        | some e ↦ some (p, v, e)
      ]
    ]
  ]

  snapshot_joint : RollingWindow F → Text → Option (F × F × F) → Result (Option (JointSnapshot F))
  unfolding velocity_rms
  snapshot_joint w joint none = ok none
  snapshot_joint w joint (some (p, v, e)) = velocity_rms w joint >>= λ r. ok (
      some (record {
        name = joint;
        position_rad = p;
        velocity_rad_s = v;
        effort_nm = e;
        velocity_rms = r;
      }))

  -- The loop over the joints; the first joint that lacks a reading ends it.
  pub snapshot_from :
      RollingWindow F
      → List Text
      → List (JointSnapshot F)
      → Result (Option (List (JointSnapshot F)))
  unfolding snapshot_joint readings
  snapshot_from w [] done = ok (some done)
  snapshot_from w (joint ∷ joints) done = snapshot_joint w joint (readings w joint) >>= λ o.
      elim o [ none ↦ ok none | some snap ↦ snapshot_from w joints (done ++ snap ∷ []) ]

  unfoldable pub snapshot : RollingWindow F → Result (Option (List (JointSnapshot F)))
  unfolding snapshot_from
  snapshot w = snapshot_from w w.joints []
