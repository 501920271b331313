-- ===== src/Viz.antt =====
-- services/viz-svc/src/viz_svc: `to_frame` and `frames` of stream.py and `ws_state` of app.py. A
-- socket is known by a number; what it was sent and how it was closed are part of the state.
pub mod Clients
pub mod Session
pub mod Watch
use twin_services.Base.{
  ℕ, zero, suc, Text, Bool, true, false, Option, none, some, List, [], ◌∷◌, ◌++◌, map,
}
use twin_services.Base.Eq.{Dict, lookup, insert, remove, nat_is_eq}
use twin_services.Base.Int.{ℤ, pos, ◌+ℤ◌, ◌-ℤ◌}
use twin_services.Base.Result.{Result, ok, raise, ◌>>=◌}
use twin_services.Floats.{Floats}
use twin_services.State.Window.{JointSnapshot}
use twin_services.State.Kinematics.{Pose}
use twin_services.State.Build.{TwinState}

pub record JointFrame (F : Type 0) : Type 0 where
  pub name : Text
  pub position_rad : F
  pub velocity_rms : F

-- The object that `to_frame` writes.
pub record Frame (F : Type 0) : Type 0 where
  pub stamp_ms : F
  pub position : List F
  pub quaternion : List F
  pub joints : List (JointFrame F)

-- How the loop of `ws_state` ends: the stream ends, the browser leaves, or state-svc fails.
pub data Ending : Type 0 where
  finished disconnected rpc_failed : Ending

-- The code of `websocket.close`, which is called in one case only.
abbrev pub close_code : Ending → Option ℕ
close_code rpc_failed = some 1011
close_code _ = none

pub record Viewer (F : Type 0) : Type 0 where
  -- the gauge CLIENTS and the counter FRAMES
  pub clients : ℤ
  pub frames : ℕ
  -- the generators of `frames` that browsers left suspended behind them
  pub suspended : ℕ
  -- the open sockets with what they were sent, and the closed ones, with the code of the close
  pub sockets : Dict ℕ (List (Frame F))
  pub closed : List (ℕ × List (Frame F) × Option ℕ)

pub data Event (F : Type 0) : Type 0 where
  opened : ℕ → Event F
  forwarded : ℕ → TwinState F → Event F
  ended : ℕ → Ending → Event F
  finalised : Event F

-- What the browser had when its socket was closed.
abbrev received : {F : Type 0} → Option (List (Frame F)) → List (Frame F)
received none = []
received (some sent) = sent

module _ {F : Type 0} where
  -- The `finally` of `frames` runs as its loop ends, except when the browser left: then the generator
  -- stays suspended at its `yield` until asyncio finalises it.
  unfoldable pub end_stream : Ending → Viewer F → Viewer F
  end_stream disconnected v = record v { suspended = suc v.suspended }
  end_stream finished v = record v { clients = v.clients -ℤ pos 1 }
  end_stream rpc_failed v = record v { clients = v.clients -ℤ pos 1 }

  -- asyncio finalises a suspended generator.
  unfoldable pub finalise : ℕ → Viewer F → Viewer F
  finalise zero v = v
  finalise (suc n) v = record v { clients = v.clients -ℤ pos 1; suspended = n }

module _ (fl : Floats) where
  open fl use {F, literal, div, of_ℕ}

  unfoldable pub to_frame : TwinState F → Result (Frame F)
  to_frame s = div (of_ℕ s.stamp_ns) (literal (pos 1000000) 0) >>= λ ms. ok (record {
    stamp_ms = ms;
    position = s.end_effector.x ∷ s.end_effector.y ∷ s.end_effector.z ∷ [];
    quaternion = s.end_effector.qx ∷ s.end_effector.qy ∷ s.end_effector.qz ∷ s.end_effector.qw ∷ [];
    joints =
        map
          (λ (j : JointSnapshot F). record {
            name = j.name;
            position_rad = j.position_rad;
            velocity_rms = j.velocity_rms;
          })
          s.joints;
  })

  -- One event: `frames` begins, or sends one frame; the loop over it ends, and with it the socket is
  -- closed; or a suspended generator is finalised.
  unfoldable pub step : Event F → Viewer F → Result (Viewer F)
  unfolding to_frame end_stream finalise
  step (opened i) v =
      ok (record v { clients = v.clients +ℤ pos 1; sockets = insert i [] v.sockets })
  step (forwarded i state) v = elim (lookup i v.sockets) [
    | none ↦ ok v
    | some sent ↦ to_frame state >>= λ frame.
        ok (record v { frames = suc v.frames; sockets = insert i (sent ++ frame ∷ []) v.sockets })
  ]
  step (ended i ending) v = ok (record (end_stream ending v) {
    sockets = remove i v.sockets;
    closed = v.closed ++ (i, received (lookup i v.sockets), close_code ending) ∷ [];
  })
  step finalised v = ok (finalise v.suspended v)

  unfoldable pub run : List (Event F) → Viewer F → Result (Viewer F)
  unfolding step
  run [] v = ok v
  run (e ∷ es) v = step e v >>= run es
