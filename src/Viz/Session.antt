-- ===== src/Viz/Session.antt =====
-- A browser's session, from the servicer of state-svc through `frames` of
-- services/viz-svc/src/viz_svc/stream.py to `ws_state` of app.py.
use twin_services.Base.{ℕ, suc, ◌+◌, ◌≡◌, Text, some, List, [], ◌∷◌, ◌++◌, map, length}
use twin_services.Base.Eq.{lookup, insert, nat_is_eq}
use twin_services.Base.Int.{pos}
use twin_services.Base.Result.{Result, ◌>>=◌}
use twin_services.Floats.{Floats}
use twin_services.State.Hub.{Hub}
use twin_services.State.Stream.{Rpc, reply, not_found, stream_state}
use twin_services.State.Build.{TwinState}
use twin_services.Viz.{
  Frame, Viewer, Ending, rpc_failed, close_code, Event, opened, forwarded, ended, received, run,
}

module _ (fl : Floats) where
  open fl use {F, literal, lt, div}

  -- `BROWSER_RATE_HZ`
  abbrev pub browser_rate_hz : F
  browser_rate_hz = literal (pos 300) 1

  forwards : ℕ → List (TwinState F × F) → List (Event F)
  forwards i states = map (λ (p : TwinState F × F). forwarded i p.0) states

  -- What the RPC does to socket `i`: its states are forwarded until the session ends; an abort is
  -- an AioRpcError before any of them.
  unfoldable pub events_of : ℕ → Ending → Rpc (List (TwinState F × F)) → List (Event F)
  unfolding forwards
  events_of i ending not_found = opened i ∷ ended i rpc_failed ∷ []
  events_of i ending (reply states) = opened i ∷ forwards i states ++ ended i ending ∷ []

  -- `ws_state` on socket `i`: `asset` is that of the configuration of viz-svc, and `feed` what the
  -- queue in state-svc hands over until the session ends.
  unfoldable pub session :
      Text → ℕ → Hub (TwinState F) → List (TwinState F × F) → Ending → Viewer F → Result (Viewer F)
  unfolding events_of
  session asset i hub feed ending v = stream_state fl asset browser_rate_hz hub feed >>= λ answer.
      run fl (events_of i ending answer) v

  -- The viewer after one more frame.
  abbrev next : ℕ → Viewer F → List (Frame F) → Frame F → Viewer F
  next i v sent frame = record v {
    frames = suc v.frames;
    sockets = insert i (sent ++ frame ∷ []) v.sockets;
  }

  -- Socket `i` has been sent the frames, each counted once, and nothing was closed.
  record Served (i : ℕ) (sent frames : List (Frame F)) (v v' : Viewer F) : Type 0 where
    received : lookup i v'.sockets ≡ some (sent ++ frames)
    counted : v'.frames ≡ v.frames + length frames
    none_closed : v'.closed ≡ v.closed

  -- Socket `i` was sent the frames, in their order and nothing else, each counted once, and then
  -- closed with the code of the ending.
  abbrev pub Watched : ℕ → List (Frame F) → Ending → Viewer F → Viewer F → Type 0
  Watched i frames ending v after =
      (after.closed ≡ v.closed ++ (i, frames, close_code ending) ∷ [])
      × (after.frames ≡ v.frames + length frames)

  -- Socket `i` was sent nothing and closed with code 1011.
  abbrev pub Refused : ℕ → Viewer F → Viewer F → Type 0
  Refused i v after =
      (after.closed ≡ v.closed ++ (i, [], some 1011) ∷ []) × (after.frames ≡ v.frames)
