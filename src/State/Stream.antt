-- ===== src/State/Stream.antt =====
-- The servicer of services/state-svc/src/state_svc/grpc_server.py: `_check_asset`, `GetState` and
-- the loop of `StreamState`. The loop is a function of the states that its queue hands over, each
-- with the reading of `time.monotonic()` that follows it.
pub mod Rate
use twin_services.Base.{
  Text, Bool, true, false, not, ◌&&◌, Option, none, some, List, [], ◌∷◌, text_eq, if◌then◌else◌,
}
use twin_services.Base.Int.{pos}
use twin_services.Base.Result.{Result, ok, ◌>>=◌}
use twin_services.Floats.{Floats}
use twin_services.State.Hub.{Hub}

-- What an RPC answers: a value, or `context.abort(NOT_FOUND)`.
pub data Rpc (A : Type 0) : Type 0 where
  reply : A → Rpc A
  not_found : Rpc A

-- `if requested`: the empty text is false.
abbrev is_given : Text → Bool
is_given [] = false
is_given (c ∷ t) = true

module _ {A : Type 0} where
  -- The condition under which `_check_asset` aborts.
  unfoldable pub wrong_asset : Text → Hub A → Bool
  unfolding text_eq
  wrong_asset requested h = is_given requested && not (text_eq requested h.asset)

  unfoldable pub get_state : Text → Hub A → Rpc A
  get_state requested h =
      if wrong_asset requested h
      then not_found
      else elim h.latest [ none ↦ not_found | some state ↦ reply state ]

module _ (fl : Floats) where
  open fl use {F, literal, sub, div, lt}

  -- `1.0 / request.max_rate_hz if request.max_rate_hz > 0 else 0.0`
  unfoldable pub min_interval : F → Result F
  min_interval max_rate_hz =
      if lt (literal (pos 0) 0) max_rate_hz
      then div (literal (pos 1) 0) max_rate_hz
      else ok (literal (pos 0) 0)

  -- `now - last_sent < min_interval`, where `none` is `float("-inf")`: the difference is then
  -- infinite, and smaller than nothing.
  unfoldable pub too_soon : F → Option F → F → Bool
  too_soon interval none now = false
  too_soon interval (some last) now = lt (sub now last) interval

  module _ {A : Type 0} where
    -- The states that are yielded, with their times.
    unfoldable pub decimate : F → Option F → List (A × F) → List (A × F)
    unfolding too_soon
    decimate interval last [] = []
    decimate interval last ((state, now) ∷ rest) =
        let skipped = decimate interval last rest in
        let sent = (state, now) ∷ decimate interval (some now) rest in
        if too_soon interval last now then skipped else sent

    -- What `StreamState` yields; `not_found` before the first state.
    unfoldable pub stream_state : Text → F → Hub A → List (A × F) → Result (Rpc (List (A × F)))
    unfolding decimate min_interval
    stream_state requested max_rate_hz h feed =
        if wrong_asset requested h
        then ok not_found
        else (min_interval max_rate_hz >>= λ interval. ok (reply (decimate interval none feed)))
