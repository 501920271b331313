-- ===== src/Bridge/Pipeline.antt =====
-- bridge/src/bridge/main.py, from ROS to the broker: `BridgeNode._on_msg`, which hands joint states
-- over from its thread, the `asyncio.Queue` of `main_async`, and `telemetry_worker`. The waiting
-- calls of `queue.put` are a list of which any may go on as soon as the queue has room, since a put
-- that comes in between may overtake a waiter that has been woken.
pub mod Publish
pub mod Ledger
pub mod Progress
pub mod Bound
pub mod Backlog
pub mod Service
pub mod Drain
pub mod Uptime
use twin_services.Base.{
  ℕ, zero, suc, pick, Text, Bool, true, false, Option, none, some, List, [], ◌∷◌, ◌++◌, length, ltb,
  if◌then◌else◌,
}
use twin_services.Base.Result.{Result, ok, raise, value_error, ◌>>=◌}
use twin_services.Contracts.Telemetry.{TelemetryJson}
use twin_services.Bridge.{
  JointState, JointStateMessage, Outgoing, validate_state, publish_joint_states,
}

-- `asyncio.Queue(maxsize=1000)`
abbrev pub maxsize : ℕ
maxsize = 1000

pub record Pipeline (F Payload : Type 0) : Type 0 where
  -- the calls of `queue.put` that have not gone through
  pub pending : List (JointStateMessage F)
  pub queue : List (JointStateMessage F)
  pub connected : Bool
  -- what is still to be published of the joint state at hand; nothing while the worker waits in
  -- `queue.get()`
  pub in_flight : List (Outgoing Payload)
  pub sent : List (Outgoing Payload)
  -- the warnings `mqtt.reconnect`
  pub reconnects : ℕ

-- What happens: ROS delivers a message; a waiting put goes on; the client connects or fails to;
-- `queue.get()` returns; a publication goes out or raises MqttError.
pub data Event (F : Type 0) : Type 0 where
  arrives : JointState F → Event F
  puts : ℕ → Event F
  connects : Bool → Event F
  takes : Event F
  publishes : Bool → Event F

-- As `main_async` starts it.
unfoldable pub start : {F Payload : Type 0} → Pipeline F Payload
start = record {
  pending = [];
  queue = [];
  connected = false;
  in_flight = [];
  sent = [];
  reconnects = 0;
}

module _ {F : Type 0} where
  -- The joint states that `_on_msg` hands over: one, or none where validation raised.
  abbrev pub handed : Result (JointStateMessage F) → List (JointStateMessage F)
  handed (raise _) = []
  handed (ok m) = m ∷ []

  module _ {Payload : Type 0} where
    -- `run_coroutine_threadsafe(queue.put(validated), loop)`
    unfoldable pub on_msg : JointState F → Pipeline F Payload → Pipeline F Payload
    on_msg m s = record s { pending = s.pending ++ handed (validate_state m) }

    put :
        Option (JointStateMessage F × List (JointStateMessage F))
        → Pipeline F Payload
        → Pipeline F Payload
    put none s = s
    put (some (m, rest)) s = record s { pending = rest; queue = s.queue ++ m ∷ [] }

    -- A put waits while the queue is full.
    unfoldable pub put_waiting : ℕ → Pipeline F Payload → Pipeline F Payload
    unfolding put pick
    put_waiting i s = if ltb (length s.queue) maxsize then put (pick i s.pending) s else s

    -- `except MqttError`: the client is left, and with it what was left of the joint state.
    unfoldable pub lose : Pipeline F Payload → Pipeline F Payload
    lose s = record s { connected = false; in_flight = []; reconnects = suc s.reconnects }

    connect_from : Bool → Bool → Pipeline F Payload → Pipeline F Payload
    unfolding lose
    connect_from true success s = s
    connect_from false true s = record s { connected = true }
    connect_from false false s = lose s

    -- Entering the client, from outside it.
    unfoldable pub connect : Bool → Pipeline F Payload → Pipeline F Payload
    unfolding connect_from
    connect success s = connect_from s.connected success s

    -- One `await client.publish(...)` for a topic that the client takes.
    unfoldable pub send :
        Bool → Outgoing Payload → List (Outgoing Payload) → Pipeline F Payload → Pipeline F Payload
    unfolding lose
    send true o rest s = record s { in_flight = rest; sent = s.sent ++ o ∷ [] }
    send false o rest s = lose s

    -- `accepts` says for which topics `client.publish` raises no ValueError; it refuses others, such
    -- as one with a wildcard, before anything is sent, and nothing in the worker catches that.
    unfoldable pub publish_next :
        (Text → Bool)
        → Bool
        → List (Outgoing Payload)
        → Pipeline F Payload
        → Result (Pipeline F Payload)
    unfolding send
    publish_next accepts success [] s = ok s
    publish_next accepts success (o ∷ rest) s =
        if accepts o.topic then ok (send success o rest s) else raise value_error

    unfoldable pub publish_one :
        (Text → Bool) → Bool → Pipeline F Payload → Result (Pipeline F Payload)
    unfolding publish_next
    publish_one accepts success s = publish_next accepts success s.in_flight s

module _ {F : Type 0} {is_finite : F → Bool} (json : TelemetryJson F is_finite) (asset : Text) where
  open json use {Payload}

  -- The worker waits in `queue.get()` when it is connected and the last joint state is done.
  take_from :
      Bool
      → List (JointStateMessage F)
      → List (Outgoing Payload)
      → Pipeline F Payload
      → Result (Pipeline F Payload)
  take_from true (m ∷ rest) [] s =
      publish_joint_states json asset m >>= λ out. ok (record s { queue = rest; in_flight = out })
  take_from _ _ _ s = ok s

  -- `msg = await queue.get()` and the start of `publish_joint_states`.
  unfoldable pub take : Pipeline F Payload → Result (Pipeline F Payload)
  unfolding take_from
  take s = take_from s.connected s.queue s.in_flight s

module _ {F : Type 0} {is_finite : F → Bool} (json : TelemetryJson F is_finite) (asset : Text)
    (accepts : Text → Bool) where
  open json use {Payload}

  unfoldable pub step : Event F → Pipeline F Payload → Result (Pipeline F Payload)
  unfolding take on_msg put_waiting connect publish_one
  step (arrives m) s = ok (on_msg m s)
  step (puts i) s = ok (put_waiting i s)
  step (connects success) s = ok (connect success s)
  step takes s = take json asset s
  step (publishes success) s = publish_one accepts success s

  -- An exception other than MqttError ends the worker.
  unfoldable pub run : List (Event F) → Pipeline F Payload → Result (Pipeline F Payload)
  unfolding step
  run [] s = ok s
  run (e ∷ es) s = step e s >>= run es
