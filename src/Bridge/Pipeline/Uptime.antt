-- ===== src/Bridge/Pipeline/Uptime.antt =====
-- When the telemetry worker of the bridge is not ended by an exception.
use mathlib.Core.Path.{subst}
use twin_services.Base.{
  ℕ, ◌≡◌, refl, pick, Text, Bool, true, false, Option, none, some, List, [], ◌∷◌, All, All-append,
  All-split, length, ltb, if◌then◌else◌,
}
use twin_services.Base.Result.{ok}
use twin_services.Contracts.Telemetry.{TelemetryJson}
use twin_services.Bridge.{JointStateMessage, Outgoing, validate_state}
use twin_services.Bridge.Pipeline.{
  Pipeline, Event, arrives, puts, connects, takes, publishes, handed, on_msg, put, put_waiting,
  lose, connect_from, connect, send, publish_next, publish_one, take_from, take, step, run, maxsize,
}
use twin_services.Bridge.Pipeline.Ledger.{validated, publications}
use twin_services.Bridge.Pipeline.Publish.{
  pick-All, publish_joint_states_total, AreTaken, IsNamed, IsClear,
}

module _ {F : Type 0} {is_finite : F → Bool} (json : TelemetryJson F is_finite) (asset : Text)
    (accepts : Text → Bool) where
  open json use {Payload}

  -- A step that returns, in a bridge whose work the client takes.
  abbrev GoesOn : Event F → Pipeline F Payload → Type 0
  GoesOn e s =
      (t : Pipeline F Payload) × (step json asset accepts e s ≡ ok t) × IsClear json asset accepts t

  put-IsClear :
      (o : Option (JointStateMessage F × List (JointStateMessage F))) (i : ℕ)
      (s : Pipeline F Payload)
      → pick i s.pending ≡ o
      → IsClear json asset accepts s
      → IsClear json asset accepts (put o s)
  unfolding put
  put-IsClear none i s e c = c
  put-IsClear (some (m, rest)) i s e c =
      let (one, others) = pick-All (IsNamed json asset accepts) i s.pending m rest e c.pending in
      record {
        pending = others;
        queue = All-append (IsNamed json asset accepts) s.queue (m ∷ []) c.queue (one, tt);
        in_flight = c.in_flight;
      }

  put_if-IsClear :
      (room : Bool) (i : ℕ) (s : Pipeline F Payload)
      → IsClear json asset accepts s
      → IsClear json asset accepts (if room then put (pick i s.pending) s else s)
  put_if-IsClear true i s c = put-IsClear (pick i s.pending) i s refl c
  put_if-IsClear false i s c = c

  lose-IsClear :
      (s : Pipeline F Payload) → IsClear json asset accepts s → IsClear json asset accepts (lose s)
  unfolding lose
  lose-IsClear s c = record { pending = c.pending; queue = c.queue; in_flight = tt }

  connect_from-IsClear :
      (inside success : Bool) (s : Pipeline F Payload)
      → IsClear json asset accepts s
      → IsClear json asset accepts (connect_from inside success s)
  unfolding connect_from
  connect_from-IsClear true success s c = c
  connect_from-IsClear false true s c = record {
    pending = c.pending;
    queue = c.queue;
    in_flight = c.in_flight;
  }
  connect_from-IsClear false false s c = lose-IsClear s c

  send-IsClear :
      (success : Bool) (o : Outgoing Payload) (rest : List (Outgoing Payload))
      (s : Pipeline F Payload)
      → IsClear json asset accepts s
      → AreTaken json asset accepts rest
      → IsClear json asset accepts (send success o rest s)
  unfolding send
  send-IsClear true o rest s c r = record { pending = c.pending; queue = c.queue; in_flight = r }
  send-IsClear false o rest s c r = lose-IsClear s c

  publish_next-IsClear :
      (success : Bool) (work : List (Outgoing Payload)) (s : Pipeline F Payload)
      → IsClear json asset accepts s
      → AreTaken json asset accepts work
      → (t : Pipeline F Payload) × (publish_next accepts success work s ≡ ok t)
        × IsClear json asset accepts t
  unfolding publish_next
  publish_next-IsClear success [] s c w = (s, refl, c)
  publish_next-IsClear success (o ∷ rest) s c w =
      (send success o rest s, rw w.0 refl, send-IsClear success o rest s c w.1)

  take_from-IsClear :
      (inside : Bool) (queue : List (JointStateMessage F)) (work : List (Outgoing Payload))
      (s : Pipeline F Payload)
      → IsClear json asset accepts s
      → All (IsNamed json asset accepts) queue
      → (t : Pipeline F Payload) × (take_from json asset inside queue work s ≡ ok t)
        × IsClear json asset accepts t
  unfolding take_from
  take_from-IsClear false queue work s c q = (s, refl, c)
  take_from-IsClear true [] work s c q = (s, refl, c)
  take_from-IsClear true (m ∷ rest) (o ∷ os) s c q = (s, refl, c)
  take_from-IsClear true (m ∷ rest) [] s c q =
      let (out, p) = publish_joint_states_total json asset m in
      let means : publications json asset m ≡ out = rw (p, publications) refl in
      (
        record s { queue = rest; in_flight = out },
        rw p refl,
        record {
          pending = c.pending;
          queue = q.1;
          in_flight = subst (AreTaken json asset accepts) means q.0;
        },
      )

  step-IsClear :
      (e : Event F) (s : Pipeline F Payload)
      → All (IsNamed json asset accepts) (validated json asset (e ∷ []))
      → IsClear json asset accepts s
      → GoesOn e s
  unfolding step on_msg put_waiting connect take publish_one
  step-IsClear (arrives m) s named c = (
    on_msg m s,
    refl,
    record {
      pending =
          All-append (IsNamed json asset accepts) s.pending (handed (validate_state m)) c.pending
            ((All-split (IsNamed json asset accepts) (handed (validate_state m)) [] named).0);
      queue = c.queue;
      in_flight = c.in_flight;
    },
  )
  step-IsClear (puts i) s named c =
      (put_waiting i s, refl, put_if-IsClear (ltb (length s.queue) maxsize) i s c)
  step-IsClear (connects success) s named c =
      (connect success s, refl, connect_from-IsClear s.connected success s c)
  step-IsClear (publishes success) s named c =
      publish_next-IsClear success s.in_flight s c c.in_flight
  step-IsClear takes s named c = take_from-IsClear s.connected s.queue s.in_flight s c c.queue

  first-IsNamed :
      (e : Event F) (es : List (Event F))
      → All (IsNamed json asset accepts) (validated json asset (e ∷ es))
      → All (IsNamed json asset accepts) (validated json asset (e ∷ []))
        × All (IsNamed json asset accepts) (validated json asset es)
  first-IsNamed (arrives m) es a =
      let (now, later) =
        All-split (IsNamed json asset accepts) (handed (validate_state m)) (validated json asset es)
          a in
      (All-append (IsNamed json asset accepts) (handed (validate_state m)) [] now tt, later)
  first-IsNamed (puts i) es a = (tt, a)
  first-IsNamed (connects success) es a = (tt, a)
  first-IsNamed (publishes success) es a = (tt, a)
  first-IsNamed takes es a = (tt, a)

  -- When the client takes the topics of all that the bridge has still to publish and of all that ROS
  -- delivers, no run of the bridge ends its worker, whatever the joint states are otherwise and
  -- however often the broker is lost; and the client takes the topics of all that is then left.
  pub run_total :
      (es : List (Event F)) (s : Pipeline F Payload)
      → All (IsNamed json asset accepts) (validated json asset es)
      → IsClear json asset accepts s
      → (s' : Pipeline F Payload) × (run json asset accepts es s ≡ ok s')
        × IsClear json asset accepts s'
  unfolding run
  run_total [] s named c = (s, refl, c)
  run_total (e ∷ es) s named c =
      let (now, later) = first-IsNamed e es named in
      let (t, first, ct) = step-IsClear e s now c in
      let (s', rest, cs) = run_total es t later ct in (s', rw first rest, cs)
