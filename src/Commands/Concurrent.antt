-- ===== src/Commands/Concurrent.antt =====
-- `publish` of services/command-svc/src/command_svc/publisher.py with its `await` in the middle: while
-- a publication waits for its acknowledgement, other requests come in and `run` may lose the
-- connection and make another one.
pub mod Account
pub mod Stale
use twin_services.Base.{
  ℕ, pick, Bool, true, false, if◌then◌else◌, Option, none, some, List, [], ◌∷◌, ◌++◌,
}
use twin_services.Base.Result.{Result, ok, raise, broker_unavailable}
use twin_services.Base.{Text}
use twin_services.Floats.{Floats}
use twin_services.Contracts.Command.{JointCommand, CommandJson}
use twin_services.Commands.{Publisher, deliver, finish}

-- A call of `publish` that waits, with the connection that it took from `_client`.
pub record Pending (F : Type 0) : Type 0 where
  pub connection : ℕ
  pub command : JointCommand F
  -- whether the broker has taken the publication
  pub taken : Bool

pub record Session (F Payload : Type 0) : Type 0 where
  pub publisher : Publisher Payload
  pub waiting : List (Pending F)
  -- what the calls of `publish` returned or raised, in the order in which they ended
  pub answers : List (Result Text)

-- `run` enters a connection or leaves it with an MqttError; a call of `publish` begins; one of those
-- that wait goes on, with an acknowledgement or an MqttError; or the broker takes the publication of
-- one of them, which at QoS 1 it may do more than once.
pub data Event (F : Type 0) : Type 0 where
  opens : ℕ → Event F
  breaks : Event F
  begins : JointCommand F → Event F
  settles : ℕ → Bool → Event F
  delivers : ℕ → Event F

module _ {fl : Floats} (json : CommandJson fl) where
  open json use {Payload}
  open fl use {F}

  -- `run` is one task: it connects only without a connection, and loses only one that it has.
  open_from : Option ℕ → ℕ → Session F Payload → Session F Payload
  open_from none n s = record s {
    publisher = record s.publisher { open_connection = some n; client = some n };
  }
  open_from (some m) n s = s

  break_from : Option ℕ → Session F Payload → Session F Payload
  break_from none s = s
  break_from (some m) s = record s {
    publisher = record s.publisher { open_connection = none; client = none };
  }

  -- `publish` up to its `await`.
  begin_from : Option ℕ → JointCommand F → Session F Payload → Session F Payload
  begin_from none c s = record s { answers = s.answers ++ raise broker_unavailable ∷ [] }
  begin_from (some n) c s = record s {
    waiting = s.waiting ++ record { connection = n; command = c; taken = false } ∷ [];
  }

  -- The broker takes the publication of a call that waits.
  deliver_from : Option (Pending F × List (Pending F)) → Session F Payload → Session F Payload
  deliver_from none s = s
  deliver_from (some (p, rest)) s = record s {
    publisher = deliver json p.command s.publisher;
    waiting = rest ++ record p { taken = true } ∷ [];
  }

  -- `publish` from its `await` on. What it does to `_client` does not depend on the connection.
  end_call : Pending F → List (Pending F) → Bool → Session F Payload → Session F Payload
  end_call p rest acknowledged s =
      let (publisher, outcome) = finish json acknowledged p.command s.publisher in
      record { publisher = publisher; waiting = rest; answers = s.answers ++ outcome ∷ [] }

  -- An acknowledgement comes only behind the publication.
  settle : Option (Pending F × List (Pending F)) → Bool → Session F Payload → Session F Payload
  unfolding end_call
  settle none acknowledged s = s
  settle (some (p, rest)) false s = end_call p rest false s
  settle (some (p, rest)) true s = if p.taken then end_call p rest true s else s

  unfoldable pub step : Event F → Session F Payload → Session F Payload
  unfolding open_from break_from begin_from settle deliver_from
  step (opens n) s = open_from s.publisher.open_connection n s
  step breaks s = break_from s.publisher.open_connection s
  step (begins c) s = begin_from s.publisher.client c s
  step (settles i acknowledged) s = settle (pick i s.waiting) acknowledged s
  step (delivers i) s = deliver_from (pick i s.waiting) s

  unfoldable pub run : List (Event F) → Session F Payload → Session F Payload
  unfolding step
  run [] s = s
  run (e ∷ es) s = run es (step e s)
