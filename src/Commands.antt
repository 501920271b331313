-- ===== src/Commands.antt =====
-- services/command-svc: `Publisher` of src/command_svc/publisher.py and the endpoint `/command` of
-- src/command_svc/api.py. What the broker did with a publication is part of the event; the
-- publications that it took are recorded in order.
pub mod Connection
pub mod Delivery
pub mod Readiness
pub mod Concurrent
use twin_services.Base.{
  ℕ, suc, Text, codes, Bool, true, false, Option, none, some, List, [], ◌∷◌, ◌++◌, ◌≡◌,
}
use twin_services.Base.Eq.{Dict}
use twin_services.Base.Result.{Result, ok, raise, broker_unavailable}
use twin_services.Floats.{Floats}
use twin_services.Contracts.Vocabulary.{
  CommandKind, home, move_joints, schema_version as current_version,
}
use twin_services.Contracts.Topics.{command_topic}
use twin_services.Contracts.Command.{JointCommand, CommandReceipt, CommandJson, validate_command}

-- What reached the broker: the topic and the payload.
pub record Publication (Payload : Type 0) : Type 0 where
  pub topic : Text
  pub payload : Payload

-- A connection is known by its number.
pub record Publisher (Payload : Type 0) : Type 0 where
  pub asset_name : Text
  -- the connection that `run` holds open
  pub open_connection : Option ℕ
  -- `_client`
  pub client : Option ℕ
  -- the counter PUBLISHED by kind
  pub published_home : ℕ
  pub published_move : ℕ
  pub sent : List (Publication Payload)

-- What becomes of a publication at QoS 1: it is acknowledged; the broker takes it, but its
-- acknowledgement does not arrive; or it is lost before. The client raises MqttError in the last two.
pub data Reply : Type 0 where
  acknowledged unanswered unsent : Reply

-- The answers of the endpoint: 202, 503 and FastAPI's 422.
pub data Response : Type 0 where
  accepted : CommandReceipt → Response
  unavailable unprocessable : Response

module _ {fl : Floats} (json : CommandJson fl) where
  open json use {Payload}

  unfoldable pub count : CommandKind → Publisher Payload → Publisher Payload
  count home s = record s { published_home = suc s.published_home }
  count move_joints s = record s { published_move = suc s.published_move }

  -- The broker takes the publication.
  unfoldable pub deliver : JointCommand fl.F → Publisher Payload → Publisher Payload
  deliver c s =
      let publication : Publication Payload = record {
        topic = command_topic s.asset_name;
        payload = json.write c;
      } in
      record s { sent = s.sent ++ publication ∷ [] }

  -- `publish` behind its `await`, which returned or raised MqttError.
  unfoldable pub finish :
      Bool → JointCommand fl.F → Publisher Payload → Publisher Payload × Result Text
  unfolding count
  finish false c s = (record s { client = none }, raise broker_unavailable)
  finish true c s = (count c.kind s, ok (command_topic s.asset_name))

  -- `publish`, once `_client` is there.
  unfoldable pub attempt :
      Reply → JointCommand fl.F → Publisher Payload → Publisher Payload × Result Text
  unfolding deliver finish
  attempt acknowledged c s = finish true c (deliver c s)
  attempt unanswered c s = finish false c (deliver c s)
  attempt unsent c s = finish false c s

  unfoldable pub publish_by :
      Option ℕ → Reply → JointCommand fl.F → Publisher Payload → Publisher Payload × Result Text
  unfolding attempt
  publish_by none reply c s = (s, raise broker_unavailable)
  publish_by (some n) reply c s = attempt reply c s

  unfoldable pub publish :
      Reply → JointCommand fl.F → Publisher Payload → Publisher Payload × Result Text
  unfolding publish_by
  publish reply c s = publish_by s.client reply c s

  answer : Text → CommandKind → Result Text → Response
  answer id kind (ok topic) =
      accepted
        (record { schema_version = current_version; command_id = id; kind = kind; topic = topic })
  answer id kind (raise _) = unavailable

  post_valid :
      Reply → Text → Result (JointCommand fl.F) → Publisher Payload → Publisher Payload × Response
  unfolding publish answer
  post_valid reply id (raise _) s = (s, unprocessable)
  post_valid reply id (ok c) s =
      let (s', outcome) = publish reply c s in (s', answer id c.kind outcome)

  -- `POST /command` with a request body and the fresh identifier of `uuid4`.
  unfoldable pub post_command :
      Reply → Text → Payload → Publisher Payload → Publisher Payload × Response
  unfolding post_valid
  post_command reply id body s = post_valid reply id (validate_command json body) s

  -- What happens to the service: `run` enters a connection, or leaves it with an MqttError, and a
  -- request comes in.
  pub data Event : Type 0 where
    connected : ℕ → Event
    lost : Event
    request : Reply → Text → Payload → Event

  -- `run` is one task, so it connects only without a connection and loses only one that it has.
  pub data Step : Publisher Payload → Event → Publisher Payload → Type 0 where
    connects :
        {s : Publisher Payload} {n : ℕ}
        → s.open_connection ≡ none
        → Step s (connected n) (record s { open_connection = some n; client = some n })
    loses :
        {s : Publisher Payload} {n : ℕ}
        → s.open_connection ≡ some n
        → Step s lost (record s { open_connection = none; client = none })
    handles :
        {s : Publisher Payload} {reply : Reply} {id : Text} {body : Payload}
        → Step s (request reply id body) (post_command reply id body s).0

  pub data Steps : Publisher Payload → List Event → Publisher Payload → Type 0 where
    stop : {s : Publisher Payload} → Steps s [] s
    then_step :
        {s t u : Publisher Payload} {e : Event} {es : List Event}
        → Step s e t
        → Steps t es u
        → Steps s (e ∷ es) u

-- `readiness`: `self._client is not None`
unfoldable pub readiness : {Payload : Type 0} → Publisher Payload → Dict Text Bool
readiness s = (codes "mqtt", elim s.client [ none ↦ false | some n ↦ true ]) ∷ []
