-- ===== src/Lib.antt =====
-- Digital twin of a UR5 arm: a bridge takes joint states from ROS to MQTT, telemetry-svc writes the
-- telemetry to InfluxDB, state-svc keeps a rolling window of it and streams the derived state over
-- gRPC, viz-svc hands that stream to browsers, and command-svc publishes setpoints that the bridge
-- takes back to ROS. The packages share the contracts: topics and payloads.
--
-- The files and the code that they model:
--   Base, and the files in Base/: lists over native numbers, texts as code points, `dict` as an
--     association list, `int` as ℤ, exceptions as values of Result.
--   Floats: Python's float and the math functions that the services call, as a parameter.
--   Config, in the config.py of the bridge and of each service: from_env over an environment that is
--     a dictionary of texts; Decimal: the builtin int on ASCII texts, and str of a natural number.
--   Contracts, in contracts/src/contracts/models.py: Vocabulary (JointField, CommandKind,
--     UR5_JOINT_NAMES), Topics (telemetry_topic, command_topic, parse_telemetry_topic), Telemetry
--     (JointTelemetry), Command (JointCommand, CommandReceipt). The regular expression is a matcher
--     on code points; the models are their constraints on the fields that a JSON reader found.
--   State, in services/state-svc/src/state_svc: Window (window.py, the class RollingWindow, with a
--     deque as a list), Kinematics (kinematics.py), Hub (StateHub of grpc_server.py, with queues
--     under numbers that stand for their identity), Stream (GetState, StreamState and _check_asset),
--     Build (build_state), Consumer (consumer.py: _observe, _consume and _broadcast_forever as
--     events of one state, with the Prometheus counters), Main (main.py up to its task group, and
--     the interval of the broadcaster). Window/Batch compares the window with a computation from the
--     whole log.
--   Ingest, in services/telemetry-svc/src/telemetry_svc/ingest.py: Ingestor, with the database as the
--     list of points that it took, by a write that returned or one that raised all the same.
--   Commands, in services/command-svc/src/command_svc: publisher.py and the endpoint of api.py, with
--     a step relation for connections, their loss and requests; Readiness: ready and metrics of api.py;
--     Concurrent: calls of publish that wait while others come in and connections change. At QoS 1 the
--     broker may take a publication, also more than once, whose acknowledgement never arrives.
--   Bridge, in bridge/src/bridge: models.py, and main.py: the handling of joint states and commands;
--     Pipeline (_on_msg, the queue of main_async and telemetry_worker as events, with the waiting
--     calls of queue.put as a list of which any may go on, and a publication that goes out, raises
--     MqttError or, for a topic that the client refuses, ValueError); Commander (command_worker); Node
--     (start_ros_node: the statements of its thread, and the wait of its caller, as events).
--     Delivery and Display follow a joint state into state-svc.
--   Health, in services/state-svc/src/state_svc/health.py, of which the other services have copies:
--     ready and metrics.
--   Viz, in services/viz-svc/src/viz_svc: to_frame and frames of stream.py and ws_state of app.py as
--     events on sockets, with the generators that are suspended until asyncio finalises them;
--     Session: a browser from StreamState of state-svc to the close of its socket;
--     Watch: run and readiness of StateStream, and ready and metrics of app.py.
--   Chaos, in scripts/chaos.py: probe, all_ready, run_cycle and main over what the health endpoints
--     answer at each poll.
--   Tests: concrete inputs, with integers for floats and records for JSON.
--
-- A child file of a component has the theorems on it and is named for what they are about. An
-- asyncio program runs one piece of code between two `await`s at a time: an event is such a piece,
-- and a list of events is an interleaving.
--
-- Bounds: loops are structural recursion on lists; only the decimal print of a number has fuel, its
-- successor, which is more than it has digits. An int of more than 4300 digits is refused, as in
-- Python. Stamps are naturals, as the contract admits no other; the bound of a protobuf uint64,
-- 2^64, is written out. Other integers of Python are unbounded, as in the model.
--
-- Parameters, with what is relied on: the JSON codecs of pydantic (TelemetryJson and CommandJson: what
-- is written reads back, if its numbers are finite, since others are written as null); numpy's
-- product of matrices and the setter of a uint64 field (Vendor); floats (Floats); int outside ASCII,
-- and float on a text, which reads what repr prints (Readers); for which topics `client.publish` of
-- aiomqtt raises no ValueError (Bridge/Pipeline).
-- Where a statement needs arithmetic without rounding it has IsExact, HasMeans or IsTame among its
-- conditions: rounding is not modelled.
--
-- Not modelled: logging, sleeps and other waits, the servers that the entry points start, the static
-- files of viz-svc, generated gRPC stubs, the demonstration of sim/scripts and the frontend; task
-- groups, their cancellation and the shutdown of the bridge; an exception in telemetry-svc that is
-- neither an MqttError nor of a write; what rclpy does. In Bridge/Delivery and in command-svc the name
-- of the asset is taken to be one that the MQTT client accepts in a topic.
pub mod Base
pub mod Floats
pub mod Config
pub mod Contracts
pub mod State
pub mod Ingest
pub mod Commands
pub mod Bridge
pub mod Health
pub mod Viz
pub mod Chaos
pub mod Tests
