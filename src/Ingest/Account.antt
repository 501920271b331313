-- ===== src/Ingest/Account.antt =====
-- What ingestion writes, counts and reports over a run.
use mathlib.Core.List.{append-nil, append_assoc}
use twin_services.Base.{
  ℕ, suc, ◌+◌, ◌≡◌, refl, sym, ap, ◌∙◌, Bool, true, false, List, [], ◌∷◌, ◌++◌, arith,
}
use twin_services.Contracts.Telemetry.{TelemetryJson}
use twin_services.Ingest.{
  Point, Conversion, rejected_topic, rejected_payload, converted, Ingestor, handle, Event, Write,
  returned, taken_unanswered, refused, connected, pinged, disconnected, message, convert, step, run,
}

module _ {F : Type 0} where
  abbrev taken : Conversion F → Write → List (Point F)
  taken (converted p) returned = p ∷ []
  taken (converted p) taken_unanswered = p ∷ []
  taken _ _ = []

  -- One for a point whose write returned.
  abbrev acknowledged : Conversion F → Write → ℕ
  acknowledged (converted p) returned = 1
  acknowledged _ _ = 0

  -- The messages that were rejected or whose write raised.
  abbrev pub dropped : Ingestor F → ℕ
  dropped s = s.topic_rejections + s.payload_rejections + s.write_failures

module _ {F : Type 0} {is_finite : F → Bool} (json : TelemetryJson F is_finite) where
  -- The points of a sequence of events that the database took, in order.
  abbrev pub points_of : List (Event json.Payload) → List (Point F)
  points_of [] = []
  points_of (message topic payload takes ∷ es) =
      taken (convert json topic payload) takes ++ points_of es
  points_of (_ ∷ es) = points_of es

  -- How many writes of points returned.
  abbrev pub acknowledged_of : List (Event json.Payload) → ℕ
  acknowledged_of [] = 0
  acknowledged_of (message topic payload takes ∷ es) =
      acknowledged (convert json topic payload) takes + acknowledged_of es
  acknowledged_of (_ ∷ es) = acknowledged_of es

  abbrev pub messages_of : List (Event json.Payload) → ℕ
  messages_of [] = 0
  messages_of (message topic payload takes ∷ es) = 1 + messages_of es
  messages_of (_ ∷ es) = messages_of es

  -- Whether the last event on the connection opened it; `b` if there is none.
  abbrev pub connected_after : Bool → List (Event json.Payload) → Bool
  connected_after b [] = b
  connected_after b (connected ∷ es) = connected_after true es
  connected_after b (pinged pong ∷ es) = connected_after b es
  connected_after b (disconnected ∷ es) = connected_after false es
  connected_after b (message topic payload takes ∷ es) = connected_after b es

  -- Whether the last ping or write of a point succeeded; `b` if there is none.
  abbrev answered : Bool → Conversion F → Write → Bool
  answered b (converted p) returned = true
  answered b (converted p) taken_unanswered = false
  answered b (converted p) refused = false
  answered b _ takes = b

  abbrev pub healthy_after : Bool → List (Event json.Payload) → Bool
  healthy_after b [] = b
  healthy_after b (connected ∷ es) = healthy_after b es
  healthy_after b (pinged pong ∷ es) = healthy_after pong es
  healthy_after b (disconnected ∷ es) = healthy_after b es
  healthy_after b (message topic payload takes ∷ es) =
      healthy_after (answered b (convert json topic payload) takes) es

  -- What a run adds to the ingestor.
  pub record Ingests (points : List (Point F)) (k n : ℕ) (s s' : Ingestor F) : Type 0 where
    pub written : s'.written ≡ s.written ++ points
    pub messages : s'.messages ≡ s.messages + n
    pub accounted : dropped s' + k ≡ dropped s + n

  Ingests-handle :
      (v : Conversion F) (takes : Write) (s : Ingestor F)
      → Ingests
          (taken v takes)
          (acknowledged v takes)
          1
          s
          (handle v takes (record s { messages = suc s.messages }))
  unfolding handle
  Ingests-handle rejected_topic takes s = record {
    written = sym (append-nil _);
    messages = omega arith;
    accounted = omega arith;
  }
  Ingests-handle rejected_payload takes s = record {
    written = sym (append-nil _);
    messages = omega arith;
    accounted = omega arith;
  }
  Ingests-handle (converted p) returned s = record {
    written = refl;
    messages = omega arith;
    accounted = omega arith;
  }
  Ingests-handle (converted p) taken_unanswered s = record {
    written = refl;
    messages = omega arith;
    accounted = omega arith;
  }
  Ingests-handle (converted p) refused s = record {
    written = sym (append-nil _);
    messages = omega arith;
    accounted = omega arith;
  }

  Ingests-then :
      {ps qs : List (Point F)} {j k n m : ℕ} {s t u : Ingestor F}
      → Ingests ps j n s t
      → Ingests qs k m t u
      → Ingests (ps ++ qs) (j + k) (n + m) s u
  Ingests-then {ps} {qs} {s = s} p q = record {
    written = q.written ∙ ap (λ l. l ++ qs) p.written ∙ append_assoc s.written ps qs;
    messages = omega (arith, p.messages, q.messages);
    accounted = omega (arith, p.accounted, q.accounted);
  }

  Ingests-silent :
      (s s' : Ingestor F)
      → s'.written ≡ s.written
      → s'.messages ≡ s.messages
      → dropped s' ≡ dropped s
      → Ingests [] 0 0 s s'
  Ingests-silent s s' w m d = record {
    written = w ∙ sym (append-nil s.written);
    messages = omega arith;
    accounted = omega arith;
  }

  -- An event before a run that writes, counts and drops nothing.
  silent-then :
      {ps : List (Point F)} {k n : ℕ} {s t u : Ingestor F}
      → t.written ≡ s.written
      → t.messages ≡ s.messages
      → dropped t ≡ dropped s
      → Ingests ps k n t u
      → Ingests ps k n s u
  silent-then {ps} w m d a = record {
    written = a.written ∙ ap (λ l. l ++ ps) w;
    messages = omega (arith, a.messages);
    accounted = omega (arith, a.accounted);
  }

  -- After any run, whatever the messages and however often the database fails or the connection is
  -- lost: the database holds, behind what it held, the points of the valid messages that it took,
  -- in order, also of those whose write raised; and every message is counted as received and, unless
  -- it left a point by a write that returned, in exactly one of the counters of rejections and of
  -- failed writes.
  pub run-Ingests :
      (es : List (Event json.Payload)) (s : Ingestor F)
      → Ingests (points_of es) (acknowledged_of es) (messages_of es) s (run json es s)
  unfolding run step
  run-Ingests [] s = Ingests-silent s s refl refl refl
  run-Ingests (connected ∷ es) s =
      silent-then refl refl refl (run-Ingests es (record s { mqtt_connected = true }))
  run-Ingests (pinged pong ∷ es) s =
      silent-then refl refl refl (run-Ingests es (record s { influx_ok = pong }))
  run-Ingests (disconnected ∷ es) s =
      silent-then refl refl refl (run-Ingests es (record s { mqtt_connected = false }))
  run-Ingests (message topic payload takes ∷ es) s =
      Ingests-then (Ingests-handle (convert json topic payload) takes s) (run-Ingests es _)

  handle-mqtt_connected :
      (v : Conversion F) (takes : Write) (s : Ingestor F)
      → (handle v takes s).mqtt_connected ≡ s.mqtt_connected
  unfolding handle
  handle-mqtt_connected v takes s = ground arith

  -- The readiness of the broker is that of the last connection event: no message, valid or not,
  -- and no failed write changes it.
  pub run-mqtt_connected :
      (es : List (Event json.Payload)) (s : Ingestor F)
      → (run json es s).mqtt_connected ≡ connected_after s.mqtt_connected es
  unfolding run step
  run-mqtt_connected [] s = refl
  run-mqtt_connected (connected ∷ es) s = run-mqtt_connected es _
  run-mqtt_connected (pinged pong ∷ es) s = run-mqtt_connected es _
  run-mqtt_connected (disconnected ∷ es) s = run-mqtt_connected es _
  run-mqtt_connected (message topic payload takes ∷ es) s =
      run-mqtt_connected es _
      ∙ ap (λ b. connected_after b es) (handle-mqtt_connected (convert json topic payload) takes _)

  handle-influx_ok :
      (v : Conversion F) (takes : Write) (s : Ingestor F)
      → (handle v takes s).influx_ok ≡ answered s.influx_ok v takes
  unfolding handle
  handle-influx_ok (converted p) returned s = refl
  handle-influx_ok (converted p) taken_unanswered s = refl
  handle-influx_ok (converted p) refused s = refl
  handle-influx_ok rejected_topic takes s = refl
  handle-influx_ok rejected_payload takes s = refl

  -- The readiness of the database is the answer to the last ping or write of a point: messages that
  -- are rejected do not change it.
  pub run-influx_ok :
      (es : List (Event json.Payload)) (s : Ingestor F)
      → (run json es s).influx_ok ≡ healthy_after s.influx_ok es
  unfolding run step
  run-influx_ok [] s = refl
  run-influx_ok (connected ∷ es) s = run-influx_ok es _
  run-influx_ok (pinged pong ∷ es) s = run-influx_ok es _
  run-influx_ok (disconnected ∷ es) s = run-influx_ok es _
  run-influx_ok (message topic payload takes ∷ es) s =
      run-influx_ok es _
      ∙ ap (λ b. healthy_after b es) (handle-influx_ok (convert json topic payload) takes _)
