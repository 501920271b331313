-- ===== src/Bridge/Pipeline/Backlog.antt =====
-- The calls of `queue.put` that wait while the broker is away.
use mathlib.Core.Path.{subst}
use twin_services.Base.{
  ℕ, ◌+◌, ◌≤◌, ◌≡◌, inl, inr, refl, sym, ap, ◌∙◌, pick, pick-length, Perm-length, Text, Bool, true,
  false, Option, none, some, All, List, [], ◌∷◌, ◌++◌, length, length-append, arith, if◌then◌else◌,
}
use twin_services.Base.Result.{ok, ok-injective, >>=-eq-ok}
use twin_services.Contracts.Telemetry.{TelemetryJson}
use twin_services.Bridge.{JointStateMessage, Outgoing, validate_state}
use twin_services.Bridge.Pipeline.{
  start, Pipeline, Event, arrives, puts, connects, takes, publishes, handed, on_msg, put,
  put_waiting, lose, connect_from, connect, send, publish_next, publish_one, take_from, take, step,
  run, maxsize,
}
use twin_services.Bridge.Pipeline.Publish.{publish_next-eq-ok}
use twin_services.Bridge.Pipeline.Bound.{run-bounded}
use twin_services.Bridge.Pipeline.Ledger.{validated}
use twin_services.Bridge.Pipeline.Progress.{run-Accounts}
use mathlib.Core.List.{Perm}

module _ {F : Type 0} {is_finite : F → Bool} (json : TelemetryJson F is_finite) (asset : Text)
    (accepts : Text → Bool) where
  open json use {Payload}

  -- The broker takes no connection.
  abbrev pub IsOffline : Event F → Type 0
  IsOffline (connects true) = ⊥
  IsOffline _ = Unit

  -- The joint states in the queue and before it.
  abbrev held : Pipeline F Payload → ℕ
  held s = length s.queue + length s.pending

  abbrev arrived_with : Event F → List (JointStateMessage F)
  arrived_with (arrives m) = handed (validate_state m)
  arrived_with _ = []

  -- What a step does while the broker is away.
  record Waits (n : ℕ) (s t : Pipeline F Payload) : Type 0 where
    outside : t.connected ≡ false
    held_more : held t ≡ held s + n

  put-Waits :
      (o : Option (JointStateMessage F × List (JointStateMessage F))) (i : ℕ)
      (s : Pipeline F Payload)
      → pick i s.pending ≡ o
      → s.connected ≡ false
      → Waits 0 s (put o s)
  unfolding put
  put-Waits none i s e d = record { outside = d; held_more = omega arith }
  put-Waits (some (m, rest)) i s e d = record {
    outside = d;
    held_more = omega (arith, length-append s.queue (m ∷ []), pick-length i s.pending m rest e);
  }

  put_if-Waits :
      (room : Bool) (i : ℕ) (s : Pipeline F Payload)
      → s.connected ≡ false
      → Waits 0 s (if room then put (pick i s.pending) s else s)
  put_if-Waits true i s d = put-Waits (pick i s.pending) i s refl d
  put_if-Waits false i s d = record { outside = d; held_more = omega arith }

  connect_from-Waits :
      (inside : Bool) (s : Pipeline F Payload)
      → s.connected ≡ false
      → Waits 0 s (connect_from inside false s)
  unfolding connect_from lose
  connect_from-Waits true s d = record { outside = d; held_more = omega arith }
  connect_from-Waits false s d = record { outside = refl; held_more = omega arith }

  send-Waits :
      (success : Bool) (o : Outgoing Payload) (rest : List (Outgoing Payload))
      (s : Pipeline F Payload)
      → s.connected ≡ false
      → Waits 0 s (send success o rest s)
  unfolding send lose
  send-Waits true o rest s d = record { outside = d; held_more = omega arith }
  send-Waits false o rest s d = record { outside = refl; held_more = omega arith }

  publish_next-Waits :
      (success : Bool) (s t : Pipeline F Payload)
      → publish_next accepts success s.in_flight s ≡ ok t
      → s.connected ≡ false
      → Waits 0 s t
  publish_next-Waits success s t h d = elim (publish_next-eq-ok accepts success s.in_flight s t h) [
    | inl (idle, same) ↦ subst (Waits 0 s) same (record { outside = d; held_more = omega arith })
    | inr (o, rest, work, same) ↦ subst (Waits 0 s) same (send-Waits success o rest s d)
  ]

  step-Waits :
      (e : Event F) (s t : Pipeline F Payload)
      → IsOffline e
      → s.connected ≡ false
      → step json asset accepts e s ≡ ok t
      → Waits (length (arrived_with e)) s t
  unfolding step on_msg put_waiting connect take take_from publish_one
  step-Waits (arrives m) s t off d h = subst (Waits _ s) (ok-injective h) (record {
    outside = d;
    held_more = omega (arith, length-append s.pending (handed (validate_state m)));
  })
  step-Waits (puts i) s t off d h = subst (Waits 0 s) (ok-injective h) (put_if-Waits _ i s d)
  step-Waits (connects true) s t off d h = absurd off
  step-Waits (connects false) s t off d h =
      subst (Waits 0 s) (ok-injective h) (connect_from-Waits s.connected s d)
  step-Waits (publishes success) s t off d h = publish_next-Waits success s t h d
  step-Waits takes s t off d h =
      let same : take_from json asset s.connected s.queue s.in_flight s ≡ ok s =
        ap (λ b. take_from json asset b s.queue s.in_flight s) d in
      subst (Waits 0 s) (ok-injective (sym same ∙ h))
        (record { outside = d; held_more = omega arith })

  validated-cons :
      (e : Event F) (es : List (Event F))
      → validated json asset (e ∷ es) ≡ arrived_with e ++ validated json asset es
  validated-cons (arrives m) es = refl
  validated-cons (puts i) es = refl
  validated-cons (connects success) es = refl
  validated-cons (publishes success) es = refl
  validated-cons takes es = refl

  run-Waits :
      (es : List (Event F)) (s s' : Pipeline F Payload)
      → All IsOffline es
      → s.connected ≡ false
      → run json asset accepts es s ≡ ok s'
      → Waits (length (validated json asset es)) s s'
  unfolding run
  run-Waits [] s s' off d h =
      subst (Waits 0 s) (ok-injective h) (record { outside = d; held_more = omega arith })
  run-Waits (e ∷ es) s s' off d h =
      let (t, first, rest) =
        >>=-eq-ok (step json asset accepts e s) (run json asset accepts es) h in
      let one = step-Waits e s t off.0 d first in
      let others = run-Waits es t s' off.1 one.outside rest in
      record {
        outside = others.outside;
        held_more = omega (
          arith,
          one.held_more,
          others.held_more,
          ap length (validated-cons e es),
          length-append (arrived_with e) (validated json asset es),
        );
      }

  -- What left the queue, when as much is left as came in.
  none_taken :
      (taken queue pending admitted arrived : List (JointStateMessage F))
      → Perm (admitted ++ pending) arrived
      → taken ++ queue ≡ admitted
      → length queue + length pending ≡ length arrived
      → Perm (queue ++ pending) arrived
  none_taken [] queue pending admitted arrived p fifo count =
      subst (λ l. Perm (l ++ pending) arrived) (sym fifo) p
  none_taken (m ∷ taken) queue pending admitted arrived p fifo count = absurd (
      omega (
        arith,
        Perm-length p,
        length-append admitted pending,
        ap length fifo,
        length-append taken queue,
        count,
      ))

  -- The bound of the queue does not bound what waits before it. From the start of the bridge, while
  -- the broker takes no connection, the joint states in the queue and in calls of `queue.put` that
  -- wait are exactly those that ROS delivered and that validated, each once, and all but at most
  -- 1000 of them wait, however many there are.
  pub run-pending :
      (es : List (Event F)) (s' : Pipeline F Payload)
      → All IsOffline es
      → run json asset accepts es start ≡ ok s'
      → Perm (s'.queue ++ s'.pending) (validated json asset es)
        × (length (validated json asset es) ≤ length s'.pending + maxsize)
  unfolding start
  run-pending es s' off h =
      let waits = run-Waits es start s' off refl h in
      let bound = run-bounded json asset accepts es start s' h (omega arith) in
      let account = run-Accounts json asset accepts es start s' h in
      (
        none_taken account.taken s'.queue s'.pending account.admitted (validated json asset es)
            account.none_made_up account.first_in_first_out (omega (arith, waits.held_more)),
        omega (arith, waits.held_more, bound),
      )
