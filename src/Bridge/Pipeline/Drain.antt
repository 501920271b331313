-- ===== src/Bridge/Pipeline/Drain.antt =====
-- How the bridge catches up when the broker is there.
use mathlib.Core.List.{append-nil, append_assoc}
use mathlib.Core.Path.{subst}
use twin_services.Base.{
  ℕ, ◌≡◌, refl, sym, ap, ◌∙◌, pick, Text, Bool, true, false, List, [], ◌∷◌, ◌++◌, All,
}
use twin_services.Base.Result.{ok}
use twin_services.Contracts.Telemetry.{TelemetryJson}
use twin_services.Bridge.{JointStateMessage, Outgoing}
use twin_services.Bridge.Pipeline.{
  Pipeline, puts, connects, takes, publishes, put, put_waiting, connect_from, connect, send,
  publish_next, publish_one, take_from, take, step,
}
use twin_services.Bridge.Pipeline.Ledger.{publications, all_publications}
use twin_services.Bridge.Pipeline.Publish.{publish_joint_states_total, AreTaken, IsNamed, IsClear}
use twin_services.Bridge.Pipeline.Service.{Reaches, Reaches-itself, Reaches-then, Reaches-step}

module _ {F : Type 0} {is_finite : F → Bool} (json : TelemetryJson F is_finite) (asset : Text)
    (accepts : Text → Bool) where
  open json use {Payload}

  -- The bridge, connected, with what it has left and what it has sent.
  abbrev at :
      List (JointStateMessage F)
      → List (JointStateMessage F)
      → List (Outgoing Payload)
      → List (Outgoing Payload)
      → ℕ
      → Pipeline F Payload
  at pending queue in_flight sent reconnects = record {
    pending = pending;
    queue = queue;
    connected = true;
    in_flight = in_flight;
    sent = sent;
    reconnects = reconnects;
  }

  all_publications-append :
      (ms ns : List (JointStateMessage F))
      → all_publications json asset (ms ++ ns)
        ≡ all_publications json asset ms ++ all_publications json asset ns
  all_publications-append [] ns = refl
  all_publications-append (m ∷ ms) ns =
      ap (◌++◌ (publications json asset m)) (all_publications-append ms ns)
      ∙ sym (
          append_assoc (publications json asset m) (all_publications json asset ms)
            (all_publications json asset ns))

  module _ (n : ℕ) where
    publishes_one :
        (pending queue : List (JointStateMessage F)) (o : Outgoing Payload)
        (work sent : List (Outgoing Payload))
        → accepts o.topic ≡ true
        → step json asset accepts (publishes true) (at pending queue (o ∷ work) sent n)
          ≡ ok (at pending queue work (sent ++ o ∷ []) n)
    unfolding step publish_one publish_next send
    publishes_one pending queue o work sent c = rw c refl

    -- What is left of the joint state at hand goes out.
    finish :
        (pending queue : List (JointStateMessage F)) (work sent : List (Outgoing Payload))
        → AreTaken json asset accepts work
        → Reaches json asset accepts
            (at pending queue work sent n)
            (at pending queue [] (sent ++ work) n)
    finish pending queue [] sent c =
        subst
          (λ l. Reaches json asset accepts (at pending queue [] sent n) (at pending queue [] l n))
          (sym (append-nil sent)) (Reaches-itself json asset accepts (at pending queue [] sent n))
    finish pending queue (o ∷ work) sent c =
        let next = at pending queue work (sent ++ o ∷ []) n in
        Reaches-then json asset accepts (at pending queue (o ∷ work) sent n) next
          (at pending queue [] (sent ++ o ∷ work) n)
          (Reaches-step json asset accepts (publishes true) (at pending queue (o ∷ work) sent n)
            next refl (publishes_one pending queue o work sent c.0))
          (subst (λ l. Reaches json asset accepts next (at pending queue [] l n))
            (append_assoc sent (o ∷ []) work) (finish pending queue work (sent ++ o ∷ []) c.1))

    takes_one :
        (pending rest : List (JointStateMessage F)) (m : JointStateMessage F)
        (sent : List (Outgoing Payload))
        → step json asset accepts takes (at pending (m ∷ rest) [] sent n)
          ≡ ok (at pending rest (publications json asset m) sent n)
    unfolding step take take_from
    takes_one pending rest m sent =
        let (out, p) = publish_joint_states_total json asset m in rw (p, publications) refl

    -- The queue is emptied.
    empty_queue :
        (pending queue : List (JointStateMessage F)) (sent : List (Outgoing Payload))
        → All (IsNamed json asset accepts) queue
        → Reaches json asset accepts
            (at pending queue [] sent n)
            (at pending [] [] (sent ++ all_publications json asset queue) n)
    empty_queue pending [] sent c =
        subst (λ l. Reaches json asset accepts (at pending [] [] sent n) (at pending [] [] l n))
          (sym (append-nil sent)) (Reaches-itself json asset accepts (at pending [] [] sent n))
    empty_queue pending (m ∷ rest) sent c =
        let work = publications json asset m in
        let taken = at pending rest work sent n in
        let done = at pending rest [] (sent ++ work) n in
        let end = at pending [] [] (sent ++ all_publications json asset (m ∷ rest)) n in
        Reaches-then json asset accepts (at pending (m ∷ rest) [] sent n) taken end
          (Reaches-step json asset accepts takes (at pending (m ∷ rest) [] sent n) taken tt
            (takes_one pending rest m sent))
          (Reaches-then json asset accepts taken done end (finish pending rest work sent c.0) (
            subst (λ l. Reaches json asset accepts done (at pending [] [] l n))
              (append_assoc sent work (all_publications json asset rest))
              (empty_queue pending rest (sent ++ work) c.1)))

    puts_one :
        (rest : List (JointStateMessage F)) (m : JointStateMessage F)
        (sent : List (Outgoing Payload))
        → step json asset accepts (puts 0) (at (m ∷ rest) [] [] sent n)
          ≡ ok (at rest (m ∷ []) [] sent n)
    unfolding step put_waiting put pick
    puts_one rest m sent = refl

    -- The calls that wait go through, one after another.
    admit_all :
        (pending : List (JointStateMessage F)) (sent : List (Outgoing Payload))
        → All (IsNamed json asset accepts) pending
        → Reaches json asset accepts
            (at pending [] [] sent n)
            (at [] [] [] (sent ++ all_publications json asset pending) n)
    admit_all [] sent c =
        subst (λ l. Reaches json asset accepts (at [] [] [] sent n) (at [] [] [] l n))
          (sym (append-nil sent)) (Reaches-itself json asset accepts (at [] [] [] sent n))
    admit_all (m ∷ rest) sent c =
        let more = all_publications json asset (m ∷ []) in
        let put_in = at rest (m ∷ []) [] sent n in
        let done = at rest [] [] (sent ++ more) n in
        let end = at [] [] [] (sent ++ all_publications json asset (m ∷ rest)) n in
        Reaches-then json asset accepts (at (m ∷ rest) [] [] sent n) put_in end
          (Reaches-step json asset accepts (puts 0) (at (m ∷ rest) [] [] sent n) put_in tt
            (puts_one rest m sent))
          (Reaches-then json asset accepts put_in done end
            (empty_queue rest (m ∷ []) sent (c.0, tt))
            (subst (λ l. Reaches json asset accepts done (at [] [] [] l n))
              (append_assoc sent more (all_publications json asset rest)
                ∙ ap (◌++◌ sent) (sym (all_publications-append (m ∷ []) rest)))
              (admit_all rest (sent ++ more) c.1)))

    drain_connected :
        (pending queue : List (JointStateMessage F)) (work sent : List (Outgoing Payload))
        → AreTaken json asset accepts work
        → All (IsNamed json asset accepts) queue
        → All (IsNamed json asset accepts) pending
        → Reaches json asset accepts (at pending queue work sent n) (
            at [] [] []
              (((sent ++ work) ++ all_publications json asset queue)
                ++ all_publications json asset pending)
              n)
    drain_connected pending queue work sent c q p =
        let done = at pending queue [] (sent ++ work) n in
        let empty = at pending [] [] ((sent ++ work) ++ all_publications json asset queue) n in
        let end =
          at [] [] []
            (((sent ++ work) ++ all_publications json asset queue)
              ++ all_publications json asset pending)
            n in
        Reaches-then json asset accepts (at pending queue work sent n) done end
          (finish pending queue work sent c)
          (Reaches-then json asset accepts done empty end
            (empty_queue pending queue (sent ++ work) q)
            (admit_all pending ((sent ++ work) ++ all_publications json asset queue) p))

  already_connected :
      (s : Pipeline F Payload)
      → s.connected ≡ true
      → s ≡ at s.pending s.queue s.in_flight s.sent s.reconnects
  already_connected s e = ap (λ b. record s { connected = b }) e

  connects_again :
      (s : Pipeline F Payload)
      → s.connected ≡ false
      → step json asset accepts (connects true) s
        ≡ ok (at s.pending s.queue s.in_flight s.sent s.reconnects)
  unfolding step connect connect_from
  connects_again s e = ap (λ b. ok (connect_from b true s)) e

  -- The bridge after the broker has come back, if it was away.
  reconnect :
      (inside : Bool) (s : Pipeline F Payload)
      → s.connected ≡ inside
      → Reaches json asset accepts s (at s.pending s.queue s.in_flight s.sent s.reconnects)
  reconnect true s e =
      subst (Reaches json asset accepts s) (already_connected s e)
        (Reaches-itself json asset accepts s)
  reconnect false s e =
      Reaches-step json asset accepts (connects true) s
        (at s.pending s.queue s.in_flight s.sent s.reconnects) refl (connects_again s e)

  -- Nothing is stuck: from any state of the bridge for whose topics the client raises no ValueError,
  -- however full its queue is and however many puts wait before it, a stretch of service by the
  -- broker leads to a state in which nothing is queued, waits or is under way, and in which
  -- everything has been sent, behind what was sent before: the rest of the joint state at hand, all
  -- of the joint states in the queue, in their order, and all of those that waited.
  pub drain :
      (s : Pipeline F Payload)
      → IsClear json asset accepts s
      → (t : Pipeline F Payload) × Reaches json asset accepts s t
        × (t.pending ≡ [])
        × (t.queue ≡ [])
        × (t.in_flight ≡ [])
        × (t.sent
            ≡ ((s.sent ++ s.in_flight) ++ all_publications json asset s.queue)
              ++ all_publications json asset s.pending)
  drain s c =
      let up = at s.pending s.queue s.in_flight s.sent s.reconnects in
      let end =
        at [] [] []
          (((s.sent ++ s.in_flight) ++ all_publications json asset s.queue)
            ++ all_publications json asset s.pending)
          s.reconnects in
      (
        end,
        Reaches-then json asset accepts s up end (reconnect s.connected s refl) (
            drain_connected s.reconnects s.pending s.queue s.in_flight s.sent c.in_flight c.queue
              c.pending),
        refl,
        refl,
        refl,
        refl,
      )
