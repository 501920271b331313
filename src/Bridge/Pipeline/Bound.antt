-- ===== src/Bridge/Pipeline/Bound.antt =====
-- The bound of the bridge's queue.
use mathlib.Core.Path.{subst}
use twin_services.Base.{
  ℕ, suc, ◌≤◌, ◌≡◌, refl, sym, ap, ◌∙◌, inl, inr, pick, Text, Bool, true, false, Option, none, some,
  List, [], ◌∷◌, length, length-append, arith, ltb, if◌then◌else◌,
}
use twin_services.Base.Result.{ok, ok-injective, >>=-eq-ok}
use twin_services.Contracts.Telemetry.{TelemetryJson}
use twin_services.Bridge.{JointStateMessage, Outgoing, publish_joint_states}
use twin_services.Bridge.Pipeline.{
  Pipeline, Event, arrives, puts, connects, takes, publishes, on_msg, put, put_waiting, lose,
  connect_from, connect, send, publish_next, publish_one, take_from, take, step, run, maxsize,
}
use twin_services.Bridge.Pipeline.Publish.{publish_next-eq-ok}

module _ {F : Type 0} {is_finite : F → Bool} (json : TelemetryJson F is_finite) (asset : Text)
    (accepts : Text → Bool) where
  open json use {Payload}

  put-bounded :
      (o : Option (JointStateMessage F × List (JointStateMessage F))) (s : Pipeline F Payload)
      → suc (length s.queue) ≤ maxsize
      → length (put o s).queue ≤ maxsize
  unfolding put
  put-bounded none s h = omega arith
  put-bounded (some (m, rest)) s h = omega (arith, length-append s.queue (m ∷ []))

  put_if-bounded :
      (room : Bool) (i : ℕ) (s : Pipeline F Payload)
      → ltb (length s.queue) maxsize ≡ room
      → length s.queue ≤ maxsize
      → length (if room then put (pick i s.pending) s else s).queue ≤ maxsize
  put_if-bounded true i s e h = put-bounded (pick i s.pending) s (ground arith)
  put_if-bounded false i s e h = h

  connect_from-queue :
      (inside success : Bool) (s : Pipeline F Payload)
      → (connect_from inside success s).queue ≡ s.queue
  unfolding connect_from lose
  connect_from-queue true success s = refl
  connect_from-queue false true s = refl
  connect_from-queue false false s = refl

  send-queue :
      (success : Bool) (o : Outgoing Payload) (rest : List (Outgoing Payload))
      (s : Pipeline F Payload)
      → (send success o rest s).queue ≡ s.queue
  unfolding send lose
  send-queue true o rest s = refl
  send-queue false o rest s = refl

  publish_next-queue :
      (success : Bool) (s t : Pipeline F Payload)
      → publish_next accepts success s.in_flight s ≡ ok t
      → t.queue ≡ s.queue
  publish_next-queue success s t h = elim (publish_next-eq-ok accepts success s.in_flight s t h) [
    | inl (idle, same) ↦ ap (λ (u : Pipeline F Payload). u.queue) (sym same)
    | inr (o, rest, work, same) ↦
        ap (λ (u : Pipeline F Payload). u.queue) (sym same) ∙ send-queue success o rest s
  ]

  take_from-bounded :
      (inside : Bool) (queue : List (JointStateMessage F)) (work : List (Outgoing Payload))
      (s t : Pipeline F Payload)
      → s.queue ≡ queue
      → take_from json asset inside queue work s ≡ ok t
      → length s.queue ≤ maxsize
      → length t.queue ≤ maxsize
  unfolding take_from
  take_from-bounded false queue work s t q h b =
      subst (λ u. length u.queue ≤ maxsize) (ok-injective h) b
  take_from-bounded true [] work s t q h b =
      subst (λ u. length u.queue ≤ maxsize) (ok-injective h) b
  take_from-bounded true (m ∷ rest) (o ∷ os) s t q h b =
      subst (λ u. length u.queue ≤ maxsize) (ok-injective h) b
  take_from-bounded true (m ∷ rest) [] s t q h b =
      let (out, p, done) = >>=-eq-ok (publish_joint_states json asset m) _ h in
      subst (λ u. length u.queue ≤ maxsize) (ok-injective done) (omega (arith, ap length q))

  step-bounded :
      (e : Event F) (s t : Pipeline F Payload)
      → step json asset accepts e s ≡ ok t
      → length s.queue ≤ maxsize
      → length t.queue ≤ maxsize
  unfolding step on_msg put_waiting connect take publish_one
  step-bounded (arrives m) s t h b = subst (λ u. length u.queue ≤ maxsize) (ok-injective h) b
  step-bounded (puts i) s t h b =
      subst (λ u. length u.queue ≤ maxsize) (ok-injective h) (put_if-bounded _ i s refl b)
  step-bounded (connects success) s t h b =
      subst (λ u. length u.queue ≤ maxsize) (ok-injective h)
        (rw (connect_from-queue s.connected success s) b)
  step-bounded (publishes success) s t h b =
      subst (λ q. length q ≤ maxsize) (sym (publish_next-queue success s t h)) b
  step-bounded takes s t h b = take_from-bounded s.connected s.queue s.in_flight s t refl h b

  pub run-bounded :
      (es : List (Event F)) (s s' : Pipeline F Payload)
      → run json asset accepts es s ≡ ok s'
      → length s.queue ≤ maxsize
      → length s'.queue ≤ maxsize
  unfolding run
  run-bounded [] s s' h b = subst (λ u. length u.queue ≤ maxsize) (ok-injective h) b
  run-bounded (e ∷ es) s s' h b =
      let (t, first, rest) =
        >>=-eq-ok (step json asset accepts e s) (run json asset accepts es) h in
      run-bounded es t s' rest (step-bounded e s t first b)
