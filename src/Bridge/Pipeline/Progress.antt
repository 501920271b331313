-- ===== src/Bridge/Pipeline/Progress.antt =====
-- The account of a whole run of the bridge.
use mathlib.Core.Path.{subst}
use twin_services.Base.{
  ℕ, ◌≡◌, refl, sym, pick, pick-Perm, Text, Bool, true, false, Bool-cases, Option, none, some, List,
  [], ◌∷◌, length, ltb, inl, inr,
}
use twin_services.Base.Result.{ok, ok-injective, >>=-eq-ok}
use twin_services.Contracts.Telemetry.{TelemetryJson}
use twin_services.Bridge.{JointStateMessage, Outgoing, validate_state}
use twin_services.Bridge.Pipeline.{
  Pipeline, Event, arrives, puts, connects, takes, publishes, handed, on_msg, put, put_waiting,
  connect_from, connect, send, publish_next, publish_one, take_from, take, step, run, maxsize,
}
use twin_services.Bridge.Pipeline.Publish.{publish_next-eq-ok, publish_joint_states_total}
use twin_services.Bridge.Pipeline.Ledger.{
  publications, validated, Accounts, Accounts-end, Accounts-arrives, Accounts-puts, Accounts-lose,
  Accounts-one, Accounts-takes,
}

module _ {F : Type 0} {is_finite : F → Bool} (json : TelemetryJson F is_finite) (asset : Text)
    (accepts : Text → Bool) where
  open json use {Payload}

  put-Accounts :
      (arrived : List (JointStateMessage F)) (i : ℕ) (s s' : Pipeline F Payload)
      → Accounts json asset arrived (put_waiting i s) s'
      → Accounts json asset arrived s s'
  unfolding put_waiting put
  put-Accounts arrived i s s' a = elim (Bool-cases (ltb (length s.queue) maxsize)) [
    | inr full ↦ (rw full at a)
    | inl room ↦ picked (pick i s.pending) refl (rw room at a)
  ]
    where
      picked :
          (o : Option (JointStateMessage F × List (JointStateMessage F)))
          → pick i s.pending ≡ o
          → Accounts json asset arrived (put o s) s'
          → Accounts json asset arrived s s'
      picked none e b = b
      picked (some (m, rest)) e b =
          Accounts-puts json asset arrived rest m s s' (pick-Perm i s.pending m rest e) b

  connect_from-Accounts :
      (arrived : List (JointStateMessage F)) (inside success : Bool) (s s' : Pipeline F Payload)
      → Accounts json asset arrived (connect_from inside success s) s'
      → Accounts json asset arrived s s'
  unfolding connect_from
  connect_from-Accounts arrived true success s s' a = a
  connect_from-Accounts arrived false false s s' a =
      Accounts-lose json asset arrived s.in_flight s s' refl a
  connect_from-Accounts arrived false true s s' a = record {
    admitted = a.admitted;
    taken = a.taken;
    out = a.out;
    cuts = a.cuts;
    none_made_up = a.none_made_up;
    first_in_first_out = a.first_in_first_out;
    sent = a.sent;
    work = a.work;
    warned = a.warned;
  }

  send-Accounts :
      (arrived : List (JointStateMessage F)) (success : Bool) (o : Outgoing Payload)
      (rest : List (Outgoing Payload)) (s s' : Pipeline F Payload)
      → s.in_flight ≡ o ∷ rest
      → Accounts json asset arrived (send success o rest s) s'
      → Accounts json asset arrived s s'
  unfolding send
  send-Accounts arrived true o rest s s' e a = Accounts-one json asset arrived o rest s s' e a
  send-Accounts arrived false o rest s s' e a = Accounts-lose json asset arrived (o ∷ rest) s s' e a

  publish_next-Accounts :
      (arrived : List (JointStateMessage F)) (success : Bool) (s t s' : Pipeline F Payload)
      → publish_next accepts success s.in_flight s ≡ ok t
      → Accounts json asset arrived t s'
      → Accounts json asset arrived s s'
  publish_next-Accounts arrived success s t s' h a =
      elim (publish_next-eq-ok accepts success s.in_flight s t h) [
        | inl (idle, same) ↦ subst (λ u. Accounts json asset arrived u s') (sym same) a
        | inr (o, rest, work, same) ↦
            send-Accounts arrived success o rest s s' work
              (subst (λ u. Accounts json asset arrived u s') (sym same) a)
      ]

  take_from-Accounts :
      (arrived queue : List (JointStateMessage F)) (inside : Bool) (work : List (Outgoing Payload))
      (s t s' : Pipeline F Payload)
      → s.queue ≡ queue
      → s.in_flight ≡ work
      → take_from json asset inside queue work s ≡ ok t
      → Accounts json asset arrived t s'
      → Accounts json asset arrived s s'
  unfolding take_from
  take_from-Accounts arrived queue false work s t s' q e h a =
      subst (λ u. Accounts json asset arrived u s') (sym (ok-injective h)) a
  take_from-Accounts arrived [] true work s t s' q e h a =
      subst (λ u. Accounts json asset arrived u s') (sym (ok-injective h)) a
  take_from-Accounts arrived (m ∷ rest) true (o ∷ os) s t s' q e h a =
      subst (λ u. Accounts json asset arrived u s') (sym (ok-injective h)) a
  take_from-Accounts arrived (m ∷ rest) true [] s t s' q e h a =
      let (out, p) = publish_joint_states_total json asset m in
      let now : record s { queue = rest; in_flight = out } ≡ t = ok-injective (rw p at h) in
      let means : out ≡ publications json asset m = rw (p, publications) refl in
      Accounts-takes json asset arrived rest m s s' e q (
        subst (λ w. Accounts json asset arrived (record s { queue = rest; in_flight = w }) s') means
          (subst (λ u. Accounts json asset arrived u s') (sym now) a))

  pub run-Accounts :
      (es : List (Event F)) (s s' : Pipeline F Payload)
      → run json asset accepts es s ≡ ok s'
      → Accounts json asset (validated json asset es) s s'
  unfolding run step on_msg connect take publish_one
  run-Accounts [] s s' h =
      subst (Accounts json asset [] s) (ok-injective h) (Accounts-end json asset s)
  run-Accounts (arrives m ∷ es) s s' h =
      Accounts-arrives json asset (handed (validate_state m)) (validated json asset es) s s'
        (run-Accounts es _ s' h)
  run-Accounts (puts i ∷ es) s s' h =
      put-Accounts (validated json asset es) i s s' (run-Accounts es _ s' h)
  run-Accounts (connects success ∷ es) s s' h =
      connect_from-Accounts (validated json asset es) s.connected success s s'
        (run-Accounts es _ s' h)
  run-Accounts (publishes success ∷ es) s s' h =
      let (t, first, rest) =
        >>=-eq-ok (publish_one accepts success s) (run json asset accepts es) h in
      publish_next-Accounts (validated json asset es) success s t s' first
        (run-Accounts es t s' rest)
  run-Accounts (takes ∷ es) s s' h =
      let (t, first, rest) = >>=-eq-ok (take json asset s) (run json asset accepts es) h in
      take_from-Accounts (validated json asset es) s.queue s.connected s.in_flight s t s' refl refl
        first (run-Accounts es t s' rest)
