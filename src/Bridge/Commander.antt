-- ===== src/Bridge/Commander.antt =====
-- `command_worker` of bridge/src/bridge/main.py: its connections and its loop over the messages.
use mathlib.Core.List.{append-nil, append_assoc}
use mathlib.Core.Path.{subst}
use twin_services.Base.{
  ℕ, suc, ◌≡◌, refl, sym, ap, ◌∙◌, Text, Bool, true, false, Option, none, some, List, [], ◌∷◌, ◌++◌,
  All,
}
use twin_services.Base.Result.{Result, ok, Total, >>=-eq-ok, ok-injective, ◌>>=◌}
use twin_services.Floats.{Floats}
use twin_services.Contracts.Topics.{command_topic}
use twin_services.Contracts.Command.{CommandJson}
use twin_services.Bridge.{JointTrajectory, forward_command}

pub record Commander (F : Type 0) : Type 0 where
  -- the topic that the open client has subscribed to
  pub subscribed : Option Text
  -- what was handed to the controller
  pub goals : List (JointTrajectory F)
  -- the warnings `cmd.reconnect`
  pub reconnects : ℕ

-- The client connects and subscribes, or fails to; a message comes in, whose payload is `none` when
-- it is neither bytes nor str; the iteration over the messages raises MqttError.
pub data Event (Payload : Type 0) : Type 0 where
  connects : Bool → Event Payload
  message : Option Payload → Event Payload
  breaks : Event Payload

unfoldable pub start : {F : Type 0} → Commander F
start = record { subscribed = none; goals = []; reconnects = 0 }

abbrev goal_list : {A : Type 0} → Option A → List A
goal_list none = []
goal_list (some a) = a ∷ []

module _ (fl : Floats) (json : CommandJson fl) (asset : Text) where
  open fl use {F}
  open json use {Payload}

  -- `except MqttError`
  abbrev lost : Commander F → Commander F
  lost s = record s { subscribed = none; reconnects = suc s.reconnects }

  -- The worker connects while it has no client, and reads messages and loses the client while it
  -- has one.
  step_from : Option Text → Event Payload → Commander F → Result (Commander F)
  step_from none (connects true) s = ok (record s { subscribed = some (command_topic asset) })
  step_from none (connects false) s = ok (lost s)
  step_from (some topic) (message payload) s =
      forward_command fl json payload >>= λ o. ok (record s { goals = s.goals ++ goal_list o })
  step_from (some topic) breaks s = ok (lost s)
  step_from _ _ s = ok s

  unfoldable pub step : Event Payload → Commander F → Result (Commander F)
  unfolding step_from
  step e s = step_from s.subscribed e s

  -- An exception other than MqttError ends the worker.
  unfoldable pub run : List (Event Payload) → Commander F → Result (Commander F)
  unfolding step
  run [] s = ok s
  run (e ∷ es) s = step e s >>= run es

  -- The messages that come in while the worker is subscribed.
  abbrev pub received : Bool → List (Event Payload) → List (Option Payload)
  received inside [] = []
  received true (message payload ∷ es) = payload ∷ received true es
  received true (breaks ∷ es) = received false es
  received true (connects success ∷ es) = received true es
  received false (connects success ∷ es) = received success es
  received false (message payload ∷ es) = received false es
  received false (breaks ∷ es) = received false es

  abbrev is_inside : Option Text → Bool
  is_inside none = false
  is_inside (some topic) = true

  -- The trajectories of messages, one by one.
  abbrev pub Forwards : List (Option Payload) → List (JointTrajectory F) → Type 0
  Forwards [] goals = goals ≡ []
  Forwards (p ∷ ps) goals =
      (o : Option (JointTrajectory F)) × (rest : List (JointTrajectory F)) × (forward_command fl
          json p
        ≡ ok o)
      × (goals ≡ goal_list o ++ rest)
      × Forwards ps rest

  -- What a run has added to the controller's goals.
  record Adds (ps : List (Option Payload)) (s s' : Commander F) : Type 0 where
    new : List (JointTrajectory F)
    appended : s'.goals ≡ s.goals ++ new
    forwarded : Forwards ps new

  -- The account of what is left to do, after a step to `t`.
  abbrev After : List (Event Payload) → Commander F → Commander F → Type 0
  After es t s' = Adds (received (is_inside t.subscribed) es) t s'

  same_goals :
      (ps : List (Option Payload)) (s t s' : Commander F)
      → t.goals ≡ s.goals
      → Adds ps t s'
      → Adds ps s s'
  same_goals ps s t s' e a = record {
    new = a.new;
    appended = a.appended ∙ ap (λ g. g ++ a.new) e;
    forwarded = a.forwarded;
  }

  -- A step that leaves the worker alone.
  unchanged :
      (sub : Option Text) (es : List (Event Payload)) (s t s' : Commander F)
      → s.subscribed ≡ sub
      → ok s ≡ ok t
      → After es t s'
      → Adds (received (is_inside sub) es) s s'
  unchanged sub es s t s' e h a =
      subst (λ b. Adds (received b es) s s') (ap is_inside e)
        (subst (λ u. After es u s') (sym (ok-injective h)) a)

  step_from-Adds :
      (sub : Option Text) (e : Event Payload) (es : List (Event Payload)) (s t s' : Commander F)
      → s.subscribed ≡ sub
      → step_from sub e s ≡ ok t
      → After es t s'
      → Adds (received (is_inside sub) (e ∷ es)) s s'
  unfolding step_from
  step_from-Adds none (connects true) es s t s' e h a =
      same_goals _ s _ s' refl (subst (λ u. After es u s') (sym (ok-injective h)) a)
  step_from-Adds none (connects false) es s t s' e h a =
      same_goals _ s _ s' refl (subst (λ u. After es u s') (sym (ok-injective h)) a)
  step_from-Adds none (message p) es s t s' e h a = unchanged none es s t s' e h a
  step_from-Adds none breaks es s t s' e h a = unchanged none es s t s' e h a
  step_from-Adds (some topic) (connects success) es s t s' e h a =
      unchanged (some topic) es s t s' e h a
  step_from-Adds (some topic) breaks es s t s' e h a =
      same_goals _ s _ s' refl (subst (λ u. After es u s') (sym (ok-injective h)) a)
  step_from-Adds (some topic) (message p) es s t s' e h a =
      let (o, done, is) = >>=-eq-ok (forward_command fl json p) _ h in
      let next : Adds (received true es) (record s { goals = s.goals ++ goal_list o }) s' =
        subst (λ b. Adds (received b es) (record s { goals = s.goals ++ goal_list o }) s')
          (ap is_inside e) (subst (λ u. After es u s') (sym (ok-injective is)) a) in
      record {
        new = goal_list o ++ next.new;
        appended = next.appended ∙ append_assoc s.goals (goal_list o) next.new;
        forwarded = (o, next.new, done, refl, next.forwarded);
      }

  run-Adds :
      (es : List (Event Payload)) (s s' : Commander F)
      → run es s ≡ ok s'
      → Adds (received (is_inside s.subscribed) es) s s'
  unfolding run step
  run-Adds [] s s' h = nothing (is_inside s.subscribed)
    where
      nothing : (b : Bool) → Adds (received b []) s s'
      nothing b = record {
        new = [];
        appended =
            ap (λ (u : Commander F). u.goals) (sym (ok-injective h)) ∙ sym (append-nil s.goals);
        forwarded = refl;
      }
  run-Adds (e ∷ es) s s' h =
      let (t, first, rest) = >>=-eq-ok (step e s) (run es) h in
      step_from-Adds s.subscribed e es s t s' refl first (run-Adds es t s' rest)

  -- From the start of the bridge, in any order of connections, failures, messages and losses: when
  -- the worker has not been ended by an exception, the controller has been given the trajectories of
  -- exactly the messages that came in while the worker was subscribed, in their order, with nothing
  -- for those that are no valid command.
  pub run-Forwards :
      (es : List (Event Payload)) (s' : Commander F)
      → run es start ≡ ok s'
      → Forwards (received false es) s'.goals
  unfolding start
  run-Forwards es s' h =
      let adds = run-Adds es start s' h in
      subst (Forwards (received false es)) (sym adds.appended) adds.forwarded

  -- The message is forwarded or refused without an exception.
  abbrev pub IsHandled : Option Payload → Type 0
  IsHandled p = Total (forward_command fl json p)

  stays :
      (sub : Option Text) (es : List (Event Payload)) (s : Commander F)
      → s.subscribed ≡ sub
      → All IsHandled (received (is_inside sub) es)
      → All IsHandled (received (is_inside s.subscribed) es)
  stays sub es s e a = subst (λ b. All IsHandled (received b es)) (sym (ap is_inside e)) a

  step_from_total :
      (sub : Option Text) (e : Event Payload) (es : List (Event Payload)) (s : Commander F)
      → s.subscribed ≡ sub
      → All IsHandled (received (is_inside sub) (e ∷ es))
      → (t : Commander F) × (step_from sub e s ≡ ok t)
        × All IsHandled (received (is_inside t.subscribed) es)
  unfolding step_from
  step_from_total none (connects true) es s e a =
      (record s { subscribed = some (command_topic asset) }, refl, a)
  step_from_total none (connects false) es s e a = (lost s, refl, a)
  step_from_total none (message p) es s e a = (s, refl, stays none es s e a)
  step_from_total none breaks es s e a = (s, refl, stays none es s e a)
  step_from_total (some topic) (connects success) es s e a = (s, refl, stays (some topic) es s e a)
  step_from_total (some topic) breaks es s e a = (lost s, refl, a)
  step_from_total (some topic) (message p) es s e (handled, rest) =
      let (o, done) = handled in
      let next : Commander F = record s { goals = s.goals ++ goal_list o } in
      (
        next,
        ap (λ r. r >>= λ o. ok (record s { goals = s.goals ++ goal_list o })) done,
        stays (some topic) es next e rest,
      )

  -- No run ends the worker, if each message that comes in while it is subscribed is forwarded or
  -- refused without an exception.
  pub run-IsHandled :
      (es : List (Event Payload)) (s : Commander F)
      → All IsHandled (received (is_inside s.subscribed) es)
      → Total (run es s)
  unfolding run step
  run-IsHandled [] s a = (s, refl)
  run-IsHandled (e ∷ es) s a =
      let (t, first, rest) = step_from_total s.subscribed e es s refl a in
      let (s', more) = run-IsHandled es t rest in (s', rw first more)
