-- ===== src/State/Consumer/Account.antt =====
-- What a run of the consumer does with the messages: the window and the counters.
use twin_services.Base.{
  ℕ, suc, ◌+◌, ◌≤◌, ◌≡◌, refl, sym, ap, ◌∙◌, Bool, true, false, Bool-cases, Option, none, some,
  List, [], ◌∷◌, ◌++◌, length, length-append, arith, inl, inr,
}
use mathlib.Core.Path.{subst}
use mathlib.Core.List.{append-nil}
use twin_services.Base.Result.{ok, >>=-eq-ok, ok-injective}
use twin_services.Floats.{Floats}
use twin_services.Contracts.Telemetry.{TelemetryJson}
use twin_services.State.Window.History.{Observation, observe_all}
use twin_services.State.Hub.{publish}
use twin_services.State.Build.{TwinState, Vendor, build_state, assemble_if}
use twin_services.State.Window.{snapshot}
use twin_services.State.Consumer.{
  Consumer, Verdict, bad_topic, bad_joint, bad_payload, accepted, judge, apply_verdict, Event,
  connected, disconnected, tick, message, client_joins, client_leaves, client_reads, announce,
  broadcast, step, run,
}

abbrev bit : Bool → ℕ
bit true = 1
bit false = 0

module _ {F : Type 0} where
  -- The observation that a verdict lets into the window.
  abbrev pub admitted : Verdict F → List (Observation F)
  admitted (accepted joint field sample) =
      record { joint = joint; field = field; sample = sample } ∷ []
  admitted _ = []

  abbrev pub rejected : Consumer F → ℕ
  rejected c = c.rejected_topic + c.rejected_joint + c.rejected_payload

  -- The published states, and the one that is due.
  abbrev pub published_or_due : Consumer F → ℕ
  published_or_due c = c.published + bit c.dirty

  observe_all-append :
      (os ps : List (Observation F)) (w : _)
      → observe_all (os ++ ps) w ≡ observe_all ps (observe_all os w)
  unfolding observe_all
  observe_all-append [] ps w = refl
  observe_all-append (o ∷ os) ps w = observe_all-append os ps _

module _ {F : Type 0} {is_finite : F → Bool} (json : TelemetryJson F is_finite) where
  -- The observations of a sequence of events, and the number of its messages.
  abbrev pub admitted_of : List (Event json.Payload) → List (Observation F)
  admitted_of [] = []
  admitted_of (message m ∷ es) = admitted (judge json m) ++ admitted_of es
  admitted_of (_ ∷ es) = admitted_of es

  abbrev pub messages_of : List (Event json.Payload) → ℕ
  messages_of [] = 0
  messages_of (message m ∷ es) = 1 + messages_of es
  messages_of (_ ∷ es) = messages_of es

  pub admitted_of-cons :
      (e : Event json.Payload) (es : List (Event json.Payload))
      → admitted_of (e ∷ es) ≡ admitted_of (e ∷ []) ++ admitted_of es
  admitted_of-cons (message m) es = rw append-nil
  admitted_of-cons connected es = refl
  admitted_of-cons disconnected es = refl
  admitted_of-cons tick es = refl
  admitted_of-cons (client_joins i) es = refl
  admitted_of-cons (client_leaves i) es = refl
  admitted_of-cons (client_reads i) es = refl

  messages_of-cons :
      (e : Event json.Payload) (es : List (Event json.Payload))
      → messages_of (e ∷ es) ≡ messages_of (e ∷ []) + messages_of es
  messages_of-cons e es = ground arith

module _ (fl : Floats) (vendor : Vendor fl.F) where
  open fl use {F}

  pub broadcast_clean : (c : Consumer F) → c.dirty ≡ false → broadcast fl vendor c ≡ ok c
  unfolding broadcast
  broadcast_clean c n = rw n

  -- Without a complete snapshot a round only clears the mark.
  pub broadcast_incomplete :
      (c : Consumer F)
      → c.dirty ≡ true
      → snapshot fl c.window ≡ ok none
      → broadcast fl vendor c ≡ ok (record c { dirty = false })
  unfolding broadcast announce build_state assemble_if
  broadcast_incomplete c d e = rw (d, e)

module _ (fl : Floats) (vendor : Vendor fl.F) (json : TelemetryJson fl.F fl.is_finite) where
  open fl use {F}

  -- What a run adds to a consumer.
  pub record Adds (os : List (Observation F)) (n : ℕ) (c c' : Consumer F) : Type 0 where
    pub window : c'.window ≡ observe_all os c.window
    pub messages : c'.messages ≡ c.messages + n
    pub accounted : rejected c' + length os ≡ rejected c + n
    pub bounded : published_or_due c' ≤ published_or_due c + length os
    pub same_config : c'.config ≡ c.config

  Adds-nothing : (c : Consumer F) → Adds [] 0 c c
  unfolding observe_all
  Adds-nothing c = record {
    window = refl;
    messages = omega arith;
    accounted = omega arith;
    bounded = omega arith;
    same_config = refl;
  }

  Adds-then :
      {os ps : List (Observation F)} {n m : ℕ} {c d e : Consumer F}
      → Adds os n c d
      → Adds ps m d e
      → Adds (os ++ ps) (n + m) c e
  Adds-then {os} {ps} {n} {m} {c} {d} {e} p q = record {
    window = q.window ∙ ap (observe_all ps) p.window ∙ sym (observe_all-append os ps c.window);
    messages = omega (arith, p.messages, q.messages);
    accounted = omega (arith, p.accounted, q.accounted, length-append os ps);
    bounded = omega (arith, p.bounded, q.bounded, length-append os ps);
    same_config = q.same_config ∙ p.same_config;
  }

  Adds-verdict :
      (v : Verdict F) (c : Consumer F)
      → Adds (admitted v) 1 c (apply_verdict v (record c { messages = suc c.messages }))
  unfolding apply_verdict observe_all
  Adds-verdict bad_topic c = record {
    window = refl;
    messages = omega arith;
    accounted = omega arith;
    bounded = omega arith;
    same_config = refl;
  }
  Adds-verdict bad_joint c = record {
    window = refl;
    messages = omega arith;
    accounted = omega arith;
    bounded = omega arith;
    same_config = refl;
  }
  Adds-verdict bad_payload c = record {
    window = refl;
    messages = omega arith;
    accounted = omega arith;
    bounded = omega arith;
    same_config = refl;
  }
  Adds-verdict (accepted joint field sample) c = record {
    window = refl;
    messages = omega arith;
    accounted = omega arith;
    bounded = ground arith;
    same_config = refl;
  }

  Adds-announce :
      (o : Option (TwinState F)) (c c' : Consumer F)
      → c.dirty ≡ true
      → announce fl vendor o (record c { dirty = false }) ≡ ok c'
      → Adds [] 0 c c'
  unfolding announce observe_all
  Adds-announce none c c' d h = subst (Adds [] 0 c) (ok-injective h) (record {
    window = refl;
    messages = omega arith;
    accounted = omega arith;
    bounded = omega arith;
    same_config = refl;
  })
  Adds-announce (some st) c c' d h =
      let (hub, p, done) = >>=-eq-ok (publish st c.hub) _ h in
      subst (Adds [] 0 c) (ok-injective done) (record {
        window = refl;
        messages = omega arith;
        accounted = omega arith;
        bounded = rw d (omega arith);
        same_config = refl;
      })

  Adds-broadcast : (c c' : Consumer F) → broadcast fl vendor c ≡ ok c' → Adds [] 0 c c'
  unfolding broadcast
  Adds-broadcast c c' h = elim (Bool-cases c.dirty) [
    | inl d ↦
        let (o, b, a) =
          >>=-eq-ok (build_state fl vendor c.config.asset_name c.window c.config.rms_window_s)
            (λ state. announce fl vendor state (record c { dirty = false })) (rw d at h) in
        Adds-announce o c c' d a
    | inr n ↦
        subst (Adds [] 0 c) (ok-injective (sym (broadcast_clean fl vendor c n) ∙ h))
          (Adds-nothing c)
  ]

  Adds-silent :
      (c c' : Consumer F)
      → (c'.window ≡ c.window)
      → (c'.messages ≡ c.messages)
      → (rejected c' ≡ rejected c)
      → (published_or_due c' ≡ published_or_due c)
      → (c'.config ≡ c.config)
      → Adds [] 0 c c'
  unfolding observe_all
  Adds-silent c c' w m r p g = record {
    window = w;
    messages = omega arith;
    accounted = omega arith;
    bounded = omega arith;
    same_config = g;
  }

  Adds-step :
      (e : Event json.Payload) (c c' : Consumer F)
      → step fl vendor json e c ≡ ok c'
      → Adds (admitted_of json (e ∷ [])) (messages_of json (e ∷ [])) c c'
  unfolding step
  Adds-step connected c c' h =
      subst (Adds [] 0 c) (ok-injective h) (Adds-silent c _ refl refl refl refl refl)
  Adds-step disconnected c c' h =
      subst (Adds [] 0 c) (ok-injective h) (Adds-silent c _ refl refl refl refl refl)
  Adds-step tick c c' h = Adds-broadcast c c' h
  Adds-step (message m) c c' h =
      subst (Adds _ 1 c) (ok-injective h) (rw append-nil (Adds-verdict (judge json m) c))
  Adds-step (client_joins i) c c' h =
      subst (Adds [] 0 c) (ok-injective h) (Adds-silent c _ refl refl refl refl refl)
  Adds-step (client_leaves i) c c' h =
      subst (Adds [] 0 c) (ok-injective h) (Adds-silent c _ refl refl refl refl refl)
  Adds-step (client_reads i) c c' h =
      subst (Adds [] 0 c) (ok-injective h) (Adds-silent c _ refl refl refl refl refl)

  -- After any run that does not raise, in any interleaving of messages, ticks, connection losses
  -- and clients: the window is what the admitted observations alone, in order, make of the window
  -- at the start; every message is counted once, as received and either as rejected or as
  -- admitted; at most one state is published for each admitted observation, one that was due at
  -- the start aside; and the configuration is the same.
  pub run-Adds :
      (es : List (Event json.Payload)) (c c' : Consumer F)
      → run fl vendor json es c ≡ ok c'
      → Adds (admitted_of json es) (messages_of json es) c c'
  unfolding run
  run-Adds [] c c' h = subst (Adds [] 0 c) (ok-injective h) (Adds-nothing c)
  run-Adds (e ∷ es) c c' h =
      let (d, s, r) = >>=-eq-ok (step fl vendor json e c) (run fl vendor json es) h in
      rw (admitted_of-cons json e es, messages_of-cons json e es)
        (Adds-then (Adds-step e c d s) (run-Adds es d c' r))
