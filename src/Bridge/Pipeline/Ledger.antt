-- ===== src/Bridge/Pipeline/Ledger.antt =====
-- Where the joint states go that ROS delivers, over a whole run of the bridge.
use mathlib.Core.List.{Perm, append_assoc, append-nil}
use mathlib.Core.List.Perm
use mathlib.Core.Path.{subst}
use twin_services.Base.{
  ℕ, suc, ◌+◌, ◌≤◌, ◌≡◌, ◌⊎◌, refl, sym, ap, ◌∙◌, Text, Bool, List, [], ◌∷◌, ◌++◌, map, arith, inl,
  inr,
}
use twin_services.Base.Result.{ok, raise}
use twin_services.Contracts.Telemetry.{TelemetryJson}
use twin_services.Bridge.{JointStateMessage, Outgoing, validate_state, publish_joint_states}
use twin_services.Bridge.Pipeline.{Pipeline, Event, arrives, handed, lose}

module _ {P : Type 0} where
  -- How work is done: each item is sent whole, or cut short with something left, and the last may
  -- be under way, with `left` to do. `cuts` counts the items that are cut short.
  abbrev pub Sends : List (List P) → List P → List P → ℕ → Type 0
  Sends [] out left cuts = (out ≡ []) × (left ≡ []) × (cuts ≡ 0)
  Sends (w ∷ ws) out left cuts =
      ((tail : List P) × (out ≡ w ++ tail) × Sends ws tail left cuts)
      ⊎ (((part : List P) × (o : P) × (rest tail : List P) × (n : ℕ) × (w ≡ part ++ o ∷ rest)
            × (out ≡ part ++ tail)
            × (cuts ≡ suc n)
            × Sends ws tail left n)
          ⊎ ((w ≡ out ++ left) × (ws ≡ []) × (cuts ≡ 0)))

  nil-append : (a b : List P) → [] ≡ a ++ b → (a ≡ []) × (b ≡ [])
  nil-append [] [] e = (refl, refl)
  nil-append [] (x ∷ b) e = cc
  nil-append (x ∷ a) b e = cc

  -- One more piece of the first item is sent.
  Sends-one :
      (o : P) (os : List P) (ws : List (List P)) (out left : List P) (n : ℕ)
      → Sends (os ∷ ws) out left n
      → Sends ((o ∷ os) ∷ ws) (o ∷ out) left n
  Sends-one o os ws out left n (inl (tail, e, s)) = inl (tail, ap (◌∷◌ o) e, s)
  Sends-one o os ws out left n (inr (inl (part, x, rest, tail, k, e, f, c, s))) =
      inr (inl (o ∷ part, x, rest, tail, k, ap (◌∷◌ o) e, ap (◌∷◌ o) f, c, s))
  Sends-one o os ws out left n (inr (inr (e, f, c))) = inr (inr (ap (◌∷◌ o) e, f, c))

  -- The first item is cut short.
  Sends-cut :
      (o : P) (os : List P) (ws : List (List P)) (out left : List P) (n : ℕ)
      → Sends ([] ∷ ws) out left n
      → Sends ((o ∷ os) ∷ ws) out left (suc n)
  Sends-cut o os ws out left n (inl (tail, e, s)) = inr (inl ([], o, os, tail, n, refl, e, refl, s))
  Sends-cut o os ws out left n (inr (inl (part, x, rest, tail, k, e, f, c, s))) =
      cc (nil-append part (x ∷ rest) e).1
  Sends-cut o os ws out left n (inr (inr (e, f, c))) =
      let (none_out, none_left) = nil-append out left e in
      inr (
        inl (
          [],
          o,
          os,
          out,
          n,
          refl,
          refl,
          refl,
          subst (λ w. Sends w out left n) (sym f) (none_out, none_left, c),
        ))

  -- An item that has nothing to send.
  Sends-empty :
      (w : List P) (ws : List (List P)) (out left : List P) (n : ℕ)
      → Sends (w ∷ ws) out left n
      → Sends ([] ∷ w ∷ ws) out left n
  Sends-empty w ws out left n s = inl (out, refl, s)

module _ {F : Type 0} {is_finite : F → Bool} (json : TelemetryJson F is_finite) (asset : Text) where
  open json use {Payload}

  -- What the bridge means to publish of a joint state.
  abbrev pub publications : JointStateMessage F → List (Outgoing Payload)
  publications m = elim (publish_joint_states json asset m) [ raise _ ↦ [] | ok out ↦ out ]

  abbrev pub all_publications : List (JointStateMessage F) → List (Outgoing Payload)
  all_publications [] = []
  all_publications (m ∷ ms) = publications m ++ all_publications ms

  -- The joint states that ROS delivered and that validated.
  abbrev pub validated : List (Event F) → List (JointStateMessage F)
  validated [] = []
  validated (arrives m ∷ es) = handed (validate_state m) ++ validated es
  validated (_ ∷ es) = validated es

  -- An account of a stretch of the bridge's life in which `arrived` came in.
  pub record Accounts (arrived : List (JointStateMessage F)) (s s' : Pipeline F Payload)
      : Type 0 where
    -- the joint states that entered the queue, and those that left it
    pub admitted : List (JointStateMessage F)
    pub taken : List (JointStateMessage F)
    pub out : List (Outgoing Payload)
    pub cuts : ℕ
    pub none_made_up : Perm (admitted ++ s'.pending) (s.pending ++ arrived)
    pub first_in_first_out : taken ++ s'.queue ≡ s.queue ++ admitted
    pub sent : s'.sent ≡ s.sent ++ out
    pub work : Sends (s.in_flight ∷ map publications taken) out s'.in_flight cuts
    pub warned : s.reconnects + cuts ≤ s'.reconnects

  pub Accounts-end : (s : Pipeline F Payload) → Accounts [] s s
  Accounts-end s = record {
    admitted = [];
    taken = [];
    out = [];
    cuts = 0;
    none_made_up = rw append-nil (Perm.refl s.pending);
    first_in_first_out = rw append-nil refl;
    sent = rw append-nil refl;
    work = inr (inr (refl, refl, refl));
    warned = omega arith;
  }

  -- More joint states that wait.
  pub Accounts-arrives :
      (more arrived : List (JointStateMessage F)) (s s' : Pipeline F Payload)
      → Accounts arrived (record s { pending = s.pending ++ more }) s'
      → Accounts (more ++ arrived) s s'
  Accounts-arrives more arrived s s' a = record {
    admitted = a.admitted;
    taken = a.taken;
    out = a.out;
    cuts = a.cuts;
    none_made_up =
        subst (Perm (a.admitted ++ s'.pending)) (append_assoc s.pending more arrived)
          a.none_made_up;
    first_in_first_out = a.first_in_first_out;
    sent = a.sent;
    work = a.work;
    warned = a.warned;
  }

  -- A put goes on.
  pub Accounts-puts :
      (arrived rest : List (JointStateMessage F)) (m : JointStateMessage F)
      (s s' : Pipeline F Payload)
      → Perm (m ∷ rest) s.pending
      → Accounts arrived (record s { pending = rest; queue = s.queue ++ m ∷ [] }) s'
      → Accounts arrived s s'
  Accounts-puts arrived rest m s s' p a = record {
    admitted = m ∷ a.admitted;
    taken = a.taken;
    out = a.out;
    cuts = a.cuts;
    none_made_up = Perm.trans (Perm.cons m a.none_made_up) (Perm.append_right arrived p);
    first_in_first_out = a.first_in_first_out ∙ append_assoc s.queue (m ∷ []) a.admitted;
    sent = a.sent;
    work = a.work;
    warned = a.warned;
  }

  -- The client is lost, and what was left of the joint state with it.
  pub Accounts-lose :
      (arrived : List (JointStateMessage F)) (left : List (Outgoing Payload))
      (s s' : Pipeline F Payload)
      → s.in_flight ≡ left
      → Accounts arrived (lose s) s'
      → Accounts arrived s s'
  unfolding lose
  Accounts-lose arrived [] s s' e a = record {
    admitted = a.admitted;
    taken = a.taken;
    out = a.out;
    cuts = a.cuts;
    none_made_up = a.none_made_up;
    first_in_first_out = a.first_in_first_out;
    sent = a.sent;
    work =
        subst (λ w. Sends (w ∷ map publications a.taken) a.out s'.in_flight a.cuts) (sym e) a.work;
    warned = omega (arith, a.warned);
  }
  Accounts-lose arrived (o ∷ os) s s' e a = record {
    admitted = a.admitted;
    taken = a.taken;
    out = a.out;
    cuts = suc a.cuts;
    none_made_up = a.none_made_up;
    first_in_first_out = a.first_in_first_out;
    sent = a.sent;
    work =
        subst (λ w. Sends (w ∷ map publications a.taken) a.out s'.in_flight (suc a.cuts)) (sym e)
          (Sends-cut o os _ _ _ _ a.work);
    warned = omega (arith, a.warned);
  }

  -- A publication goes out.
  pub Accounts-one :
      (arrived : List (JointStateMessage F)) (o : Outgoing Payload) (os : List (Outgoing Payload))
      (s s' : Pipeline F Payload)
      → s.in_flight ≡ o ∷ os
      → Accounts arrived (record s { in_flight = os; sent = s.sent ++ o ∷ [] }) s'
      → Accounts arrived s s'
  Accounts-one arrived o os s s' e a = record {
    admitted = a.admitted;
    taken = a.taken;
    out = o ∷ a.out;
    cuts = a.cuts;
    none_made_up = a.none_made_up;
    first_in_first_out = a.first_in_first_out;
    sent = a.sent ∙ append_assoc s.sent (o ∷ []) a.out;
    work =
        subst (λ w. Sends (w ∷ map publications a.taken) (o ∷ a.out) s'.in_flight a.cuts) (sym e)
          (Sends-one o os _ _ _ _ a.work);
    warned = a.warned;
  }

  -- The worker takes the joint state at the front of the queue.
  pub Accounts-takes :
      (arrived rest : List (JointStateMessage F)) (m : JointStateMessage F)
      (s s' : Pipeline F Payload)
      → s.in_flight ≡ []
      → s.queue ≡ m ∷ rest
      → Accounts arrived (record s { queue = rest; in_flight = publications m }) s'
      → Accounts arrived s s'
  Accounts-takes arrived rest m s s' e q a = record {
    admitted = a.admitted;
    taken = m ∷ a.taken;
    out = a.out;
    cuts = a.cuts;
    none_made_up = a.none_made_up;
    first_in_first_out = ap (◌∷◌ m) a.first_in_first_out ∙ ap (λ l. l ++ a.admitted) (sym q);
    sent = a.sent;
    work =
        subst (λ w. Sends (w ∷ map publications (m ∷ a.taken)) a.out s'.in_flight a.cuts) (sym e)
          (Sends-empty _ _ _ _ _ a.work);
    warned = a.warned;
  }
