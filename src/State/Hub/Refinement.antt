-- ===== src/State/Hub/Refinement.antt =====
-- The hub with its queues implements the board, and never raises.
use twin_services.Base.{
  ℕ, ◌≡◌, refl, sym, ap, ◌∙◌, inl, inr, Option, none, some, List, [], ◌∷◌, Option-cases, arith,
  length,
}
use mathlib.Core.Path.{subst}
use twin_services.Base.Eq.{
  Dict, lookup, insert, map_values, nat_is_eq, map_values-insert, map_values-remove,
  lookup-map_values,
}
use twin_services.Base.Result.{ok, ok-injective}
use twin_services.State.Hub.{
  Queue, Hub, publish, subscribe, unsubscribe, receive, Event, published, subscribed, unsubscribed,
  received, step, run, take_from,
}
use twin_services.State.Hub.Board
use twin_services.State.Hub.Board.{Board}
use twin_services.State.Hub.Mailbox.{
  AreMailboxes, first, waiting, board, holding, deliver_all-mailboxes, waiting-holding,
  AreMailboxes-holding, AreMailboxes-insert, AreMailboxes-remove, AreMailboxes-lookup,
}

module _ {A : Type 0} where
  -- What one event does to the hub, beside what it does to the board.
  abbrev Refines : Event A → Hub A → Type 0
  Refines e h =
      (h' : Hub A) × (out : Option A) × (step e h ≡ ok (h', out))
      × (Board.step e (board h) ≡ (board h', out))
      × AreMailboxes h'.subscribers

  -- Publishing to mailboxes returns, and the state waits for every subscriber.
  pub publish-board :
      (a : A) (h : Hub A)
      → AreMailboxes h.subscribers
      → (h' : Hub A) × (publish a h ≡ ok h')
        × (board h'
            ≡ record { latest = some a; unread = map_values (λ _. some a) (board h).unread })
        × AreMailboxes h'.subscribers
  unfolding publish
  publish-board a h m = (
    record h { latest = some a; subscribers = map_values (λ q. holding a) h.subscribers },
    rw (deliver_all-mailboxes a h.subscribers m),
    rw (waiting-holding a h.subscribers),
    AreMailboxes-holding a h.subscribers,
  )

  publish-Refines : (a : A) (h : Hub A) → AreMailboxes h.subscribers → Refines (published a) h
  unfolding step Board.step
  publish-Refines a h m =
      let (h', e, seen, boxes) = publish-board a h m in (h', none, rw e, rw seen, boxes)

  subscribe-Refines : (i : ℕ) (h : Hub A) → AreMailboxes h.subscribers → Refines (subscribed i) h
  unfolding step Board.step
  subscribe-Refines i h m =
      (_, _, refl, rw map_values-insert, AreMailboxes-insert i _ h.subscribers (omega arith) m)

  unsubscribe-Refines :
      (i : ℕ) (h : Hub A) → AreMailboxes h.subscribers → Refines (unsubscribed i) h
  unfolding step Board.step
  unsubscribe-Refines i h m =
      (_, _, refl, rw map_values-remove, AreMailboxes-remove i h.subscribers m)

  receive_absent : (i : ℕ) (h : Hub A) → lookup i h.subscribers ≡ none → receive i h ≡ (h, none)
  unfolding receive
  receive_absent i h e = rw (e, receive)

  receive_items :
      (i : ℕ) (h : Hub A) (q : Queue A) {items : List A}
      → lookup i h.subscribers ≡ some q
      → q.items ≡ items
      → receive i h ≡ take_from i h q items
  unfolding receive
  receive_items i h q e is = rw (e, receive) (ap (take_from i h q) is)

  board_absent : (i : ℕ) (b : Board A) → lookup i b.unread ≡ none → Board.receive i b ≡ (b, none)
  unfolding Board.receive
  board_absent i b e = rw (e, Board.receive)

  board_nothing :
      (i : ℕ) (b : Board A) → lookup i b.unread ≡ some none → Board.receive i b ≡ (b, none)
  unfolding Board.receive
  board_nothing i b e = rw (e, Board.receive)

  board_item :
      (i : ℕ) (b : Board A) (a : A)
      → lookup i b.unread ≡ some (some a)
      → Board.receive i b ≡ (record b { unread = insert i none b.unread }, some a)
  unfolding Board.receive
  board_item i b a e = rw (e, Board.receive)

  unread_of :
      (i : ℕ) (d : Dict ℕ (Queue A)) (q : Queue A) {items : List A}
      → lookup i d ≡ some q
      → q.items ≡ items
      → lookup i (map_values waiting d) ≡ some (first items)
  unread_of i d q e is = lookup-map_values waiting i d ∙ rw e (ap (λ x. some (first x)) is)

  take-Refines :
      (i : ℕ) (h : Hub A) (q : Queue A) (items : List A)
      → AreMailboxes h.subscribers
      → lookup i h.subscribers ≡ some q
      → q.items ≡ items
      → Refines (received i) h
  unfolding step Board.step take_from
  take-Refines i h q [] m e is = (
    h,
    none,
    ap ok (receive_items i h q e is),
    board_nothing i (board h) (unread_of i h.subscribers q e is),
    m,
  )
  take-Refines i h q (a ∷ []) m e is = (
    record h { subscribers = insert i (record q { items = [] }) h.subscribers },
    some a,
    ap ok (receive_items i h q e is),
    board_item i (board h) a (unread_of i h.subscribers q e is) ∙ rw map_values-insert,
    AreMailboxes-insert i _ h.subscribers
        (record { one = (AreMailboxes-lookup i h.subscribers q m e).one; fits = omega arith }) m,
  )
  take-Refines i h q (a ∷ b ∷ items) m e is =
      absurd (omega (arith, (AreMailboxes-lookup i h.subscribers q m e).fits, ap length is))

  receive-Refines : (i : ℕ) (h : Hub A) → AreMailboxes h.subscribers → Refines (received i) h
  unfolding step Board.step
  receive-Refines i h m = elim (Option-cases (lookup i h.subscribers)) [
    | inl e ↦ (
      h,
      none,
      ap ok (receive_absent i h e),
      board_absent i (board h) (lookup-map_values waiting i h.subscribers ∙ rw e),
      m,
    )
    | inr (q, e) ↦ take-Refines i h q q.items m e refl
  ]

  -- The clients' operations keep the mailboxes.
  module _ (i : ℕ) (h : Hub A) (m : AreMailboxes h.subscribers) where
    pub subscribe-mailboxes : AreMailboxes (subscribe i h).subscribers
    unfolding subscribe
    subscribe-mailboxes =
        AreMailboxes-insert i _ h.subscribers (record { one = refl; fits = omega arith }) m

    pub unsubscribe-mailboxes : AreMailboxes (unsubscribe i h).subscribers
    unfolding unsubscribe
    unsubscribe-mailboxes = AreMailboxes-remove i h.subscribers m

    pub receive-mailboxes : AreMailboxes (receive i h).0.subscribers
    unfolding step
    receive-mailboxes =
        let (h', out, e, b, m') = receive-Refines i h m in
        subst (λ (x : Hub A). AreMailboxes x.subscribers) (sym (ap (λ p. p.0) (ok-injective e))) m'

  step-Refines : (e : Event A) (h : Hub A) → AreMailboxes h.subscribers → Refines e h
  step-Refines (published a) h m = publish-Refines a h m
  step-Refines (subscribed i) h m = subscribe-Refines i h m
  step-Refines (unsubscribed i) h m = unsubscribe-Refines i h m
  step-Refines (received i) h m = receive-Refines i h m

  -- While every subscriber's queue is a mailbox of size one, a hub runs any sequence of publishing,
  -- subscribing, unsubscribing and receiving without raising, delivers the same states as the
  -- board, and ends in a hub whose view is the board's end and whose queues are such mailboxes.
  pub run-refines :
      (es : List (Event A)) (h : Hub A)
      → AreMailboxes h.subscribers
      → (h' : Hub A) × (outs : List (Option A)) × (run es h ≡ ok (h', outs))
        × (Board.run es (board h) ≡ (board h', outs))
        × AreMailboxes h'.subscribers
  unfolding run Board.run
  run-refines [] h m = (h, [], refl, refl, m)
  run-refines (e ∷ es) h m =
      let (h', out, s, b, m') = step-Refines e h m in
      let (h'', outs, r, br, m'') = run-refines es h' m' in
      (h'', out ∷ outs, rw (s, r), rw (b, br), m'')
