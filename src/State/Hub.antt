-- ===== src/State/Hub.antt =====
-- `StateHub` of services/state-svc/src/state_svc/grpc_server.py, over any type of states. A queue is
-- known by a number, which stands for the identity of the object; the set of subscribers is a
-- dictionary from these numbers to the queues.
pub mod Board
pub mod Mailbox
pub mod Refinement
use twin_services.Base.{
  ℕ, Text, Bool, true, false, Option, none, some, List, [], ◌∷◌, ◌++◌, length, leb, ◌==◌,
  if◌then◌else◌,
}
use twin_services.Base.Eq.{Dict, lookup, insert, remove, nat_is_eq}
use twin_services.Base.Result.{Result, ok, raise, queue_full, queue_empty, ◌>>=◌}

-- `asyncio.Queue`; a `maxsize` of 0 is no bound.
pub record Queue (A : Type 0) : Type 0 where
  pub maxsize : ℕ
  pub items : List A

pub record Hub (A : Type 0) : Type 0 where
  pub asset : Text
  pub latest : Option A
  pub subscribers : Dict ℕ (Queue A)

module _ {A : Type 0} where
  -- `queue.full()`
  unfoldable pub full : Queue A → Bool
  full q = if q.maxsize == 0 then false else leb q.maxsize (length q.items)

  take_first : Queue A → List A → Result (A × Queue A)
  take_first q [] = raise queue_empty
  take_first q (a ∷ rest) = ok (a, record q { items = rest })

  -- `queue.get_nowait()`
  unfoldable pub get_nowait : Queue A → Result (A × Queue A)
  unfolding take_first
  get_nowait q = take_first q q.items

  -- `queue.put_nowait(item)`
  unfoldable pub put_nowait : A → Queue A → Result (Queue A)
  unfolding full
  put_nowait a q = if full q then raise queue_full else ok (record q { items = q.items ++ a ∷ [] })

  -- The body of the loop of `publish`.
  unfoldable pub deliver : A → Queue A → Result (Queue A)
  unfolding full get_nowait put_nowait
  deliver a q = if full q then (get_nowait q >>= λ (stale, q'). put_nowait a q') else put_nowait a q

  pub deliver_all : A → Dict ℕ (Queue A) → Result (Dict ℕ (Queue A))
  unfolding deliver
  deliver_all a [] = ok []
  deliver_all a ((i, q) ∷ d) = deliver a q >>= λ q'. deliver_all a d >>= λ d'. ok ((i, q') ∷ d')

  unfoldable pub publish : A → Hub A → Result (Hub A)
  unfolding deliver_all
  publish a h =
      deliver_all a h.subscribers >>= λ d. ok (record h { latest = some a; subscribers = d })

  -- The entry of `subscribe`: a new queue of size 1.
  unfoldable pub subscribe : ℕ → Hub A → Hub A
  subscribe i h = record h {
    subscribers = insert i (record { maxsize = 1; items = [] }) h.subscribers;
  }

  -- The exit of `subscribe`: `discard`.
  unfoldable pub unsubscribe : ℕ → Hub A → Hub A
  unsubscribe i h = record h { subscribers = remove i h.subscribers }

  take_from : ℕ → Hub A → Queue A → List A → Hub A × Option A
  take_from i h q [] = (h, none)
  take_from i h q (a ∷ rest) =
      (record h { subscribers = insert i (record q { items = rest }) h.subscribers }, some a)

  -- `await queue.get()` by a subscriber: the item, or nothing yet and the call waits.
  unfoldable pub receive : ℕ → Hub A → Hub A × Option A
  unfolding take_from
  receive i h = elim (lookup i h.subscribers) [
    | none ↦ (h, none)
    | some q ↦ take_from i h q q.items
  ]

-- What happens to a hub.
pub data Event (A : Type 0) : Type 0 where
  published : A → Event A
  subscribed unsubscribed received : ℕ → Event A

module _ {A : Type 0} where
  -- One event; the second part is what a subscriber received.
  unfoldable pub step : Event A → Hub A → Result (Hub A × Option A)
  unfolding publish subscribe unsubscribe receive
  step (published a) h = publish a h >>= λ h'. ok (h', none)
  step (subscribed i) h = ok (subscribe i h, none)
  step (unsubscribed i) h = ok (unsubscribe i h, none)
  step (received i) h = ok (receive i h)

  -- A sequence of events, and what was received, in order.
  unfoldable pub run : List (Event A) → Hub A → Result (Hub A × List (Option A))
  unfolding step
  run [] h = ok (h, [])
  run (e ∷ es) h = step e h >>= λ (h', out). run es h' >>= λ (h'', outs). ok (h'', out ∷ outs)
