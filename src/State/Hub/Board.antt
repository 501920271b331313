-- ===== src/State/Hub/Board.antt =====
-- What the hub promises (state.proto: latest wins, drop and don't buffer): each subscriber has at
-- most one state that it has not read, the last one published.
use twin_services.Base.{ℕ, Option, none, some, List, [], ◌∷◌}
use twin_services.Base.Eq.{Dict, lookup, insert, remove, map_values, nat_is_eq}
use twin_services.State.Hub.{Event, published, subscribed, unsubscribed, received}

pub record Board (A : Type 0) : Type 0 where
  pub latest : Option A
  pub unread : Dict ℕ (Option A)

module _ {A : Type 0} where
  unfoldable pub receive : ℕ → Board A → Board A × Option A
  receive i b = elim (lookup i b.unread) [
    | none ↦ (b, none)
    | some none ↦ (b, none)
    | some (some a) ↦ (record b { unread = insert i none b.unread }, some a)
  ]

  unfoldable pub step : Event A → Board A → Board A × Option A
  unfolding receive
  step (published a) b =
      (record { latest = some a; unread = map_values (λ _. some a) b.unread }, none)
  step (subscribed i) b = (record b { unread = insert i none b.unread }, none)
  step (unsubscribed i) b = (record b { unread = remove i b.unread }, none)
  step (received i) b = receive i b

  unfoldable pub run : List (Event A) → Board A → Board A × List (Option A)
  unfolding step
  run [] b = (b, [])
  run (e ∷ es) b = let (b', out) = step e b in let (b'', outs) = run es b' in (b'', out ∷ outs)
