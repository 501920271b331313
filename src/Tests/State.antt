-- ===== src/Tests/State.antt =====
-- The theorems on state-svc's window, kinematics and hub, at concrete inputs.
use twin_services.Base.{
  ℕ, ◌*◌, ◌≡◌, ◌↔◌, refl, true, false, Option, none, some, List, [], ◌∷◌, length, ◌⊎◌, text_eq,
  arith,
}
use twin_services.Base.Eq.{lookup, text_is_eq, nat_is_eq}
use twin_services.Base.Int.{ℤ, pos, ◌+ℤ◌, ◌-ℤ◌, ◌≤ℤ◌, int_laws, le_of-ltb_ℤ}
use twin_services.Base.Result.{ok, Total}
use twin_services.Contracts.Vocabulary.{velocity}
use twin_services.State.Window.{History}
use twin_services.State.Window.Pruning.{recent}
use twin_services.State.Window.History.{
  Observation, observe_all, velocities_of, history-observe_all,
}
use twin_services.State.Kinematics.{forward}
use twin_services.State.Kinematics.Forward.{forward_total}
use twin_services.State.Hub.{Hub, Event, published, subscribed, unsubscribed, received, run}
use twin_services.State.Hub.Board.{Board}
use twin_services.State.Hub.Board
use twin_services.State.Hub.Mailbox.{AreMailboxes, board}
use twin_services.State.Hub.Refinement.{run-refines}
use twin_services.State.Stream.{reply, get_state, too_soon, decimate}
use twin_services.State.Stream.Rate.{decimate_rate, get_state_replies, last_time}
use twin_services.Tests.{
  whole, whole-IsExact, whole-IsTame, fresh_window, elbow, ur5, sample, vendor,
}

abbrev observations : List (Observation ℤ)
observations =
    record { joint = elbow; field = velocity; sample = sample (pos 3) 5 }
    ∷ record { joint = elbow; field = velocity; sample = sample (pos 4) 200 }
    ∷ []

history-observe_all_example :
    lookup elbow (observe_all observations fresh_window).velocities
    ≡ some (recent (pos 0) (velocities_of elbow observations))
unfolding lookup text_eq
history-observe_all_example =
    history-observe_all elbow fresh_window observations refl refl (omega arith, (omega arith, tt))

abbrev three_samples : History ℤ
three_samples = (5, pos 1) ∷ (9, pos 2) ∷ (3, pos 3) ∷ []

has_cosine : (x : ℤ) → whole.is_finite x ≡ true → Total (whole.cos x) × Total (whole.sin x)
has_cosine = whole-IsTame.cosines

abbrev six_angles : List ℤ
six_angles = pos 1 ∷ pos 2 ∷ pos 3 ∷ pos 4 ∷ pos 5 ∷ pos 6 ∷ []

forward_total_example : Total (forward whole vendor.matmul six_angles)
unfolding ◌-ℤ◌
forward_total_example =
    forward_total whole vendor.matmul whole-IsExact
      (((_, refl), (_, refl)), ((_, refl), (_, refl)), ((_, refl), (_, refl))) six_angles refl
      (
        has_cosine (pos 1) refl,
        (
          has_cosine (pos 2) refl,
          (
            has_cosine (pos 3) refl,
            (has_cosine (pos 4) refl, (has_cosine (pos 5) refl, (has_cosine (pos 6) refl, tt))),
          ),
        ),
      )

abbrev quiet_hub : Hub ℕ
quiet_hub = record { asset = ur5; latest = none; subscribers = [] }

-- A slow client sees the second state only.
abbrev events : List (Event ℕ)
events = subscribed 4 ∷ published 1 ∷ published 2 ∷ received 4 ∷ received 4 ∷ unsubscribed 4 ∷ []

run-refines_example :
    (h' : Hub ℕ) × (outs : List (Option ℕ)) × (run events quiet_hub ≡ ok (h', outs))
    × (Board.run events (board quiet_hub) ≡ (board h', outs))
    × AreMailboxes h'.subscribers
run-refines_example = run-refines events quiet_hub tt

abbrev live_hub : Hub ℕ
live_hub = record { asset = ur5; latest = some 8; subscribers = [] }

get_state_replies_example :
    (get_state ur5 live_hub ≡ reply 8) ↔ (((ur5 ≡ []) ⊎ (ur5 ≡ ur5)) × (live_hub.latest ≡ some 8))
get_state_replies_example = get_state_replies ur5 live_hub 8

abbrev feed : List (ℕ × ℤ)
feed = (1, pos 0) ∷ (2, pos 5) ∷ (3, pos 9) ∷ (4, pos 21) ∷ []

abbrev late : List (ℕ × ℤ)
late = (4, pos 21) ∷ []

decimate-feed : decimate whole (pos 10) none feed ≡ (1, pos 0) ∷ (4, pos 21) ∷ []
unfolding decimate too_soon ◌-ℤ◌
decimate-feed = refl

ticks-lt : (a b : ℤ) → whole.lt (whole.sub b a) (pos 10) ≡ false → (a +ℤ pos 10) ≤ℤ b
ticks-lt a b h = let p = le_of-ltb_ℤ (b -ℤ a) (pos 10) h in omega (int_laws, p)

decimate_rate_example : (pos 0 +ℤ pos (length late * 10)) ≤ℤ last_time whole (pos 0) late
decimate_rate_example =
    decimate_rate whole (pos 10) 10 (λ t. t) feed 1 (pos 0) late ticks-lt decimate-feed
