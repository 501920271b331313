-- ===== src/State/Consumer/Broadcast.antt =====
-- What one round of the broadcaster does, and what clients see of it.
use twin_services.Base.{suc, ◌≡◌, refl, true, false, some, List, ◌∷◌, ◌++◌, length}
use twin_services.Base.Eq.{map_values, nat_is_eq}
use twin_services.Base.Result.{Exc, ok, raise}
use twin_services.Floats.{Floats}
use twin_services.State.Window.{JointSnapshot, snapshot}
use twin_services.State.Hub.Mailbox.{AreMailboxes, board}
use twin_services.State.Hub.Refinement.{publish-board}
use twin_services.State.Build.{TwinState, Vendor, build_state}
use twin_services.State.Build.Laws.{positions, build_state_raises}
use twin_services.State.Consumer.{Consumer, announce, broadcast}

module _ (fl : Floats) (vendor : Vendor fl.F) where
  open fl use {F, cos}

  -- The consumer after a broadcast of `state`.
  pub record Broadcasts (c : Consumer F) (state : TwinState F) (c' : Consumer F) : Type 0 where
    pub returns : broadcast fl vendor c ≡ ok c'
    pub clean : c'.dirty ≡ false
    pub counted : c'.published ≡ suc c.published
    pub same_window : c'.window ≡ c.window
    pub delivered :
        board c'.hub
        ≡ record { latest = some state; unread = map_values (λ _. some state) (board c.hub).unread }
    pub mailboxes : AreMailboxes c'.hub.subscribers

  -- When new telemetry is in, the window yields a state and every client has a mailbox of size one,
  -- a round of the broadcaster returns: it clears the mark, counts the state, leaves the window as
  -- it is, and makes the state the hub's latest and the one that waits for every client.
  pub broadcast-Broadcasts :
      (c : Consumer F) (state : TwinState F)
      → c.dirty ≡ true
      → build_state fl vendor c.config.asset_name c.window c.config.rms_window_s ≡ ok (some state)
      → AreMailboxes c.hub.subscribers
      → (c' : Consumer F) × Broadcasts c state c'
  unfolding broadcast announce
  broadcast-Broadcasts c state d b m =
      let (hub, e, seen, boxes) = publish-board state c.hub m in
      (
        record c { dirty = false; hub = hub; published = suc c.published },
        record {
          returns = rw (d, b, e);
          clean = refl;
          counted = refl;
          same_window = refl;
          delivered = seen;
          mailboxes = boxes;
        },
      )

  -- A round of the broadcaster raises, and so ends the service, when new telemetry is in and the
  -- six positions of the snapshot include one that has no cosine, as an infinite one in Python.
  pub broadcast_raises :
      (c : Consumer F) (ss : List (JointSnapshot F)) (before : List F) (theta : F) (after : List F)
      {x : Exc}
      → c.dirty ≡ true
      → snapshot fl c.window ≡ ok (some ss)
      → positions ss ≡ before ++ theta ∷ after
      → length (before ++ theta ∷ after) ≡ 6
      → cos theta ≡ raise x
      → (y : Exc) × (broadcast fl vendor c ≡ raise y)
  unfolding broadcast
  broadcast_raises c ss before theta after d found at_theta six infinite =
      let (y, e) =
        build_state_raises fl vendor c.config.asset_name c.window c.config.rms_window_s ss before
          theta after found at_theta six infinite in
      (y, rw (d, e))
