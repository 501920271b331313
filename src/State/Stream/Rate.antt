-- ===== src/State/Stream/Rate.antt =====
-- How `StreamState` decimates.
use twin_services.Base.{
  ℕ, ◌*◌, ◌≡◌, ◌↔◌, ◌⊎◌, inl, inr, refl, ap, false, Bool-cases, Option, none, some, List, [], ◌∷◌,
  length, arith, Text, text_eq_iff,
}
use mathlib.Core.Path.{subst}
use twin_services.Base.Int.{ℤ, pos, ◌+ℤ◌, ◌≤ℤ◌, int_laws}
use twin_services.Base.Result.{ok}
use twin_services.Floats.{Floats}
use twin_services.State.Hub.{Hub}
use twin_services.State.Stream.{
  reply, wrong_asset, get_state, too_soon, decimate, stream_state, min_interval,
}

module _ (fl : Floats) {A : Type 0} where
  open fl use {F, literal, sub, lt}

  -- Each time keeps its distance from the one before it.
  abbrev pub Spaced : F → Option F → List (A × F) → Type 0
  Spaced interval last [] = Unit
  Spaced interval last ((state, now) ∷ rest) =
      (too_soon fl interval last now ≡ false) × Spaced interval (some now) rest

  decimate-Spaced :
      (interval : F) (last : Option F) (feed : List (A × F))
      → Spaced interval last (decimate fl interval last feed)
  unfolding decimate
  decimate-Spaced interval last [] = tt
  decimate-Spaced interval last ((state, now) ∷ rest) =
      elim (Bool-cases (too_soon fl interval last now)) [
        | inl soon ↦ rw soon (decimate-Spaced interval last rest)
        | inr late ↦ rw late (rw late refl, decimate-Spaced interval (some now) rest)
      ]

  -- The time of the last entry.
  abbrev pub last_time : F → List (A × F) → F
  last_time t [] = t
  last_time t ((state, now) ∷ rest) = last_time now rest

  -- No entry is earlier than the one before it, as the clock is monotonic.
  abbrev pub Monotonic : Option F → List (A × F) → Type 0
  Monotonic last [] = Unit
  Monotonic last ((state, now) ∷ rest) =
      (too_soon fl (literal (pos 0) 0) last now ≡ false) × Monotonic (some now) rest

  decimate-Monotonic :
      (last : Option F) (feed : List (A × F))
      → Monotonic last feed
      → decimate fl (literal (pos 0) 0) last feed ≡ feed
  unfolding decimate
  decimate-Monotonic last [] m = refl
  decimate-Monotonic last ((state, now) ∷ rest) m =
      rw m.0 (ap (◌∷◌ (state, now)) (decimate-Monotonic (some now) rest m.1))

  -- A request for a rate that is not above 0 gets every state that its queue hands over, if the
  -- clock never goes back.
  pub stream_state_uncapped :
      (requested : Text) (rate : F) (h : Hub A) (feed : List (A × F))
      → wrong_asset requested h ≡ false
      → lt (literal (pos 0) 0) rate ≡ false
      → Monotonic none feed
      → stream_state fl requested rate h feed ≡ ok (reply feed)
  unfolding stream_state min_interval
  stream_state_uncapped requested rate h feed right capped m =
      rw (right, capped, decimate-Monotonic none feed m)

  Spaced-ticks :
      (interval : F) (period : ℕ) (ticks : F → ℤ) (t : F) (rest : List (A × F))
      → ((a b : F) → lt (sub b a) interval ≡ false → (ticks a +ℤ pos period) ≤ℤ ticks b)
      → Spaced interval (some t) rest
      → (ticks t +ℤ pos (length rest * period)) ≤ℤ ticks (last_time t rest)
  unfolding too_soon
  Spaced-ticks interval period ticks t [] exact sp = omega int_laws
  Spaced-ticks interval period ticks t ((state, now) ∷ rest) exact sp =
      omega (int_laws, exact t now sp.0, Spaced-ticks interval period ticks now rest exact sp.1)

  -- Of the states sent to a client, each two neighbours are at least an interval apart: with times
  -- in ticks and an interval of `period` ticks that the comparison of floats respects, the `n`
  -- states behind the first take at least `n * period` ticks.
  pub decimate_rate :
      (interval : F) (period : ℕ) (ticks : F → ℤ) (feed : List (A × F)) (state : A) (t : F)
      (rest : List (A × F))
      → ((a b : F) → lt (sub b a) interval ≡ false → (ticks a +ℤ pos period) ≤ℤ ticks b)
      → decimate fl interval none feed ≡ (state, t) ∷ rest
      → (ticks t +ℤ pos (length rest * period)) ≤ℤ ticks (last_time t rest)
  decimate_rate interval period ticks feed state t rest exact e =
      Spaced-ticks interval period ticks t rest exact
        (subst (Spaced interval none) e (decimate-Spaced interval none feed)).1

-- `GetState` answers with a state exactly when the request names no asset or the hub's own, and the
-- state is the last one published.
pub get_state_replies :
    {A : Type 0} (requested : Text) (h : Hub A) (state : A)
    → (get_state requested h ≡ reply state)
      ↔ (((requested ≡ []) ⊎ (requested ≡ h.asset)) × (h.latest ≡ some state))
unfolding get_state wrong_asset
get_state_replies [] h state = (λ e. ground arith, λ e. ground arith)
get_state_replies (c ∷ t) h state = (
  λ e. ground (arith, text_eq_iff (c ∷ t) h.asset),
  λ e. ground (arith, text_eq_iff (c ∷ t) h.asset),
)
