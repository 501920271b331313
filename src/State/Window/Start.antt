-- ===== src/State/Window/Start.antt =====
-- A window as `RollingWindow(window_s, joints)` makes it.
use twin_services.Base.{ℕ, Text, ◌≡◌, refl, true, some, List, [], ◌∷◌, All, arith}
use mathlib.Core.Path.{subst}
use twin_services.Base.Int.{ℤ}
use twin_services.Base.Eq.{
  Dict, lookup, insert, contains, lookup-insert, lookup-insert_self, contains-insert,
  contains_of-lookup, lookup_of-contains, text_is_eq,
}
use twin_services.Base.Result.{ok, ok-injective, >>=-eq-ok}
use twin_services.Floats.{Floats}
use twin_services.State.Window.{
  Channel, channel_is_eq, History, RollingWindow, empty_histories, init,
}
use twin_services.State.Window.Invariant.{IsWellFormed, Before}

module _ {F : Type 0} where
  -- No joint has a sample yet.
  abbrev AllEmpty : Dict Text (History F) → Type 0
  AllEmpty d = (j : Text) (h : History F) → lookup j d ≡ some h → h ≡ []

  empty_histories-AllEmpty :
      (js : List Text) (d : Dict Text (History F)) → AllEmpty d → AllEmpty (empty_histories js d)
  unfolding empty_histories
  empty_histories-AllEmpty [] d a = a
  empty_histories-AllEmpty (j ∷ js) d a =
      empty_histories-AllEmpty js (insert j [] d)
        λ k h e. ground (arith, lookup-insert j k [] d, a k h)

  empty_histories-keeps :
      (j : Text) (js : List Text) (d : Dict Text (History F))
      → contains j d ≡ true
      → contains j (empty_histories js d) ≡ true
  unfolding empty_histories
  empty_histories-keeps j [] d c = c
  empty_histories-keeps j (k ∷ js) d c =
      empty_histories-keeps j js (insert k [] d) (contains-insert k j [] d c)

  empty_histories-All :
      (js : List Text) (d : Dict Text (History F))
      → All (λ j. contains j (empty_histories js d) ≡ true) js
  unfolding empty_histories
  empty_histories-All [] d = tt
  empty_histories-All (j ∷ js) d = (
    empty_histories-keeps j js (insert j [] d)
        (contains_of-lookup j [] (insert j [] d) (lookup-insert_self j [] d)),
    empty_histories-All js (insert j [] d),
  )

  lookup_empty : (j : Text) (h : History F) → lookup {V = History F} j [] ≡ some h → h ≡ []
  unfolding lookup
  lookup_empty j h e = cc

  no_reading :
      (c : Channel) (v : F) (vs : Dict Text (History F))
      → lookup {V = F} c [] ≡ some v
      → contains c.joint vs ≡ true
  unfolding lookup
  no_reading c v vs e = cc

  empty-Before : (n : ℕ) (h : History F) → h ≡ [] → Before n h
  empty-Before n [] e = tt
  empty-Before n (x ∷ h) e = cc

  -- What a new window is.
  pub record IsFresh (js : List Text) (w : RollingWindow F) : Type 0 where
    pub well_formed : IsWellFormed w
    pub joints : w.joints ≡ js
    pub stamp : w.stamp_ns ≡ 0
    pub no_readings : w.latest ≡ []
    pub empty : All (λ j. lookup j w.velocities ≡ some []) js

  lookup-All :
      (d : Dict Text (History F)) (js : List Text)
      → AllEmpty d
      → All (λ j. contains j d ≡ true) js
      → All (λ j. lookup j d ≡ some []) js
  lookup-All d [] a c = tt
  lookup-All d (j ∷ js) a c =
      let (h, e) = lookup_of-contains j d c.0 in (rw (a j h e) at e, lookup-All d js a c.1)

module _ (fl : Floats) where
  abbrev made : ℤ → List Text → RollingWindow fl.F
  made n js = record {
    window_ns = n;
    joints = js;
    latest = [];
    velocities = empty_histories js [];
    stamp_ns = 0;
  }

  made-IsFresh : (n : ℤ) (js : List Text) → IsFresh js (made n js)
  made-IsFresh n js = record {
    well_formed = record {
      tracked = all;
      bounded = λ j h e. empty-Before 0 h (blank j h e);
      known = λ c v e. no_reading c v _ e;
    };
    joints = refl;
    stamp = refl;
    no_readings = refl;
    empty = lookup-All _ js blank all;
  }
    where
      all : All (λ j. contains j (empty_histories {F = fl.F} js []) ≡ true) js
      all = empty_histories-All js []

      blank : AllEmpty (empty_histories {F = fl.F} js [])
      blank = empty_histories-AllEmpty js [] lookup_empty

  -- A new window is well formed, keeps its joints in their order, and has an empty history for each
  -- and stamp 0.
  pub init-IsFresh :
      (window_s : fl.F) (js : List Text) (w : RollingWindow fl.F)
      → init fl window_s js ≡ ok w
      → IsFresh js w
  unfolding init
  init-IsFresh window_s js w h =
      let (n, e, is) = >>=-eq-ok (fl.truncate _) _ h in
      subst (IsFresh js) (ok-injective is) (made-IsFresh n js)
