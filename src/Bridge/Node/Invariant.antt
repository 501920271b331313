-- ===== src/Bridge/Node/Invariant.antt =====
-- What holds while start_ros_node and its thread run.
use twin_services.Base.{
  ℕ, suc, ◌≤◌, ◌≡◌, ◌⊎◌, inl, inr, refl, sym, ap, Bool, true, false, Option, none, some, List, [],
  ◌∷◌, ◌++◌, length, arith,
}
use mathlib.Core.Path.{subst}
use twin_services.Base.Result.{Result}
use twin_services.Bridge.Node.{
  Line, at_init, at_node, at_append, at_set, at_spin, at_destroy, at_shutdown, at_end, Startup,
  Event, advances, wakes, times_out, start, spin_from, spin, return_from, return_node, wake_from,
  step, run,
}

module _ {Node : Type 0} (node : Node) where
  -- What holds of the box, the flag and the clean-up when the thread is at a line.
  IsAt : Line → List Node → Bool → ℕ → ℕ → Type 0
  IsAt at_init box ready d h = (box ≡ []) × (ready ≡ false) × (d ≡ 0) × (h ≡ 0)
  IsAt at_node box ready d h = (box ≡ []) × (ready ≡ false) × (d ≡ 0) × (h ≡ 0)
  IsAt at_append box ready d h = (box ≡ []) × (ready ≡ false) × (d ≡ 0) × (h ≡ 0)
  IsAt at_set box ready d h = (box ≡ node ∷ []) × (ready ≡ false) × (d ≡ 0) × (h ≡ 0)
  IsAt at_spin box ready d h = (box ≡ node ∷ []) × (d ≡ 0) × (h ≡ 0)
  IsAt at_destroy box ready d h = (box ≡ node ∷ []) × (d ≡ 0) × (h ≡ 0)
  IsAt at_shutdown box ready d h = (box ≡ node ∷ []) × (d ≡ 1) × (h ≡ 0)
  IsAt at_end box ready d h =
      ((box ≡ []) × (ready ≡ false) × (d ≡ 0) × (h ≡ 0)) ⊎ ((box ≡ node ∷ []) × (h ≤ d) × (d ≤ 1))

  pub IsSound : Startup Node → Type 0
  unfolding IsAt
  IsSound s = IsAt s.thread s.node_box s.ready s.destroyed s.shut_down

  pub start-IsSound : IsSound start
  unfolding IsSound start
  start-IsSound = (refl, refl, refl, refl)

  spin-IsSound :
      (line : Line) (success : Bool) (s : Startup Node)
      → s.thread ≡ line
      → IsAt line s.node_box s.ready s.destroyed s.shut_down
      → IsSound (spin_from node line success s)
  unfolding IsSound spin_from
  spin-IsSound at_init true s e h = h
  spin-IsSound at_init false s e h = inl h
  spin-IsSound at_node true s e h = h
  spin-IsSound at_node false s e h = inl h
  spin-IsSound at_append success s e (b, r, d, u) = (ap (λ l. l ++ node ∷ []) b, r, d, u)
  spin-IsSound at_set success s e (b, r, d, u) = (b, d, u)
  spin-IsSound at_spin success s e h = h
  spin-IsSound at_destroy true s e (b, d, u) = (b, ap suc d, u)
  spin-IsSound at_destroy false s e (b, d, u) = inr (b, omega arith, omega arith)
  spin-IsSound at_shutdown true s e (b, d, u) = inr (b, omega arith, omega arith)
  spin-IsSound at_shutdown false s e (b, d, u) = inr (b, omega arith, omega arith)
  spin-IsSound at_end success s e h =
      subst (λ l. IsAt l s.node_box s.ready s.destroyed s.shut_down) (sym e) h

  pub spin-answer :
      (line : Line) (success : Bool) (s : Startup Node)
      → (spin_from node line success s).answer ≡ s.answer
  unfolding spin_from
  spin-answer at_init true s = refl
  spin-answer at_init false s = refl
  spin-answer at_node true s = refl
  spin-answer at_node false s = refl
  spin-answer at_append success s = refl
  spin-answer at_set success s = refl
  spin-answer at_spin success s = refl
  spin-answer at_destroy true s = refl
  spin-answer at_destroy false s = refl
  spin-answer at_shutdown true s = refl
  spin-answer at_shutdown false s = refl
  spin-answer at_end success s = refl

  -- The box has the node once the flag is set, and the clean-up goes in order.
  pub record Facts (s : Startup Node) : Type 0 where
    pub box : ((s.node_box ≡ []) × (s.ready ≡ false)) ⊎ (s.node_box ≡ node ∷ [])
    pub in_order : s.shut_down ≤ s.destroyed
    pub if_built : s.destroyed ≤ length s.node_box
    pub only_one : length s.node_box ≤ 1

  unbuilt :
      (s : Startup Node)
      → (s.node_box ≡ []) × (s.ready ≡ false) × (s.destroyed ≡ 0) × (s.shut_down ≡ 0)
      → Facts s
  unbuilt s (b, r, d, h) = record {
    box = inl (b, r);
    in_order = omega arith;
    if_built = omega arith;
    only_one = subst (λ l. length l ≤ 1) (sym b) (omega arith);
  }

  built :
      (s : Startup Node)
      → s.node_box ≡ node ∷ []
      → s.shut_down ≤ s.destroyed
      → s.destroyed ≤ 1
      → Facts s
  built s b in_order d = record {
    box = inr b;
    in_order = in_order;
    if_built = subst (λ l. s.destroyed ≤ length l) (sym b) d;
    only_one = subst (λ l. length l ≤ 1) (sym b) (omega arith);
  }

  facts :
      (line : Line) (s : Startup Node)
      → IsAt line s.node_box s.ready s.destroyed s.shut_down
      → Facts s
  unfolding IsAt
  facts at_init s h = unbuilt s h
  facts at_node s h = unbuilt s h
  facts at_append s h = unbuilt s h
  facts at_set s (b, r, d, h) = built s b (omega arith) (omega arith)
  facts at_spin s (b, d, h) = built s b (omega arith) (omega arith)
  facts at_destroy s (b, d, h) = built s b (omega arith) (omega arith)
  facts at_shutdown s (b, d, h) = built s b (omega arith) (omega arith)
  facts at_end s (inl h) = unbuilt s h
  facts at_end s (inr (b, h, d)) = built s b h d

  pub IsSound-Facts : (s : Startup Node) → IsSound s → Facts s
  unfolding IsSound
  IsSound-Facts s h = facts s.thread s h

  return_from-IsSound :
      (o : Option (Result Node)) (s : Startup Node) → IsSound s → IsSound (return_from o s)
  unfolding IsSound return_from
  return_from-IsSound none s h = h
  return_from-IsSound (some r) s h = h

  wake_from-IsSound : (b : Bool) (s : Startup Node) → IsSound s → IsSound (wake_from b s)
  unfolding wake_from IsSound return_node
  wake_from-IsSound true s h = return_from-IsSound s.answer s h
  wake_from-IsSound false s h = h

  pub step-IsSound : (e : Event) (s : Startup Node) → IsSound s → IsSound (step node e s)
  unfolding step IsSound spin return_node
  step-IsSound (advances success) s h = spin-IsSound s.thread success s refl h
  step-IsSound wakes s h = wake_from-IsSound s.ready s h
  step-IsSound times_out s h = return_from-IsSound s.answer s h

  pub run-IsSound : (es : List Event) (s : Startup Node) → IsSound s → IsSound (run node es s)
  unfolding run
  run-IsSound [] s h = h
  run-IsSound (e ∷ es) s h = run-IsSound es (step node e s) (step-IsSound e s h)
