-- ===== src/Bridge/Node/Start.antt =====
-- What the call of start_ros_node comes to, however its thread and its wait interleave.
use twin_services.Base.{
  ◌≤◌, ◌≡◌, ◌⊎◌, inl, inr, refl, ap, ◌∙◌, Bool, true, false, Option, none, some, List, [], ◌∷◌,
  ◌++◌, length, Bool-cases,
}
use twin_services.Base.Result.{Result, ok, raise, index_error}
use twin_services.Bridge.{get_elem?, index}
use twin_services.Bridge.Node.{
  Startup, Event, advances, wakes, times_out, start, spin, return_from, return_node, wake_from,
  step, run,
}
use twin_services.Bridge.Node.Invariant.{
  IsSound, IsSound-Facts, start-IsSound, step-IsSound, run-IsSound, spin-answer,
}

module _ {Node : Type 0} (node : Node) where
  -- The ten seconds were over before the node was in the box.
  pub record IsLate (es : List Event) (s : Startup Node) : Type 0 where
    pub before : List Event
    pub after : List Event
    pub splits : es ≡ before ++ times_out ∷ after
    pub no_node : (run node before s).node_box ≡ []

  -- The call still waits, has returned the node, or has raised behind a wait that was too short.
  pub Answers : List Event → Startup Node → Type 0
  Answers es s =
      ((run node es s).answer ≡ none)
      ⊎ (((run node es s).answer ≡ some (ok node))
          ⊎ (((run node es s).answer ≡ some (raise index_error)) × IsLate es s))

  return_from-keeps :
      (o : Option (Result Node)) (s : Startup Node) (r : Result Node)
      → o ≡ some r
      → s.answer ≡ some r
      → (return_from o s).answer ≡ some r
  unfolding return_from
  return_from-keeps none s r e h = cc
  return_from-keeps (some q) s r e h = h

  wake_from-keeps :
      (b : Bool) (s : Startup Node) (r : Result Node)
      → s.answer ≡ some r
      → (wake_from b s).answer ≡ some r
  unfolding wake_from return_node
  wake_from-keeps true s r h = return_from-keeps s.answer s r h h
  wake_from-keeps false s r h = h

  step-keeps :
      (e : Event) (s : Startup Node) (r : Result Node)
      → s.answer ≡ some r
      → (step node e s).answer ≡ some r
  unfolding step spin return_node
  step-keeps (advances success) s r h = spin-answer node s.thread success s ∙ h
  step-keeps wakes s r h = wake_from-keeps s.ready s r h
  step-keeps times_out s r h = return_from-keeps s.answer s r h h

  -- An answer stands.
  run-keeps :
      (es : List Event) (s : Startup Node) (r : Result Node)
      → s.answer ≡ some r
      → (run node es s).answer ≡ some r
  unfolding run
  run-keeps [] s r h = h
  run-keeps (e ∷ es) s r h = run-keeps es (step node e s) r (step-keeps e s r h)

  return_node-answer :
      (s : Startup Node) → s.answer ≡ none → (return_node s).answer ≡ some (index s.node_box 0)
  unfolding return_node return_from
  return_node-answer s h = ap (λ o. (return_from o s).answer) h

  -- With the node in the box the call returns it.
  returns_node :
      (s : Startup Node)
      → s.answer ≡ none
      → s.node_box ≡ node ∷ []
      → (return_node s).answer ≡ some (ok node)
  unfolding index get_elem?
  returns_node s h box = return_node-answer s h ∙ ap (λ l. some (index l 0)) box

  returns_nothing :
      (s : Startup Node)
      → s.answer ≡ none
      → s.node_box ≡ []
      → (return_node s).answer ≡ some (raise index_error)
  unfolding index get_elem?
  returns_nothing s h box = return_node-answer s h ∙ ap (λ l. some (index l 0)) box

  later :
      (e : Event) (es : List Event) (s : Startup Node)
      → Answers es (step node e s)
      → Answers (e ∷ es) s
  unfolding Answers run
  later e es s (inl waits) = inl waits
  later e es s (inr (inl returned)) = inr (inl returned)
  later e es s (inr (inr (raised, late))) = inr (
      inr (
        raised,
        record {
          before = e ∷ late.before;
          after = late.after;
          splits = ap (◌∷◌ e) late.splits;
          no_node = late.no_node;
        },
      ))

  times_out-Answers :
      (es : List Event) (s : Startup Node)
      → IsSound node s
      → s.answer ≡ none
      → Answers (times_out ∷ es) s
  unfolding Answers run step
  times_out-Answers es s sound h = elim (IsSound-Facts node s sound).box [
    | inl (box, unset) ↦ inr (
        inr (
          run-keeps es (return_node s) (raise index_error) (returns_nothing s h box),
          record { before = []; after = es; splits = refl; no_node = box },
        ))
    | inr box ↦ inr (inl (run-keeps es (return_node s) (ok node) (returns_node s h box)))
  ]

  -- The flag is set behind the node.
  box_of :
      (s : Startup Node)
      → ((s.node_box ≡ []) × (s.ready ≡ false)) ⊎ (s.node_box ≡ node ∷ [])
      → s.ready ≡ true
      → s.node_box ≡ node ∷ []
  box_of s (inl (box, unset)) set = cc
  box_of s (inr box) set = box

  run-Answers_from :
      (es : List Event) (s : Startup Node) → IsSound node s → s.answer ≡ none → Answers es s
  unfolding Answers run
  run-Answers_from [] s sound h = inl h
  run-Answers_from (times_out ∷ es) s sound h = times_out-Answers es s sound h
  run-Answers_from (advances success ∷ es) s sound h = later (advances success) es s (
      run-Answers_from es (step node (advances success) s)
        (step-IsSound node (advances success) s sound) (advances-answer success s ∙ h))
    where
      advances-answer :
          (success : Bool) (s : Startup Node) → (step node (advances success) s).answer ≡ s.answer
      advances-answer success s = unfold step spin in spin-answer node s.thread success s
  run-Answers_from (wakes ∷ es) s sound h = elim (Bool-cases s.ready) [
    | inl set ↦ inr (
        inl (
          run-keeps es (step node wakes s) (ok node) (
            unfold step wake_from in
            ap (λ b. (wake_from b s).answer) set
            ∙ returns_node s h (box_of s (IsSound-Facts node s sound).box set))))
    | inr unset ↦ later wakes es s (
        run-Answers_from es (step node wakes s) (step-IsSound node wakes s sound)
          (unfold step wake_from in ap (λ b. (wake_from b s).answer) unset ∙ h))
  ]

  -- However the thread and the wait interleave, and whatever raises in the thread, start_ros_node
  -- still waits, has returned the node, or has raised IndexError; the last only when its ten seconds
  -- were over before the node was in the box. The context of ROS is shut down at most once and only
  -- behind the destruction of the node, which happens at most once and only to a node that was made.
  pub run-Answers :
      (es : List Event)
      → Answers es start
        × ((run node es start).shut_down ≤ (run node es start).destroyed)
        × ((run node es start).destroyed ≤ length (run node es start).node_box)
        × (length (run node es start).node_box ≤ 1)
  run-Answers es =
      let f =
        IsSound-Facts node (run node es start) (run-IsSound node es start (start-IsSound node)) in
      (
        run-Answers_from es start (start-IsSound node) (unfold start in refl),
        f.in_order,
        f.if_built,
        f.only_one,
      )
