-- ===== src/State/Window/Batch.antt =====
-- `snapshot` against a computation from the whole log of messages: a reference that keeps no state.
use twin_services.Base.{
  Text, ◌≡◌, refl, ap, ◌∙◌, Option, none, some, List, [], ◌∷◌, ◌++◌, All, inl, inr,
}
use mathlib.Core.List.{append-nil, append_assoc}
use twin_services.Base.Eq.{lookup, contains_of-lookup, text_is_eq}
use twin_services.Base.Int.{ℤ}
use twin_services.Base.Result.{Result, ok, raise, Result-cases, ◌>>=◌}
use twin_services.Floats.{Floats}
use twin_services.Contracts.Vocabulary.{JointField, position, velocity, effort}
use twin_services.State.Window.{
  channel_is_eq, RollingWindow, JointSnapshot, rms, velocity_rms, readings, channel, snapshot_joint,
  snapshot_from, snapshot,
}
use twin_services.State.Window.Pruning.{recent}
use twin_services.State.Window.Start.{IsFresh}
use twin_services.State.Window.History.{
  Observation, observe_all, velocities_of, InOrder, history-observe_all,
}
use twin_services.State.Window.Latest.{
  newest, gather, latest-observe_all, readings-gather, joints-observe_all,
}

module _ (fl : Floats) where
  open fl use {F}

  -- The snapshot of one joint, from the log.
  abbrev describe : Text → Option (F × F × F) → Result F → Result (Option (JointSnapshot F))
  describe j none r = ok none
  describe j (some (p, v, e)) r = r >>= λ q. ok (
      some (record {
        name = j;
        position_rad = p;
        velocity_rad_s = v;
        effort_nm = e;
        velocity_rms = q;
      }))

  -- The last position, velocity and effort, and the root mean square of the velocities that lie
  -- within the window of the joint's last one.
  abbrev pub from_log : ℤ → List (Observation F) → Text → Result (Option (JointSnapshot F))
  from_log window_ns os j =
      describe j
        (gather (newest j position none os) (newest j velocity none os) (newest j effort none os))
        (rms fl (recent window_ns (velocities_of j os)))

  abbrev after : JointSnapshot F → Option (List (JointSnapshot F)) → Option (List (JointSnapshot F))
  after s none = none
  after s (some ss) = some (s ∷ ss)

  abbrev unless_none :
      Option (JointSnapshot F)
      → Result (Option (List (JointSnapshot F)))
      → Result (Option (List (JointSnapshot F)))
  unless_none none rest = ok none
  unless_none (some s) rest = rest >>= λ o. ok (after s o)

  -- All joints in order; the first that lacks a reading makes the result `none`.
  abbrev pub snapshot_of_log :
      ℤ → List (Observation F) → List Text → Result (Option (List (JointSnapshot F)))
  snapshot_of_log window_ns os [] = ok (some [])
  snapshot_of_log window_ns os (j ∷ js) =
      from_log window_ns os j >>= λ o. unless_none o (snapshot_of_log window_ns os js)

  -- What the log determines of the window `w` after it, for joint `j`.
  record Agrees (window_ns : ℤ) (os : List (Observation F)) (w : RollingWindow F) (j : Text)
      : Type 0 where
    reads :
        readings fl w j
        ≡ gather (newest j position none os) (newest j velocity none os) (newest j effort none os)
    means : velocity_rms fl w j ≡ rms fl (recent window_ns (velocities_of j os))

  snapshot_joint-from_log :
      (window_ns : ℤ) (os : List (Observation F)) (w : RollingWindow F) (j : Text)
      → Agrees window_ns os w j
      → snapshot_joint fl w j (readings fl w j) ≡ from_log window_ns os j
  snapshot_joint-from_log window_ns os w j a = ap (snapshot_joint fl w j) a.reads ∙ at_readings _
    where
      at_readings :
          (t : Option (F × F × F))
          → snapshot_joint fl w j t ≡ describe j t (rms fl (recent window_ns (velocities_of j os)))
      at_readings none = unfold snapshot_joint in refl
      at_readings (some (p, v, e)) = unfold snapshot_joint in rw a.means refl

  -- Snapshots that are put behind those that are done.
  abbrev behind :
      List (JointSnapshot F) → Option (List (JointSnapshot F)) → Option (List (JointSnapshot F))
  behind done none = none
  behind done (some ss) = some (done ++ ss)

  regroup :
      (done : List (JointSnapshot F)) (s : JointSnapshot F)
      (r : Result (Option (List (JointSnapshot F))))
      → (r >>= λ o. ok (behind (done ++ s ∷ []) o))
        ≡ ((r >>= λ o. ok (after s o)) >>= λ o. ok (behind done o))
  regroup done s (raise x) = refl
  regroup done s (ok none) = refl
  regroup done s (ok (some ss)) = ap (λ x. ok (some x)) (append_assoc done (s ∷ []) ss)

  -- One round of the loop, by what the log gives for the joint.
  snapshot_from-cons :
      (window_ns : ℤ) (os : List (Observation F)) (w : RollingWindow F) (j : Text) (js : List Text)
      (done : List (JointSnapshot F)) (rest : Result (Option (List (JointSnapshot F))))
      → Agrees window_ns os w j
      → ((s : JointSnapshot F)
          → snapshot_from fl w js (done ++ s ∷ []) ≡ (rest >>= λ o. ok (behind (done ++ s ∷ []) o)))
      → snapshot_from fl w (j ∷ js) done
        ≡ ((from_log window_ns os j >>= λ o. unless_none o rest) >>= λ o. ok (behind done o))
  unfolding snapshot_from
  snapshot_from-cons window_ns os w j js done rest a next =
      elim (Result-cases (from_log window_ns os j)) [
        | inr (x, r) ↦ rw (snapshot_joint-from_log window_ns os w j a, r) refl
        | inl (none, r) ↦ rw (snapshot_joint-from_log window_ns os w j a, r) refl
        | inl (some s, r) ↦
            rw (snapshot_joint-from_log window_ns os w j a, r) (next s ∙ regroup done s rest)
      ]

  snapshot_from-snapshot_of_log :
      (window_ns : ℤ) (os : List (Observation F)) (w : RollingWindow F) (js : List Text)
      (done : List (JointSnapshot F))
      → All (Agrees window_ns os w) js
      → snapshot_from fl w js done ≡ (snapshot_of_log window_ns os js >>= λ o. ok (behind done o))
  snapshot_from-snapshot_of_log window_ns os w [] done a = unfold snapshot_from in rw append-nil
  snapshot_from-snapshot_of_log window_ns os w (j ∷ js) done a =
      snapshot_from-cons window_ns os w j js done (snapshot_of_log window_ns os js) a.0
        λ s. snapshot_from-snapshot_of_log window_ns os w js (done ++ s ∷ []) a.1

  Agrees-observe_all :
      (os : List (Observation F)) (w : RollingWindow F) (j : Text)
      → w.latest ≡ []
      → w.stamp_ns ≡ 0
      → lookup j w.velocities ≡ some []
      → InOrder 0 os
      → Agrees w.window_ns os (observe_all os w) j
  Agrees-observe_all os w j blank start empty i = record {
    reads =
        readings-gather fl (observe_all os w) j ∙ rw (from position, from velocity, from effort);
    means = unfold velocity_rms in rw (history-observe_all j w os empty start i);
  }
    where
      nothing : (f : JointField) → lookup (channel fl j f) w.latest ≡ none
      nothing f = rw blank (unfold lookup in refl)

      from :
          (f : JointField) → lookup (channel fl j f) (observe_all os w).latest ≡ newest j f none os
      from f =
          latest-observe_all fl j f os w (contains_of-lookup j [] w.velocities empty)
          ∙ ap (λ x. newest j f x os) (nothing f)

  Agrees-All :
      (os : List (Observation F)) (w : RollingWindow F) (js : List Text)
      → w.latest ≡ []
      → w.stamp_ns ≡ 0
      → InOrder 0 os
      → All (λ j. lookup j w.velocities ≡ some []) js
      → All (Agrees w.window_ns os (observe_all os w)) js
  Agrees-All os w [] blank start i e = tt
  Agrees-All os w (j ∷ js) blank start i e =
      (Agrees-observe_all os w j blank start e.0 i, Agrees-All os w js blank start i e.1)

  behind_nothing :
      (r : Result (Option (List (JointSnapshot F)))) → (r >>= λ o. ok (behind [] o)) ≡ r
  behind_nothing (raise x) = refl
  behind_nothing (ok none) = refl
  behind_nothing (ok (some ss)) = refl

  -- The incremental window answers as a computation from the whole log does. From a new window,
  -- after any messages in the order of their stamps, on any topics, `snapshot` returns or raises
  -- what the log gives: joint by joint the last position, velocity and effort of the log, and the
  -- root mean square of the joint's velocities within the window of its last one; `None` when a
  -- joint lacks one of the three.
  pub snapshot-observe_all :
      (js : List Text) (w : RollingWindow F) (os : List (Observation F))
      → IsFresh js w
      → InOrder 0 os
      → snapshot fl (observe_all os w) ≡ snapshot_of_log w.window_ns os js
  unfolding snapshot
  snapshot-observe_all js w os f i =
      ap (λ x. snapshot_from fl (observe_all os w) x []) (joints-observe_all fl os w ∙ f.joints)
      ∙ snapshot_from-snapshot_of_log w.window_ns os (observe_all os w) js []
          (Agrees-All os w js f.no_readings f.stamp i f.empty)
      ∙ behind_nothing (snapshot_of_log w.window_ns os js)
