-- ===== src/State/Window/Pruning.antt =====
-- The `while` loop of `observe` that drops old velocity samples from the front.
use twin_services.Base.{
  ℕ, Bool-cases, inl, inr, ◌≤◌, ◌≡◌, refl, ap, sym, Bool, true, false, not, [], ◌∷◌, ◌++◌, keep,
  keep-append, All, arith,
}
use mathlib.Core.Path.{◌≡⟨◌⟩◌, ◌∎}
use twin_services.Base.Int.{ℤ, pos, ◌-ℤ◌, ◌≤ℤ◌, ltb_ℤ, int_laws}
use twin_services.State.Window.{History, prune}

-- The sample is not older than the cutoff.
abbrev pub fresh : {F : Type 0} → ℤ → ℕ × F → Bool
fresh cutoff e = not (ltb_ℤ (pos e.0) cutoff)

-- Stamps never fall along the history, from `lo` up to at most `hi`.
abbrev pub Ascending : {F : Type 0} → ℕ → ℕ → History F → Type 0
Ascending lo hi [] = lo ≤ hi
Ascending lo hi ((stamp, v) ∷ h) = (lo ≤ stamp) × Ascending stamp hi h

-- The stamp of the last sample.
abbrev pub newest_from : {F : Type 0} → ℕ → History F → ℕ
newest_from lo [] = lo
newest_from lo ((stamp, v) ∷ h) = newest_from stamp h

-- The part of a history that lies within `window` of its last sample.
abbrev pub recent : {F : Type 0} → ℤ → History F → History F
recent window h = keep (fresh (pos (newest_from 0 h) -ℤ window)) h

-- The front of the deque is not older than the cutoff.
abbrev pub FrontFresh : {F : Type 0} → ℤ → History F → Type 0
FrontFresh cutoff [] = Unit
FrontFresh cutoff (e ∷ h) = fresh cutoff e ≡ true

module _ {F : Type 0} where
  -- Whatever the order of the stamps, the loop drops a prefix of samples that are all older than
  -- the cutoff, and stops at the end or at a front that is not.
  pub prune_drops_prefix :
      (cutoff : ℤ) (h : History F)
      → FrontFresh cutoff (prune cutoff h)
        × ((dropped : History F) × (h ≡ dropped ++ prune cutoff h)
            × All (λ e. fresh cutoff e ≡ false) dropped)
  unfolding prune
  prune_drops_prefix cutoff [] = (tt, ([], refl, tt))
  prune_drops_prefix cutoff ((stamp, v) ∷ h) =
      let (front, rest) = prune_drops_prefix cutoff h in
      let (dropped, split, old) = rest in
      elim (Bool-cases (ltb_ℤ (pos stamp) cutoff)) [
        | inl e ↦ rw e (front, ((stamp, v) ∷ dropped, ap (◌∷◌ (stamp, v)) split, (rw e refl, old)))
        | inr e ↦ rw e (rw e refl, ([], refl, tt))
      ]

  Ascending-le : (lo hi : ℕ) (h : History F) → Ascending lo hi h → lo ≤ hi
  Ascending-le lo hi [] a = a
  Ascending-le lo hi ((stamp, v) ∷ h) a = omega (arith, Ascending-le stamp hi h a.1)

  pub Ascending-mono :
      (lo lo' hi hi' : ℕ) (h : History F)
      → lo' ≤ lo
      → hi ≤ hi'
      → Ascending lo hi h
      → Ascending lo' hi' h
  Ascending-mono lo lo' hi hi' [] p q a = omega arith
  Ascending-mono lo lo' hi hi' ((stamp, v) ∷ h) p q a =
      (omega arith, Ascending-mono stamp stamp hi hi' h (omega arith) q a.1)

  pub Ascending-concat :
      (lo hi : ℕ) (h : History F) (s : ℕ) (v : F)
      → Ascending lo hi h
      → hi ≤ s
      → Ascending lo s (h ++ (s, v) ∷ [])
  Ascending-concat lo hi [] s v a p = (omega arith, omega arith)
  Ascending-concat lo hi ((stamp, w) ∷ h) s v a p = (a.0, Ascending-concat stamp hi h s v a.1 p)

  pub Ascending-keep :
      (test : ℕ × F → Bool) (lo hi : ℕ) (h : History F)
      → Ascending lo hi h
      → Ascending lo hi (keep test h)
  Ascending-keep test lo hi [] a = a
  Ascending-keep test lo hi ((stamp, v) ∷ h) a =
      ground
        (arith, Ascending-keep test stamp hi h a.1, Ascending-mono stamp lo hi hi (keep test h))

  pub newest_from-concat :
      (lo : ℕ) (h : History F) (s : ℕ) (v : F) → newest_from lo (h ++ (s, v) ∷ []) ≡ s
  newest_from-concat lo [] s v = refl
  newest_from-concat lo ((stamp, w) ∷ h) s v = newest_from-concat stamp h s v

  pub newest_from-le : (lo hi : ℕ) (h : History F) → Ascending lo hi h → newest_from lo h ≤ hi
  newest_from-le lo hi [] a = a
  newest_from-le lo hi ((stamp, v) ∷ h) a = newest_from-le stamp hi h a.1

  keep-all :
      (c : ℤ) (lo hi : ℕ) (h : History F) → Ascending lo hi h → c ≤ℤ pos lo → keep (fresh c) h ≡ h
  keep-all c lo hi [] a p = refl
  keep-all c lo hi ((stamp, v) ∷ h) a p =
      let le : c ≤ℤ pos stamp = omega (arith, a.0) in ground (arith, keep-all c stamp hi h a.1 le)

  -- On stamps in order the loop keeps exactly the samples that are not older than the cutoff.
  pub prune-keep :
      (c : ℤ) (lo hi : ℕ) (h : History F) → Ascending lo hi h → prune c h ≡ keep (fresh c) h
  unfolding prune
  prune-keep c lo hi [] a = refl
  prune-keep c lo hi ((stamp, v) ∷ h) a =
      ground (arith, prune-keep c stamp hi h a.1, keep-all c stamp hi h a.1)

  keep-keep-fresh :
      (c d : ℤ) (h : History F) → c ≤ℤ d → keep (fresh d) (keep (fresh c) h) ≡ keep (fresh d) h
  keep-keep-fresh c d [] p = refl
  keep-keep-fresh c d ((stamp, v) ∷ h) p = ground (arith, keep-keep-fresh c d h p)

  -- One more sample in order, appended and pruned to, leaves the recent part of all of them.
  pub prune-recent :
      (window : ℤ) (hi : ℕ) (past : History F) (s : ℕ) (v : F)
      → Ascending 0 hi past
      → hi ≤ s
      → prune (pos s -ℤ window) (recent window past ++ (s, v) ∷ [])
        ≡ recent window (past ++ (s, v) ∷ [])
  prune-recent window hi past s v a p =
      let c = pos (newest_from 0 past) -ℤ window in
      let d = pos s -ℤ window in
      let e : History F = (s, v) ∷ [] in
      let before : c ≤ℤ d = omega (int_laws, newest_from-le 0 hi past a) in
      prune d (recent window past ++ e)
      ≡⟨ prune-keep d 0 s _ (Ascending-concat 0 hi _ s v (Ascending-keep _ 0 hi past a) p) ⟩
        keep (fresh d) (recent window past ++ e)
      ≡⟨ keep-append (fresh d) (recent window past) e ⟩
        keep (fresh d) (recent window past) ++ keep (fresh d) e
      ≡⟨ ap (λ x. x ++ keep (fresh d) e) (keep-keep-fresh c d past before) ⟩
        keep (fresh d) past ++ keep (fresh d) e
      ≡⟨ sym (keep-append (fresh d) past e) ⟩ keep (fresh d) (past ++ e)
      ≡⟨ ap (λ (n : ℕ). keep (fresh (pos n -ℤ window)) (past ++ e))
          (sym (newest_from-concat 0 past s v)) ⟩
        recent window (past ++ e) ∎
