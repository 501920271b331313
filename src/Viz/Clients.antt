-- ===== src/Viz/Clients.antt =====
-- The gauge of clients, the closing of sockets and the finalisation of streams.
use mathlib.Core.Path.{subst}
use twin_services.Base.{
  ℕ, zero, suc, ◌+◌, ◌≡◌, refl, sym, ap, ◌∙◌, true, false, Option-cases, inl, inr, List, [], ◌∷◌,
  length, arith,
}
use twin_services.Base.Eq.{Dict, lookup, insert, remove, contains, nat_is_eq}
use twin_services.Base.Int.{ℤ, pos, ◌+ℤ◌, ◌-ℤ◌, int_laws}
use twin_services.Base.Result.{ok, >>=-eq-ok, ok-injective}
use twin_services.Floats.{Floats}
use twin_services.State.Build.{TwinState}
use twin_services.Viz.{
  Viewer, Ending, finished, disconnected, rpc_failed, Event, opened, forwarded, ended, finalised,
  end_stream, finalise, to_frame, step, run,
}

one_more : (c : ℤ) (n m : ℕ) → c ≡ pos n → m ≡ suc n → c +ℤ pos 1 ≡ pos m
one_more c n m e f = rw e (omega int_laws)

one_less : (c : ℤ) (n m : ℕ) → c ≡ pos n → suc m ≡ n → c -ℤ pos 1 ≡ pos m
one_less c n m e f = rw e (omega int_laws)

module _ {V : Type 0} where
  length-insert_new :
      (k : ℕ) (v : V) (d : Dict ℕ V) → contains k d ≡ false → length (insert k v d) ≡ suc (length d)
  unfolding contains lookup insert
  length-insert_new k v [] h = refl
  length-insert_new k v ((j, w) ∷ d) h = ground (arith, length-insert_new k v d)

  length-insert_old :
      (k : ℕ) (v : V) (d : Dict ℕ V) → contains k d ≡ true → length (insert k v d) ≡ length d
  unfolding contains lookup insert
  length-insert_old k v [] h = cc
  length-insert_old k v ((j, w) ∷ d) h = ground (arith, length-insert_old k v d)

  length-remove :
      (k : ℕ) (d : Dict ℕ V) → contains k d ≡ true → suc (length (remove k d)) ≡ length d
  unfolding contains lookup remove
  length-remove k [] h = cc
  length-remove k ((j, w) ∷ d) h = ground (arith, length-remove k d)

module _ (fl : Floats) where
  open fl use {F}

  -- The gauge is the number of open sockets and of generators left suspended.
  abbrev pub IsCounted : Viewer F → Type 0
  IsCounted v = v.clients ≡ pos (length v.sockets + v.suspended)

  -- A socket opens once, and what is sent or ends is open.
  abbrev pub IsProper : Event F → Viewer F → Type 0
  IsProper (opened i) v = contains i v.sockets ≡ false
  IsProper (forwarded i state) v = contains i v.sockets ≡ true
  IsProper (ended i ending) v = contains i v.sockets ≡ true
  IsProper finalised v = Unit

  abbrev pub AreProper : List (Event F) → Viewer F → Type 0
  AreProper [] v = Unit
  AreProper (e ∷ es) v = IsProper e v × ((v' : Viewer F) → step fl e v ≡ ok v' → AreProper es v')

  forwarded-IsCounted :
      (i : ℕ) (state : TwinState F) (v v' : Viewer F)
      → contains i v.sockets ≡ true
      → IsCounted v
      → step fl (forwarded i state) v ≡ ok v'
      → IsCounted v'
  unfolding step
  forwarded-IsCounted i state v v' there c h = elim (Option-cases (lookup i v.sockets)) [
    | inl e ↦ subst IsCounted (ok-injective (rw (e, step) at h)) c
    | inr (sent, e) ↦
        let (frame, made, done) = >>=-eq-ok (to_frame fl state) _ (rw (e, step) at h) in
        subst IsCounted (ok-injective done)
          (c ∙ ap (λ n. pos (n + v.suspended)) (sym (length-insert_old i _ v.sockets there)))
  ]

  ended-IsCounted :
      (i : ℕ) (ending : Ending) (v : Viewer F)
      → contains i v.sockets ≡ true
      → IsCounted v
      → (end_stream ending v).clients
        ≡ pos (length (remove i v.sockets) + (end_stream ending v).suspended)
  unfolding end_stream
  ended-IsCounted i finished v there c =
      one_less v.clients (length v.sockets + v.suspended) _ c
        (omega (arith, length-remove i v.sockets there))
  ended-IsCounted i rpc_failed v there c =
      one_less v.clients (length v.sockets + v.suspended) _ c
        (omega (arith, length-remove i v.sockets there))
  ended-IsCounted i disconnected v there c =
      c ∙ ap pos (omega (arith, length-remove i v.sockets there))

  finalise-IsCounted :
      (n : ℕ) (v : Viewer F) → IsCounted v → v.suspended ≡ n → IsCounted (finalise n v)
  unfolding finalise
  finalise-IsCounted zero v c e = c
  finalise-IsCounted (suc n) v c e =
      one_less v.clients (length v.sockets + v.suspended) _ c (omega (arith, e))

  step-IsCounted :
      (e : Event F) (v v' : Viewer F)
      → IsProper e v
      → IsCounted v
      → step fl e v ≡ ok v'
      → IsCounted v'
  unfolding step
  step-IsCounted (opened i) v v' p c h = subst IsCounted (ok-injective h) (
      one_more v.clients (length v.sockets + v.suspended) _ c
        (omega (arith, length-insert_new i [] v.sockets p)))
  step-IsCounted (forwarded i state) v v' p c h = forwarded-IsCounted i state v v' p c h
  step-IsCounted (ended i ending) v v' p c h =
      subst IsCounted (ok-injective h) (ended-IsCounted i ending v p c)
  step-IsCounted finalised v v' p c h =
      subst IsCounted (ok-injective h) (finalise-IsCounted v.suspended v c refl)

  -- After any run that returns, in which sockets open once and only open ones are served and ended,
  -- the gauge of clients is the number of open sockets and of streams that browsers left suspended
  -- and asyncio has not finalised, if it was so at the start: every way in which a stream can end
  -- takes its client off.
  pub run-IsCounted :
      (es : List (Event F)) (v v' : Viewer F)
      → AreProper es v
      → IsCounted v
      → run fl es v ≡ ok v'
      → IsCounted v'
  unfolding run
  run-IsCounted [] v v' p c h = subst IsCounted (ok-injective h) c
  run-IsCounted (e ∷ es) v v' p c h =
      let (w, s, r) = >>=-eq-ok (step fl e v) (run fl es) h in
      run-IsCounted es w v' (p.1 w s) (step-IsCounted e v w p.0 c s) r
