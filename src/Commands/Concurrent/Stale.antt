-- ===== src/Commands/Concurrent/Stale.antt =====
-- How `_client` follows the connection while publications wait, and what a publication does that
-- fails behind the loss of its connection.
use mathlib.Core.Path.{subst}
use twin_services.Base.{
  ℕ, ◌≡◌, refl, sym, ap, pick, Bool, false, Option, none, some, List, [], ◌∷◌, ◌++◌,
}
use twin_services.Floats.{Floats}
use twin_services.Contracts.Command.{JointCommand, CommandJson}
use twin_services.Commands.{Publication, finish}
use twin_services.Commands.Concurrent.{
  Pending, Session, Event, opens, breaks, begins, settles, delivers, open_from, break_from,
  begin_from, deliver_from, end_call, settle, step, run,
}

module _ {fl : Floats} (json : CommandJson fl) where
  open json use {Payload}
  open fl use {F}

  abbrev pub NoBreak : List (Event F) → Type 0
  NoBreak [] = Unit
  NoBreak (breaks ∷ es) = ⊥
  NoBreak (e ∷ es) = NoBreak es

  -- The connection is open, and nothing can be published on it.
  pub record IsDeaf (m : ℕ) (sent : List (Publication Payload)) (s : Session F Payload)
      : Type 0 where
    pub held : s.publisher.open_connection ≡ some m
    pub missing : s.publisher.client ≡ none
    pub idle : s.waiting ≡ []
    pub same : s.publisher.sent ≡ sent

  opens-same :
      (k m : ℕ) (s : Session F Payload)
      → s.publisher.open_connection ≡ some m
      → step json (opens k) s ≡ s
  unfolding step open_from
  opens-same k m s held = ap (λ o. open_from json o k s) held

  settles-same :
      (i : ℕ) (acknowledged : Bool) (s : Session F Payload)
      → s.waiting ≡ []
      → step json (settles i acknowledged) s ≡ s
  unfolding step settle pick
  settles-same i acknowledged s idle = ap (λ l. settle json (pick i l) acknowledged s) idle

  delivers-same : (i : ℕ) (s : Session F Payload) → s.waiting ≡ [] → step json (delivers i) s ≡ s
  unfolding step deliver_from pick
  delivers-same i s idle = ap (λ l. deliver_from json (pick i l) s) idle

  begins-IsDeaf :
      (c : JointCommand F) (m : ℕ) (sent : List (Publication Payload)) (s : Session F Payload)
      → IsDeaf m sent s
      → IsDeaf m sent (step json (begins c) s)
  unfolding step
  begins-IsDeaf c m sent s d =
      subst (λ o. IsDeaf m sent (begin_from json o c s)) (sym d.missing) refused
    where
      refused : IsDeaf m sent (begin_from json none c s)
      refused =
          unfold begin_from in
          record { held = d.held; missing = d.missing; idle = d.idle; same = d.same }

  run-IsDeaf :
      (es : List (Event F)) (m : ℕ) (sent : List (Publication Payload)) (s : Session F Payload)
      → NoBreak es
      → IsDeaf m sent s
      → IsDeaf m sent (run json es s)
  unfolding run
  run-IsDeaf [] m sent s stays d = d
  run-IsDeaf (opens k ∷ es) m sent s stays d =
      run-IsDeaf es m sent (step json (opens k) s) stays
        (subst (IsDeaf m sent) (sym (opens-same k m s d.held)) d)
  run-IsDeaf (breaks ∷ es) m sent s stays d = absurd stays
  run-IsDeaf (begins c ∷ es) m sent s stays d =
      run-IsDeaf es m sent (step json (begins c) s) stays (begins-IsDeaf c m sent s d)
  run-IsDeaf (settles i a ∷ es) m sent s stays d =
      run-IsDeaf es m sent (step json (settles i a) s) stays
        (subst (IsDeaf m sent) (sym (settles-same i a s d.idle)) d)
  run-IsDeaf (delivers i ∷ es) m sent s stays d =
      run-IsDeaf es m sent (step json (delivers i) s) stays
        (subst (IsDeaf m sent) (sym (delivers-same i s d.idle)) d)

  -- A publication waits while its connection is lost and another one made, and then fails.
  abbrev pub overtaken : JointCommand F → ℕ → List (Event F)
  overtaken c m = begins c ∷ breaks ∷ opens m ∷ settles 0 false ∷ []

  overtaken-IsDeaf :
      (c : JointCommand F) (n m : ℕ) (s : Session F Payload)
      → s.publisher.open_connection ≡ some n
      → s.publisher.client ≡ some n
      → s.waiting ≡ []
      → IsDeaf m s.publisher.sent (run json (overtaken c m) s)
  unfolding run step open_from break_from begin_from settle end_call finish pick
  overtaken-IsDeaf c n m s held there idle =
      subst (λ o. After o s.publisher.client s.waiting) (sym held)
        (subst (λ l. After (some n) l s.waiting) (sym there)
          (subst (After (some n) (some n)) (sym idle)
            (record { held = refl; missing = refl; idle = refl; same = refl })))
    where
      After : Option ℕ → Option ℕ → List (Pending F) → Type 0
      After o l waiting = IsDeaf m s.publisher.sent (
          run json (overtaken c m) (record s {
            publisher = record s.publisher { open_connection = o; client = l };
            waiting = waiting;
          }))

  run-append :
      (es fs : List (Event F)) (s : Session F Payload)
      → run json (es ++ fs) s ≡ run json fs (run json es s)
  unfolding run
  run-append [] fs s = refl
  run-append (e ∷ es) fs s = run-append es fs (step json e s)

  -- When the connection of a publication is lost and made anew before the publication fails, no
  -- other waiting, its failure takes `_client` from the new connection: until that is lost too,
  -- whatever calls follow, it stays open, `_client` stays missing and nothing is published.
  pub stale_failure_lasts :
      (c : JointCommand F) (n m : ℕ) (s : Session F Payload) (es : List (Event F))
      → s.publisher.open_connection ≡ some n
      → s.publisher.client ≡ some n
      → s.waiting ≡ []
      → NoBreak es
      → IsDeaf m s.publisher.sent (run json (overtaken c m ++ es) s)
  stale_failure_lasts c n m s es held there idle stays =
      subst (IsDeaf m s.publisher.sent) (sym (run-append (overtaken c m) es s)) (
        run-IsDeaf es m s.publisher.sent (run json (overtaken c m) s) stays
          (overtaken-IsDeaf c n m s held there idle))
