-- ===== src/Commands/Concurrent/Account.antt =====
-- What becomes of the calls of `publish`, in any interleaving.
use mathlib.Core.Path.{subst}
use twin_services.Base.{
  ℕ, suc, ◌+◌, ◌≤◌, if◌then◌else◌, zero, inl, inr, Option-cases, ◌≡◌, refl, sym, ap, ◌∙◌, pick,
  pick-length, Text, Bool, true, false, Option, none, some, List, [], ◌∷◌, ◌++◌, length,
  length-append, arith,
}
use twin_services.Base.Result.{Result, ok, raise, broker_unavailable}
use twin_services.Floats.{Floats}
use twin_services.Contracts.Vocabulary.{CommandKind, home, move_joints}
use twin_services.Contracts.Command.{JointCommand, CommandJson}
use twin_services.Contracts.Topics.{command_topic}
use twin_services.Commands.{Publication, Publisher, count, deliver, finish}
use twin_services.Commands.Concurrent.{
  Pending, Session, Event, opens, breaks, begins, settles, delivers, open_from, break_from,
  begin_from, deliver_from, end_call, settle, step, run,
}

module _ {fl : Floats} (json : CommandJson fl) where
  open json use {Payload}
  open fl use {F}

  abbrev pub receipts : List (Result Text) → ℕ
  receipts [] = 0
  receipts (ok topic ∷ rs) = suc (receipts rs)
  receipts (raise x ∷ rs) = receipts rs

  receipts-append : (rs qs : List (Result Text)) → receipts (rs ++ qs) ≡ receipts rs + receipts qs
  receipts-append [] qs = omega arith
  receipts-append (ok topic ∷ rs) qs = omega (arith, receipts-append rs qs)
  receipts-append (raise x ∷ rs) qs = receipts-append rs qs

  -- The calls of `publish` that begin.
  abbrev pub begun : List (Event F) → ℕ
  begun [] = 0
  begun (begins c ∷ es) = suc (begun es)
  begun (opens n ∷ es) = begun es
  begun (breaks ∷ es) = begun es
  begun (settles i acknowledged ∷ es) = begun es
  begun (delivers i ∷ es) = begun es

  -- The calls that wait although the broker has taken their publication.
  abbrev pub in_doubt : List (Pending F) → ℕ
  in_doubt [] = 0
  in_doubt (p ∷ ps) = (if p.taken then 1 else 0) + in_doubt ps

  in_doubt-append : (ps qs : List (Pending F)) → in_doubt (ps ++ qs) ≡ in_doubt ps + in_doubt qs
  in_doubt-append [] qs = omega arith
  in_doubt-append (p ∷ ps) qs = omega (arith, in_doubt-append ps qs)

  in_doubt-pick :
      (i : ℕ) (ps : List (Pending F)) (p : Pending F) (rest : List (Pending F))
      → pick i ps ≡ some (p, rest)
      → in_doubt ps ≡ (if p.taken then 1 else 0) + in_doubt rest
  unfolding pick
  in_doubt-pick i [] p rest h = cc
  in_doubt-pick zero (q ∷ ps) p rest h = let same : q ∷ ps ≡ p ∷ rest = cc in ap in_doubt same
  in_doubt-pick (suc i) (q ∷ ps) p rest h = elim (Option-cases (pick i ps)) [
    | inl e ↦ ground arith
    | inr ((z, zs), e) ↦
        let same : z ∷ q ∷ zs ≡ p ∷ rest = ground arith in
        omega (arith, in_doubt-pick i ps z zs e, ap in_doubt same)
  ]

  -- From `s` to `t`, behind `n` calls that began.
  pub record Accounts (n : ℕ) (s t : Session F Payload) : Type 0 where
    -- each call has ended or waits
    pub calls : length t.answers + length t.waiting ≡ length s.answers + length s.waiting + n
    -- the broker has taken a publication for each receipt and for each call in doubt
    pub publications :
        length s.publisher.sent + receipts t.answers + in_doubt t.waiting
        ≤ length t.publisher.sent + receipts s.answers + in_doubt s.waiting
    -- each receipt is counted, and nothing else
    pub counted :
        t.publisher.published_home + t.publisher.published_move + receipts s.answers
        ≡ s.publisher.published_home + s.publisher.published_move + receipts t.answers

  Accounts-then :
      (n m : ℕ) (s t u : Session F Payload) → Accounts n s t → Accounts m t u → Accounts (n + m) s u
  Accounts-then n m s t u a b = record {
    calls = omega (arith, a.calls, b.calls);
    publications = omega (arith, a.publications, b.publications);
    counted = omega (arith, a.counted, b.counted);
  }

  open_from-Accounts :
      (o : Option ℕ) (n : ℕ) (s : Session F Payload) → Accounts 0 s (open_from json o n s)
  unfolding open_from
  open_from-Accounts none n s = record {
    calls = omega arith;
    publications = omega arith;
    counted = omega arith;
  }
  open_from-Accounts (some m) n s = record {
    calls = omega arith;
    publications = omega arith;
    counted = omega arith;
  }

  break_from-Accounts : (o : Option ℕ) (s : Session F Payload) → Accounts 0 s (break_from json o s)
  unfolding break_from
  break_from-Accounts none s = record {
    calls = omega arith;
    publications = omega arith;
    counted = omega arith;
  }
  break_from-Accounts (some m) s = record {
    calls = omega arith;
    publications = omega arith;
    counted = omega arith;
  }

  begin_from-Accounts :
      (o : Option ℕ) (c : JointCommand F) (s : Session F Payload)
      → Accounts 1 s (begin_from json o c s)
  unfolding begin_from
  begin_from-Accounts none c s =
      let more = receipts-append s.answers (raise broker_unavailable ∷ []) in
      record {
        calls = omega (arith, length-append s.answers (raise broker_unavailable ∷ []));
        publications = omega (arith, more);
        counted = omega (arith, more);
      }
  begin_from-Accounts (some n) c s =
      let fresh : Pending F = record { connection = n; command = c; taken = false } in
      record {
        calls = omega (arith, length-append s.waiting (fresh ∷ []));
        publications = omega (arith, in_doubt-append s.waiting (fresh ∷ []));
        counted = omega arith;
      }

  count_lem :
      (kind : CommandKind) (q : Publisher Payload)
      → ((count json kind q).sent ≡ q.sent)
        × ((count json kind q).published_home + (count json kind q).published_move
            ≡ suc (q.published_home + q.published_move))
  unfolding count
  count_lem home q = (refl, omega arith)
  count_lem move_joints q = (refl, omega arith)

  deliver_from-Accounts :
      (o : Option (Pending F × List (Pending F))) (i : ℕ) (s : Session F Payload)
      → pick i s.waiting ≡ o
      → Accounts 0 s (deliver_from json o s)
  unfolding deliver_from deliver
  deliver_from-Accounts none i s e = record {
    calls = omega arith;
    publications = omega arith;
    counted = omega arith;
  }
  deliver_from-Accounts (some (p, rest)) i s e =
      let publication : Publication Payload = record {
        topic = command_topic s.publisher.asset_name;
        payload = json.write p.command;
      } in
      let taken : Pending F = record p { taken = true } in
      record {
        calls = omega (arith, pick-length i s.waiting p rest e, length-append rest (taken ∷ []));
        publications = omega (
          arith,
          in_doubt-pick i s.waiting p rest e,
          at_most_one p.taken,
          in_doubt-append rest (taken ∷ []),
          length-append s.publisher.sent (publication ∷ []),
        );
        counted = omega arith;
      }
    where
      at_most_one : (b : Bool) → (if b then 1 else 0) ≤ 1
      at_most_one true = omega arith
      at_most_one false = omega arith

  fails-Accounts :
      (p : Pending F) (rest : List (Pending F)) (i : ℕ) (s : Session F Payload)
      → pick i s.waiting ≡ some (p, rest)
      → Accounts 0 s (end_call json p rest false s)
  unfolding end_call finish
  fails-Accounts p rest i s e =
      let more = receipts-append s.answers (raise broker_unavailable ∷ []) in
      record {
        calls = omega (
          arith,
          pick-length i s.waiting p rest e,
          length-append s.answers (raise broker_unavailable ∷ []),
        );
        publications = omega (arith, more, in_doubt-pick i s.waiting p rest e);
        counted = omega (arith, more);
      }

  returns-Accounts :
      (p : Pending F) (rest : List (Pending F)) (i : ℕ) (s : Session F Payload)
      → pick i s.waiting ≡ some (p, rest)
      → p.taken ≡ true
      → Accounts 0 s (end_call json p rest true s)
  unfolding end_call finish
  returns-Accounts p rest i s e taken =
      let topic = command_topic s.publisher.asset_name in
      let (same, one) = count_lem p.command.kind s.publisher in
      let more = receipts-append s.answers (ok topic ∷ []) in
      let doubt : in_doubt s.waiting ≡ 1 + in_doubt rest =
        in_doubt-pick i s.waiting p rest e ∙ ap (λ b. (if b then 1 else 0) + in_doubt rest) taken in
      record {
        calls =
            omega
              (arith, pick-length i s.waiting p rest e, length-append s.answers (ok topic ∷ []));
        publications = omega (arith, more, ap length same, doubt);
        counted = omega (arith, more, one);
      }

  acknowledges-Accounts :
      (taken : Bool) (p : Pending F) (rest : List (Pending F)) (i : ℕ) (s : Session F Payload)
      → pick i s.waiting ≡ some (p, rest)
      → p.taken ≡ taken
      → Accounts 0 s (if taken then end_call json p rest true s else s)
  acknowledges-Accounts true p rest i s e h = returns-Accounts p rest i s e h
  acknowledges-Accounts false p rest i s e h = record {
    calls = omega arith;
    publications = omega arith;
    counted = omega arith;
  }

  settle-Accounts :
      (o : Option (Pending F × List (Pending F))) (acknowledged : Bool) (i : ℕ)
      (s : Session F Payload)
      → pick i s.waiting ≡ o
      → Accounts 0 s (settle json o acknowledged s)
  unfolding settle
  settle-Accounts none a i s e = record {
    calls = omega arith;
    publications = omega arith;
    counted = omega arith;
  }
  settle-Accounts (some (p, rest)) false i s e = fails-Accounts p rest i s e
  settle-Accounts (some (p, rest)) true i s e = acknowledges-Accounts p.taken p rest i s e refl

  step-Accounts :
      (e : Event F) (s : Session F Payload) → Accounts (begun (e ∷ [])) s (step json e s)
  unfolding step
  step-Accounts (opens n) s = open_from-Accounts s.publisher.open_connection n s
  step-Accounts breaks s = break_from-Accounts s.publisher.open_connection s
  step-Accounts (begins c) s = begin_from-Accounts s.publisher.client c s
  step-Accounts (settles i a) s = settle-Accounts (pick i s.waiting) a i s refl
  step-Accounts (delivers i) s = deliver_from-Accounts (pick i s.waiting) i s refl

  begun_first : (e : Event F) (es : List (Event F)) → begun (e ∷ es) ≡ begun (e ∷ []) + begun es
  begun_first (opens n) es = omega arith
  begun_first breaks es = omega arith
  begun_first (begins c) es = omega arith
  begun_first (settles i a) es = omega arith
  begun_first (delivers i) es = omega arith

  -- However the calls of `publish` overlap with each other, with the loss of connections and with
  -- what the broker takes, each call that began has ended once or still waits; the receipts that the
  -- calls returned are those that were counted; and the broker has taken at least one publication for
  -- each receipt, and one more for each call that waits although it was taken.
  pub run-Accounts_calls :
      (es : List (Event F)) (s : Session F Payload) → Accounts (begun es) s (run json es s)
  unfolding run
  run-Accounts_calls [] s = record {
    calls = omega arith;
    publications = omega arith;
    counted = omega arith;
  }
  run-Accounts_calls (e ∷ es) s =
      subst (λ n. Accounts n s (run json (e ∷ es) s)) (sym (begun_first e es))
        (Accounts-then (begun (e ∷ [])) (begun es) s (step json e s) (run json es (step json e s))
          (step-Accounts e s) (run-Accounts_calls es (step json e s)))
