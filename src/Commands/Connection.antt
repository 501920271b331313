-- ===== src/Commands/Connection.antt =====
-- How the publisher's `_client` follows the connection that `run` holds.
use twin_services.Base.{
  ℕ, ◌≡◌, ◌≢◌, ◌⊎◌, inl, inr, refl, sym, ◌∙◌, Text, none, some, List, [], ◌∷◌, ◌++◌, ap, arith,
}
use twin_services.Base.Result.{ok, ok-injective}
use twin_services.Floats.{Floats}
use twin_services.Contracts.Command.{JointCommand, CommandJson, validate_command}
use twin_services.Commands.{
  Publication, Publisher, Reply, acknowledged, deliver, finish, count, attempt, publish_by, publish,
  post_command, Event, connected, lost, request, Step, connects, loses, handles, Steps, stop,
  then_step,
}
use twin_services.Commands.Delivery.{Delivered, taken_by, post_command-Honest}

module _ {fl : Floats} (json : CommandJson fl) where
  open json use {Payload}

  -- No event of the sequence is the loss of the connection.
  abbrev pub NoLoss : List (Event json) → Type 0
  NoLoss [] = Unit
  NoLoss (lost ∷ es) = ⊥
  NoLoss (e ∷ es) = NoLoss es

  -- What `_client` may be: missing, or the open connection.
  abbrev pub IsCurrent : Publisher Payload → Type 0
  IsCurrent s = (s.client ≡ none) ⊎ (s.client ≡ s.open_connection)

  open_same :
      (reply : Reply) (id : Text) (body : Payload) (s : Publisher Payload)
      → (post_command json reply id body s).0.open_connection ≡ s.open_connection
  unfolding post_command publish publish_by attempt deliver finish count
  open_same reply id body s = ground arith

  client_after :
      (reply : Reply) (id : Text) (body : Payload) (s : Publisher Payload)
      → ((post_command json reply id body s).0.client ≡ none)
        ⊎ ((post_command json reply id body s).0.client ≡ s.client)
  unfolding post_command publish publish_by attempt deliver finish count
  client_after reply id body s = ground arith

  Step-IsCurrent :
      {s t : Publisher Payload} {e : Event json} → Step json s e t → IsCurrent s → IsCurrent t
  Step-IsCurrent (connects free) c = inr refl
  Step-IsCurrent (loses held) c = inl refl
  Step-IsCurrent (handles {s} {reply = a} {id} {body}) c =
      ground (arith, open_same a id body s, client_after a id body s)

  -- In every run, `_client` is missing or is the connection that is open: a request never uses a
  -- connection that was lost.
  pub Steps-IsCurrent :
      {s t : Publisher Payload} {es : List (Event json)}
      → Steps json s es t
      → IsCurrent s
      → IsCurrent t
  Steps-IsCurrent stop c = c
  Steps-IsCurrent (then_step first rest) c = Steps-IsCurrent rest (Step-IsCurrent first c)

  -- The publisher has an open connection and no `_client`.
  record IsStuck (n : ℕ) (sent : List (Publication Payload)) (s : Publisher Payload) : Type 0 where
    held : s.open_connection ≡ some n
    missing : s.client ≡ none
    same : s.sent ≡ sent

  absent-sent :
      (reply : Reply) (id : Text) (body : Payload) (s : Publisher Payload)
      → s.client ≡ none
      → (post_command json reply id body s).0.sent ≡ s.sent
  absent-sent reply id body s a = elim (post_command-Honest json reply id body s) [
    | inl d ↦ absurd (d.client a)
    | inr r ↦ elim r.why [
      | inl invalid ↦ invalid.3
      | inr (inl missing) ↦ missing.3
      | inr (inr failed) ↦ absurd (failed.1 a)
    ]
  ]

  IsStuck-Step :
      {n : ℕ} {sent : List (Publication Payload)} {s t : Publisher Payload} {e : Event json}
      → Step json s e t
      → e ≢ lost
      → IsStuck n sent s
      → IsStuck n sent t
  IsStuck-Step (connects free) other i = cc (sym i.held ∙ free)
  IsStuck-Step (loses held) other i = absurd (other refl)
  IsStuck-Step (handles {s} {reply = a} {id} {body}) other i = record {
    held = open_same a id body s ∙ i.held;
    missing = ground (arith, client_after a id body s, i.missing);
    same = absent-sent a id body s i.missing ∙ i.same;
  }

  head_stays : (e : Event json) (es : List (Event json)) → NoLoss (e ∷ es) → (e ≢ lost) × NoLoss es
  head_stays (connected n) es h = (λ p. cc, h)
  head_stays lost es h = absurd h
  head_stays (request a id body) es h = (λ p. cc, h)

  IsStuck-Steps :
      {n : ℕ} {sent : List (Publication Payload)} {s t : Publisher Payload} {es : List (Event json)}
      → Steps json s es t
      → NoLoss es
      → IsStuck n sent s
      → IsStuck n sent t
  IsStuck-Steps stop stays i = i
  IsStuck-Steps {es = e ∷ es} (then_step first rest) stays i =
      let (this, later) = head_stays e es stays in
      IsStuck-Steps rest later (IsStuck-Step first this i)

  -- After one publication that failed while the connection stayed open, whether or not the broker
  -- took it, `_client` stays missing and nothing more is published, whatever requests follow, until
  -- `run` loses that connection: `run` sets `_client` only when it connects.
  pub failure_lasts :
      (s : Publisher Payload) (reply : Reply) (id : Text) (body : Payload) {t : Publisher Payload}
      {es : List (Event json)} {n : ℕ} {c : JointCommand fl.F}
      → reply ≢ acknowledged
      → s.open_connection ≡ some n
      → validate_command json body ≡ ok c
      → Steps json (post_command json reply id body s).0 es t
      → NoLoss es
      → (t.client ≡ none) × ((t.sent ≡ s.sent) ⊎ (t.sent ≡ s.sent ++ taken_by json reply c s))
  failure_lasts s reply id body {t = t} {n = n} {c = c} fails held valid steps stays =
      elim (post_command-Honest json reply id body s) [
        | inl d ↦ absurd (fails d.answered)
        | inr r ↦ elim r.why [
          | inl invalid ↦ cc (sym valid ∙ invalid.2)
          | inr (inl missing) ↦
              let (gone, same) = lasts s.sent missing.2 missing.3 in (gone, inl same)
          | inr (inr (refused, present, why, lost_client, d, is, took)) ↦
              let same : d ≡ c = ok-injective (sym is ∙ valid) in
              let (gone, sent) =
                lasts (s.sent ++ taken_by json reply c s) lost_client
                  (took ∙ ap (λ x. s.sent ++ taken_by json reply x s) same) in
              (gone, inr sent)
        ]
      ]
    where
      lasts :
          (sent : List (Publication Payload))
          → (post_command json reply id body s).0.client ≡ none
          → (post_command json reply id body s).0.sent ≡ sent
          → (t.client ≡ none) × (t.sent ≡ sent)
      lasts sent gone same =
          let stuck =
            IsStuck-Steps {n = n} steps stays
              (record { held = open_same reply id body s ∙ held; missing = gone; same = same }) in
          (stuck.missing, stuck.same)

  client_reconnected :
      {s t : Publisher Payload} {n : ℕ}
      → Steps json s (lost ∷ connected n ∷ []) t
      → t.client ≡ some n
  client_reconnected (then_step (loses held) (then_step (connects free) stop)) = refl

  -- Once the connection is lost and made anew, whatever the publisher was before, a valid command
  -- that the broker acknowledges is delivered: it is published and answered by its receipt.
  pub reconnects-Delivered :
      {s t : Publisher Payload} {n : ℕ} (id : Text) (body : Payload) {c : JointCommand fl.F}
      → Steps json s (lost ∷ connected n ∷ []) t
      → validate_command json body ≡ ok c
      → Delivered json acknowledged id body t
          (post_command json acknowledged id body t).0
          (post_command json acknowledged id body t).1
  reconnects-Delivered {s} {t} id body steps valid =
      elim (post_command-Honest json acknowledged id body t) [
        | inl d ↦ d
        | inr r ↦ elim r.why [
          | inl invalid ↦ cc (sym valid ∙ invalid.2)
          | inr (inl missing) ↦ cc (sym missing.1 ∙ client_reconnected steps)
          | inr (inr failed) ↦ absurd (failed.2 refl)
        ]
      ]
