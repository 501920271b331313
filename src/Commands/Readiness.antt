-- ===== src/Commands/Readiness.antt =====
-- `ready` and `metrics` of services/command-svc/src/command_svc/api.py, and what they say about the
-- next command.
use twin_services.Base.{
  ℕ, ◌≡◌, ◌≢◌, ◌⊎◌, refl, sym, ap, ◌∙◌, Text, codes, none, some, Option-cases, inl, inr,
  if◌then◌else◌,
}
use twin_services.Base.Result.{Result, ok}
use twin_services.Floats.{Floats}
use twin_services.Contracts.Command.{JointCommand, CommandJson, validate_command}
use twin_services.Health.{Report, passes, gauge_value}
use twin_services.Commands.{
  Publisher, Reply, acknowledged, deliver, finish, Response, unavailable, readiness, publish,
  publish_by, attempt, answer, post_valid, post_command,
}

module _ {Payload : Type 0} where
  -- The gauge behind it, and the report.
  unfoldable pub ready : Publisher Payload → ℕ × Report
  ready s =
      let checks = readiness s in
      let ok = passes checks in
      (
        gauge_value ok,
        record {
          status_code = if ok then 200 else 503;
          status = if ok then codes "ready" else codes "degraded";
          checks = checks;
        },
      )

  unfoldable pub metrics : Publisher Payload → ℕ
  metrics s = gauge_value (passes (readiness s))

  ready_disconnected : (s : Publisher Payload) → s.client ≡ none → (ready s).1.status_code ≡ 503
  unfolding ready readiness
  ready_disconnected s e = rw e refl

  ready_connected :
      (s : Publisher Payload) (n : ℕ) → s.client ≡ some n → (ready s).1.status_code ≡ 200
  unfolding ready readiness
  ready_connected s n e = rw e refl

module _ {fl : Floats} (json : CommandJson fl) where
  open json use {Payload}

  post_disconnected :
      (s : Publisher Payload) (reply : Reply) (id : Text) (body : Payload) (c : JointCommand fl.F)
      → validate_command json body ≡ ok c
      → s.client ≡ none
      → post_command json reply id body s ≡ (s, unavailable)
  unfolding post_command post_valid publish publish_by answer
  post_disconnected s reply id body c valid e =
      ap (λ r. post_valid json reply id r s) valid
      ∙ ap (λ o. outcome (publish_by json o reply c s)) e
    where
      outcome : Publisher Payload × Result Text → Publisher Payload × Response
      outcome (s', r) = (s', answer json id c.kind r)

  post_connected :
      (s : Publisher Payload) (id : Text) (body : Payload) (c : JointCommand fl.F) (n : ℕ)
      → validate_command json body ≡ ok c
      → s.client ≡ some n
      → (post_command json acknowledged id body s).1 ≢ unavailable
  unfolding post_command post_valid publish publish_by attempt deliver finish answer
  post_connected s id body c n valid e h = cc (
      sym (
        ap (λ r. (post_valid json acknowledged id r s).1) valid
        ∙ ap (λ o. outcome (publish_by json o acknowledged c s)) e)
      ∙ h)
    where
      outcome : Publisher Payload × Result Text → Response
      outcome (s', r) = answer json id c.kind r

  -- The endpoint is honest about commands. Either /healthz/ready answers 503, and a valid command gets
  -- a 503 too, changes nothing and reaches no broker; or it answers 200, and a valid command that the
  -- broker acknowledges is not refused. A scrape sets the gauge to what the endpoint would.
  pub ready-post_command :
      (s : Publisher Payload) (reply : Reply) (id : Text) (body : Payload) (c : JointCommand fl.F)
      → validate_command json body ≡ ok c
      → ((((ready s).1.status_code ≡ 503) × (post_command json reply id body s ≡ (s, unavailable)))
          ⊎ (((ready s).1.status_code ≡ 200)
              × ((post_command json acknowledged id body s).1 ≢ unavailable)))
        × (metrics s ≡ (ready s).0)
  ready-post_command s reply id body c valid = elim (Option-cases s.client) [
    | inl e ↦
        let status = ready_disconnected s e in
        (inl (status, post_disconnected s reply id body c valid e), scrape)
    | inr (n, e) ↦
        let status = ready_connected s n e in
        (inr (status, post_connected s id body c n valid e), scrape)
  ]
    where
      scrape : metrics s ≡ (ready s).0
      scrape = unfold metrics ready in refl
