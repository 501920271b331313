-- ===== src/Commands/Delivery.antt =====
-- What the endpoint promises: an accepted command is on the wire.
use mathlib.Core.Path.{subst}
use mathlib.Core.List.{append-nil}
use twin_services.Base.{
  ℕ, suc, ◌+◌, ◌≡◌, ◌≢◌, ◌⊎◌, inl, inr, refl, sym, ap, ◌∙◌, Text, Option, none, some, Option-cases,
  List, [], ◌∷◌, ◌++◌, arith,
}
use twin_services.Base.Result.{Exc, ok, raise, Result-cases}
use twin_services.Floats.{Floats}
use twin_services.Contracts.Vocabulary.{
  CommandKind, home, move_joints, schema_version as current_version,
}
use twin_services.Contracts.Topics.{command_topic}
use twin_services.Contracts.Command.{JointCommand, CommandJson, validate_command}
use twin_services.Commands.{
  Publication, Publisher, Reply, acknowledged, unanswered, unsent, deliver, finish, Response,
  accepted, unavailable, unprocessable, count, attempt, publish_by, publish, answer, post_valid,
  post_command,
}

-- The commands that were counted as published, of both kinds.
abbrev pub published : {Payload : Type 0} → Publisher Payload → ℕ
published s = s.published_home + s.published_move

module _ {fl : Floats} (json : CommandJson fl) where
  open json use {Payload}

  count-sent : (k : CommandKind) (s : Publisher Payload) → (count json k s).sent ≡ s.sent
  unfolding count
  count-sent home s = refl
  count-sent move_joints s = refl

  count-client : (k : CommandKind) (s : Publisher Payload) → (count json k s).client ≡ s.client
  unfolding count
  count-client home s = refl
  count-client move_joints s = refl

  count-published :
      (k : CommandKind) (s : Publisher Payload) → published (count json k s) ≡ suc (published s)
  unfolding count
  count-published home s = omega arith
  count-published move_joints s = omega arith

  abbrev pub publication : JointCommand fl.F → Publisher Payload → Publication Payload
  publication c s = record { topic = command_topic s.asset_name; payload = json.write c }

  -- The command went out: the answer is a receipt for its kind and its topic, under the identifier.
  pub record Delivered (reply : Reply) (id : Text) (body : Payload) (s s' : Publisher Payload)
      (r : Response) : Type 0 where
    pub command : JointCommand fl.F
    pub valid : validate_command json body ≡ ok command
    pub answered : reply ≡ acknowledged
    pub client : s.client ≢ none
    pub receipt :
        r
        ≡ accepted (record {
          schema_version = current_version;
          command_id = id;
          kind = command.kind;
          topic = command_topic s.asset_name;
        })
    pub sent : s'.sent ≡ s.sent ++ publication command s ∷ []
    pub counted : published s' ≡ suc (published s)
    pub same_client : s'.client ≡ s.client

  -- What the broker took of a publication.
  abbrev pub taken_by : Reply → JointCommand fl.F → Publisher Payload → List (Publication Payload)
  taken_by unsent c s = []
  taken_by _ c s = publication c s ∷ []

  -- No receipt: the body is invalid, `_client` is missing, or the publication failed, which leaves
  -- `_client` missing and may yet have reached the broker.
  pub record Refused (reply : Reply) (body : Payload) (s s' : Publisher Payload) (r : Response)
      : Type 0 where
    pub why :
        ((r ≡ unprocessable)
          × (x : Exc) × (validate_command json body ≡ raise x)
          × (s'.sent ≡ s.sent))
        ⊎ (((r ≡ unavailable) × (s.client ≡ none) × (s'.client ≡ none) × (s'.sent ≡ s.sent))
            ⊎ ((r ≡ unavailable)
                × (s.client ≢ none)
                × (reply ≢ acknowledged)
                × (s'.client ≡ none)
                × (c : JointCommand fl.F) × (validate_command json body ≡ ok c)
                × (s'.sent ≡ s.sent ++ taken_by reply c s)))
    pub counted : published s' ≡ published s

  module _ (reply : Reply) (id : Text) (body : Payload) (s : Publisher Payload) where
    post_invalid :
        (x : Exc)
        → validate_command json body ≡ raise x
        → post_command json reply id body s ≡ (s, unprocessable)
    unfolding post_command
    post_invalid x e = rw e

    post_by :
        (c : JointCommand fl.F) (o : Option ℕ)
        → validate_command json body ≡ ok c
        → s.client ≡ o
        → post_command json reply id body s
          ≡ ((publish_by json o reply c s).0, answer json id c.kind (publish_by json o reply c s).1)
    unfolding post_command publish
    post_by c o e a =
        ap (λ v. post_valid json reply id v s) e
        ∙ ap
            (λ p. (
              (publish_by json p reply c s).0,
              answer json id c.kind (publish_by json p reply c s).1,
            ))
            a

  -- The two outcomes of a request, by the publisher behind it and the answer.
  abbrev pub Honest :
      Reply → Text → Payload → Publisher Payload → Publisher Payload × Response → Type 0
  Honest reply id body s p = Delivered reply id body s p.0 p.1 ⊎ Refused reply body s p.0 p.1

  post_absent :
      (reply : Reply) (id : Text) (body : Payload) (s : Publisher Payload) (c : JointCommand fl.F)
      → validate_command json body ≡ ok c
      → s.client ≡ none
      → Honest reply id body s (post_command json reply id body s)
  unfolding publish_by answer
  post_absent reply id body s c e a =
      subst (Honest reply id body s) (sym (post_by reply id body s c none e a))
        (inr (record { why = inr (inl (refl, a, a, refl)); counted = refl }))

  post_there :
      (reply : Reply) (id : Text) (body : Payload) (s : Publisher Payload) (c : JointCommand fl.F)
      (n : ℕ)
      → validate_command json body ≡ ok c
      → s.client ≡ some n
      → Honest reply id body s (post_command json reply id body s)
  unfolding publish_by attempt deliver finish answer
  post_there acknowledged id body s c n e a =
      subst (Honest acknowledged id body s) (sym (post_by acknowledged id body s c (some n) e a)) (
        inl (record {
          command = c;
          valid = e;
          answered = refl;
          client = λ none_is. cc;
          receipt = refl;
          sent = count-sent c.kind _;
          counted = count-published c.kind _;
          same_client = count-client c.kind _;
        }))
  post_there unanswered id body s c n e a =
      subst (Honest unanswered id body s) (sym (post_by unanswered id body s c (some n) e a)) (
        inr (record {
          why = inr (inr (refl, (λ absent. cc), (λ same. cc), refl, c, e, refl));
          counted = refl;
        }))
  post_there unsent id body s c n e a =
      subst (Honest unsent id body s) (sym (post_by unsent id body s c (some n) e a)) (
        inr (record {
          why = inr (inr (refl, (λ absent. cc), (λ same. cc), refl, c, e, sym (append-nil s.sent)));
          counted = refl;
        }))

  -- A request has one of two outcomes. Either its body is a valid command, `_client` is there and
  -- the broker acknowledged: then the command, as the contract writes it, is the last publication
  -- on the asset's command topic, it is counted, and the answer is a receipt that names its kind
  -- and the topic. Or there is no receipt and nothing is counted: the body is invalid, the answer is
  -- 422 and nothing is published; or `_client` is missing, the answer is 503 and nothing is
  -- published; or no acknowledgement came, the answer is 503 and `_client` is then missing, and the
  -- broker has taken the command as the contract writes it, once, or has not, as the loss fell.
  pub post_command-Honest :
      (reply : Reply) (id : Text) (body : Payload) (s : Publisher Payload)
      → Honest reply id body s (post_command json reply id body s)
  post_command-Honest reply id body s = elim (Result-cases (validate_command json body)) [
    | inr (x, e) ↦
        subst (Honest reply id body s) (sym (post_invalid reply id body s x e))
          (inr (record { why = inl (refl, x, e, refl); counted = refl }))
    | inl (c, e) ↦ elim (Option-cases s.client) [
      | inl absent ↦ post_absent reply id body s c e absent
      | inr (n, there) ↦ post_there reply id body s c n e there
    ]
  ]
