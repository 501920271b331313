-- ===== src/Contracts/Topics/Language.antt =====
-- The language of `_TELEMETRY_TOPIC`: which topics parse, and to what.
use mathlib.Core.List.{append-nil}
use twin_services.Base.{
  ℕ, Text, codes, text_eq_iff, ◌≡◌, ◌≢◌, ◌↔◌, ◌⊎◌, inl, inr, refl, sym, ◌∙◌, ap, [], ◌∷◌, ◌++◌,
  arith,
}
use twin_services.Base.Result.{
  Exc, ok, raise, value_error, or_raise, or_raise-eq-ok, ok-injective, Result-cases, >>=-eq-ok,
}
use twin_services.Contracts.Vocabulary.{
  JointField, position, velocity, effort, field_value, joint_field,
}
use twin_services.Contracts.Topics.{
  telemetry_topic, command_topic, parse_telemetry_topic, telemetry_match,
}
use twin_services.Contracts.Topics.Matching.{
  IsSegment, topic_then, telemetry_topic-append, parse-topic_then, telemetry_match_sound,
}

-- The topics from which `(a, j, f)` is read.
abbrev pub IsTelemetryTopic : Text → Text → JointField → Text → Type 0
IsTelemetryTopic a j f t =
    IsSegment a
    × IsSegment j
    × ((t ≡ telemetry_topic a j f) ⊎ (t ≡ telemetry_topic a j f ++ b'\n' ∷ []))

joint_field_sound : (v : Text) (f : JointField) → joint_field v ≡ ok f → v ≡ field_value f
unfolding joint_field
joint_field_sound v f h = ground (
  arith,
  text_eq_iff v (codes "position"),
  text_eq_iff v (codes "velocity"),
  text_eq_iff v (codes "effort"),
)

same_topic :
    {a a' j j' : Text} (f f' : JointField)
    → a ≡ a'
    → j ≡ j'
    → field_value f ≡ field_value f'
    → (r : Text) → topic_then a j f r ≡ topic_then a' j' f' r
same_topic f f' ea ej ef r = cc

by_tail :
    (t a j : Text) (f : JointField) (r : Text)
    → (r ≡ []) ⊎ (r ≡ b'\n' ∷ [])
    → t ≡ topic_then a j f r
    → (t ≡ telemetry_topic a j f) ⊎ (t ≡ telemetry_topic a j f ++ b'\n' ∷ [])
by_tail t a j f r (inl e) h = inl (h ∙ sym (telemetry_topic-append a j f r) ∙ rw e (append-nil _))
by_tail t a j f r (inr e) h = inr (h ∙ sym (telemetry_topic-append a j f r) ∙ rw e refl)

parse-IsTelemetryTopic :
    (t a j : Text) (f : JointField)
    → parse_telemetry_topic t ≡ ok (a, j, f)
    → IsTelemetryTopic a j f t
unfolding parse_telemetry_topic
parse-IsTelemetryTopic t a j f h =
    let (m, found, rest) = >>=-eq-ok (or_raise (telemetry_match t) value_error) _ h in
    let (g, is_field, done) = >>=-eq-ok (joint_field m.field) _ rest in
    let (sa, sj, shape) = telemetry_match_sound t m (or_raise-eq-ok _ value_error found) in
    let (f', r, is, ends, e) = shape in
    let whole = ok-injective done in
    let ea : m.asset ≡ a = ap (λ p. p.0) whole in
    let ej : m.joint ≡ j = ap (λ p. p.1) whole in
    let ef : g ≡ f = ap (λ p. p.2) whole in
    let value : field_value f' ≡ field_value f =
      sym is ∙ joint_field_sound m.field g is_field ∙ ap field_value ef in
    (rw ea at sa, rw ej at sj, by_tail t a j f r ends (e ∙ same_topic f' f ea ej value r))

IsTelemetryTopic-parse :
    (t a j : Text) (f : JointField)
    → IsTelemetryTopic a j f t
    → parse_telemetry_topic t ≡ ok (a, j, f)
IsTelemetryTopic-parse t a j f (ha, hj, inl e) =
    ap parse_telemetry_topic (e ∙ sym (append-nil _) ∙ telemetry_topic-append a j f [])
    ∙ parse-topic_then a j f [] ha hj (inl refl)
IsTelemetryTopic-parse t a j f (ha, hj, inr e) =
    ap parse_telemetry_topic (e ∙ telemetry_topic-append a j f (b'\n' ∷ []))
    ∙ parse-topic_then a j f (b'\n' ∷ []) ha hj (inr refl)

-- A text is read as asset `a`, joint `j` and field `f` exactly when `a` and `j` are non-empty and
-- free of slashes and the text is the topic built from them, with or without one newline behind.
pub parse_exactly_topics :
    (t a j : Text) (f : JointField)
    → (parse_telemetry_topic t ≡ ok (a, j, f)) ↔ IsTelemetryTopic a j f t
parse_exactly_topics t a j f = (parse-IsTelemetryTopic t a j f, IsTelemetryTopic-parse t a j f)

-- Any text that does not parse raises ValueError, and nothing else.
pub parse_raises : (t : Text) (x : Exc) → parse_telemetry_topic t ≡ raise x → x ≡ value_error
unfolding parse_telemetry_topic joint_field
parse_raises t x h = ground arith

-- The topic that is built for an asset, a joint and a field parses to the three.
pub parse-telemetry_topic :
    (a j : Text) (f : JointField)
    → IsSegment a
    → IsSegment j
    → parse_telemetry_topic (telemetry_topic a j f) ≡ ok (a, j, f)
parse-telemetry_topic a j f ha hj = IsTelemetryTopic-parse _ a j f (ha, hj, inl refl)

-- The last code point of a text.
abbrev last_or : ℕ → Text → ℕ
last_or d [] = d
last_or d (c ∷ t) = last_or c t

last_or-append : (d c : ℕ) (s t : Text) → last_or d (s ++ c ∷ t) ≡ last_or c t
last_or-append d c [] t = refl
last_or-append d c (x ∷ s) t = last_or-append x c s t

last_of_command : (a : Text) → last_or 0 (command_topic a) ≡ b's'
unfolding command_topic
last_of_command a = last_or-append _ _ a _

last_of_topic_then :
    (a j : Text) (f : JointField) (r : Text)
    → last_or 0 (topic_then a j f r) ≡ last_or b'/' (field_value f ++ r)
last_of_topic_then a j f r = last_or-append _ b'/' a _ ∙ last_or-append _ b'/' j _

last_of_telemetry :
    (f : JointField) (r : Text)
    → (r ≡ []) ⊎ (r ≡ b'\n' ∷ [])
    → last_or b'/' (field_value f ++ r) ≢ b's'
last_of_telemetry position r (inl e) = rw e (omega arith)
last_of_telemetry position r (inr e) = rw e (omega arith)
last_of_telemetry velocity r (inl e) = rw e (omega arith)
last_of_telemetry velocity r (inr e) = rw e (omega arith)
last_of_telemetry effort r (inl e) = rw e (omega arith)
last_of_telemetry effort r (inr e) = rw e (omega arith)

command_not_then :
    (a b j : Text) (f : JointField) (r : Text)
    → (r ≡ []) ⊎ (r ≡ b'\n' ∷ [])
    → command_topic a ≢ topic_then b j f r
command_not_then a b j f r tail e =
    last_of_telemetry f r tail
      (sym (last_of_topic_then b j f r) ∙ ap (last_or 0) (sym e) ∙ last_of_command a)

command_not_telemetry : (a b j : Text) (f : JointField) → ¬ IsTelemetryTopic b j f (command_topic a)
command_not_telemetry a b j f (sb, sj, inl e) =
    command_not_then a b j f [] (inl refl)
      (e ∙ sym (append-nil _) ∙ telemetry_topic-append b j f [])
command_not_telemetry a b j f (sb, sj, inr e) =
    command_not_then a b j f (b'\n' ∷ []) (inr refl) (e ∙ telemetry_topic-append b j f (b'\n' ∷ []))

-- A command topic never parses as a telemetry topic, whatever the asset is called.
pub parse-command_topic : (a : Text) → parse_telemetry_topic (command_topic a) ≡ raise value_error
parse-command_topic a = elim (Result-cases (parse_telemetry_topic (command_topic a))) [
  | inl (p, h) ↦ absurd (command_not_telemetry a _ _ _ (parse-IsTelemetryTopic _ _ _ _ h))
  | inr (x, h) ↦ h ∙ ap raise (parse_raises _ x h)
]
