-- ===== src/Contracts/Topics/Matching.antt =====
-- What a match of `_TELEMETRY_TOPIC` says about the topic, and what is matched.
use twin_services.Base.{
  Text, codes, ◌≡◌, ◌≢◌, ◌⊎◌, inl, inr, refl, ap, sym, ◌∙◌, true, Option, none, some, Option-cases,
  Bool-cases, [], ◌∷◌, ◌++◌, All, arith,
}
use mathlib.Core.List.{append_assoc}
use twin_services.Base.Result.{ok}
use twin_services.Contracts.Vocabulary.{
  JointField, position, velocity, effort, field_value, joint_field,
}
use twin_services.Contracts.Topics.{
  Match, telemetry_topic, parse_telemetry_topic, telemetry_match, literal, segment, nonempty, group,
  at_end, alternative, field_group, after_joint, after_asset, and_then,
}

-- What a group `[^/]+` matches.
abbrev pub NoSlash : Text → Type 0
NoSlash = All (λ c. c ≢ b'/')

pub record IsSegment (t : Text) : Type 0 where
  pub no_slash : NoSlash t
  pub some_text : t ≢ []

literal-append : (p s : Text) → literal p (p ++ s) ≡ some s
unfolding literal
literal-append [] s = refl
literal-append (c ∷ p) s = ground (arith, literal-append p s)

literal_sound : (p s r : Text) → literal p s ≡ some r → s ≡ p ++ r
unfolding literal
literal_sound [] s r h = ground arith
literal_sound (c ∷ p) [] r h = cc
literal_sound (c ∷ p) (d ∷ s) r h = ground (arith, literal_sound p s r)

segment-append : (a s : Text) → NoSlash a → segment (a ++ b'/' ∷ s) ≡ (a, b'/' ∷ s)
unfolding segment
segment-append [] s h = refl
segment-append (c ∷ a) s h = ground (arith, segment-append a s h.1)

segment_sound : (s : Text) → (s ≡ (segment s).0 ++ (segment s).1) × NoSlash (segment s).0
unfolding segment
segment_sound [] = (refl, tt)
segment_sound (c ∷ s) = ground (arith, segment_sound s)

group-append : (a s : Text) → IsSegment a → group (a ++ b'/' ∷ s) ≡ some (a, b'/' ∷ s)
unfolding group nonempty
group-append [] s h = absurd (h.some_text refl)
group-append (c ∷ a) s h = rw (segment-append (c ∷ a) s h.no_slash)

nonempty_sound : (p : Text × Text) (a r : Text) → nonempty p ≡ some (a, r) → (p ≡ (a, r)) × (a ≢ [])
unfolding nonempty
nonempty_sound ([], s) a r h = cc
nonempty_sound (c ∷ t, s) a r h = ground arith

group_sound : (s a r : Text) → group s ≡ some (a, r) → (s ≡ a ++ r) × IsSegment a
unfolding group
group_sound s a r h =
    let (e, ne) = nonempty_sound (segment s) a r h in
    let (split, clean) = segment_sound s in
    (rw e at split, record { no_slash = rw e at clean; some_text = ne })

at_end_sound : (r : Text) → at_end r ≡ true → (r ≡ []) ⊎ (r ≡ b'\n' ∷ [])
unfolding at_end
at_end_sound [] h = inl refl
at_end_sound (c ∷ []) h = ground arith
at_end_sound (c ∷ d ∷ r) h = cc

alternative_sound :
    (w s : Text)
    → alternative w s ≡ true
    → (r : Text) × (s ≡ w ++ r) × ((r ≡ []) ⊎ (r ≡ b'\n' ∷ []))
unfolding alternative
alternative_sound w s h = elim (Option-cases (literal w s)) [
  | inl e ↦ ground arith
  | inr (r, e) ↦ (r, literal_sound w s r e, at_end_sound r (ground arith))
]

-- What the last group and the end of the topic stand on.
abbrev Ends : JointField → Text → Text → Type 0
Ends f s t =
    (t ≡ field_value f) × ((r : Text) × (s ≡ field_value f ++ r) × ((r ≡ []) ⊎ (r ≡ b'\n' ∷ [])))

field_group_sound : (s t : Text) → field_group s ≡ some t → (f : JointField) × Ends f s t
unfolding field_group
field_group_sound s t h = elim (Bool-cases (alternative (codes "position") s)) [
  | inl p ↦ (position, (ground arith, alternative_sound (codes "position") s p))
  | inr np ↦ elim (Bool-cases (alternative (codes "velocity") s)) [
    | inl v ↦ (velocity, (ground arith, alternative_sound (codes "velocity") s v))
    | inr nv ↦ elim (Bool-cases (alternative (codes "effort") s)) [
      | inl e ↦ (effort, (ground arith, alternative_sound (codes "effort") s e))
      | inr ne ↦ ground arith
    ]
  ]
]

pub joint_field-field_value : (f : JointField) → joint_field (field_value f) ≡ ok f
unfolding joint_field
joint_field-field_value position = refl
joint_field-field_value velocity = refl
joint_field-field_value effort = refl

-- A telemetry topic with more text behind it.
abbrev pub topic_then : Text → Text → JointField → Text → Text
topic_then a j f r =
    codes "twin/" ++ (a ++ (codes "/joint/" ++ (j ++ (codes "/" ++ (field_value f ++ r)))))

pub telemetry_topic-append :
    (a j : Text) (f : JointField) (r : Text) → telemetry_topic a j f ++ r ≡ topic_then a j f r
unfolding telemetry_topic
telemetry_topic-append a j f r = simp append_assoc

field_group-ends :
    (f : JointField) (r : Text)
    → (r ≡ []) ⊎ (r ≡ b'\n' ∷ [])
    → field_group (field_value f ++ r) ≡ some (field_value f)
unfolding field_group
field_group-ends position r (inl e) = rw e
field_group-ends position r (inr e) = rw e
field_group-ends velocity r (inl e) = rw e
field_group-ends velocity r (inr e) = rw e
field_group-ends effort r (inl e) = rw e
field_group-ends effort r (inr e) = rw e

telemetry_match-topic_then :
    (a j : Text) (f : JointField) (r : Text)
    → IsSegment a
    → IsSegment j
    → (r ≡ []) ⊎ (r ≡ b'\n' ∷ [])
    → telemetry_match (topic_then a j f r)
      ≡ some (record { asset = a; joint = j; field = field_value f })
unfolding telemetry_match after_asset after_joint
telemetry_match-topic_then a j f r ha hj e = rw (
  group-append a (codes "joint/" ++ (j ++ (codes "/" ++ (field_value f ++ r)))) ha,
  group-append j (field_value f ++ r) hj,
  field_group-ends f r e,
)

pub parse-topic_then :
    (a j : Text) (f : JointField) (r : Text)
    → IsSegment a
    → IsSegment j
    → (r ≡ []) ⊎ (r ≡ b'\n' ∷ [])
    → parse_telemetry_topic (topic_then a j f r) ≡ ok (a, j, f)
unfolding parse_telemetry_topic
parse-topic_then a j f r ha hj e =
    rw (telemetry_match-topic_then a j f r ha hj e, joint_field-field_value f)

and_then-eq-some :
    {A B : Type 0} (o : Option A) (k : A → Option B) {b : B}
    → and_then o k ≡ some b
    → (a : A) × (o ≡ some a) × (k a ≡ some b)
and_then-eq-some none k h = cc
and_then-eq-some (some a) k h = (a, refl, h)

-- What the groups of a match say about the topic that was matched.
abbrev Matched : Text → Match → Type 0
Matched s m =
    (f : JointField) × (r : Text) × (m.field ≡ field_value f)
    × ((r ≡ []) ⊎ (r ≡ b'\n' ∷ []))
    × (s ≡ codes "/" ++ (field_value f ++ r))

after_joint_sound :
    (a j s : Text) (m : Match)
    → after_joint a j s ≡ some m
    → (m.asset ≡ a) × (m.joint ≡ j) × Matched s m
unfolding after_joint
after_joint_sound a j s m h =
    let (r, lit, rest) = and_then-eq-some (literal (codes "/") s) _ h in
    let (t, grp, done) = and_then-eq-some (field_group r) _ rest in
    let (f, there') = field_group_sound r t grp in
    let is = there'.0 in
    let (tail, split, ends) = there'.1 in
    let at = literal_sound (codes "/") s r lit ∙ ap (◌++◌ (codes "/")) split in
    (ground arith, ground arith, (f, tail, ground arith, ends, at))

after_asset_sound :
    (a s : Text) (m : Match)
    → after_asset a s ≡ some m
    → (m.asset ≡ a)
      × IsSegment m.joint
      × ((s' : Text) × (s ≡ codes "/joint/" ++ (m.joint ++ s')) × Matched s' m)
unfolding after_asset
after_asset_sound a s m h =
    let (r, lit, rest) = and_then-eq-some (literal (codes "/joint/") s) _ h in
    let (p, grp, rest') = and_then-eq-some (group r) _ rest in
    let (split, seg) = group_sound r p.0 p.1 grp in
    let (ea, ej, matched) = after_joint_sound a p.0 p.1 m rest' in
    (
      ea,
      rw ej seg,
      (
        p.1,
        literal_sound (codes "/joint/") s r lit
            ∙ ap (◌++◌ (codes "/joint/")) (split ∙ ap (λ x. x ++ p.1) (sym ej)),
        matched,
      ),
    )

pub telemetry_match_sound :
    (t : Text) (m : Match)
    → telemetry_match t ≡ some m
    → IsSegment m.asset
      × IsSegment m.joint
      × ((f : JointField) × (r : Text) × (m.field ≡ field_value f)
          × ((r ≡ []) ⊎ (r ≡ b'\n' ∷ []))
          × (t ≡ topic_then m.asset m.joint f r))
unfolding telemetry_match
telemetry_match_sound t m h =
    let (r, lit, rest) = and_then-eq-some (literal (codes "twin/") t) _ h in
    let (p, grp, rest') = and_then-eq-some (group r) _ rest in
    let (split, seg) = group_sound r p.0 p.1 grp in
    let (ea, sj, behind) = after_asset_sound p.0 p.1 m rest' in
    let (s', es, matched) = behind in
    let (f, r'', is, ends, e) = matched in
    let rest_is = es ∙ ap (λ x. codes "/joint/" ++ (m.joint ++ x)) e in
    let at = literal_sound (codes "twin/") t r lit ∙ ap (◌++◌ (codes "twin/")) split in
    (rw ea seg, sj, (f, r'', is, ends, at ∙ rw ea (ap (λ x. codes "twin/" ++ (p.0 ++ x)) rest_is)))
