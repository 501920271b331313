-- ===== src/Ingest/Points.antt =====
-- Which messages become points, and which points.
use twin_services.Base.{◌≤◌, ◌≡◌, ◌↔◌, refl, Text, codes, Bool, true, Option, none, some, inl, inr}
use twin_services.Base.Result.{ok, Result-cases}
use twin_services.Contracts.Vocabulary.{JointField, field_value}
use twin_services.Contracts.Topics.{telemetry_topic, parse_telemetry_topic}
use twin_services.Contracts.Topics.Matching.{IsSegment}
use twin_services.Contracts.Topics.Language.{
  IsTelemetryTopic, parse_exactly_topics, parse-telemetry_topic,
}
use twin_services.Contracts.Telemetry.{JointTelemetry, TelemetryJson, validate_telemetry}
use twin_services.Contracts.Telemetry.Laws.{validate-write}
use twin_services.Ingest.{Point, converted, point_of, convert}

module _ {F : Type 0} {is_finite : F → Bool} (json : TelemetryJson F is_finite) where
  -- Where a point comes from.
  pub record Source (topic : Text) (payload : Option json.Payload) (p : Point F) : Type 0 where
    pub asset : Text
    pub joint : Text
    pub field : JointField
    pub sample : JointTelemetry F
    pub bytes : json.Payload
    pub has_bytes : payload ≡ some bytes
    pub named : IsTelemetryTopic asset joint field topic
    pub valid : validate_telemetry json bytes ≡ ok sample
    pub is : p ≡ record {
      measurement = codes "joint_telemetry";
      asset = asset;
      joint = joint;
      metric = field_value field;
      value = sample.value;
      time = sample.stamp_ns;
    }

  convert_of-Source :
      (topic : Text) (payload : Option json.Payload) (p : Point F)
      → Source topic payload p
      → convert json topic payload ≡ converted p
  unfolding convert point_of
  convert_of-Source topic payload p s =
      let parsed = (parse_exactly_topics topic s.asset s.joint s.field).1 s.named in
      rw (s.has_bytes, parsed, s.valid, s.is)

  Source-of-sample :
      (topic : Text) (b : json.Payload) (p : Point F) (asset joint : Text) (field : JointField)
      → parse_telemetry_topic topic ≡ ok (asset, joint, field)
      → convert json topic (some b) ≡ converted p
      → Source topic (some b) p
  unfolding convert point_of
  Source-of-sample topic b p asset joint field parsed h =
      elim (Result-cases (validate_telemetry json b)) [
        | inr (x, e) ↦ cc (rw (parsed, e) at h)
        | inl (m, e) ↦
            let is : converted (point_of asset joint field m) ≡ converted p = rw (parsed, e) at h in
            record {
              asset = asset;
              joint = joint;
              field = field;
              sample = m;
              bytes = b;
              has_bytes = refl;
              named = (parse_exactly_topics topic asset joint field).0 parsed;
              valid = e;
              is = cc;
            }
      ]

  Source-of-convert :
      (topic : Text) (payload : Option json.Payload) (p : Point F)
      → convert json topic payload ≡ converted p
      → Source topic payload p
  unfolding convert
  Source-of-convert topic none p h = cc
  Source-of-convert topic (some b) p h = elim (Result-cases (parse_telemetry_topic topic)) [
    | inr (x, e) ↦ cc (rw e at h)
    | inl ((asset, joint, field), e) ↦ Source-of-sample topic b p asset joint field e h
  ]

  -- A message becomes a point exactly when its payload is bytes or str and validates, and its topic
  -- names an asset, a joint and a field; the point is the one with these as tags, the sample's
  -- value as its field and the sample's stamp as its time.
  pub convert_exactly :
      (topic : Text) (payload : Option json.Payload) (p : Point F)
      → (convert json topic payload ≡ converted p) ↔ Source topic payload p
  convert_exactly topic payload p =
      (Source-of-convert topic payload p, convert_of-Source topic payload p)

  -- A sample that the contract's own topic and JSON writer carry becomes its point: any asset and
  -- joint that are texts without a slash, any field, any finite value.
  pub convert-write :
      (asset joint : Text) (field : JointField) (m : JointTelemetry F)
      → IsSegment asset
      → IsSegment joint
      → 1 ≤ m.schema_version
      → is_finite m.value ≡ true
      → convert json (telemetry_topic asset joint field) (some (json.write m))
        ≡ converted (point_of asset joint field m)
  unfolding convert
  convert-write asset joint field m ha hj v fin =
      rw (parse-telemetry_topic asset joint field ha hj, validate-write json m v fin)
