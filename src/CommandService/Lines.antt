-- ===== src/CommandService/Lines.antt =====
-- Which data the Victoria Metrics output of the command service can write:
-- crates/command-service/src/output/victoria_metrics/mod.rs.
use Prim.Native.String.{◌++◌ as str_append}
use common_data_layer.Prelude.{
  join, ℕ, String, ◌≡◌, refl, ◌≢◌, ◌↔◌, List, [], ◌∷◌, All, All-map, ◌⊎◌, false, inl, inr,
  Bool-cases,
}
use common_data_layer.Json.{Value}
use common_data_layer.Exec.{ok}
use common_data_layer.Fallible.{and_then-ok, collect_map, collect_map-All}
use common_data_layer.CommandService.VictoriaMetrics.{
  VictoriaWorld, Payload, is_compound, field_text, get_object_fields, object_line,
  build_line_protocol, fields_text, line_of,
}

List-cases : {A : Type 0} (xs : List A) → (xs ≡ []) ⊎ ((x : A) × (ys : List A) × (xs ≡ x ∷ ys))
List-cases [] = inl refl
List-cases (x ∷ ys) = inr (x, ys, refl)

-- A field whose value is a boolean, a number or a string.
abbrev pub IsScalar : String × Value → Type 0
IsScalar field = is_compound field.1 ≡ false

-- An object of at least one field, each with a scalar.
pub record IsWritable (obj : Payload) : Type 0 where
  pub has_fields : obj.fields ≢ []
  pub scalars : All IsScalar obj.fields

module _ (w : VictoriaWorld) where
  field_text-ok :
      (field : String × Value) → ((text : String) × (field_text w field ≡ ok text)) ↔ IsScalar field
  unfolding field_text
  field_text-ok field = elim (Bool-cases (is_compound field.1)) [
    | inl e ↦ (λ (text, h). cc (rw (e, field_text) at h), λ h. cc)
    | inr e ↦ (
      λ h. e,
      λ h. (str_append field.0 (str_append "=" (w.value_text field.1)), rw (e, field_text) refl),
    )
  ]

  fields_text-ok :
      (fields : List (String × Value))
      → ((text : String) × (fields_text w fields ≡ ok text)) ↔ All IsScalar fields
  fields_text-ok fields =
      let each = collect_map-All (field_text w) fields in
      (
        λ (text, h).
            let (texts, all, h₁) = and_then-ok (collect_map (field_text w) fields) _ text h in
            All-map _ IsScalar (λ field. (field_text-ok field).0) fields (each.0 (texts, all)),
        λ h.
            let (texts, all) =
              each.1 (All-map IsScalar _ (λ field. (field_text-ok field).1) fields h) in
            (join "," texts, rw all refl),
      )

  get_object_fields-IsWritable :
      (obj : Payload) → ((text : String) × (get_object_fields w obj ≡ ok text)) ↔ IsWritable obj
  unfolding get_object_fields
  get_object_fields-IsWritable obj = elim (List-cases obj.fields) [
    | inl e ↦ (λ (text, h). cc (rw (e, get_object_fields) at h), λ h. absurd (h.has_fields e))
    | inr (field, fields, e) ↦
        let all = fields_text-ok (field ∷ fields) in
        (
          λ (text, h). record {
            has_fields = λ q. cc (e, q);
            scalars = rw e (all.0 (text, rw (e, get_object_fields) at h));
          },
          λ h.
              let (text, found) = all.1 (rw e at h.scalars) in
              (text, rw (e, get_object_fields) found),
        )
  ]

  object_line-IsWritable :
      (measurement tag : ℕ) (obj : Payload)
      → ((text : String) × (object_line w measurement tag obj ≡ ok text)) ↔ IsWritable obj
  unfolding object_line
  object_line-IsWritable measurement tag obj =
      let inner = get_object_fields-IsWritable obj in
      (
        λ (text, h).
            let (fields, found, h₁) = and_then-ok (get_object_fields w obj) _ text h in
            inner.0 (fields, found),
        λ h.
            let (fields, found) = inner.1 h in
            (
              line_of w (w.uuid_text measurement) (w.uuid_text tag) fields (w.number_text obj.ts),
              rw (found, object_line) refl,
            ),
      )

  -- Data that can be parsed become lines just when every object has a field and no field holds an
  -- object, an array or null; one object that does not fails the whole message.
  pub build_line_protocol-IsWritable :
      (measurement tag : ℕ) (data_text : String) (payloads : List Payload)
      → w.parse_payloads data_text ≡ ok payloads
      → ((text : String) × (build_line_protocol w measurement tag data_text ≡ ok text))
        ↔ All IsWritable payloads
  unfolding build_line_protocol
  build_line_protocol-IsWritable measurement tag data_text payloads parsed =
      let each = collect_map-All (object_line w measurement tag) payloads in
      (
        λ (text, h).
            let (texts, all, h₁) =
              and_then-ok (collect_map (object_line w measurement tag) payloads) _ text
                (rw (parsed, build_line_protocol) at h) in
            All-map _ IsWritable (λ obj. (object_line-IsWritable measurement tag obj).0) payloads
              (each.0 (texts, all)),
        λ h.
            let (texts, all) = each.1 (
              All-map IsWritable _ (λ obj. (object_line-IsWritable measurement tag obj).1) payloads
                h) in
            (join "\n" texts, rw (parsed, build_line_protocol) (rw all refl)),
      )
