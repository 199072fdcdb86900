-- ===== src/CommandService/VictoriaMetrics.antt =====
-- The Victoria Metrics output of the command service,
-- crates/command-service/src/output/victoria_metrics/mod.rs.
use Prim.Native.String.{◌++◌ as str_append}
use common_data_layer.Prelude.{
  ℕ, String, List, [], ◌∷◌, ◌++◌, Bool, true, false, ◌||◌, ◌==◌, if◌then◌else◌, join,
}
use common_data_layer.Json.{Value, null, bool, number, string, array, object}
use common_data_layer.Exec.{Result, ok, err, map_err}
use common_data_layer.Fallible.{◌>>=◌, collect_map}
use common_data_layer.Messaging.{BorrowedInsertMessage}
use common_data_layer.CommandService.{
  Resolution, storage_layer_failure, command_service_failure, user_failure, success, OutputPlugin,
}

-- The errors that a message can meet; `InvalidUrl` is met when the plugin is made.
pub data Error : Type 0 where
  data_cannot_be_parsed : String → Error
  invalid_field_type empty_fields : Error

unfoldable pub error_text : Error → String
error_text (data_cannot_be_parsed e) = str_append "Data cannot be parsed `" (str_append e "`")
error_text invalid_field_type = "Value cannot be an object, array or null"
error_text empty_fields = "Cannot handle empty payload"

-- The fields in the order in which the map gives them.
pub record Payload : Type 0 where
  pub fields : List (String × Value)
  pub ts : ℕ

pub record Response : Type 0 where
  pub status : ℕ
  pub text : Result String String

-- serde_json, the texts of UUIDs and numbers, the crate url and the HTTP client.
pub record VictoriaWorld : Type 0 where
  pub parse_payloads : String → Result String (List Payload)
  pub uuid_text : ℕ → String
  pub value_text : Value → String
  pub number_text : ℕ → String
  pub set_query : String → String → String
  pub post : (url body : String) → Result String Response

-- `is_array() || is_null() || is_object()`
abbrev pub is_compound : Value → Bool
is_compound (array xs) = true
is_compound null = true
is_compound (object fs) = true
is_compound (bool b) = false
is_compound (number n) = false
is_compound (string s) = false

-- The requests that were made, each with its body.
abbrev pub Requests : Type 0
Requests = List (String × String)

module _ (w : VictoriaWorld) where
  unfoldable pub field_text : String × Value → Result Error String
  field_text field =
      if is_compound field.1
      then err invalid_field_type
      else ok (str_append field.0 (str_append "=" (w.value_text field.1)))

  abbrev pub fields_text : List (String × Value) → Result Error String
  fields_text fields = do texts ← collect_map field_text fields; ok (join "," texts)

  unfoldable pub get_object_fields : Payload → Result Error String
  get_object_fields request_object = elim request_object.fields [
    | [] ↦ err empty_fields
    | field ∷ fields ↦ fields_text (field ∷ fields)
  ]

  abbrev pub line_of : String → String → String → String → String
  line_of measurement tag fields ts = str_append measurement (
      str_append ",objectId="
        (str_append tag (str_append " " (str_append fields (str_append " " ts)))))

  unfoldable pub object_line : ℕ → ℕ → Payload → Result Error String
  object_line measurement tag obj = do
    fields ← get_object_fields obj
    ok (line_of (w.uuid_text measurement) (w.uuid_text tag) fields (w.number_text obj.ts))

  unfoldable pub build_line_protocol : ℕ → ℕ → String → Result Error String
  build_line_protocol measurement tag payload = do
    payloads ← map_err data_cannot_be_parsed (w.parse_payloads payload)
    lines ← collect_map (object_line measurement tag) payloads
    ok (join "\n" lines)

  -- `unwrap_or_else` on the text of a response
  abbrev pub description_of : Result String String → String
  description_of (ok text) = text
  description_of (err e) = str_append "No description. Error `" (str_append e "`")

  unfoldable pub answered : Result String Response → Resolution
  answered (err e) = command_service_failure
  answered (ok response) =
      if response.status == 200 || response.status == 204
      then success
      else storage_layer_failure (description_of response.text)

  unfoldable pub send_data : String → String → Requests → Resolution × Requests
  send_data url line_protocol s =
      (answered (w.post url line_protocol), s ++ (url, line_protocol) ∷ [])

  unfoldable pub handle_message : String → BorrowedInsertMessage → Requests → Resolution × Requests
  handle_message url msg s = elim (build_line_protocol msg.schema_id msg.object_id msg.raw_data) [
    | ok line_protocol ↦
        send_data (w.set_query url (str_append "db=" (w.uuid_text msg.schema_id))) line_protocol s
    | err e ↦ (user_failure (error_text e) msg.raw_data, s)
  ]

  abbrev pub plugin : String → OutputPlugin Requests
  plugin url = record { handle_message = handle_message url; name = "Victoria metrics" }
