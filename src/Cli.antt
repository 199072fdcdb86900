-- ===== src/Cli.antt =====
-- The command line client of the schema registry, crates/cdl-cli/src: `read_json` of utils.rs and what
-- the actions share. Files, serde_json, semver and the texts of a `Uuid` are parameters.
pub mod Schema
pub mod View
pub mod Args
pub mod Reading
pub mod Printed
pub mod Sorted
mod Tests
use common_data_layer.Prelude.{ℕ, String, Bool, Option, none, some, List, [], ◌∷◌, ◌++◌, map}
use common_data_layer.Json.{Value}
use common_data_layer.Exec.{Result, ok, err, map_err, Exec, pure, raise, lift, ◌>>=◌, ◌>>◌}
use common_data_layer.Fallible
use common_data_layer.Registry.Types.{Version}
use common_data_layer.Registry.Wire.{Status}
use common_data_layer.RpcClients.SchemaRegistry.{SchemaRegistryClient}

-- What ends an action.
pub data Error : Type 0 where
  no_connection cannot_open not_json not_serializable not_a_version bail : String → Error
  refused : Status → Error

pub record World (S : Type 0) : Type 0 where
  pub connect : Result String (Unit {0})
  pub client : SchemaRegistryClient S
  -- `open` of a file, with what a reader of it gives, and the standard input
  pub open_file : String → Result String String
  pub stdin : String
  -- `serde_json::from_reader` and `from_str`, `to_string`, and `{:#}` of a value
  pub json_parse : String → Result String Value
  pub json_text : Value → Result String String
  pub json_pretty : Value → String
  pub version_parse : String → Result String Version
  pub version_text : Version → String
  pub version_le : Version → Version → Bool
  -- The text of `VersionReq::any()`
  pub any_version : String
  pub uuid_text : ℕ → String

-- The registry, and what was printed.
pub record Terminal (S : Type 0) : Type 0 where
  pub registry : S
  pub stdout : List String
  pub stderr : List String

abbrev pub Action : Type 0 → Type 0 → Type 0
Action S A = Exec (Terminal S) Error A

module _ {S : Type 0} where
  abbrev pub asking : {A : Type 0} → Exec S Status A → Action S A
  asking m t = let (r, s) = m t.registry in (map_err refused r, record t { registry = s })

  abbrev pub println : String → Action S (Unit {0})
  println line t = (ok tt, record t { stdout = t.stdout ++ line ∷ [] })

  abbrev pub eprintln : String → Action S (Unit {0})
  eprintln line t = (ok tt, record t { stderr = t.stderr ++ line ∷ [] })

  unfoldable pub println_all : List String → Action S (Unit {0})
  println_all [] = pure tt
  println_all (line ∷ lines) = do println line; println_all lines

  -- The lines of a list, or the message that ends the action where it is empty.
  unfoldable pub print_entries : {B : Type 0} → String → (B → String) → List B → Action S (Unit {0})
  print_entries empty line [] = raise (bail empty)
  print_entries empty line (b ∷ bs) = println_all (map line (b ∷ bs))

  module _ (w : World S) where
    abbrev pub connect : Action S (Unit {0})
    connect t = (map_err no_connection w.connect, t)

    unfoldable pub read_json : Option String → Result Error Value
    read_json none = map_err not_json (w.json_parse w.stdin)
    read_json (some file_name) =
        Fallible.and_then (map_err cannot_open (w.open_file file_name))
          λ file. map_err not_json (w.json_parse file)

    abbrev pub serialized : Value → Result Error String
    serialized v = map_err not_serializable (w.json_text v)
