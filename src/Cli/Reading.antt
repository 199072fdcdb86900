-- ===== src/Cli/Reading.antt =====
-- The actions of crates/cdl-cli/src/main.rs that only read.
use common_data_layer.Prelude.{
  ℕ, String, inl, inr, ◌≡◌, refl, ap, ◌∙◌, Option, List, [], ◌∷◌, map, arith,
}
use common_data_layer.Exec.{Result, ok, err, map_err, continue, lift, ◌>>=◌, Result-cases}
use common_data_layer.Registry.Externals.{Externals}
use common_data_layer.Registry.Wire.{Wire}
use common_data_layer.Registry.Rpc.{Server}
use common_data_layer.Registry.Types.{Version}
use common_data_layer.Registry.Rpc.Queries
use common_data_layer.Registry.Reading.{
  get_schema_unchanged, get_schema_topic_unchanged, get_schema_query_address_unchanged,
  get_schema_versions_unchanged, get_schema_type_unchanged, get_view_unchanged,
  get_all_schema_names_unchanged, get_all_views_of_schema_unchanged, validate_value_unchanged,
}
use common_data_layer.Cli.{
  World, Terminal, Action, Error, refused, println_all, print_entries, read_json,
}
use common_data_layer.Cli.Args
use common_data_layer.Cli.Schema
use common_data_layer.Cli.View
use common_data_layer.Cli.Printed.{over, println_all-stdout}

-- What is printed leaves the registry as it is.
module _ {S : Type 0} where
  println_all_registry :
      (lines : List String) (t : Terminal S) → (println_all lines t).1.registry ≡ t.registry
  println_all_registry lines t = ap (λ r. r.1.registry) (println_all-stdout lines t)

  print_entries_registry :
      {B : Type 0} (empty : String) (line : B → String) (found : List B) (t : Terminal S)
      → (print_entries empty line found t).1.registry ≡ t.registry
  unfolding print_entries
  print_entries_registry empty line [] t = refl
  print_entries_registry empty line (b ∷ bs) t = println_all_registry (map line (b ∷ bs)) t

  answered_registry :
      {B : Type 0} (s : S) (r : Result Error B) (f : B → Action S (Unit {0})) (t : Terminal S)
      → ((b : B) (u : Terminal S) → (f b u).1.registry ≡ u.registry)
      → t.registry ≡ s
      → (continue r f t).1.registry ≡ s
  answered_registry s (ok b) f t h e = h b t ∙ e
  answered_registry s (err reason) f t h e = e

-- The actions that print something of the registry.
pub data IsReading : Args.Action → Type 0 where
  names : IsReading (Args.schema Args.names)
  get : (id : ℕ) (version : Option String) → IsReading (Args.schema (Args.get id version))
  get_topic : (id : ℕ) → IsReading (Args.schema (Args.get_topic id))
  get_query_address : (id : ℕ) → IsReading (Args.schema (Args.get_query_address id))
  get_schema_type : (id : ℕ) → IsReading (Args.schema (Args.get_schema_type id))
  versions : (id : ℕ) → IsReading (Args.schema (Args.versions id))
  validate : (id : ℕ) (file : Option String) → IsReading (Args.schema (Args.validate id file))
  view_names : (id : ℕ) → IsReading (Args.view (Args.view_names id))
  get_view : (id : ℕ) → IsReading (Args.view (Args.get_view id))

module _ (x : Externals) (wire : Wire) (w : World (Server x.Db)) where
  versions_reads :
      (id : ℕ) (t : Terminal (Server x.Db))
      → (Schema.get_schema_versions (over x wire w) id t).1.registry ≡ t.registry
  unfolding Schema.get_schema_versions
  versions_reads id t =
      let c = over x wire w in
      let print : List Version → Action (Server x.Db) (Unit {0}) =
        λ versions. println_all (map w.version_text (Schema.sort x.version_le versions)) in
      answered_registry t.registry
        (map_err refused (Queries.get_schema_versions x wire (w.uuid_text id) t.registry).0)
        (λ texts. lift (Schema.parse_versions c texts) >>= print) _
        (λ texts u.
          answered_registry u.registry (Schema.parse_versions c texts) print u
            (λ versions v. println_all_registry _ v) refl)
        (get_schema_versions_unchanged x wire (w.uuid_text id) t.registry)

  validate_reads :
      (id : ℕ) (file : Option String) (t : Terminal (Server x.Db))
      → (Schema.validate_value (over x wire w) id file t).1.registry ≡ t.registry
  unfolding Schema.validate_value
  validate_reads id file t = elim (Result-cases (read_json (over x wire w) file)) [
    | inr (reason, e) ↦ rw (e, Schema.validate_value) refl
    | inl (value, e) ↦ elim (Result-cases (w.json_text value)) [
      | inr (reason, f) ↦ rw (e, f, Schema.validate_value) refl
      | inl (text, f) ↦
          rw (e, f, Schema.validate_value)
            (ground (
              arith,
              validate_value_unchanged x wire (record { schema_id = w.uuid_text id; value = text })
                  t.registry,
            ))
    ]
  ]

  -- The actions that print schemas, their topics, addresses, types and versions, or views, or validate
  -- a value, leave the registry as it was, whether they succeed or not.
  pub main_reads :
      {action : Args.Action} (t : Terminal (Server x.Db))
      → IsReading action
      → (Args.main (over x wire w) action t).1.registry ≡ t.registry
  unfolding Args.main Args.schema_action Args.view_action Schema.get_schema Schema.get_schema_topic
      Schema.get_schema_query_address Schema.get_schema_type Schema.get_schema_names
      View.get_schema_views View.get_view
  main_reads t names =
      answered_registry t.registry _ _ _ (λ found. print_entries_registry _ _ found)
        (get_all_schema_names_unchanged x wire t.registry)
  main_reads t (get id version) = ground (
    arith,
    get_schema_unchanged x wire
        (record { id = w.uuid_text id; version_req = Schema.or_any w.any_version version })
        t.registry,
  )
  main_reads t (get_topic id) =
      ground (arith, get_schema_topic_unchanged x wire (w.uuid_text id) t.registry)
  main_reads t (get_query_address id) =
      ground (arith, get_schema_query_address_unchanged x wire (w.uuid_text id) t.registry)
  main_reads t (get_schema_type id) =
      ground (arith, get_schema_type_unchanged x wire (w.uuid_text id) t.registry)
  main_reads t (versions id) = versions_reads id t
  main_reads t (validate id file) = validate_reads id file t
  main_reads t (view_names id) =
      answered_registry t.registry _ _ _ (λ found. print_entries_registry _ _ found)
        (get_all_views_of_schema_unchanged x wire (w.uuid_text id) t.registry)
  main_reads t (get_view id) = ground (arith, get_view_unchanged x wire (w.uuid_text id) t.registry)
