-- ===== src/Registry/Reading.antt =====
-- The methods of crates/schema-registry/src/db.rs that read, and the handlers over them in rpc.rs,
-- leave the registry as it is.
use common_data_layer.Prelude.{String, ◌≡◌, arith}
use common_data_layer.Registry.Externals.{Externals}
use common_data_layer.Registry.Db
use common_data_layer.Registry.Wire.{Wire, ValueToValidate}
use common_data_layer.Registry.Rpc.{Server}
use common_data_layer.Registry.Rpc.Queries
use common_data_layer.Registry.Rpc.Queries.{VersionedId}

module _ (x : Externals) (w : Wire) where
  pub get_schema_unchanged :
      (request : VersionedId) (s : Server x.Db) → (Queries.get_schema x w request s).1 ≡ s
  unfolding Queries.get_schema Db.get_schema_definition Db.get_latest_valid_schema_version
      Db.get_schema_versions Db.connect
  get_schema_unchanged request s = ground arith

  pub get_schema_metadata_unchanged :
      (id : String) (s : Server x.Db) → (Queries.get_schema_metadata x w id s).1 ≡ s
  unfolding Queries.get_schema_metadata Db.get_schema Db.connect
  get_schema_metadata_unchanged id s = ground arith

  pub get_schema_topic_unchanged :
      (id : String) (s : Server x.Db) → (Queries.get_schema_topic x w id s).1 ≡ s
  unfolding Queries.get_schema_topic Db.get_schema_property Db.connect
  get_schema_topic_unchanged id s = ground arith

  pub get_schema_query_address_unchanged :
      (id : String) (s : Server x.Db) → (Queries.get_schema_query_address x w id s).1 ≡ s
  unfolding Queries.get_schema_query_address Db.get_schema_property Db.connect
  get_schema_query_address_unchanged id s = ground arith

  pub get_schema_versions_unchanged :
      (id : String) (s : Server x.Db) → (Queries.get_schema_versions x w id s).1 ≡ s
  unfolding Queries.get_schema_versions Db.get_schema_versions Db.connect
  get_schema_versions_unchanged id s = ground arith

  pub get_schema_type_unchanged :
      (id : String) (s : Server x.Db) → (Queries.get_schema_type x w id s).1 ≡ s
  unfolding Queries.get_schema_type Db.get_schema_property Db.connect
  get_schema_type_unchanged id s = ground arith

  pub get_view_unchanged : (id : String) (s : Server x.Db) → (Queries.get_view x w id s).1 ≡ s
  unfolding Queries.get_view Db.get_view Db.connect
  get_view_unchanged id s = ground arith

  pub get_all_schemas_unchanged : (s : Server x.Db) → (Queries.get_all_schemas x w s).1 ≡ s
  unfolding Queries.get_all_schemas Db.get_all_schemas Db.connect
  get_all_schemas_unchanged s = ground arith

  pub get_all_schema_names_unchanged :
      (s : Server x.Db) → (Queries.get_all_schema_names x w s).1 ≡ s
  unfolding Queries.get_all_schema_names Db.get_all_schema_names Db.connect
  get_all_schema_names_unchanged s = ground arith

  pub get_all_views_of_schema_unchanged :
      (id : String) (s : Server x.Db) → (Queries.get_all_views_of_schema x w id s).1 ≡ s
  unfolding Queries.get_all_views_of_schema Db.get_all_views_of_schema Db.ensure_schema_exists
      Db.connect
  get_all_views_of_schema_unchanged id s = ground arith

  pub validate_value_unchanged :
      (request : ValueToValidate) (s : Server x.Db) → (Queries.validate_value x w request s).1 ≡ s
  unfolding Queries.validate_value Db.get_schema_definition Db.get_latest_valid_schema_version
      Db.get_schema_versions Db.connect
  validate_value_unchanged request s = ground arith
