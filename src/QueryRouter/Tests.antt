-- ===== src/QueryRouter/Tests.antt =====
-- The theorems on the query router at a registry that knows one schema and a service with one object.
use common_data_layer.Prelude.{String, none, List, [], ◌∷◌, ◌==◌, if◌then◌else◌}
use common_data_layer.Json.{null}
use common_data_layer.Exec.{ok, err}
use common_data_layer.Cache.{IsCoherent}
use common_data_layer.Cache.Single.{single, single_laws}
use common_data_layer.Registry.Types.{document_storage}
use common_data_layer.QueryRouter.{
  World, Info, empty, query_single, query_multiple, query_by_schema, query_raw,
}
use common_data_layer.QueryRouter.Uncached.{
  ask, Answers, uncached_single, uncached_multiple, uncached_by_schema, uncached_raw,
  handlers-uncached,
}

abbrev values : List (String × String)
values = ("id", "null") ∷ []

abbrev world : World
world = record {
  registry = record {
    reach = ok tt;
    get_schema_query_address = λ id. if id == 7 then ok "http://query" else err "no schema";
    get_schema_type = λ id. ok document_storage;
  };
  query_service = record {
    reach = λ addr. ok tt;
    multiple = λ addr ids. ok values;
    by_schema = λ addr id. ok values;
    raw = λ addr statement. ok "[]";
  };
  query_service_ts = record {
    reach = λ addr. err "no service";
    by_range = λ addr range. ok "";
    by_schema = λ addr id. ok "";
    raw = λ addr statement. ok "";
  };
  from_slice = λ bytes. ok null;
  to_vec = λ json. ok "{}";
  uuid_text = λ id. "id";
}

idle-IsCoherent : IsCoherent (single {V = Info}) single_laws (ask world) none
idle-IsCoherent j v h = cc

handlers-uncached_example :
    Answers world single single_laws
      (uncached_single world single single_laws 1 7 empty)
      (query_single world single 1 7 empty none)
    × Answers world single single_laws
        (uncached_multiple world single single_laws "id,other" 7)
        (query_multiple world single "id,other" 7 none)
    × Answers world single single_laws
        (uncached_by_schema world single single_laws 7)
        (query_by_schema world single 7 none)
    × Answers world single single_laws
        (uncached_raw world single single_laws 7 empty)
        (query_raw world single 7 empty none)
handlers-uncached_example =
    handlers-uncached world single single_laws 1 7 "id,other" empty none idle-IsCoherent
