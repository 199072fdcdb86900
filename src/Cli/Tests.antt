-- ===== src/Cli/Tests.antt =====
-- The command line client over a registry in memory that has the schema 7.
use mathlib.Core.List.{Perm}
use common_data_layer.Prelude.{◌≡◌, refl, ap, some, List, [], ◌∷◌, ◌++◌, map}
use common_data_layer.Json.{null}
use common_data_layer.Exec.{ok, err}
use common_data_layer.Registry.Types.{Version}
use common_data_layer.Registry.Replication
use common_data_layer.Registry.Memory.Instance.{
  memory, memory_codec, memory_order, version_le, unary, count-unary,
}
use common_data_layer.Registry.Memory.Graph.{memory_graph}
use common_data_layer.Registry.Rpc.{Server}
use common_data_layer.Registry.Tests.{wire, added, added_versions, added_exists, one_zero_zero}
use common_data_layer.RpcClients.SchemaRegistry.{served}
use common_data_layer.Cli.{World, Terminal}
use common_data_layer.Cli.Schema.{get_schema_versions, set_schema_topic, get_schema_topic}
use common_data_layer.Cli.Sorted.{IsAscending}
use common_data_layer.Cli.Args
use common_data_layer.Cli.Args.{main, schema}
use common_data_layer.Cli.Reading.{versions, main_reads}
use common_data_layer.Cli.Printed.{
  over, get_schema_versions-printed, set_schema_topic-get_schema_topic,
}

abbrev world : World (Server memory.Db)
world = record {
  connect = ok tt;
  client = served memory wire;
  open_file = λ s. err "no such file";
  stdin = "null";
  json_parse = λ s. ok null;
  json_text = λ v. ok "null";
  json_pretty = λ v. "null";
  version_parse = λ s. ok one_zero_zero;
  version_text = λ v. "1.0.0";
  version_le = version_le;
  any_version = "*";
  uuid_text = unary;
}

abbrev terminal : Terminal (Server memory.Db)
terminal = record {
  registry = record { db = added; replication = Replication.new };
  stdout = [];
  stderr = [];
}

get_schema_versions-printed_example :
    (printed : List Version) × (get_schema_versions (over memory wire world) 7 terminal
      ≡ (ok tt, record terminal { stdout = [] ++ map world.version_text printed }))
    × Perm printed (one_zero_zero ∷ [])
    × IsAscending memory.version_le printed
get_schema_versions-printed_example =
    get_schema_versions-printed memory wire world memory_order 7 ((one_zero_zero, 8) ∷ []) terminal
      (ap some (count-unary 7)) added_versions (refl, tt)

set_schema_topic-get_schema_topic_example :
    (t' : Terminal (Server memory.Db)) × (set_schema_topic
        (over memory wire world)
        7
        "topic"
        terminal
      ≡ (ok tt, t'))
    × (get_schema_topic (over memory wire world) 7 t'
        ≡ (ok tt, record t' { stdout = t'.stdout ++ "topic" ∷ [] }))
set_schema_topic-get_schema_topic_example =
    set_schema_topic-get_schema_topic memory wire world memory_graph memory_codec 7 "topic" "SCHEMA"
      terminal (ap some (count-unary 7)) added_exists refl

main_reads_example :
    (main (over memory wire world) (schema (Args.versions 7)) terminal).1.registry
    ≡ terminal.registry
main_reads_example = main_reads memory wire world terminal (versions 7)
