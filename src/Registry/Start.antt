-- ===== src/Registry/Start.antt =====
-- The start of the schema registry: crates/schema-registry/src/main.rs up to the serving, and
-- `SchemaRegistryImpl::new` of rpc.rs. The reading of the environment, Sled, the clients that fetch
-- metadata, the files and the format of an export are parameters; the ports of the metrics and of the
-- status are left out.
pub mod Restart
mod Tests
use common_data_layer.Prelude.{ℕ, String, Option, none, some, if◌then◌else◌, str_eq}
use common_data_layer.Exec.{
  Result, ok, err, map_err, ok_or, Exec, pure, lift, when_some, ◌>>=◌, ◌>>◌, Fault, aborts, fails,
}
use common_data_layer.Fallible.{◌>>=◌ as and_then}
use common_data_layer.Registry.Types.{RegistryError, connection_error, DbExport}
use common_data_layer.Registry.Externals.{Externals}
use common_data_layer.Registry.Replication.{ReplicationRole, new, set_role}
use common_data_layer.Registry.Db
use common_data_layer.Registry.Transfer
use common_data_layer.Registry.Rpc.{Server}

pub data MessageQueueType : Type 0 where
  kafka_type amqp_type : MessageQueueType

pub data MessageQueue : Type 0 where
  kafka : (brokers group_id : String) → MessageQueue
  amqp : (connection_string consumer_tag : String) → MessageQueue

pub record MessageQueueConfig : Type 0 where
  pub queue : MessageQueue
  pub topic_or_queue : String
  pub topic_or_exchange : String

pub record Config : Type 0 where
  pub input_port : ℕ
  pub db_name : String
  pub replication_role : ReplicationRole
  pub replication_queue : MessageQueueType
  pub kafka_brokers : Option String
  pub kafka_group_id : Option String
  pub amqp_connection_string : Option String
  pub amqp_consumer_tag : Option String
  pub replication_topic_or_queue : String
  pub replication_topic_or_exchange : String
  pub pod_name : Option String
  pub export_dir : Option String
  pub import_file : Option String

-- What ends the start; the texts that `context` adds are the constructors.
pub data StartError : Type 0 where
  env_vars_not_set : String → StartError
  missing_kafka_brokers missing_kafka_group : StartError
  missing_amqp_connection_string missing_amqp_consumer_tag : StartError
  registry_error : RegistryError → StartError
  no_metadata : String → StartError
  io_error json_error : String → StartError

-- The deserialization of `MessageQueueType` from a text in lower case.
unfoldable pub message_queue_type : String → Result String MessageQueueType
message_queue_type s =
    if str_eq s "kafka" then ok kafka_type else if str_eq s "amqp" then ok amqp_type else err s

unfoldable pub message_queue : Config → Result StartError MessageQueue
message_queue config = elim config.replication_queue [
  | kafka_type ↦ and_then (ok_or config.kafka_brokers missing_kafka_brokers) λ brokers.
      and_then (ok_or config.kafka_group_id missing_kafka_group)
        λ group_id. ok (kafka brokers group_id)
  | amqp_type ↦
      and_then (ok_or config.amqp_connection_string missing_amqp_connection_string)
        λ connection_string.
          and_then (ok_or config.amqp_consumer_tag missing_amqp_consumer_tag)
            λ consumer_tag. ok (amqp connection_string consumer_tag)
]

unfoldable pub message_queue_config : Config → Result StartError MessageQueueConfig
message_queue_config config = and_then (message_queue config) λ queue. ok (record {
  queue = queue;
  topic_or_exchange = config.replication_topic_or_exchange;
  topic_or_queue = config.replication_topic_or_queue;
})

-- What the start calls, over the state `Files` of the file system.
pub record Environment (Db Files : Type 0) : Type 0 where
  pub open_store : String → Db → Result String (Unit {0})
  pub fetch_kafka : String → Result String (Unit {0})
  pub fetch_amqp : String → Result String (Unit {0})
  pub export_text : DbExport → Result String String
  pub read_export : String → Result String DbExport
  -- The path of a new file in this folder, with the time in its name
  pub export_path : String → Files → String
  pub create : String → Exec Files String (Unit {0})
  pub write : String → String → Exec Files String (Unit {0})
  pub read : String → Files → Result String String

-- The contents of the store, with the state of the replication, and the files.
pub record Process (Db Files : Type 0) : Type 0 where
  pub server : Server Db
  pub files : Files

module _ (x : Externals) {Files : Type 0} (env : Environment x.Db Files) where
  abbrev pub Start : Type 0 → Type 0
  Start A = Exec (Process x.Db Files) (Fault StartError) A

  abbrev pub on_store : {A : Type 0} → Db.Op x A → Start A
  on_store m s =
      let (r, db) = m s.server.db in
      (
        map_err (λ e. fails (registry_error e)) r,
        record s { server = record (s.server) { db = db } },
      )

  abbrev pub on_files : {A : Type 0} → Exec Files String A → Start A
  on_files m s =
      let (r, files) = m s.files in
      (map_err (λ e. fails (io_error e)) r, record s { files = files })

  unfoldable pub fetch : MessageQueue → Result String (Unit {0})
  fetch (kafka brokers group_id) = env.fetch_kafka brokers
  fetch (amqp connection_string consumer_tag) = env.fetch_amqp connection_string

  -- `SchemaRegistryImpl::new`
  unfoldable pub new_registry : ReplicationRole → MessageQueueConfig → Start (Unit {0})
  new_registry replication_role config s = elim (fetch config.queue) [
    | err e ↦ (err (fails (no_metadata e)), s)
    | ok u ↦ elim (set_role replication_role new) [
      | none ↦ (err aborts, s)
      | some replication ↦
          (ok tt, record s { server = record (s.server) { replication = replication } })
    ]
  ]

  unfoldable pub export_to : String → Start (Unit {0})
  export_to export_dir_path = do
    exported ← on_store (Transfer.export_all x)
    text ← lift (map_err (λ e. fails (json_error e)) (env.export_text exported))
    path ← on_files (λ files. (ok (env.export_path export_dir_path files), files))
    on_files (env.create path)
    on_files (env.write path text)

  unfoldable pub import_from : String → Start (Unit {0})
  import_from import_path = do
    text ← on_files (λ files. (env.read import_path files, files))
    imported ← lift (map_err (λ e. fails (json_error e)) (env.read_export text))
    on_store (Transfer.import_all x imported)

  -- The port at which the registry is about to serve.
  unfoldable pub main : Result String Config → Start ℕ
  main from_env = do
    config ← lift (map_err (λ e. fails (env_vars_not_set e)) from_env)
    replication_config ← lift (map_err fails (message_queue_config config))
    on_store (λ db. (map_err connection_error (env.open_store config.db_name db), db))
    new_registry config.replication_role replication_config
    when_some config.export_dir export_to
    when_some config.import_file import_from
    pure config.input_port
