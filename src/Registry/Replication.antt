-- ===== src/Registry/Replication.antt =====
-- crates/schema-registry/src/replication: the events, the role of a replica with the channels to its
-- worker (mod.rs), and the key of an event (master.rs). The loop of the slave is in `Registry.Replica`.
use common_data_layer.Prelude.{
  ℕ, zero, suc, String, Bool, true, false, Option, none, some, List, [], ◌∷◌, ◌++◌, length,
  get_elem?, if◌then◌else◌,
}
use common_data_layer.Registry.Types.{NewSchema, NewSchemaVersion, SchemaType, View, ViewUpdate}

pub data ReplicationEvent : Type 0 where
  add_schema : NewSchema → ℕ → ReplicationEvent
  add_schema_version : ℕ → NewSchemaVersion → ReplicationEvent
  update_schema_metadata :
      ℕ → Option String → Option String → Option String → Option SchemaType → ReplicationEvent
  add_view_to_schema : ℕ → View → ℕ → ReplicationEvent
  update_view : ℕ → ViewUpdate → ReplicationEvent

pub data ReplicationRole : Type 0 where
  master slave unreplicated : ReplicationRole

-- The far ends of the channels of one started worker: the events sent to it, whether the stop signal
-- was sent, and whether its receivers still exist.
pub record Worker : Type 0 where
  pub events : List ReplicationEvent
  pub stopped : Bool
  pub receiving : Bool

-- A channel is the place of its worker in `workers`, in the order in which they were started.
pub record ReplicationState : Type 0 where
  pub replication_role : ReplicationRole
  pub stop_channel : Option ℕ
  pub master_replication_channel : Option ℕ
  pub workers : List Worker

abbrev pub new : ReplicationState
new = record {
  replication_role = unreplicated;
  stop_channel = none;
  master_replication_channel = none;
  workers = [];
}

-- A worker as it is started: its receivers exist as long as its thread or its task does.
abbrev pub fresh_worker : Worker
fresh_worker = record { events = []; stopped = false; receiving = true }

-- A change of one worker, and whether it was there to be changed.
unfoldable pub at_worker : ℕ → (Worker → Worker) → List Worker → List Worker
at_worker i f [] = []
at_worker zero f (w ∷ ws) = f w ∷ ws
at_worker (suc i) f (w ∷ ws) = w ∷ at_worker i f ws

-- `send` fails exactly if the receiver is gone.
unfoldable pub is_receiving : ℕ → List Worker → Bool
is_receiving i ws = elim (get_elem? ws i) [ none ↦ false | some w ↦ w.receiving ]

-- The receivers of a worker are dropped. The thread of a master drops its receivers as soon as it
-- runs, since it ends with the future of `replicate_db_events`, which nothing polls.
abbrev pub gone : Worker → Worker
gone w = record w { receiving = false }

abbrev pub thread_ended : ℕ → ReplicationState → ReplicationState
thread_ended i s = record s { workers = at_worker i gone s.workers }

-- `old_channel.send(()).unwrap()`: `none` is the panic.
unfoldable pub stop_worker : ReplicationState → Option ReplicationState
stop_worker s = elim s.stop_channel [
  | none ↦ some s
  | some i ↦
      if is_receiving i s.workers
      then some (record s {
        stop_channel = none;
        workers = at_worker i (λ w. record w { stopped = true }) s.workers;
      })
      else none
]

unfoldable pub start_worker : ReplicationRole → ReplicationState → ReplicationState
start_worker master s = record s {
  stop_channel = some (length s.workers);
  master_replication_channel = some (length s.workers);
  workers = s.workers ++ fresh_worker ∷ [];
}
start_worker slave s = record s {
  stop_channel = some (length s.workers);
  workers = s.workers ++ fresh_worker ∷ [];
}
start_worker unreplicated s = s

unfoldable pub set_role : ReplicationRole → ReplicationState → Option ReplicationState
set_role role s = elim (stop_worker s) [
  | none ↦ none
  | some s' ↦ some (
      start_worker role (record s' {
        stop_channel = none;
        master_replication_channel = none;
        replication_role = role;
      }))
]

-- A failed `send` is logged and forgotten.
unfoldable pub replicate_message : ReplicationEvent → ReplicationState → ReplicationState
replicate_message event s = elim s.replication_role [
  | master ↦ elim s.master_replication_channel [
    | none ↦ s
    | some i ↦
        if is_receiving i s.workers
        then record s {
          workers = at_worker i (λ w. record w { events = w.events ++ event ∷ [] }) s.workers;
        }
        else s
  ]
  | slave ↦ s
  | unreplicated ↦ s
]

-- The events, handed to the replication one after the other.
unfoldable pub handed : List ReplicationEvent → ReplicationState → ReplicationState
handed [] r = r
handed (event ∷ events) r = handed events (replicate_message event r)

-- `send_messages_to_kafka` of master.rs: the id by which the event is keyed.
unfoldable pub event_key : ReplicationEvent → ℕ
event_key (add_schema schema id) = id
event_key (add_schema_version id version) = id
event_key (update_schema_metadata id name topic address schema_type) = id
event_key (add_view_to_schema schema_id view view_id) = schema_id
event_key (update_view id view) = id
