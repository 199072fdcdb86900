-- ===== src/Registry/Roles/Tests.antt =====
-- A slave that becomes a master: the theorem on what its replication is worth then.
use common_data_layer.Prelude.{◌≡◌, refl, true, none, some, [], ◌∷◌}
use common_data_layer.Registry.Replication.{
  ReplicationEvent, ReplicationState, master, slave, fresh_worker, set_role, stop_worker,
  start_worker, is_receiving, at_worker, thread_ended, handed,
}
use common_data_layer.Registry.Roles.{set_role_panics}

abbrev as_slave : ReplicationState
as_slave = record {
  replication_role = slave;
  stop_channel = some 0;
  master_replication_channel = none;
  workers = fresh_worker ∷ [];
}

abbrev as_master : ReplicationState
as_master = record {
  replication_role = master;
  stop_channel = some 1;
  master_replication_channel = some 1;
  workers = record fresh_worker { stopped = true } ∷ fresh_worker ∷ [];
}

as_slave_promoted : set_role master as_slave ≡ some as_master
unfolding set_role stop_worker start_worker is_receiving at_worker
as_slave_promoted = refl

abbrev renames : ReplicationEvent
renames = ReplicationEvent.update_schema_metadata 7 (some "renamed") none none none

set_role_panics_example :
    let ended = thread_ended 1 as_master in
    (handed (renames ∷ []) ended ≡ ended) × (set_role slave (handed (renames ∷ []) ended) ≡ none)
set_role_panics_example = set_role_panics slave (renames ∷ []) as_slave as_master as_slave_promoted
