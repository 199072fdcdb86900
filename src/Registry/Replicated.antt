-- ===== src/Registry/Replicated.antt =====
-- Whether a replica that applies an event follows its master: crates/schema-registry/src/rpc.rs
-- against src/replication/slave.rs.
use common_data_layer.Prelude.{ℕ, String, ◌≡◌, refl, ap, ◌∙◌, Option, none, some, arith}
use common_data_layer.Exec.{Result, ok, err, map_err, when_some, ◌>>◌, continue-ok}
use common_data_layer.Registry.Externals.{Externals}
use common_data_layer.Registry.Replication.{ReplicationEvent, ReplicationState, replicate_message}
use common_data_layer.Registry.Db
use common_data_layer.Registry.Update
use common_data_layer.Registry.Replica.{apply_event}
use common_data_layer.Registry.Wire.{Wire, SchemaMetadataUpdate, to_status}
use common_data_layer.Registry.Rpc.{
  Server, Handler, on_db, replicate, update_schema_metadata, parse_uuid, check_topic, set_type,
}

pub map_err-ok :
    {E F A : Type 0} (f : E → F) (r : Result E A) (a : A) → map_err f r ≡ ok a → r ≡ ok a
map_err-ok f (ok b) a h = cc
map_err-ok f (err e) a h = cc

module _ (x : Externals) (w : Wire) where
  -- The handler's part does to the store what the replica's part does, and `k` to the replication.
  record Follows (k : ReplicationState → ReplicationState) (m : Handler x w (Unit {0}))
      (n : Db.Op x (Unit {0})) : Type 0 where
    at :
        (s : Server x.Db)
        → (m s).0 ≡ ok tt
        → (n s.db ≡ (ok tt, (m s).1.db)) × ((m s).1.replication ≡ k s.replication)

  Follows-when_some :
      {A : Type 0} (o : Option A) (n : A → Db.Op x (Unit {0}))
      → Follows (λ r. r) (when_some o (λ a. on_db x w (n a))) (when_some o n)
  Follows-when_some none n = record { at = λ s h. (refl, refl) }
  Follows-when_some (some a) n = record {
    at = λ s h. (λ i. (map_err-ok to_status (n a s.db).0 tt h i, (n a s.db).1), refl);
  }

  Follows-then :
      {k : ReplicationState → ReplicationState} (m m' : Handler x w (Unit {0}))
      (n n' : Db.Op x (Unit {0}))
      → Follows (λ r. r) m n
      → Follows k m' n'
      → Follows k (m >> m') (n >> n')
  Follows-then {k} m m' n n' f f' = record {
    at = λ s h.
        let c = continue-ok (m s).0 (λ _. m') (m s).1 tt h in
        let a = f.at s c.1 in let b = f'.at (m s).1 c.2 in rw (c.1, a.0) (b.0, b.1 ∙ ap k a.1);
  }

  Follows-check :
      {k : ReplicationState → ReplicationState} (g m : Handler x w (Unit {0}))
      (n : Db.Op x (Unit {0}))
      → ((s : Server x.Db) → (g s).1 ≡ s)
      → Follows k m n
      → Follows k (g >> m) n
  Follows-check {k} g m n same f = record {
    at = λ s h.
        let c = continue-ok (g s).0 (λ _. m) (g s).1 tt h in
        rw (c.1, same s) (f.at s (rw (same s) at c.2));
  }

  check_topic_same : (o : Option String) (s : Server x.Db) → (when_some o (check_topic x w) s).1 ≡ s
  unfolding check_topic
  check_topic_same none s = refl
  check_topic_same (some topic) s = ground arith

  last :
      (event : ReplicationEvent) (id : ℕ) (number : Option ℕ)
      → number ≡ none
      → Follows
          (replicate_message event)
          (set_type x w id number >> replicate x w event)
          (λ db. (ok tt, db))
  unfolding set_type
  last event id number e = record { at = λ s h. rw e (refl, refl) }

module _ (x : Externals) (w : Wire) (parse : String → Option ReplicationEvent) where
  -- When a change of a schema's metadata that names no new type succeeds, the one event handed to
  -- replication takes a replica that had the master's contents to the master's new contents.
  pub update_schema_metadata-follows :
      (request : SchemaMetadataUpdate) (s : Server x.Db)
      → request.schema_type ≡ none
      → (update_schema_metadata x w request s).0 ≡ ok tt
      → (event : ReplicationEvent) × ((update_schema_metadata x w request s).1.replication
          ≡ replicate_message event s.replication)
        × (apply_event x parse event s.db ≡ (ok tt, (update_schema_metadata x w request s).1.db))
  unfolding update_schema_metadata set_type apply_event
  update_schema_metadata-follows request s e h =
      let c = continue-ok (parse_uuid x w request.id) _ s tt h in
      let event : ReplicationEvent =
        ReplicationEvent.update_schema_metadata c.0 request.name request.topic request.address
          none in
      let f =
        (Follows-check x w (when_some request.topic (check_topic x w)) _ _
            (check_topic_same x w request.topic)
            (Follows-then x w _ _ _ _
              (Follows-when_some x w request.name (Update.update_schema_name x c.0))
              (Follows-then x w _ _ _ _
                (Follows-when_some x w request.topic (Update.update_schema_topic x c.0))
                (Follows-then x w _ _ _ _
                  (Follows-when_some x w request.address (Update.update_schema_query_address x c.0))
                  (last x w event c.0 request.schema_type e))))).at
          s c.2 in
      rw c.1 (event, f.1, f.0)
