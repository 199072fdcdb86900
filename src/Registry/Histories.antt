-- ===== src/Registry/Histories.antt =====
-- A replica that consumes the events of its master: the changes that crates/schema-registry/src/rpc.rs
-- accepts, one after the other, and the loop of src/replication/slave.rs.
use common_data_layer.Prelude.{
  ℕ, String, ◌≡◌, refl, sym, ◌∙◌, Bool, true, false, Option, none, some, if◌then◌else◌,
}
use common_data_layer.Exec.{ok, continue-ok, ok-injective, ◌>>=◌, ◌>>◌, pure, raise, lift, Exec}
use common_data_layer.Registry.Types.{View, ViewUpdate, duplicated_uuid}
use common_data_layer.Registry.Externals.{Externals}
use common_data_layer.Registry.Storage.{Vertex, view_vertex, schema_view_edge}
use common_data_layer.Registry.Replication.{ReplicationEvent, replicate_message}
use common_data_layer.Registry.Db
use common_data_layer.Registry.Update
use common_data_layer.Registry.Replica.{apply_event}
use common_data_layer.Registry.Wire.{
  Wire, SchemaMetadataUpdate, NewSchemaView, UpdatedView, to_status,
}
use common_data_layer.Registry.Rpc
use common_data_layer.Registry.Rpc.{Server, Handler, on_db, parse_uuid, parse_optional_uuid}
use common_data_layer.Registry.Replicated.{map_err-ok, update_schema_metadata-follows}

-- What a sequence that succeeds did first and then.
bind-ok :
    {S E A B : Type 0} (m : Exec S E A) (f : A → Exec S E B) (s : S) (b : B)
    → ((m >>= f) s).0 ≡ ok b
    → (a : A) × ((m s).0 ≡ ok a) × ((f a (m s).1).0 ≡ ok b)
bind-ok m f s b h = continue-ok (m s).0 f (m s).1 b h

module _ (x : Externals) where
  inserted-id :
      (inserted : Bool) (uuid id : ℕ) (db : x.Db)
      → ((if inserted then pure uuid else raise (duplicated_uuid uuid)) db).0 ≡ ok id
      → id ≡ uuid
  inserted-id true uuid id db h = sym (ok-injective h)
  inserted-id false uuid id db h = cc

  new_vertex-id :
      (t : String) (uuid id : ℕ) (db : x.Db)
      → (Db.new_vertex x t (some uuid) db).0 ≡ ok id
      → id ≡ uuid
  unfolding Db.new_vertex
  new_vertex-id t uuid id db h =
      let m : Db.Op x Bool = Db.update x (x.create_vertex (record { id = uuid; t = t })) in
      let c = bind-ok m _ db id h in inserted-id c.0 uuid id (m db).1 c.2

  create_vertex-id :
      {V : Type 0} (trait : Vertex V) (v : V) (uuid id : ℕ) (db : x.Db)
      → (Db.create_vertex_with_properties x trait v (some uuid) db).0 ≡ ok id
      → id ≡ uuid
  unfolding Db.create_vertex_with_properties
  create_vertex-id trait v uuid id db h =
      let connected = bind-ok (Db.connect x) _ db id h in
      let created = bind-ok (Db.new_vertex x trait.db_type (some uuid)) _ _ id connected.2 in
      let set = bind-ok (Db.set_each x created.0 (trait.into_properties v)) _ _ id created.2 in
      sym (ok-injective set.2) ∙ new_vertex-id trait.db_type uuid created.0 _ created.1

  add_view-id :
      (schema_id uuid id : ℕ) (view : View) (db : x.Db)
      → (Update.add_view_to_schema x schema_id view (some uuid) db).0 ≡ ok id
      → id ≡ uuid
  unfolding Update.add_view_to_schema
  add_view-id schema_id uuid id view db h =
      let exists = bind-ok (Db.ensure_schema_exists x schema_id) _ db id h in
      let valid = bind-ok (Update.validate_view x view.jmespath) _ _ id exists.2 in
      let created =
        bind-ok (Db.create_vertex_with_properties x (view_vertex x) view (some uuid)) _ _ id
          valid.2 in
      let set =
        bind-ok
          (Db.set_edge_properties x schema_view_edge
            (record { schema_id = schema_id; view_id = created.0 }))
          _ _ id created.2 in
      sym (ok-injective set.2) ∙ create_vertex-id (view_vertex x) view uuid created.0 _ created.1

-- A change that a client asks the master for.
pub data Change : Type 0 where
  metadata : SchemaMetadataUpdate → Change
  new_view : NewSchemaView → Change
  view : UpdatedView → Change

module _ (x : Externals) (w : Wire) where
  abbrev pub answer : Change → Handler x w (Unit {0})
  answer (metadata request) = Rpc.update_schema_metadata x w request
  answer (new_view request) = do Rpc.add_view_to_schema x w request; pure tt
  answer (view request) = do Rpc.update_view x w request; pure tt

  -- The change names all that the store would choose itself, and no new type of a schema.
  abbrev pub IsDetermined : Change → Type 0
  IsDetermined (metadata request) = request.schema_type ≡ none
  IsDetermined (new_view request) =
      (uuid : ℕ) × (parse_optional_uuid x w request.view_id ≡ ok (some uuid))
  IsDetermined (view request) = Unit

  -- The changes, of which each succeeds, lead from one state of the master to another.
  pub data History : Server x.Db → Server x.Db → Type 0 where
    done : {s : Server x.Db} → History s s
    next :
        {s u : Server x.Db} (change : Change)
        → IsDetermined change
        → (answer change s).0 ≡ ok tt
        → History (answer change s).1 u
        → History s u

  -- The change of the store that one event stands for.
  abbrev pub Sends : (String → Option ReplicationEvent) → Server x.Db → Server x.Db → Type 0
  Sends parse s s' =
      (event : ReplicationEvent) × (s'.replication ≡ replicate_message event s.replication)
      × (apply_event x parse event s.db ≡ (ok tt, s'.db))

  module _ (parse : String → Option ReplicationEvent) where
    update_view-Sends :
        (request : UpdatedView) (s : Server x.Db) (old : View)
        → (Rpc.update_view x w request s).0 ≡ ok old
        → Sends parse s (Rpc.update_view x w request s).1
    unfolding Rpc.update_view apply_event
    update_view-Sends request s old h =
        let id = bind-ok (lift (parse_uuid x w request.id)) _ s old h in
        let change : ViewUpdate = record { name = request.name; jmespath = request.jmespath } in
        let m = Update.update_view x id.0 change in
        let old_view = bind-ok (on_db x w m) _ s old id.2 in
        let stored = map_err-ok to_status (m s.db).0 old_view.0 old_view.1 in
        rw (id.1, stored) (ReplicationEvent.update_view id.0 change, refl, rw stored refl)

    add_view-Sends :
        (request : NewSchemaView) (s : Server x.Db) (uuid : ℕ) (text : String)
        → parse_optional_uuid x w request.view_id ≡ ok (some uuid)
        → (Rpc.add_view_to_schema x w request s).0 ≡ ok text
        → Sends parse s (Rpc.add_view_to_schema x w request s).1
    unfolding Rpc.add_view_to_schema apply_event
    add_view-Sends request s uuid text given h =
        let schema_id = bind-ok (lift (parse_uuid x w request.schema_id)) _ s text h in
        let asked = bind-ok (lift (parse_optional_uuid x w request.view_id)) _ s text schema_id.2 in
        let added : View = record { name = request.name; jmespath = request.jmespath } in
        let m = Update.add_view_to_schema x schema_id.0 added (some uuid) in
        let view_id =
          bind-ok (on_db x w m) _ s text (rw (ok-injective (sym asked.1 ∙ given)) at asked.2) in
        let stored = map_err-ok to_status (m s.db).0 view_id.0 view_id.1 in
        let same = add_view-id x schema_id.0 uuid view_id.0 added s.db stored in
        rw (schema_id.1, given, stored)
          (ReplicationEvent.add_view_to_schema schema_id.0 added uuid, rw same refl, rw stored refl)

    pub change-Sends :
        (change : Change) (s : Server x.Db)
        → IsDetermined change
        → (answer change s).0 ≡ ok tt
        → Sends parse s (answer change s).1
    change-Sends (metadata request) s d h = update_schema_metadata-follows x w parse request s d h
    change-Sends (new_view request) s d h =
        let c = bind-ok (Rpc.add_view_to_schema x w request) (λ text. pure tt) s tt h in
        rw c.1 (add_view-Sends request s d.0 c.0 d.1 c.1)
    change-Sends (view request) s d h =
        let c = bind-ok (Rpc.update_view x w request) (λ old. pure tt) s tt h in
        rw c.1 (update_view-Sends request s c.0 c.1)
