-- ===== src/Registry/Start/Restart.antt =====
-- What a start of the registry on a store that has schemas does to them,
-- crates/schema-registry/src/main.rs.
use common_data_layer.Prelude.{ℕ, String, ◌≡◌, refl, Option, none, some, List, ◌∷◌, arith, inl, inr}
use common_data_layer.Exec.{Result, ok, lift, pure, when_some, ◌>>=◌, ◌>>◌, Fault, Result-cases}
use common_data_layer.Registry.Types.{DbExport}
use common_data_layer.Registry.Externals.{Externals}
use common_data_layer.Registry.Replication.{ReplicationRole}
use common_data_layer.Registry.Db
use common_data_layer.Registry.Transfer
use common_data_layer.Registry.Start.{
  Config, MessageQueueConfig, message_queue_config, Environment, Process, StartError, Start,
  new_registry, export_to, import_from, main,
}

module _ (x : Externals) {Files : Type 0} (env : Environment x.Db Files) where
  -- A part of the start leaves these contents of the store as they are.
  unfoldable pub Keeps : {A : Type 0} → x.Db → Start x env A → Type 0
  Keeps db m = (s : Process x.Db Files) → s.server.db ≡ db → (m s).1.server.db ≡ db

  Keeps-then :
      {A B : Type 0} (db : x.Db) (m : Start x env A) (f : A → Start x env B)
      → Keeps db m
      → ((a : A) → Keeps db (f a))
      → Keeps db (m >>= f)
  unfolding Keeps
  Keeps-then db m f h k s e = elim (Result-cases (m s).0) [
    | inl (a, p) ↦ rw p (k a (m s).1 (h s e))
    | inr (r, p) ↦ rw p (h s e)
  ]

  lift-Keeps : {A : Type 0} (db : x.Db) (r : Result (Fault StartError) A) → Keeps db (lift r)
  unfolding Keeps
  lift-Keeps db r s e = e

  Keeps-when_some :
      {A : Type 0} (db : x.Db) (o : Option A) (f : A → Start x env (Unit {0}))
      → ((a : A) → Keeps db (f a))
      → Keeps db (when_some o f)
  unfolding Keeps
  Keeps-when_some db none f k s e = e
  Keeps-when_some db (some a) f k s e = k a s e

  new_registry-Keeps :
      (db : x.Db) (role : ReplicationRole) (config : MessageQueueConfig)
      → Keeps db (new_registry x env role config)
  unfolding Keeps new_registry
  new_registry-Keeps db role config s e = ground arith

  get_all_schema_names_kept : (db : x.Db) → (Db.get_all_schema_names x db).1 ≡ db
  unfolding Db.get_all_schema_names Db.connect
  get_all_schema_names_kept db = ground arith

  export_to-Keeps : (db : x.Db) (dir : String) → Keeps db (export_to x env dir)
  unfolding Keeps export_to Transfer.export_all Db.connect
  export_to-Keeps db dir s e = ground arith

  import_all_kept :
      (imported : DbExport) (db : x.Db) (n : ℕ × String) (ns : List (ℕ × String))
      → (Db.get_all_schema_names x db).0 ≡ ok (n ∷ ns)
      → (Transfer.import_all x imported db).1 ≡ db
  unfolding Transfer.import_all
  import_all_kept imported db n ns h = rw (Transfer.import_all, h) (get_all_schema_names_kept db)

  import_from-Keeps :
      (db : x.Db) (path : String) (n : ℕ × String) (ns : List (ℕ × String))
      → (Db.get_all_schema_names x db).0 ≡ ok (n ∷ ns)
      → Keeps db (import_from x env path)
  unfolding Keeps import_from
  import_from-Keeps db path n ns h s e = rw e (elim (Result-cases (env.read path s.files)) [
    | inr (r, p) ↦ rw (p, import_from) refl
    | inl (text, p) ↦ elim (Result-cases (env.read_export text)) [
      | inr (r, q) ↦ rw (p, q, import_from) refl
      | inl (imported, q) ↦ rw (p, q, import_from) (import_all_kept imported db n ns h)
    ]
  ])

  -- What comes after the registry was made.
  transfer : Config → Start x env ℕ
  transfer config = do
    when_some config.export_dir (export_to x env)
    when_some config.import_file (import_from x env)
    pure config.input_port

  transfer-Keeps :
      (db : x.Db) (config : Config) (n : ℕ × String) (ns : List (ℕ × String))
      → (Db.get_all_schema_names x db).0 ≡ ok (n ∷ ns)
      → Keeps db (transfer config)
  unfolding Keeps transfer
  transfer-Keeps db config n ns h =
      Keeps-then db (when_some config.export_dir (export_to x env))
        (λ u. do when_some config.import_file (import_from x env); pure config.input_port)
        (Keeps-when_some db config.export_dir (export_to x env) (export_to-Keeps db))
        λ exported.
          Keeps-then db (when_some config.import_file (import_from x env))
            (λ u. pure config.input_port)
            (Keeps-when_some db config.import_file (import_from x env)
              (λ path. import_from-Keeps db path n ns h))
            λ imported. lift-Keeps db (ok config.input_port)

  -- When the names of the schemas in the store can be read and there is one, a start of the registry
  -- leaves the contents of the store as they are, whatever its configuration says of an export or an
  -- import, and whether it succeeds or at any point fails. What a slave that it started applies
  -- meanwhile is not counted.
  pub main_restart :
      (from_env : Result String Config) (s : Process x.Db Files) (n : ℕ × String)
      (ns : List (ℕ × String))
      → (Db.get_all_schema_names x s.server.db).0 ≡ ok (n ∷ ns)
      → (main x env from_env s).1.server.db ≡ s.server.db
  unfolding Keeps main transfer
  main_restart from_env s n ns h =
      let db = s.server.db in
      elim (Result-cases from_env) [
        | inr (r, p) ↦ rw (p, main) refl
        | inl (config, p) ↦ elim (Result-cases (message_queue_config config)) [
          | inr (r, q) ↦ rw (p, q, main) refl
          | inl (queue, q) ↦ elim (Result-cases (env.open_store config.db_name db)) [
            | inr (r, o) ↦ rw (p, q, o, main) refl
            | inl (u, o) ↦
                rw (p, q, o, main)
                  (Keeps-then db (new_registry x env config.replication_role queue)
                    (λ u. transfer config) (new_registry-Keeps db config.replication_role queue)
                    (λ u. transfer-Keeps db config n ns h) s refl)
          ]
        ]
      ]
