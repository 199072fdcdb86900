-- ===== src/Registry/Views.antt =====
-- The views of crates/schema-registry/src/db.rs: what `get_view` finds after `update_view`.
pub mod Tests
use common_data_layer.Prelude.{
  ℕ, String, ◌≡◌, refl, sym, ◌∙◌, Option, none, some, [], ◌∷◌, ==_refl, ◌==◌, ◌&&◌, str_eq,
  if◌then◌else◌,
}
use common_data_layer.Json.{string}
use common_data_layer.Exec.{ok, err, when_some}
use common_data_layer.Registry.Types.{
  View, ViewUpdate, RegistryError, view_vertex_type, view_name_prop, view_expression_prop,
}
use common_data_layer.Registry.Externals.{Externals, VertexProperties}
use common_data_layer.Registry.Storage.{view_from_properties, left}
use common_data_layer.Registry.Stored.{prop_of-left}
use common_data_layer.Registry.Laws.{IsPropertyGraph, IsCodec, prop_of}
use common_data_layer.Registry.Db.{get_view, set_vertex_properties}
use common_data_layer.Registry.Update.{update_view, validate_view}
use common_data_layer.Registry.Metadata.{connect_ok, set_vertex_properties_one}
use common_data_layer.Registry.Stored.{extract_found}

abbrev pub or_else : Option String → String → String
or_else none old = old
or_else (some new) old = new

-- A view with what an update names replaced.
abbrev pub updated : ViewUpdate → View → View
updated u v = record { name = or_else u.name v.name; jmespath = or_else u.jmespath v.jmespath }

module _ (x : Externals) (g : IsPropertyGraph x) (c : IsCodec x) where
  open g use {vertex_type, props}

  -- A vertex that holds a view.
  pub record StoredView (id : ℕ) (v : View) (db : x.Db) : Type 0 where
    pub exists : vertex_type db id ≡ some view_vertex_type
    pub name : prop_of view_name_prop (props db id) ≡ some (string v.name)
    pub expression : prop_of view_expression_prop (props db id) ≡ some (string v.jmespath)

  view_from_properties_stored :
      (vp : VertexProperties) (v : View)
      → prop_of view_name_prop vp.props ≡ some (string v.name)
      → prop_of view_expression_prop vp.props ≡ some (string v.jmespath)
      → view_from_properties x vp ≡ some (vp.vertex.id, v)
  unfolding view_from_properties
  view_from_properties_stored vp v name expression =
      rw
        (
          extract_found x.string_from_value view_name_prop vp.props _ v.name name
              (c.string_ok v.name),
          extract_found x.string_from_value view_expression_prop (left view_name_prop vp.props) _
              v.jmespath
              (prop_of-left view_expression_prop view_name_prop vp.props refl ∙ expression)
              (c.string_ok v.jmespath),
        )
        refl

  get_view_stored :
      (id : ℕ) (v : View) (db : x.Db) → StoredView id v db → get_view x id db ≡ (ok v, db)
  unfolding get_view
  get_view_stored id v db h =
      rw
        (
          connect_ok x g db,
          g.get_all_vertex_properties_ok id db,
          h.exists,
          view_from_properties_stored
              (record { vertex = record { id = id; t = view_vertex_type }; props = props db id }) v
              h.name h.expression,
        )
        refl

  set_name_stored :
      (o : Option String) (id : ℕ) (v : View) (db : x.Db)
      → StoredView id v db
      → (db' : x.Db) × (when_some o
            (λ name. set_vertex_properties x id ((view_name_prop, string name) ∷ []))
            db
          ≡ (ok tt, db'))
        × StoredView id (record v { name = or_else o v.name }) db'
  set_name_stored none id v db h = (db, refl, h)
  set_name_stored (some name) id v db h =
      let w =
        set_vertex_properties_one x g id view_name_prop (string name) db view_vertex_type
          h.exists in
      (
        w.0,
        w.1,
        record {
          exists = w.2.types id ∙ h.exists;
          name = w.2.values id view_name_prop ∙ rw (==_refl id) refl;
          expression = w.2.values id view_expression_prop ∙ rw (==_refl id) h.expression;
        },
      )

  set_expression_stored :
      (o : Option String) (id : ℕ) (v : View) (db : x.Db)
      → StoredView id v db
      → (db' : x.Db) × (when_some o
            (λ jmespath. set_vertex_properties x id ((view_expression_prop, string jmespath) ∷ []))
            db
          ≡ (ok tt, db'))
        × StoredView id (record v { jmespath = or_else o v.jmespath }) db'
  set_expression_stored none id v db h = (db, refl, h)
  set_expression_stored (some jmespath) id v db h =
      let w =
        set_vertex_properties_one x g id view_expression_prop (string jmespath) db view_vertex_type
          h.exists in
      (
        w.0,
        w.1,
        record {
          exists = w.2.types id ∙ h.exists;
          name = w.2.values id view_name_prop ∙ rw (==_refl id) h.name;
          expression = w.2.values id view_expression_prop ∙ rw (==_refl id) refl;
        },
      )

  -- An update of a stored view whose new expression, if there is one, is accepted returns the view as
  -- it was. The view that can be read then has what the update names, and the rest as before.
  pub update_view-get_view :
      (id : ℕ) (u : ViewUpdate) (v : View) (db : x.Db)
      → StoredView id v db
      → when_some u.jmespath (validate_view x) db ≡ (ok tt, db)
      → (db' : x.Db) × (update_view x id u db ≡ (ok v, db'))
        × (get_view x id db' ≡ (ok (updated u v), db'))
  unfolding update_view
  update_view-get_view id u v db h valid =
      let n = set_name_stored u.name id v db h in
      let e =
        set_expression_stored u.jmespath id (record v { name = or_else u.name v.name }) n.0 n.2 in
      (
        e.0,
        rw (get_view_stored id v db h, valid, n.1, e.1) refl,
        get_view_stored id (updated u v) e.0 e.2,
      )

  -- An update of a stored view whose new expression is refused fails with that refusal and changes
  -- nothing, not even the name.
  pub update_view_refused :
      (id : ℕ) (u : ViewUpdate) (v : View) (reason : RegistryError) (db : x.Db)
      → StoredView id v db
      → when_some u.jmespath (validate_view x) db ≡ (err reason, db)
      → update_view x id u db ≡ (err reason, db)
  unfolding update_view
  update_view_refused id u v reason db h invalid = rw (get_view_stored id v db h, invalid) refl
