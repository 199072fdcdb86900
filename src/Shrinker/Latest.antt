-- ===== src/Shrinker/Latest.antt =====
-- `minimize_document` of crates/db-shrinker-postgres/src/main.rs over all the versions of one object.
use mathlib.Core.List.{foldl}
use common_data_layer.Prelude.{
  String, ◌≡◌, refl, ◌∙◌, true, false, none, some, List, [], ◌∷◌, ◌++◌, All, map,
}
use common_data_layer.Json.{Value, WellFormed}
use common_data_layer.Shrinker.{Row, merge, minimize_document}
use common_data_layer.Shrinker.Paths.{get, writes, get-merge-writes, get-merge_keeps}

-- The version leaves the path alone.
pub record Leaves (p : List String) (r : Row) : Type 0 where
  pub well_formed : WellFormed r.payload
  pub unwritten : writes p r.payload ≡ false
  pub unread : get p r.payload ≡ none

get-foldl_keeps :
    (p : List String) (a : Value) (newer : List Row)
    → All (Leaves p) newer
    → get p (foldl merge a (map (λ r. r.payload) newer)) ≡ get p a
get-foldl_keeps p a [] h = refl
get-foldl_keeps p a (r ∷ newer) h =
    get-foldl_keeps p (merge a r.payload) newer h.1
    ∙ get-merge_keeps p a r.payload h.0.well_formed h.0.unwritten h.0.unread

get-foldl_last :
    (p : List String) (a : Value) (older newer : List Row) (r : Row)
    → WellFormed r.payload
    → writes p r.payload ≡ true
    → All (Leaves p) newer
    → get p (foldl merge a (map (λ r. r.payload) (older ++ r ∷ newer))) ≡ get p r.payload
get-foldl_last p a [] newer r wf w h =
    get-foldl_keeps p (merge a r.payload) newer h ∙ get-merge-writes p a r.payload wf w
get-foldl_last p a (o ∷ older) newer r wf w h =
    get-foldl_last p (merge a o.payload) older newer r wf w h

-- The shrunk document of versions in ascending order exists, and at every path it shows what the
-- last version that wrote there shows, if the newer ones leave the path alone.
pub minimize_document-last :
    (p : List String) (older newer : List Row) (r : Row)
    → WellFormed r.payload
    → writes p r.payload ≡ true
    → All (Leaves p) newer
    → (d : Value) × (minimize_document (older ++ r ∷ newer) ≡ some d) × (get p d ≡ get p r.payload)
unfolding minimize_document
minimize_document-last p [] newer r wf w h = (_, refl, get-foldl_keeps p r.payload newer h)
minimize_document-last p (o ∷ older) newer r wf w h =
    (_, refl, get-foldl_last p o.payload older newer r wf w h)
