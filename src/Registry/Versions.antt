-- ===== src/Registry/Versions.antt =====
-- The choice of a version in crates/schema-registry/src/db.rs: `get_latest_valid_schema_version`, and
-- the refusal of `add_new_version_of_schema`.
use common_data_layer.Prelude.{
  ℕ, ◌≡◌, refl, inl, inr, Bool, true, false, Option, none, some, List, [], ◌∷◌, All, Contains,
  Bool-cases, if◌then◌else◌,
}
use common_data_layer.Exec.{ok, err, ok_or}
use common_data_layer.Registry.Types.{
  Version, VersionedUuid, NewSchemaVersion, no_version_matches_requirement,
  new_version_must_be_greatest,
}
use common_data_layer.Registry.Externals.{Externals}
use common_data_layer.Registry.Laws.{IsVersionOrder}
use common_data_layer.Registry.Db.{
  get_schema_versions, get_latest_valid_schema_version, ensure_schema_exists, max_by_version,
  max_version?, matching,
}
use common_data_layer.Registry.Update.{add_new_version_of_schema, must_be_greatest}

-- What the choice among the versions of a schema must be, for an order and a test on versions.
abbrev pub IsLatest :
    (Version → Version → Bool)
    → (Version → Bool)
    → List (Version × ℕ)
    → Option (Version × ℕ)
    → Type 0
IsLatest le test vs none = All (λ w. test w.0 ≡ false) vs
IsLatest le test vs (some v) =
    Contains v vs × (test v.0 ≡ true) × All (λ w. test w.0 ≡ true → le w.0 v.0 ≡ true) vs

module _ (x : Externals) (o : IsVersionOrder x) where
  open x use {version_le, matches}
  open o use {le_refl, le_trans, le_total}

  abbrev pub NotAbove : Version → Version × ℕ → Type 0
  NotAbove v w = version_le w.0 v ≡ true

  below_trans :
      (u v : Version) → version_le u v ≡ true → (w : Version × ℕ) → NotAbove u w → NotAbove v w
  below_trans u v le w h = le_trans w.0 u v h le

  -- The scan returns what it holds or something of the list, and it is above both.
  pub max_by_version_best :
      (best : Version × ℕ) (vs : List (Version × ℕ))
      → version_le best.0 (max_by_version version_le best vs).0 ≡ true
  max_by_version_best best [] = le_refl best.0
  max_by_version_best best (v ∷ vs) = elim (Bool-cases (version_le best.0 v.0)) [
    | inl h ↦ rw (h, max_by_version) (le_trans best.0 v.0 _ h (max_by_version_best v vs))
    | inr h ↦ rw (h, max_by_version) (max_by_version_best best vs)
  ]

  chosen_above : (v best : Version × ℕ) → NotAbove (if version_le best.0 v.0 then v else best).0 v
  chosen_above v best = elim (Bool-cases (version_le best.0 v.0)) [
    | inl h ↦ rw h (le_refl v.0)
    | inr h ↦ rw h (elim (le_total best.0 v.0) [ inl a ↦ cc | inr b ↦ b ])
  ]

  pub max_by_version_above :
      (best : Version × ℕ) (vs : List (Version × ℕ))
      → All (NotAbove (max_by_version version_le best vs).0) vs
  max_by_version_above best [] = tt
  max_by_version_above best (v ∷ vs) =
      let next : Version × ℕ = if version_le best.0 v.0 then v else best in
      (
        le_trans v.0 next.0 _ (chosen_above v best) (max_by_version_best next vs),
        max_by_version_above next vs,
      )

  pub All-Contains_le :
      {m : Version} (w : Version × ℕ) (vs : List (Version × ℕ))
      → All (NotAbove m) vs
      → Contains w vs
      → NotAbove m w
  All-Contains_le w [] a c = absurd c
  All-Contains_le w (v ∷ vs) a (inl e) = rw (← e) a.0
  All-Contains_le w (v ∷ vs) a (inr c) = All-Contains_le w vs a.1 c

  chosen_either :
      (b : Bool) (v best m : Version × ℕ) (vs : List (Version × ℕ))
      → Contains m ((if b then v else best) ∷ vs)
      → Contains m (best ∷ v ∷ vs)
  chosen_either true v best m vs c = inr c
  chosen_either false v best m vs (inl e) = inl e
  chosen_either false v best m vs (inr c) = inr (inr c)

  pub max_by_version-Contains :
      (best : Version × ℕ) (vs : List (Version × ℕ))
      → Contains (max_by_version version_le best vs) (best ∷ vs)
  max_by_version-Contains best [] = inl refl
  max_by_version-Contains best (v ∷ vs) =
      chosen_either (version_le best.0 v.0) v best _ vs
        (max_by_version-Contains (if version_le best.0 v.0 then v else best) vs)

  IsLatest-skip :
      (test : Version → Bool) (w : Version × ℕ) (vs : List (Version × ℕ)) (r : Option (Version × ℕ))
      → test w.0 ≡ false
      → IsLatest version_le test vs r
      → IsLatest version_le test (w ∷ vs) r
  IsLatest-skip test w vs none h l = (h, l)
  IsLatest-skip test w vs (some v) h l = (inr l.0, l.1, (λ t. cc (h, t), l.2))

  Contains-matching :
      (test : Version → Bool) (m : Version × ℕ) (vs : List (Version × ℕ))
      → Contains m (matching test vs)
      → Contains m vs × (test m.0 ≡ true)
  Contains-matching test m [] c = absurd c
  Contains-matching test m (w ∷ vs) c = elim (Bool-cases (test w.0)) [
    | inl h ↦ elim (rw h at c) [
      | inl e ↦ (inl e, rw (← e) h)
      | inr d ↦ let r = Contains-matching test m vs d in (inr r.0, r.1)
    ]
    | inr h ↦ let r = Contains-matching test m vs (rw h at c) in (inr r.0, r.1)
  ]

  All-matching :
      (test : Version → Bool) (m : Version) (vs : List (Version × ℕ))
      → All (NotAbove m) (matching test vs)
      → All (λ w. test w.0 ≡ true → version_le w.0 m ≡ true) vs
  All-matching test m [] a = tt
  All-matching test m (w ∷ vs) a = elim (Bool-cases (test w.0)) [
    | inl h ↦
        let b : All (NotAbove m) (w ∷ matching test vs) = (rw h at a) in
        (λ _. b.0, All-matching test m vs b.1)
    | inr h ↦ (λ t. cc (h, t), All-matching test m vs (rw h at a))
  ]

  none_matching :
      (test : Version → Bool) (vs : List (Version × ℕ))
      → matching test vs ≡ []
      → All (λ w. test w.0 ≡ false) vs
  none_matching test [] e = tt
  none_matching test (w ∷ vs) e = elim (Bool-cases (test w.0)) [
    | inl h ↦ absurd (cc (rw h at e))
    | inr h ↦ (h, none_matching test vs (rw h at e))
  ]

  -- The greatest of the matching versions is the choice among all versions.
  matching-IsLatest :
      (test : Version → Bool) (vs ms : List (Version × ℕ))
      → matching test vs ≡ ms
      → IsLatest version_le test vs (max_version? version_le ms)
  matching-IsLatest test vs [] e = none_matching test vs e
  matching-IsLatest test vs (m ∷ ms) e =
      let found =
        Contains-matching test (max_by_version version_le m ms) vs
          (rw e (max_by_version-Contains m ms)) in
      (
        found.0,
        found.1,
        All-matching test _ vs (rw e (max_by_version_best m ms, max_by_version_above m ms)),
      )

  -- Where the versions of a schema can be read, the lookup returns the greatest of those that match
  -- the requirement, with the vertex of its definition, and fails only if none of them matches.
  pub get_latest_valid_schema_version-IsLatest :
      (id : VersionedUuid) (db : x.Db) (vs : List (Version × ℕ))
      → (get_schema_versions x id.id db).0 ≡ ok vs
      → (r : Option (Version × ℕ)) × ((get_latest_valid_schema_version x id db).0
          ≡ ok_or r (no_version_matches_requirement id))
        × IsLatest version_le (matches id.version_req) vs r
  unfolding get_latest_valid_schema_version
  get_latest_valid_schema_version-IsLatest id db vs e = (
    max_version? version_le (matching (matches id.version_req) vs),
    rw e refl,
    matching-IsLatest (matches id.version_req) vs _ refl,
  )

  -- A new version of an existing schema that some version of it equals or exceeds is refused with the
  -- greatest version in the error, and the store keeps its contents.
  pub add_new_version_of_schema-refused :
      (id : ℕ) (new : NewSchemaVersion) (db : x.Db) (vs : List (Version × ℕ)) (w : Version × ℕ)
      → ensure_schema_exists x id db ≡ (ok tt, db)
      → get_schema_versions x id db ≡ (ok vs, db)
      → Contains w vs
      → version_le new.version w.0 ≡ true
      → (greatest : Version × ℕ) × (add_new_version_of_schema x id new db
          ≡ (err (new_version_must_be_greatest id greatest.0), db))
        × Contains greatest vs
        × All (λ v. version_le v.0 greatest.0 ≡ true) vs
  unfolding add_new_version_of_schema must_be_greatest
  add_new_version_of_schema-refused id new db [] w e f c h = absurd c
  add_new_version_of_schema-refused id new db (v ∷ vs) w e f c h =
      let top : Version × ℕ = max_by_version version_le v vs in
      let above : All (NotAbove top.0) (v ∷ vs) =
        (max_by_version_best v vs, max_by_version_above v vs) in
      let refused : version_le new.version top.0 ≡ true =
        le_trans new.version w.0 top.0 h (All-Contains_le w (v ∷ vs) above c) in
      (top, rw (e, f, refused) refl, max_by_version-Contains v vs, above)
