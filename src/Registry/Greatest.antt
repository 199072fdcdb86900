-- ===== src/Registry/Greatest.antt =====
-- A version above all the others of a schema, in the list of crates/schema-registry/src/db.rs, wherever
-- it stands there.
use mathlib.Core.Path.{ap}
use common_data_layer.Prelude.{
  ℕ, ◌≡◌, refl, sym, ◌⊎◌, inl, inr, Bool, true, false, some, List, [], ◌∷◌, ◌++◌, All, All-Contains,
  Contains,
}
use common_data_layer.Exec.{ok}
use common_data_layer.Registry.Types.{Version}
use common_data_layer.Registry.Externals.{Externals}
use common_data_layer.Registry.Laws.{IsVersionOrder}
use common_data_layer.Registry.Db.{max_by_version, max_version?, matching}
use common_data_layer.Registry.Update.{must_be_greatest}
use common_data_layer.Registry.Versions.{
  max_by_version_best, max_by_version_above, max_by_version-Contains, All-Contains_le,
}

abbrev pub Strictly : (Version → Version → Bool) → Version → Version × ℕ → Type 0
Strictly le new v = le new v.0 ≡ false

Contains-insert :
    (v n : Version × ℕ) (before after : List (Version × ℕ))
    → Contains v (before ++ n ∷ after)
    → (v ≡ n) ⊎ Contains v (before ++ after)
Contains-insert v n [] after (inl e) = inl (sym e)
Contains-insert v n [] after (inr c) = inr c
Contains-insert v n (w ∷ before) after (inl e) = inr (inl e)
Contains-insert v n (w ∷ before) after (inr c) = elim (Contains-insert v n before after c) [
  | inl e ↦ inl e
  | inr d ↦ inr (inr d)
]

Contains-middle :
    (n : Version × ℕ) (before after : List (Version × ℕ)) → Contains n (before ++ n ∷ after)
Contains-middle n [] after = inl refl
Contains-middle n (w ∷ before) after = inr (Contains-middle n before after)

pub matching_all :
    (test : Version → Bool) (vs : List (Version × ℕ))
    → ((v : Version) → test v ≡ true)
    → matching test vs ≡ vs
matching_all test [] h = refl
matching_all test (v ∷ vs) h = rw (h v.0, matching_all test vs h) refl

module _ (x : Externals) (o : IsVersionOrder x) where
  open x use {version_le}

  -- A version strictly above the others is the greatest, wherever it stands.
  pub max_inserted :
      (n : Version × ℕ) (before after : List (Version × ℕ))
      → All (Strictly version_le n.0) (before ++ after)
      → max_version? version_le (before ++ n ∷ after) ≡ some n
  max_inserted n before after strict = go (before ++ n ∷ after) refl
    where
      go :
          (all : List (Version × ℕ))
          → before ++ n ∷ after ≡ all
          → max_version? version_le all ≡ some n
      go [] e = absurd (rw e at (Contains-middle n before after))
      go (v ∷ vs) e =
          let m : Version × ℕ = max_by_version version_le v vs in
          let above : version_le n.0 m.0 ≡ true =
            All-Contains_le x o n (v ∷ vs)
              (max_by_version_best x o v vs, max_by_version_above x o v vs)
              (rw e at (Contains-middle n before after)) in
          elim (Contains-insert m n before after (rw e (max_by_version-Contains x o v vs))) [
            | inl same ↦ ap some same
            | inr old ↦
                cc (above, All-Contains (Strictly version_le n.0) m (before ++ after) strict old)
          ]

  pub must_be_greatest_passes :
      (id : ℕ) (new : Version) (vs : List (Version × ℕ))
      → All (Strictly version_le new) vs
      → must_be_greatest x id new vs ≡ ok tt
  unfolding must_be_greatest
  must_be_greatest_passes id new [] a = refl
  must_be_greatest_passes id new (v ∷ vs) a =
      rw (All-Contains (Strictly version_le new) _ (v ∷ vs) a (max_by_version-Contains x o v vs))
        refl
