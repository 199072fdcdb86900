-- ===== src/Cli/Sorted.antt =====
-- The sort of the versions in crates/cdl-cli/src/actions/schema.rs, with the order of semver.
use mathlib.Core.List.{Perm, perm_middle}
use mathlib.Core.List.Perm
use common_data_layer.Prelude.{
  ◌≡◌, inl, inr, Bool, true, false, List, [], ◌∷◌, All, All-map, Bool-cases,
}
use common_data_layer.Registry.Types.{Version}
use common_data_layer.Registry.Externals.{Externals}
use common_data_layer.Registry.Laws.{IsVersionOrder}
use common_data_layer.Cli.Schema.{insert, sort}

-- Each element is below the ones after it.
abbrev pub IsAscending : (Version → Version → Bool) → List Version → Type 0
IsAscending le [] = Unit
IsAscending le (v ∷ vs) = All (λ u. le v u ≡ true) vs × IsAscending le vs

insert-Perm :
    (le : Version → Version → Bool) (v : Version) (us : List Version)
    → Perm (insert le v us) (v ∷ us)
unfolding insert
insert-Perm le v [] = Perm.refl (v ∷ [])
insert-Perm le v (u ∷ us) = elim (Bool-cases (le v u)) [
  | inl h ↦ rw (h, insert) (Perm.refl (v ∷ u ∷ us))
  | inr h ↦
      rw (h, insert)
        (Perm.trans (Perm.append (Perm.refl (u ∷ [])) (insert-Perm le v us))
          (perm_middle (u ∷ []) us))
]

pub sort-Perm : (le : Version → Version → Bool) (vs : List Version) → Perm (sort le vs) vs
unfolding sort
sort-Perm le [] = Perm.refl []
sort-Perm le (v ∷ vs) =
    Perm.trans (insert-Perm le v (sort le vs)) (Perm.append (Perm.refl (v ∷ [])) (sort-Perm le vs))

All-insert :
    (P : Version → Type 0) (le : Version → Version → Bool) (v : Version) (us : List Version)
    → P v
    → All P us
    → All P (insert le v us)
unfolding insert
All-insert P le v [] p a = (p, tt)
All-insert P le v (u ∷ us) p a = elim (Bool-cases (le v u)) [
  | inl h ↦ rw (h, insert) (p, a)
  | inr h ↦ rw (h, insert) (a.0, All-insert P le v us p a.1)
]

module _ (x : Externals) (o : IsVersionOrder x) where
  above : (v u : Version) → x.version_le v u ≡ false → x.version_le u v ≡ true
  above v u h = elim (o.le_total v u) [ inl e ↦ absurd (cc (h, e)) | inr e ↦ e ]

  insert-IsAscending :
      (v : Version) (us : List Version)
      → IsAscending x.version_le us
      → IsAscending x.version_le (insert x.version_le v us)
  unfolding insert
  insert-IsAscending v [] a = (tt, tt)
  insert-IsAscending v (u ∷ us) a = elim (Bool-cases (x.version_le v u)) [
    | inl h ↦ rw (h, insert) ((h, All-map _ _ (λ r k. o.le_trans v u r h k) us a.0), a)
    | inr h ↦
        rw (h, insert)
          (All-insert _ x.version_le v us (above v u h) a.0, insert-IsAscending v us a.1)
  ]

  pub sort-IsAscending : (vs : List Version) → IsAscending x.version_le (sort x.version_le vs)
  unfolding sort
  sort-IsAscending [] = tt
  sort-IsAscending (v ∷ vs) = insert-IsAscending v _ (sort-IsAscending vs)
