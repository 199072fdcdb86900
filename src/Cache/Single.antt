-- ===== src/Cache/Single.antt =====
-- An `LruCache` of capacity one: what the callers rely on holds of it, evictions included.
use common_data_layer.Prelude.{
  ℕ, ◌≡◌, refl, sym, inl, inr, Option, none, some, ◌==◌, ==_iff, if◌then◌else◌, Bool-cases,
}
use common_data_layer.Cache.{LruCache, IsLru}
use mathlib.Core.Option.{some-injective}

module _ {V : Type 0} where
  abbrev held : Option (ℕ × V) → ℕ → Option V
  held none j = none
  held (some (k, v)) j = if j == k then some v else none

  abbrev pub single : LruCache V
  single = record {
    Cache = Option (ℕ × V);
    get_mut = λ k c. (held c k, c);
    insert = λ k v c. some (k, v);
  }

  pub held-insert : (k j : ℕ) (v w : V) → held (some (k, v)) j ≡ some w → (j ≡ k) × (w ≡ v)
  held-insert k j v w h = elim (Bool-cases (j == k)) [
    | inl same ↦ ((==_iff j k).0 same, sym (some-injective _ _ (rw same at h)))
    | inr other ↦ cc (rw other at h)
  ]

  abbrev pub single_laws : IsLru single
  single_laws = record {
    holds = held;
    get_mut_found = λ k c. refl;
    get_mut_holds = λ k j c. refl;
    insert_holds = λ k j v w c h. inl (held-insert k j v w h);
  }
