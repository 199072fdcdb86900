-- ===== src/Cache.antt =====
-- `LruCache` of the crate lru_cache, which is not part of this repository, keyed by UUIDs: its
-- operations as parameters, and what the callers rely on.
pub mod Single
use common_data_layer.Prelude.{
  ℕ, ◌≡◌, refl, sym, ◌∙◌, ◌⊎◌, inl, inr, Option, none, some, Option-cases,
}
use common_data_layer.Exec.{Result, ok, err}

pub record LruCache (V : Type 0) : Type 1 where
  pub Cache : Type 0
  -- `get_mut(key).cloned()`, which makes the entry the most recently used.
  pub get_mut : ℕ → Cache → Option V × Cache
  pub insert : ℕ → V → Cache → Cache

module _ {V : Type 0} (l : LruCache V) where
  open l use {Cache, get_mut, insert}

  -- A lookup finds what is held and changes nothing of it; an insertion adds one entry and may evict
  -- others.
  pub record IsLru : Type 0 where
    pub holds : Cache → ℕ → Option V
    pub get_mut_found : (k : ℕ) (c : Cache) → (get_mut k c).0 ≡ holds c k
    pub get_mut_holds : (k j : ℕ) (c : Cache) → holds (get_mut k c).1 j ≡ holds c j
    pub insert_holds :
        (k j : ℕ) (v w : V) (c : Cache)
        → holds (insert k v c) j ≡ some w
        → ((j ≡ k) × (w ≡ v)) ⊎ (holds c j ≡ some w)

  module _ (r : IsLru) {E : Type 0} (source : ℕ → Result E V) where
    open r use {holds, get_mut_holds, insert_holds}

    -- Every entry is what the source has.
    abbrev pub IsCoherent : Cache → Type 0
    IsCoherent c = (j : ℕ) (v : V) → holds c j ≡ some v → source j ≡ ok v

    pub get_mut-IsCoherent : (k : ℕ) (c : Cache) → IsCoherent c → IsCoherent (get_mut k c).1
    get_mut-IsCoherent k c h j v e = h j v (sym (get_mut_holds k j c) ∙ e)

    pub insert-IsCoherent :
        (k : ℕ) (v : V) (c : Cache) → source k ≡ ok v → IsCoherent c → IsCoherent (insert k v c)
    insert-IsCoherent k v c s h j w e = elim (insert_holds k j v w c e) [
      | inl (same, new) ↦ rw (same, new) s
      | inr old ↦ h j w old
    ]

-- A lookup by way of the cache: a value that is not held is asked for, and kept.
module _ {V E : Type 0} (l : LruCache V) (source : ℕ → Result E V) where
  open l use {Cache, get_mut, insert}

  abbrev pub fetched : ℕ → Cache → Result E V → Result E V × Cache
  fetched k c (err e) = (err e, c)
  fetched k c (ok v) = (ok v, insert k v c)

  unfoldable pub cached : ℕ → Cache → Result E V × Cache
  cached k c = elim (get_mut k c).0 [
    | some v ↦ (ok v, (get_mut k c).1)
    | none ↦ fetched k (get_mut k c).1 (source k)
  ]

  module _ (r : IsLru l) where
    fetched-IsCoherent :
        (k : ℕ) (c : Cache) (o : Result E V)
        → source k ≡ o
        → IsCoherent l r source c
        → ((fetched k c o).0 ≡ o) × IsCoherent l r source (fetched k c o).1
    fetched-IsCoherent k c (err e) s h = (refl, h)
    fetched-IsCoherent k c (ok v) s h = (refl, insert-IsCoherent l r source k v c s h)

    -- While the cache is coherent, the lookup gives what the source gives, and the cache stays so.
    pub cached-source :
        (k : ℕ) (c : Cache)
        → IsCoherent l r source c
        → ((cached k c).0 ≡ source k) × IsCoherent l r source (cached k c).1
    unfolding cached
    cached-source k c h = elim (Option-cases (get_mut k c).0) [
      | inl miss ↦
          let (same, coherent) =
            fetched-IsCoherent k (get_mut k c).1 (source k) refl
              (get_mut-IsCoherent l r source k c h) in
          (rw (miss, cached) same, rw (miss, cached) coherent)
      | inr (v, hit) ↦ (
        rw (hit, cached) (sym (h k v (sym (r.get_mut_found k c) ∙ hit))),
        rw (hit, cached) (get_mut-IsCoherent l r source k c h),
      )
    ]
