-- ===== src/DataRouter/Coherence.antt =====
-- The cache of the data router of crates/data-router/src/main.rs against the registry itself.
use common_data_layer.Prelude.{ℕ, String, ◌≡◌, refl, sym, ◌∙◌, Option-cases, inl, inr}
use common_data_layer.Exec.{Result, ok, err, map_err, Result-cases, Fault, fails}
use common_data_layer.Cache.{LruCache, IsLru, IsCoherent, get_mut-IsCoherent, insert-IsCoherent}
use common_data_layer.DataRouter.{Failure, no_connection, no_topic, World, Router, get_schema_topic}

module _ (w : World) where
  -- The topic of a schema without a cache.
  abbrev pub source : ℕ → Result Failure String
  source id = elim w.connect [
    | err e ↦ err (no_connection e)
    | ok u ↦ map_err no_topic (w.registry_topic id)
  ]

  source_found :
      (id : ℕ) (u : Unit {0}) (topic : String)
      → w.connect ≡ ok u
      → w.registry_topic id ≡ ok topic
      → source id ≡ ok topic
  source_found id u topic c r = rw (c, r) refl

module _ (l : LruCache String) (r : IsLru l) (w : World) where
  -- What a task that only uses the cache ends with.
  pub record Looked (id : ℕ) (s : Router l.Cache)
      (end : Result (Fault Failure) String × Router l.Cache) : Type 0 where
    pub cache : l.Cache
    pub ends : end ≡ (map_err fails (source w id), record s { cache = cache })
    pub coherent : IsCoherent l r (source w) cache

  -- While the LRU cache agrees with the registry, the cached lookup of a topic gives what the registry
  -- gives, its errors included, and the cache goes on agreeing.
  pub get_schema_topic-source :
      (id : ℕ) (s : Router l.Cache)
      → IsCoherent l r (source w) s.cache
      → Looked id s (get_schema_topic l w id s)
  unfolding get_schema_topic
  get_schema_topic-source id s h = elim (Option-cases (l.get_mut id s.cache).0) [
    | inr (topic, hit) ↦ record {
      cache = (l.get_mut id s.cache).1;
      ends =
          rw (hit, get_schema_topic)
            (rw (h id topic (sym (r.get_mut_found id s.cache) ∙ hit)) refl);
      coherent = get_mut-IsCoherent l r (source w) id s.cache h;
    }
    | inl miss ↦ elim (Result-cases w.connect) [
      | inr (e, down) ↦ record {
        cache = (l.get_mut id s.cache).1;
        ends = rw (miss, get_schema_topic) (rw down refl);
        coherent = get_mut-IsCoherent l r (source w) id s.cache h;
      }
      | inl (u, up) ↦ elim (Result-cases (w.registry_topic id)) [
        | inr (e, missing) ↦ record {
          cache = (l.get_mut id s.cache).1;
          ends = rw (miss, get_schema_topic) (rw (up, missing) refl);
          coherent = get_mut-IsCoherent l r (source w) id s.cache h;
        }
        | inl (topic, found) ↦ record {
          cache = l.insert id topic (l.get_mut id s.cache).1;
          ends = rw (miss, get_schema_topic) (rw (up, found) refl);
          coherent =
              insert-IsCoherent l r (source w) id topic (l.get_mut id s.cache).1
                (source_found w id u topic up found)
                (get_mut-IsCoherent l r (source w) id s.cache h);
        }
      ]
    ]
  ]
