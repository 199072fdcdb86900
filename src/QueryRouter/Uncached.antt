-- ===== src/QueryRouter/Uncached.antt =====
-- The handlers of crates/query-router/src/handler.rs against the registry itself, without the cache
-- of cache.rs.
use common_data_layer.Prelude.{ℕ, String, ◌≡◌, refl, ap, inl, inr, Option-cases}
use common_data_layer.Exec.{Result, ok, err, map_err, Result-cases, lift, continue}
use common_data_layer.Fallible.{and_then}
use common_data_layer.Cache.{LruCache, IsLru, IsCoherent, cached, cached-source}
use common_data_layer.RpcClients.{connect, query_error}
use common_data_layer.QueryRouter.{
  Error, client_error, Body, World, Info, get_schema_info, query_single, query_multiple,
  query_by_schema, query_raw, single_values, multiple_values, schema_values, raw_values,
}

module _ (w : World) where
  abbrev pub refused : String → Error
  refused e = client_error (query_error "schema registry" e)

  -- What the registry says of a schema: its address, then its type.
  unfoldable pub ask : ℕ → Result Error Info
  ask schema_id = and_then (map_err client_error (connect w.registry)) (λ conn.
      and_then (map_err refused (w.registry.get_schema_query_address schema_id)) (λ address.
        and_then (map_err refused (w.registry.get_schema_type schema_id))
          (λ schema_type. ok (address, schema_type))))

module _ (w : World) (l : LruCache Info) where
  get_schema_info-cached : (id : ℕ) (c : l.Cache) → get_schema_info w l id c ≡ cached l (ask w) id c
  unfolding get_schema_info cached ask
  get_schema_info-cached id c = elim (Option-cases (l.get_mut id c).0) [
    | inr (info, hit) ↦ rw (hit, get_schema_info, cached) refl
    | inl miss ↦ elim (Result-cases (connect w.registry)) [
      | inr (e, down) ↦ rw (miss, down, get_schema_info, cached, ask) refl
      | inl (u, up) ↦ elim (Result-cases (w.registry.get_schema_query_address id)) [
        | inr (e, no_address) ↦ rw (miss, up, no_address, get_schema_info, cached, ask) refl
        | inl (address, at) ↦ elim (Result-cases (w.registry.get_schema_type id)) [
          | inr (e, no_type) ↦ rw (miss, up, at, no_type, get_schema_info, cached, ask) refl
          | inl (t, typed) ↦ rw (miss, up, at, typed, get_schema_info, cached, ask) refl
        ]
      ]
    ]
  ]

continue-lift :
    {S E A B : Type 0} (r : Result E A) (f : A → Result E B) (s : S)
    → continue r (λ a. lift (f a)) s ≡ (and_then r f, s)
continue-lift (ok a) f s = refl
continue-lift (err e) f s = refl

module _ (w : World) (l : LruCache Info) (r : IsLru l) where
  -- The handlers without the cache.
  abbrev pub uncached_single : ℕ → ℕ → Body → Result Error String
  uncached_single object_id schema_id body =
      and_then (ask w schema_id) (λ info. single_values w object_id schema_id info.0 info.1 body)

  abbrev pub uncached_multiple : String → ℕ → Result Error String
  uncached_multiple object_ids schema_id =
      and_then (ask w schema_id) (λ info. multiple_values w object_ids info.0)

  abbrev pub uncached_by_schema : ℕ → Result Error String
  uncached_by_schema schema_id =
      and_then (ask w schema_id) (λ info. schema_values w schema_id info.0 info.1)

  abbrev pub uncached_raw : ℕ → Body → Result Error String
  uncached_raw schema_id body = and_then (ask w schema_id) (λ info. raw_values w info.0 info.1 body)

  -- A task that gives that answer and leaves a coherent cache.
  pub record Answers (answer : Result Error String) (end : Result Error String × l.Cache)
      : Type 0 where
    pub gives : end.0 ≡ answer
    pub coherent : IsCoherent l r (ask w) end.1

  Answers-info :
      (rest : Info → Result Error String) (id : ℕ) (c : l.Cache)
      → IsCoherent l r (ask w) c
      → Answers (and_then (ask w id) rest) (
          continue
            (get_schema_info w l id c).0
            (λ info. lift (rest info))
            (get_schema_info w l id c).1)
  Answers-info rest id c h =
      let (same, coherent) = cached-source l (ask w) r id c h in
      rw (get_schema_info-cached w l id c, continue-lift (cached l (ask w) id c).0 rest)
        (record { gives = ap (λ info. and_then info rest) same; coherent = coherent })

  -- While the LRU cache agrees with the registry, each of the four handlers answers as if it asked the
  -- registry for the schema on every request, errors included, and the cache goes on agreeing.
  pub handlers-uncached :
      (object_id schema_id : ℕ) (object_ids : String) (body : Body) (c : l.Cache)
      → IsCoherent l r (ask w) c
      → Answers
          (uncached_single object_id schema_id body)
          (query_single w l object_id schema_id body c)
        × Answers
            (uncached_multiple object_ids schema_id)
            (query_multiple w l object_ids schema_id c)
        × Answers (uncached_by_schema schema_id) (query_by_schema w l schema_id c)
        × Answers (uncached_raw schema_id body) (query_raw w l schema_id body c)
  unfolding query_single query_multiple query_by_schema query_raw
  handlers-uncached object_id schema_id object_ids body c h = (
    Answers-info (λ info. single_values w object_id schema_id info.0 info.1 body) schema_id c h,
    Answers-info (λ info. multiple_values w object_ids info.0) schema_id c h,
    Answers-info (λ info. schema_values w schema_id info.0 info.1) schema_id c h,
    Answers-info (λ info. raw_values w info.0 info.1 body) schema_id c h,
  )
