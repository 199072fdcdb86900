-- ===== src/DataRouter/Parts.antt =====
-- The parts of the handling of a message in crates/data-router/src/main.rs against the description
-- of it.
use common_data_layer.Prelude.{
  ℕ, suc, String, ◌≡◌, refl, sym, ap, List, [], ◌∷◌, ◌++◌, inl, inr, Bool-cases,
}
use mathlib.Core.List.{append-nil, append_assoc}
use common_data_layer.Exec.{Result, ok, err, map_err, Result-cases, attempt, continue, Fault, fails}
use common_data_layer.Cache.{LruCache, IsLru, IsCoherent}
use common_data_layer.Messaging.{CommunicationMessage, DataRouterInsertMessage, Publication}
use common_data_layer.DataRouter.{
  Failure, no_payload, not_json, not_a_message, not_serializable, World, Router, Task, send_message,
  route, route_each, process_many, process_single, process, report, is_array, last_error,
}
use common_data_layer.DataRouter.Coherence.{source, get_schema_topic-source}
use common_data_layer.DataRouter.Described.{
  payload_at, routed, sent_by, outcome, expected_each, expected_many, expected_single, expected,
  reported,
}

module _ (l : LruCache String) (r : IsLru l) (w : World)
    (delivered : (p : Publication) → w.delivery p ≡ ok tt) where
  -- A part that ends with a result after it published so much.
  pub record Meets {A : Type 0} (s : Router l.Cache) (a : Result (Fault Failure) A)
      (sent : List Publication) (calls : ℕ) (end : Result (Fault Failure) A × Router l.Cache)
      : Type 0 where
    pub cache : l.Cache
    pub ends : end ≡ (a, record s { cache = cache; published = s.published ++ sent; calls = calls })
    pub coherent : IsCoherent l r (source w) cache

  send_message_sent :
      (topic key payload : String) (s : Router l.Cache)
      → send_message l w topic key payload s ≡ (
        ok tt,
        record s {
          published = s.published ++ record { topic = topic; key = key; payload = payload } ∷ [];
        },
      )
  unfolding send_message
  send_message_sent topic key payload s = rw (delivered _, send_message) refl

  pub Meets-route :
      (event : DataRouterInsertMessage) (key : String) (s : Router l.Cache)
      → IsCoherent l r (source w) s.cache
      → Meets s
          (map_err fails (outcome w (routed w key event s.calls)))
          (sent_by w (routed w key event s.calls))
          (suc s.calls)
          (route l w event key s)
  unfolding route
  Meets-route event key s h =
      let s1 = record s { calls = suc s.calls } in
      let looked = get_schema_topic-source l r w event.schema_id s1 h in
      elim (Result-cases (source w event.schema_id)) [
        | inr (e, missing) ↦ record {
          cache = looked.cache;
          ends =
              rw (looked.ends, missing, route)
                (ap
                  (λ ps. (
                    err (fails e),
                    record s { cache = looked.cache; published = ps; calls = suc s.calls },
                  ))
                  (sym (append-nil s.published)));
          coherent = looked.coherent;
        }
        | inl (topic, found) ↦ elim (Result-cases (w.to_vec (payload_at w event s.calls))) [
          | inr (e, bad) ↦ record {
            cache = looked.cache;
            ends =
                rw (looked.ends, found, bad, route)
                  (ap
                    (λ ps. (
                      err (fails (not_serializable e)),
                      record s { cache = looked.cache; published = ps; calls = suc s.calls },
                    ))
                    (sym (append-nil s.published)));
            coherent = looked.coherent;
          }
          | inl (bytes, good) ↦ record {
            cache = looked.cache;
            ends = rw (looked.ends, found, good, send_message_sent, route) refl;
            coherent = looked.coherent;
          }
        ]
      ]

  pub Meets-attempt :
      (m : Task l w (Unit {0})) (s : Router l.Cache) (a : Result Failure (Unit {0}))
      (sent : List Publication) (calls : ℕ)
      → Meets s (map_err fails a) sent calls (m s)
      → Meets s (ok a) sent calls (attempt m s)
  Meets-attempt m s (ok u) sent calls h = record {
    cache = h.cache;
    ends = rw h.ends refl;
    coherent = h.coherent;
  }
  Meets-attempt m s (err e) sent calls h = record {
    cache = h.cache;
    ends = rw h.ends refl;
    coherent = h.coherent;
  }

  -- What follows a part that was attempted goes on where it ended.
  pub Meets-continue :
      {A B : Type 0} (s : Router l.Cache) (a : A) (b : Result (Fault Failure) B)
      (sent more : List Publication) (calls calls' : ℕ)
      (end : Result (Fault Failure) A × Router l.Cache) (f : A → Task l w B)
      → Meets s (ok a) sent calls end
      → ((t : Router l.Cache)
          → t.calls ≡ calls
          → IsCoherent l r (source w) t.cache
          → Meets t b more calls' (f a t))
      → Meets s b (sent ++ more) calls' (continue end.0 f end.1)
  Meets-continue s a b sent more calls calls' end f h k =
      let t : Router l.Cache = record s {
        cache = h.cache;
        published = s.published ++ sent;
        calls = calls;
      } in
      let after = k t refl h.coherent in
      record {
        cache = after.cache;
        ends =
            rw (h.ends, after.ends)
              (ap (λ ps. (b, record s { cache = after.cache; published = ps; calls = calls' }))
                (append_assoc s.published sent more));
        coherent = after.coherent;
      }

  pub Meets-route_each :
      (entries : List DataRouterInsertMessage) (key : String) (result : Result Failure (Unit {0}))
      (s : Router l.Cache)
      → IsCoherent l r (source w) s.cache
      → Meets s
          (ok (expected_each w key entries result s.calls).result)
          (expected_each w key entries result s.calls).sent
          (expected_each w key entries result s.calls).calls
          (route_each l w entries key result s)
  unfolding route_each
  Meets-route_each [] key result s h = record {
    cache = s.cache;
    ends = ap (λ ps. (ok result, record s { published = ps })) (sym (append-nil s.published));
    coherent = h;
  }
  Meets-route_each (entry ∷ entries) key result s h =
      Meets-continue s (outcome w (routed w key entry s.calls)) _
        (sent_by w (routed w key entry s.calls)) _ (suc s.calls) _ (attempt (route l w entry key) s)
        _
        (Meets-attempt (route l w entry key) s (outcome w (routed w key entry s.calls)) _ _
          (Meets-route entry key s h))
        (λ t same coherent. rw (sym same) (
          Meets-route_each entries key (last_error (outcome w (routed w key entry s.calls)) result)
            t coherent))

  pub Meets-fail :
      (e : Failure) (s : Router l.Cache)
      → IsCoherent l r (source w) s.cache
      → Meets {A = Unit {0}} s (err (fails e)) [] s.calls (err (fails e), s)
  Meets-fail e s h = record {
    cache = s.cache;
    ends = ap (λ ps. (err (fails e), record s { published = ps })) (sym (append-nil s.published));
    coherent = h;
  }

  pub Meets-process_many :
      (text key : String) (s : Router l.Cache)
      → IsCoherent l r (source w) s.cache
      → Meets s
          (map_err fails (expected_many w key text s.calls).result)
          (expected_many w key text s.calls).sent
          (expected_many w key text s.calls).calls
          (process_many l w text key s)
  unfolding process_many expected_many
  Meets-process_many text key s h = elim (Result-cases (w.parse_messages text)) [
    | inr (e, bad) ↦ rw (bad, process_many, expected_many) (Meets-fail (not_a_message e) s h)
    | inl (entries, good) ↦
        let each = Meets-route_each entries key (ok tt) s h in
        rw (good, process_many, expected_many)
          (record { cache = each.cache; ends = rw each.ends refl; coherent = each.coherent })
  ]

  pub Meets-process_single :
      (text key : String) (s : Router l.Cache)
      → IsCoherent l r (source w) s.cache
      → Meets s
          (map_err fails (expected_single w key text s.calls).result)
          (expected_single w key text s.calls).sent
          (expected_single w key text s.calls).calls
          (process_single l w text key s)
  unfolding process_single expected_single
  Meets-process_single text key s h = elim (Result-cases (w.parse_message text)) [
    | inr (e, bad) ↦ rw (bad, process_single, expected_single) (Meets-fail (not_a_message e) s h)
    | inl (event, good) ↦ rw (good, process_single, expected_single) (Meets-route event key s h)
  ]

  pub Meets-process :
      (message : CommunicationMessage) (key : String) (s : Router l.Cache)
      → IsCoherent l r (source w) s.cache
      → Meets s
          (map_err fails (expected w message key s.calls).result)
          (expected w message key s.calls).sent
          (expected w message key s.calls).calls
          (process l w message key s)
  unfolding process expected
  Meets-process message key s h = elim (Result-cases message.payload) [
    | inr (e, bad) ↦ rw (bad, process, expected) (Meets-fail (no_payload e) s h)
    | inl (text, got) ↦ elim (Result-cases (w.parse_value text)) [
      | inr (e, bad) ↦ rw (got, bad, process, expected) (Meets-fail (not_json e) s h)
      | inl (value, good) ↦ elim (Bool-cases (is_array value)) [
        | inl many ↦ rw (got, good, many, process, expected) (Meets-process_many text key s h)
        | inr one ↦ rw (got, good, one, process, expected) (Meets-process_single text key s h)
      ]
    ]
  ]

  pub Meets-report :
      (error_topic : String) (result : Result Failure (Unit {0})) (s : Router l.Cache)
      → IsCoherent l r (source w) s.cache
      → Meets s (ok tt) (reported w error_topic result) s.calls (report l w error_topic result s)
  Meets-report error_topic (ok u) s h = record {
    cache = s.cache;
    ends = ap (λ ps. (ok tt, record s { published = ps })) (sym (append-nil s.published));
    coherent = h;
  }
  Meets-report error_topic (err e) s h = record {
    cache = s.cache;
    ends = send_message_sent error_topic "data-router" _ s;
    coherent = h;
  }
