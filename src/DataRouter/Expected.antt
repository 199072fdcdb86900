-- ===== src/DataRouter/Expected.antt =====
-- What the data router of crates/data-router/src/main.rs publishes for a message.
use common_data_layer.Prelude.{suc, String, ◌≡◌, refl, ◌∙◌, ap, ◌++◌}
use mathlib.Core.List.{append_assoc}
use common_data_layer.Exec.{Result, ok, err, map_err, attempted, fails}
use common_data_layer.Cache.{LruCache, IsLru, IsCoherent}
use common_data_layer.Messaging.{CommunicationMessage, get_order_group_id, Publication}
use common_data_layer.DataRouter.{Failure, World, Router, acknowledge, handle_message, or_empty}
use common_data_layer.DataRouter.Coherence.{source}
use common_data_layer.DataRouter.Described.{expected, reported}
use common_data_layer.DataRouter.Parts.{Meets-process, Meets-report}

attempted-map_err :
    {S : Type 0} (r : Result Failure (Unit {0})) (s : S) → attempted (map_err fails r) s ≡ (ok r, s)
attempted-map_err (ok u) s = refl
attempted-map_err (err e) s = refl

module _ (l : LruCache String) (r : IsLru l) (w : World)
    (delivered : (p : Publication) → w.delivery p ≡ ok tt) where
  acknowledge-ok :
      (ack : Result String (Unit {0})) (s : Router l.Cache)
      → ack ≡ ok tt
      → acknowledge l w ack s ≡ (ok tt, record s { acknowledged = suc s.acknowledged })
  acknowledge-ok ack s acked = rw acked refl

  -- The effect of a message on the router: what it publishes, the report of its error included.
  unfoldable pub handled : CommunicationMessage → String → Router l.Cache → l.Cache → Router l.Cache
  handled message error_topic s cache =
      let e = expected w message (or_empty (get_order_group_id message)) s.calls in
      record {
        cache = cache;
        published = s.published ++ (e.sent ++ reported w error_topic e.result);
        calls = e.calls;
        acknowledged = suc s.acknowledged;
      }

  -- While the LRU cache agrees with the registry, the broker delivers and the message can be
  -- acknowledged, a message is handled to its end: what is published is what the uncached
  -- description of the message says, in its order, with the report of the error after it, and the
  -- cache goes on agreeing with the registry.
  pub handle_message-expected :
      (message : CommunicationMessage) (error_topic : String) (s : Router l.Cache)
      → IsCoherent l r (source w) s.cache
      → message.ack ≡ ok tt
      → (cache : l.Cache) × (handle_message l w message error_topic s
          ≡ (ok tt, handled message error_topic s cache))
        × IsCoherent l r (source w) cache
  unfolding handle_message handled
  handle_message-expected message error_topic s h acked =
      let key = or_empty (get_order_group_id message) in
      let e = expected w message key s.calls in
      let first = Meets-process l r w delivered message key s h in
      let t : Router l.Cache = record s {
        cache = first.cache;
        published = s.published ++ e.sent;
        calls = e.calls;
      } in
      let second = Meets-report l r w delivered error_topic e.result t first.coherent in
      (
        second.cache,
        rw (first.ends, attempted-map_err e.result t, second.ends, handle_message)
            (acknowledge-ok message.ack _ acked
              ∙ ap
                  (λ ps. (
                    ok tt,
                    record s {
                      cache = second.cache;
                      published = ps;
                      calls = e.calls;
                      acknowledged = suc s.acknowledged;
                    },
                  ))
                  (append_assoc s.published e.sent (reported w error_topic e.result))),
        second.coherent,
      )
