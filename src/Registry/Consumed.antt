-- ===== src/Registry/Consumed.antt =====
-- The channel of a master's worker, src/replication/mod.rs of crates/schema-registry, and a replica
-- that consumes what went through it, src/replication/slave.rs.
mod Tests
use mathlib.Core.List.{append_assoc, append_cancel_left, append-nil}
use common_data_layer.Prelude.{
  ℕ, zero, suc, String, ◌≡◌, refl, sym, ap, ◌∙◌, Bool, true, false, Option, none, some, List, [],
  ◌∷◌, ◌++◌,
}
use common_data_layer.Exec.{Result, ok, err}
use common_data_layer.Registry.Externals.{Externals}
use common_data_layer.Registry.Replication.{
  ReplicationEvent, ReplicationState, Worker, master, at_worker, is_receiving, replicate_message,
  handed,
}
use common_data_layer.Registry.Replica.{Message, apply_event, consume_message, refusing, consume_mq}
use common_data_layer.Registry.Wire.{Wire}
use common_data_layer.Registry.Rpc.{Server}
use common_data_layer.Registry.Histories.{answer, History, done, next, change-Sends}

-- The events that were sent to a worker.
unfoldable pub events_at : ℕ → List Worker → List ReplicationEvent
events_at i [] = []
events_at zero (w ∷ ws) = w.events
events_at (suc i) (w ∷ ws) = events_at i ws

abbrev pub sent : ReplicationEvent → Worker → Worker
sent event w = record w { events = w.events ++ event ∷ [] }

events_at-sent :
    (event : ReplicationEvent) (i : ℕ) (ws : List Worker)
    → is_receiving i ws ≡ true
    → (events_at i (at_worker i (sent event) ws) ≡ events_at i ws ++ event ∷ [])
      × (is_receiving i (at_worker i (sent event) ws) ≡ true)
unfolding events_at is_receiving at_worker
events_at-sent event i [] h = cc
events_at-sent event zero (w ∷ ws) h = (refl, h)
events_at-sent event (suc i) (w ∷ ws) h = events_at-sent event i ws h

-- A master whose worker has the channel `i` and still receives.
pub record IsMaster (i : ℕ) (r : ReplicationState) : Type 0 where
  pub role : r.replication_role ≡ master
  pub channel : r.master_replication_channel ≡ some i
  pub receiving : is_receiving i r.workers ≡ true

replicate_message-sent :
    (event : ReplicationEvent) (i : ℕ) (r : ReplicationState)
    → IsMaster i r
    → IsMaster i (replicate_message event r)
      × (events_at i (replicate_message event r).workers ≡ events_at i r.workers ++ event ∷ [])
unfolding replicate_message
replicate_message-sent event i r m =
    let s = events_at-sent event i r.workers m.receiving in
    rw (m.role, m.channel, m.receiving, replicate_message)
      (record { role = m.role; channel = m.channel; receiving = s.1 }, s.0)

events_at-handed :
    (events : List ReplicationEvent) (i : ℕ) (r : ReplicationState)
    → IsMaster i r
    → events_at i (handed events r).workers ≡ events_at i r.workers ++ events
unfolding handed
events_at-handed [] i r m = sym (append-nil (events_at i r.workers))
events_at-handed (event ∷ events) i r m =
    let s = replicate_message-sent event i r m in
    events_at-handed events i (replicate_message event r) s.0
    ∙ ap (λ l. l ++ events) s.1
    ∙ append_assoc (events_at i r.workers) (event ∷ []) events

module _ (x : Externals) (w : Wire) (parse : String → Option ReplicationEvent) where
  -- The messages of the queue are these events, and the replica is not stopped before one of them.
  unfoldable pub Carries : List (Bool × Result String Message) → List ReplicationEvent → Type 0
  Carries [] [] = Unit
  Carries [] (event ∷ events) = ⊥
  Carries (m ∷ messages) [] = ⊥
  Carries (m ∷ messages) (event ∷ events) =
      ((message : Message) × (text : String) × (m ≡ (false, ok message))
        × (message.payload ≡ ok text)
        × (parse text ≡ some event))
      × Carries messages events

  pub consumed :
      (message : Message) (text : String) (event : ReplicationEvent) (db db' : x.Db)
      → message.payload ≡ ok text
      → parse text ≡ some event
      → apply_event x parse event db ≡ (ok tt, db')
      → (consume_message x parse message db).1 ≡ db'
  unfolding consume_message refusing
  consumed message text event db db' p e h = rw (p, e, h, consume_message, refusing) refl

  -- The events, applied one after the other.
  Applied : List ReplicationEvent → x.Db → x.Db → Type 0
  Applied [] db db' = db ≡ db'
  Applied (event ∷ events) db db' =
      (mid : x.Db) × (apply_event x parse event db ≡ (ok tt, mid)) × Applied events mid db'

  consume_mq-Applied :
      (messages : List (Bool × Result String Message)) (events : List ReplicationEvent)
      (db db' : x.Db)
      → Carries messages events
      → Applied events db db'
      → consume_mq x parse messages db ≡ db'
  unfolding Carries Applied consume_mq
  consume_mq-Applied [] [] db db' c a = a
  consume_mq-Applied [] (event ∷ events) db db' c a = absurd c
  consume_mq-Applied (m ∷ messages) [] db db' c a = absurd c
  consume_mq-Applied (m ∷ messages) (event ∷ events) db db' c (mid, h, a) =
      let (message, text, e, p, q) = c.0 in
      let one = consumed message text event db mid p q h in
      rw (e, consume_mq) (rw one (consume_mq-Applied messages events mid db' c.1 a))

  History-Applied :
      {s u : Server x.Db}
      → History x w s u
      → (events : List ReplicationEvent) × (u.replication ≡ handed events s.replication)
        × Applied events s.db u.db
  unfolding handed Applied
  History-Applied done = ([], refl, refl)
  History-Applied (next change d h later) =
      let (event, told, applied) = change-Sends x w parse change _ d h in
      let (events, kept, rest) = History-Applied later in
      (event ∷ events, rw (sym told) kept, (_, applied, rest))

  -- A master is given whose worker still has the receiver of its channel. When changes that it is
  -- asked for succeed, one after the other, a replica that had the master's contents and consumes the events that the master sent to its worker meanwhile, in their
  -- order, has the master's new contents. The changes are those of metadata that name no new type,
  -- those of views, and new views that name their id.
  pub consume_mq-follows :
      (s u : Server x.Db) (i : ℕ) (events : List ReplicationEvent)
      (messages : List (Bool × Result String Message))
      → IsMaster i s.replication
      → History x w s u
      → events_at i u.replication.workers ≡ events_at i s.replication.workers ++ events
      → Carries messages events
      → consume_mq x parse messages s.db ≡ u.db
  consume_mq-follows s u i events messages m history new c =
      let (told, kept, applied) = History-Applied history in
      let all = ap (λ r. events_at i r.workers) kept ∙ events_at-handed told i s.replication m in
      let same : told ≡ events =
        append_cancel_left (events_at i s.replication.workers) told events (sym all ∙ new) in
      consume_mq-Applied messages events s.db u.db c (rw same at applied)
