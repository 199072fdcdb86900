-- ===== src/AckQueue/Runs.antt =====
-- A consumer that receives the messages of one partition and acknowledges them in any order, over
-- crates/utils/src/messaging_system/kafka_ack_queue.rs.
use common_data_layer.Prelude.{
  ℕ, suc, ◌≤◌, ◌<◌, String, ◌≡◌, Option, none, some, List, [], ◌∷◌, ◌++◌, All, All-map,
  All-Contains, Contains, arith,
}
use common_data_layer.AckQueue.{
  KafkaPartitionAckQueue, new, add, Offset, minus_one, offset, acked, ack,
}
use common_data_layer.AckQueue.Cursor.{remove_first}
use common_data_layer.AckQueue.Stores.{
  without, without-IsOrdered, IsOrdered, IsBehind, Acknowledged, add-IsOrdered, ack-IsBehind,
  All-remove_first, All-append,
}

-- The queue, the offset stored last, and the first offset that the partition may deliver next.
pub record Consumer : Type 0 where
  pub queue : KafkaPartitionAckQueue
  pub stored : Option Offset
  pub position : ℕ

abbrev pub fresh_consumer : String → ℕ → Consumer
fresh_consumer topic partition = record { queue = new topic partition; stored = none; position = 0 }

abbrev pub latest_of : Option Offset → Option Offset → Option Offset
latest_of none old = old
latest_of (some o) old = some o

abbrev pub received : ℕ → Consumer → Consumer
received o c = record c { queue = add o c.queue; position = suc o }

abbrev pub after_ack : KafkaPartitionAckQueue → Option Offset → Consumer → Consumer
after_ack q stored c = record c { queue = q; stored = latest_of stored c.stored }

-- Kafka delivers the offsets of a partition in ascending order; a message that waits is acknowledged.
pub data Step : Consumer → Consumer → Type 0 where
  receives : (c : Consumer) (o : ℕ) → c.position ≤ o → Step c (received o c)
  acknowledges :
      (c : Consumer) (o : ℕ) (q : KafkaPartitionAckQueue) (stored : Option Offset)
      → Contains o c.queue.waiting_list
      → ack o c.queue ≡ acked q stored
      → Step c (after_ack q stored c)

pub data Steps (c : Consumer) : Consumer → Type 0 where
  done : Steps c c
  next : {d e : Consumer} → Steps c d → Step d e → Steps c e

-- What was stored is before everything that waits and everything that is to come.
abbrev pub IsBefore : Option Offset → ℕ → List ℕ → Type 0
IsBefore none position ws = Unit
IsBefore (some minus_one) position ws = ⊥
IsBefore (some (offset n)) position ws = (n < position) × All (λ w. n < w) ws

record IsSafe (c : Consumer) : Type 0 where
  ordered : IsOrdered c.queue
  seen : All (λ w. w < c.position) c.queue.waiting_list
  -- Something waits only after something was added.
  last_seen : All (λ w. c.queue.last_offset < c.position) c.queue.waiting_list
  before : IsBefore c.stored c.position c.queue.waiting_list

IsBefore-receive :
    (stored : Option Offset) (position o : ℕ) (ws : List ℕ)
    → position ≤ o
    → IsBefore stored position ws
    → IsBefore stored (suc o) (ws ++ o ∷ [])
IsBefore-receive none position o ws le h = tt
IsBefore-receive (some minus_one) position o ws le h = absurd h
IsBefore-receive (some (offset n)) position o ws le h =
    (omega (arith, h.0), All-append (λ w. n < w) ws o h.1 (omega (arith, h.0)))

IsSafe-received : (c : Consumer) (o : ℕ) → c.position ≤ o → IsSafe c → IsSafe (received o c)
unfolding add
IsSafe-received c o le h = record {
  ordered =
      add-IsOrdered c.queue o h.ordered
        (All-map (λ w. w < c.position) (λ w. w < o) (λ w p. omega arith) _ h.seen);
  seen =
      All-append (λ w. w < suc o) c.queue.waiting_list o
        (All-map (λ w. w < c.position) (λ w. w < suc o) (λ w p. omega arith) _ h.seen)
        (omega arith);
  last_seen =
      All-append (λ w. o < suc o) c.queue.waiting_list o
        (All-map (λ w. w < c.position) (λ w. o < suc o) (λ w p. omega arith) _ h.seen)
        (omega arith);
  before = IsBefore-receive c.stored c.position o c.queue.waiting_list le h.before;
}

IsBefore-ack :
    (stored old : Option Offset) (o last position : ℕ) (ws : List ℕ)
    → last < position
    → IsBehind o last (remove_first o ws) stored
    → IsBefore old position ws
    → IsBefore (latest_of stored old) position (remove_first o ws)
IsBefore-ack none none o last position ws l b h = tt
IsBefore-ack none (some minus_one) o last position ws l b h = absurd h
IsBefore-ack none (some (offset n)) o last position ws l b h =
    (h.0, All-remove_first (λ w. n < w) o ws h.1)
IsBefore-ack (some minus_one) old o last position ws l b h = absurd b
IsBefore-ack (some (offset n)) old o last position ws l b h = (omega (arith, b.1, l), b.2)

IsSafe-acknowledged :
    (c : Consumer) (o : ℕ) (stored : Option Offset)
    → Contains o c.queue.waiting_list
    → IsBehind o c.queue.last_offset (without o c.queue).waiting_list stored
    → IsSafe c
    → IsSafe (after_ack (without o c.queue) stored c)
IsSafe-acknowledged c o stored waits behind h = record {
  ordered = without-IsOrdered o c.queue h.ordered;
  seen = All-remove_first (λ w. w < c.position) o c.queue.waiting_list h.seen;
  last_seen =
      All-remove_first (λ w. c.queue.last_offset < c.position) o c.queue.waiting_list h.last_seen;
  before =
      IsBefore-ack stored c.stored o c.queue.last_offset c.position c.queue.waiting_list
        (All-Contains (λ w. c.queue.last_offset < c.position) o c.queue.waiting_list h.last_seen
          waits)
        behind h.before;
}

IsSafe-Step : {c d : Consumer} → Step c d → IsSafe c → IsSafe d
IsSafe-Step (receives c o le) h = IsSafe-received c o le h
IsSafe-Step (acknowledges c o q stored waits e) h =
    let a = ack-IsBehind c.queue o h.ordered waits in
    let same_queue : q ≡ without o c.queue = cc (a.1, e) in
    let same_offset : stored ≡ a.0 = cc (a.1, e) in
    rw (same_queue, same_offset) (IsSafe-acknowledged c o a.0 waits a.3 h)

IsSafe-Steps : {c d : Consumer} → Steps c d → IsSafe c → IsSafe d
IsSafe-Steps done h = h
IsSafe-Steps (next steps step) h = IsSafe-Step step (IsSafe-Steps steps h)

-- However a consumer receives the messages of a partition, in ascending order, and acknowledges those
-- that wait, in any order: the offset that was stored last is before every message that still waits
-- and every message that is to come, and each message that waits can be acknowledged.
pub ack_never_passes :
    (topic : String) (partition : ℕ) (c : Consumer)
    → Steps (fresh_consumer topic partition) c
    → IsBefore c.stored c.position c.queue.waiting_list
      × ((o : ℕ) → Contains o c.queue.waiting_list → Acknowledged o c.queue)
ack_never_passes topic partition c steps =
    let h =
      IsSafe-Steps steps (record { ordered = (tt, tt); seen = tt; last_seen = tt; before = tt }) in
    (h.before, λ o waits. ack-IsBehind c.queue o h.ordered waits)
