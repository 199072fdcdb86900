-- ===== src/AckQueue.antt =====
-- The queue of unacknowledged messages of a Kafka consumer,
-- crates/utils/src/messaging_system/kafka_ack_queue.rs. Offsets are those of messages, which Kafka
-- counts from 0. What `store_offsets` is given is part of the result; a consumer that refuses it makes
-- the code panic, which is left out.
pub mod Cursor
pub mod Stores
pub mod Runs
mod Tests
use common_data_layer.Prelude.{
  ℕ, zero, suc, String, Bool, true, false, Option, none, some, List, [], ◌∷◌, ◌++◌, length,
  get_elem?, ltb, ◌==◌, if◌then◌else◌,
}

pub record KafkaPartitionAckQueue : Type 0 where
  pub waiting_list : List ℕ
  pub topic : String
  pub partition : ℕ
  pub last_offset : ℕ

abbrev pub new : String → ℕ → KafkaPartitionAckQueue
new topic partition = record {
  waiting_list = [];
  topic = topic;
  partition = partition;
  last_offset = 0;
}

unfoldable pub add : ℕ → KafkaPartitionAckQueue → KafkaPartitionAckQueue
add offset q = record q { waiting_list = q.waiting_list ++ offset ∷ []; last_offset = offset }

-- `move_next` of a cursor of a `LinkedList`, which is at an element or at the one ghost element
-- between the last and the first.
abbrev pub move_next : List ℕ → Option ℕ → Option ℕ
move_next [] cursor = none
move_next (w ∷ ws) none = some 0
move_next (w ∷ ws) (some i) = if ltb (suc i) (length (w ∷ ws)) then some (suc i) else none

abbrev pub current : List ℕ → Option ℕ → Option ℕ
current ws none = none
current ws (some i) = get_elem? ws i

abbrev pub is_at : ℕ → Option ℕ → Bool
is_at offset none = false
is_at offset (some w) = w == offset

-- The loop of `ack`, for so many turns: the place at which it ends.
unfoldable pub find_offset : ℕ → List ℕ → ℕ → Option ℕ → Option ℕ
find_offset zero ws offset cursor = none
find_offset (suc turns) ws offset cursor =
    let next = move_next ws cursor in
    let later = find_offset turns ws offset next in
    if is_at offset (current ws next) then next else later

abbrev pub remove_at : ℕ → List ℕ → List ℕ
remove_at i [] = []
remove_at zero (w ∷ ws) = ws
remove_at (suc i) (w ∷ ws) = w ∷ remove_at i ws

-- An offset that is handed to `store_offsets`: an `i64`, here of at least -1.
pub data Offset : Type 0 where
  minus_one : Offset
  offset : ℕ → Offset

abbrev pub one_less : ℕ → Offset
one_less zero = minus_one
one_less (suc n) = offset n

-- How `ack` ends: with a panic, never, or with a queue and what was stored.
pub data Ack (A : Type 0) : Type 0 where
  panics loops : Ack A
  acked : A → Option Offset → Ack A

-- The offset to store once the front is off the list.
abbrev pub offset_behind : List ℕ → ℕ → ℕ → Offset
offset_behind [] last acknowledged = offset (if ltb last acknowledged then acknowledged else last)
offset_behind (w ∷ ws) last acknowledged = one_less w

-- The loop is given as many turns as the list has elements.
unfoldable pub ack : ℕ → KafkaPartitionAckQueue → Ack KafkaPartitionAckQueue
ack acknowledged q = elim q.waiting_list [
  | [] ↦ panics
  | front ∷ rest ↦
      if front == acknowledged
      then acked (record q { waiting_list = rest })
          (some (offset_behind rest q.last_offset acknowledged))
      else elim (find_offset (length (front ∷ rest)) (front ∷ rest) acknowledged (some 0)) [
        | none ↦ loops
        | some i ↦ acked (record q { waiting_list = remove_at i (front ∷ rest) }) none
      ]
]

-- What the code uses of a message.
pub record Message : Type 0 where
  pub topic : String
  pub partition : ℕ
  pub offset : ℕ

-- The queues by partition, a `VecMap`.
abbrev pub KafkaAckQueue : Type 0
KafkaAckQueue = ℕ → Option KafkaPartitionAckQueue

abbrev pub or_insert_with : Message → Option KafkaPartitionAckQueue → KafkaPartitionAckQueue
or_insert_with m none = new m.topic m.partition
or_insert_with m (some q) = q

unfoldable pub add_message : Message → KafkaAckQueue → KafkaAckQueue
add_message m queue p =
    if m.partition == p then some (add m.offset (or_insert_with m (queue m.partition))) else queue p

unfoldable pub ack_message : Message → KafkaAckQueue → Ack KafkaAckQueue
ack_message m queue = elim (queue m.partition) [
  | none ↦ panics
  | some q ↦ elim (ack m.offset q) [
    | panics ↦ panics
    | loops ↦ loops
    | acked q' stored ↦ acked (λ p. if m.partition == p then some q' else queue p) stored
  ]
]
