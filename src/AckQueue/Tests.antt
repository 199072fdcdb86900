-- ===== src/AckQueue/Tests.antt =====
-- Three offsets of one partition wait: the theorems on their acknowledgement.
use common_data_layer.Prelude.{
  Contains, ℕ, ◌≡◌, refl, ◌⊎◌, inl, inr, [], ◌∷◌, none, some, arith, ◌==◌, if◌then◌else◌,
}
use common_data_layer.AckQueue.{
  KafkaAckQueue, KafkaPartitionAckQueue, new, add, ack, find_offset, panics, loops,
}
use common_data_layer.AckQueue.Runs.{
  Consumer, fresh_consumer, received, after_ack, IsBefore, receives, acknowledges, Steps, done,
  next, ack_never_passes,
}
use common_data_layer.AckQueue.Stores.{IsOrdered, Acknowledged, ack-IsBehind, ack_endless}

abbrev three : KafkaPartitionAckQueue
three = record (new "topic" 0) { waiting_list = 4 ∷ 5 ∷ 7 ∷ []; last_offset = 7 }

three-IsOrdered : IsOrdered three
three-IsOrdered = ground arith

ack-IsBehind_example : Acknowledged 7 three
ack-IsBehind_example = ack-IsBehind three 7 three-IsOrdered (inr (inr (inl refl)))

ack_endless_example :
    ((three.waiting_list ≡ []) × (ack 6 three ≡ panics))
    ⊎ ((ack 6 three ≡ loops)
        × ((turns : ℕ) → find_offset turns three.waiting_list 6 (some 0) ≡ none))
ack_endless_example = ack_endless three 6 (ground arith)

abbrev queue : KafkaAckQueue
queue p = if p == 0 then some three else none

abbrev waiting : Consumer
waiting = received 7 (received 5 (received 4 (fresh_consumer "topic" 0)))

abbrev second_done : Consumer
second_done = after_ack (record three { waiting_list = 4 ∷ 7 ∷ [] }) none waiting

second_done_reached : Steps (fresh_consumer "topic" 0) second_done
unfolding add ack find_offset
second_done_reached =
    next
      (next
        (next (next done (receives (fresh_consumer "topic" 0) 4 (omega arith)))
          (receives (received 4 (fresh_consumer "topic" 0)) 5 (omega arith)))
        (receives (received 5 (received 4 (fresh_consumer "topic" 0))) 7 (omega arith)))
      (acknowledges waiting 5 (record three { waiting_list = 4 ∷ 7 ∷ [] }) none (inr (inl refl))
        refl)

ack_never_passes_example :
    IsBefore second_done.stored 8 (4 ∷ 7 ∷ [])
    × ((o : ℕ) → Contains o (4 ∷ 7 ∷ []) → Acknowledged o second_done.queue)
ack_never_passes_example = ack_never_passes "topic" 0 second_done second_done_reached
