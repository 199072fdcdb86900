-- ===== src/AckQueue/Stores.antt =====
-- What `ack` of crates/utils/src/messaging_system/kafka_ack_queue.rs stores, and what it leaves.
use common_data_layer.Prelude.{
  ℕ, zero, suc, ◌≤◌, ◌<◌, ◌≡◌, refl, sym, ◌≢◌, ◌⊎◌, inl, inr, true, false, Option, none, some, List,
  [], ◌∷◌, ◌++◌, All, All-map, Contains, length, arith, ◌==◌, Bool-cases, if◌then◌else◌,
}
use common_data_layer.AckQueue.{
  KafkaAckQueue, Message, ack_message, KafkaPartitionAckQueue, add, find_offset, Offset, minus_one,
  offset, offset_behind, panics, loops, acked, ack, remove_at,
}
use common_data_layer.AckQueue.Cursor.{remove_first, find_offset_found, find_offset_endless}

abbrev pub Ascending : List ℕ → Type 0
Ascending [] = Unit
Ascending (w ∷ ws) = All (λ v. w < v) ws × Ascending ws

-- The offsets that wait are in the order in which Kafka counts, up to the last that was added.
abbrev pub IsOrdered : KafkaPartitionAckQueue → Type 0
IsOrdered q = Ascending q.waiting_list × All (λ w. w ≤ q.last_offset) q.waiting_list

-- What is stored is from the acknowledged offset on, up to the last that was added, and before every
-- offset that waits.
abbrev pub IsBehind : ℕ → ℕ → List ℕ → Option Offset → Type 0
IsBehind o last ws none = Unit
IsBehind o last ws (some minus_one) = ⊥
IsBehind o last ws (some (offset n)) = (o ≤ n) × (n ≤ last) × All (λ w. n < w) ws

pub All-remove_first : (P : ℕ → Type 0) (o : ℕ) (ws : List ℕ) → All P ws → All P (remove_first o ws)
All-remove_first P o [] h = tt
All-remove_first P o (w ∷ ws) h = elim (Bool-cases (w == o)) [
  | inl e ↦ rw e h.1
  | inr e ↦ rw e (h.0, All-remove_first P o ws h.1)
]

Ascending-remove_first : (o : ℕ) (ws : List ℕ) → Ascending ws → Ascending (remove_first o ws)
Ascending-remove_first o [] h = tt
Ascending-remove_first o (w ∷ ws) h = elim (Bool-cases (w == o)) [
  | inl e ↦ rw e h.1
  | inr e ↦ rw e (All-remove_first (λ v. w < v) o ws h.0, Ascending-remove_first o ws h.1)
]

pub All-append : (P : ℕ → Type 0) (ws : List ℕ) (o : ℕ) → All P ws → P o → All P (ws ++ o ∷ [])
All-append P [] o h p = (p, tt)
All-append P (w ∷ ws) o h p = (h.0, All-append P ws o h.1 p)

Ascending-append :
    (ws : List ℕ) (o : ℕ) → Ascending ws → All (λ w. w < o) ws → Ascending (ws ++ o ∷ [])
Ascending-append [] o h l = (tt, tt)
Ascending-append (w ∷ ws) o h l =
    (All-append (λ v. w < v) ws o h.0 l.0, Ascending-append ws o h.1 l.1)

-- An offset above those that wait keeps the order when it is added.
pub add-IsOrdered :
    (q : KafkaPartitionAckQueue) (o : ℕ)
    → IsOrdered q
    → All (λ w. w < o) q.waiting_list
    → IsOrdered (add o q)
unfolding add
add-IsOrdered q o h l = (
  Ascending-append q.waiting_list o h.0 l,
  All-append (λ w. w ≤ o) q.waiting_list o
      (All-map (λ w. w < o) (λ w. w ≤ o) (λ w p. omega arith) q.waiting_list l) (omega arith),
)

-- The offset before the first that waits, or the last that was added.
stored-IsBehind :
    (o last : ℕ) (ws : List ℕ)
    → o ≤ last
    → All (λ w. o < w) ws
    → Ascending ws
    → All (λ w. w ≤ last) ws
    → IsBehind o last ws (some (offset_behind ws last o))
stored-IsBehind o last [] l h a b = ground arith
stored-IsBehind o last (zero ∷ ws) l h a b = absurd (omega (arith, h.0))
stored-IsBehind o last (suc n ∷ ws) l h a b = (
  omega (arith, h.0),
  omega (arith, b.0),
  (omega arith, All-map (λ w. suc n < w) (λ w. n < w) (λ w p. omega arith) ws a.0),
)

-- The queue without one of its offsets.
abbrev pub without : ℕ → KafkaPartitionAckQueue → KafkaPartitionAckQueue
without o q = record q { waiting_list = remove_first o q.waiting_list }

-- An acknowledgement that ends well, as it should.
abbrev pub Acknowledged : ℕ → KafkaPartitionAckQueue → Type 0
Acknowledged o q =
    (stored : Option Offset) × (ack o q ≡ acked (without o q) stored)
    × IsOrdered (without o q)
    × IsBehind o q.last_offset (without o q).waiting_list stored

pub without-IsOrdered : (o : ℕ) (q : KafkaPartitionAckQueue) → IsOrdered q → IsOrdered (without o q)
without-IsOrdered o q h = (
  Ascending-remove_first o q.waiting_list h.0,
  All-remove_first (λ w. w ≤ q.last_offset) o q.waiting_list h.1,
)

ack_front :
    (q : KafkaPartitionAckQueue) (o front : ℕ) (rest : List ℕ)
    → IsOrdered q
    → q.waiting_list ≡ front ∷ rest
    → (front == o) ≡ true
    → Acknowledged o q
unfolding ack
ack_front q o front rest h e here =
    let h' : Ascending (front ∷ rest) × All (λ w. w ≤ q.last_offset) (front ∷ rest) = rw e at h in
    let same : front ≡ o = ground arith in
    let removed : remove_first o q.waiting_list ≡ rest = rw e (rw here refl) in
    (
      some (offset_behind rest q.last_offset o),
      rw removed (rw (e, ack) (rw here refl)),
      without-IsOrdered o q h,
      rw removed (
          stored-IsBehind o q.last_offset rest (rw same at h'.1.0) (rw same at h'.0.0) h'.0.1
            h'.1.1),
    )

ack_later :
    (q : KafkaPartitionAckQueue) (o front : ℕ) (rest : List ℕ)
    → IsOrdered q
    → q.waiting_list ≡ front ∷ rest
    → (front == o) ≡ false
    → Contains o rest
    → Acknowledged o q
unfolding ack
ack_later q o front rest h e there c =
    let f = find_offset_found front [] rest o (length (front ∷ rest)) c (omega arith) in
    let removed : remove_first o q.waiting_list ≡ remove_at f.0 (front ∷ rest) =
      rw e (rw there (sym f.2)) in
    (none, rw removed (rw (e, ack) (rw (there, f.1) refl)), without-IsOrdered o q h, tt)

ack_split :
    (q : KafkaPartitionAckQueue) (o : ℕ) (ws : List ℕ)
    → IsOrdered q
    → q.waiting_list ≡ ws
    → Contains o ws
    → Acknowledged o q
ack_split q o [] h e c = absurd c
ack_split q o (front ∷ rest) h e c = elim (Bool-cases (front == o)) [
  | inl here ↦ ack_front q o front rest h e here
  | inr there ↦
      ack_later q o front rest h e there
        (elim c [ inl same ↦ absurd (ground arith) | inr later ↦ later ])
]

-- The acknowledgement of an offset that waits in an ordered queue ends without a panic. It takes that
-- offset and no other out of the queue, which stays ordered, and what it stores, if anything, is from
-- the acknowledged offset on, up to the last that was added, and before every offset that still waits.
pub ack-IsBehind :
    (q : KafkaPartitionAckQueue) (o : ℕ)
    → IsOrdered q
    → Contains o q.waiting_list
    → Acknowledged o q
ack-IsBehind q o h c = ack_split q o q.waiting_list h refl c

-- The acknowledgement of a message whose offset waits in the ordered queue of its partition does the
-- same to that queue, and leaves the queues of the other partitions alone.
pub ack_message_acked :
    (m : Message) (queue : KafkaAckQueue) (q : KafkaPartitionAckQueue)
    → queue m.partition ≡ some q
    → IsOrdered q
    → Contains m.offset q.waiting_list
    → (stored : Option Offset) × (ack_message m queue
        ≡ acked (λ p. if m.partition == p then some (without m.offset q) else queue p) stored)
      × IsOrdered (without m.offset q)
      × IsBehind m.offset q.last_offset (without m.offset q).waiting_list stored
unfolding ack_message
ack_message_acked m queue q e h c =
    let a = ack-IsBehind q m.offset h c in
    (a.0, rw (e, ack_message) (rw (a.1, ack_message) refl), a.2, a.3)

ack_endless_split :
    (q : KafkaPartitionAckQueue) (o : ℕ) (ws : List ℕ)
    → q.waiting_list ≡ ws
    → All (λ w. w ≢ o) ws
    → ((ws ≡ []) × (ack o q ≡ panics)) ⊎ (ack o q ≡ loops)
unfolding ack
ack_endless_split q o [] e h = inl (refl, rw (e, ack) refl)
ack_endless_split q o (front ∷ rest) e h =
    let other : (front == o) ≡ false = ground (arith, h.0) in
    inr (
      rw (e, ack)
        (rw (other, find_offset_endless (length (front ∷ rest)) (front ∷ rest) o (some 0) h) refl))

-- The acknowledgement of an offset that does not wait panics if nothing waits; otherwise its loop has
-- found nothing after any number of turns.
pub ack_endless :
    (q : KafkaPartitionAckQueue) (o : ℕ)
    → All (λ w. w ≢ o) q.waiting_list
    → ((q.waiting_list ≡ []) × (ack o q ≡ panics))
      ⊎ ((ack o q ≡ loops) × ((turns : ℕ) → find_offset turns q.waiting_list o (some 0) ≡ none))
ack_endless q o h = elim (ack_endless_split q o q.waiting_list refl h) [
  | inl empty ↦ inl empty
  | inr never ↦ inr (never, λ turns. find_offset_endless turns q.waiting_list o (some 0) h)
]
