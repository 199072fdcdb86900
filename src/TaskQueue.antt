-- ===== src/TaskQueue.antt =====
-- The queue of permits per key, crates/utils/src/parallel_task_queue.rs. A oneshot channel is a
-- number; a send on it fails exactly if its receiver was dropped. The map of locks is a function.
pub mod Ages
pub mod Exclusion
pub mod Order
mod Tests
use common_data_layer.Prelude.{
  ℕ, suc, ◌+◌, String, ◌≡◌, Bool, true, false, Option, none, some, List, [], ◌∷◌, ◌++◌, Contains,
  str_eq, ◌==◌, if◌then◌else◌,
}

pub record LockQueue : Type 0 where
  pub is_blocked : Bool
  pub queue : List ℕ

abbrev pub new : LockQueue
new = record { is_blocked = false; queue = [] }

-- The queue after the task, and whether the sender was used at once. That send cannot fail: the
-- receiver is still at hand.
unfoldable pub add_task : ℕ → LockQueue → LockQueue × Bool
add_task tx q =
    if q.is_blocked
    then (record q { queue = q.queue ++ tx ∷ [] }, false)
    else (record q { is_blocked = true }, true)

-- The recursion of `end_task`: a sender whose receiver was dropped is skipped.
unfoldable pub next_task : (ℕ → Bool) → Bool → List ℕ → LockQueue × Option ℕ
next_task dropped blocked [] = (record { is_blocked = false; queue = [] }, none)
next_task dropped blocked (tx ∷ rest) =
    let later = next_task dropped blocked rest in
    if dropped tx then later else (record { is_blocked = blocked; queue = rest }, some tx)

-- The queue after the task, and the sender that was used.
unfoldable pub end_task : (ℕ → Bool) → LockQueue → LockQueue × Option ℕ
end_task dropped q = next_task dropped q.is_blocked q.queue

abbrev pub Locks : Type 0
Locks = String → Option LockQueue

abbrev pub set {ℓ} : {A : Type ℓ} → String → A → (String → A) → String → A
set key a f j = if str_eq key j then a else f j

abbrev pub or_insert : Option LockQueue → LockQueue
or_insert none = new
or_insert (some q) = q

-- The part of `acquire_permit` under the mutex.
unfoldable pub acquire : String → ℕ → Locks → Locks × Bool
acquire key tx locks =
    let added = add_task tx (or_insert (locks key)) in (set key (some added.0) locks, added.1)

-- `Drop for LockGuard`; `none` is the panic on a key that has no entry.
unfoldable pub drop_guard : (ℕ → Bool) → String → Locks → Option (Locks × Option ℕ)
drop_guard dropped key locks = elim (locks key) [
  | none ↦ none
  | some q ↦
      let ended = end_task dropped q in
      some (set key (if ended.0.is_blocked then some ended.0 else none) locks, ended.1)
]

-- The locks with the channels that exist: how many were made, which receivers were dropped, and
-- those signalled and not yet given back, by key.
pub record System : Type 0 where
  pub locks : Locks
  pub channels : ℕ
  pub dropped : ℕ → Bool
  pub granted : String → List ℕ

abbrev pub start : System
start = record { locks = λ key. none; channels = 0; dropped = λ r. false; granted = λ key. [] }

abbrev pub acquired : String → System → System
acquired key s =
    let a = acquire key s.channels s.locks in
    record s {
      locks = a.0;
      channels = suc s.channels;
      granted = set key (if a.1 then s.channels ∷ s.granted key else s.granted key) s.granted;
    }

abbrev pub without : ℕ → List ℕ → List ℕ
without r [] = []
without r (t ∷ ts) = let rest = without r ts in if t == r then rest else t ∷ rest

abbrev pub signalled : Option ℕ → List ℕ → List ℕ
signalled none rs = rs
signalled (some r) rs = r ∷ rs

abbrev pub after_drop : String → ℕ → System → Locks × Option ℕ → System
after_drop key r s d = record s {
  locks = d.0;
  granted = set key (signalled d.1 (without r (s.granted key))) s.granted;
}

-- A task asks for a permit; a future of `acquire_permit` is dropped; a guard is dropped.
pub data Step : System → System → Type 0 where
  asks : (s : System) (key : String) → Step s (acquired key s)
  cancels :
      (s : System) (r : ℕ)
      → Step s (record s { dropped = λ j. if j == r then true else s.dropped j })
  releases :
      (s : System) (key : String) (r : ℕ) (d : Locks × Option ℕ)
      → Contains r (s.granted key)
      → s.dropped r ≡ false
      → drop_guard s.dropped key s.locks ≡ some d
      → Step s (after_drop key r s d)

-- The states that a number of steps lead to.
pub data Steps (s : System) : System → Type 0 where
  done : Steps s s
  next : {u v : System} → Steps s u → Step u v → Steps s v
