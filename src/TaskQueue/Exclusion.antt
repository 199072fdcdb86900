-- ===== src/TaskQueue/Exclusion.antt =====
-- Mutual exclusion in crates/utils/src/parallel_task_queue.rs: of the tasks that ask for one key, one
-- at most holds the permit.
use mathlib.Core.Path.{subst}
use mathlib.Core.Option.{some-injective}
use common_data_layer.Prelude.{
  ◌↔◌, ℕ, String, ◌≡◌, refl, sym, ◌∙◌, inl, inr, Bool, true, Option, none, some, List, [], ◌∷◌,
  Contains, str_eq, str_eq_iff, ==_refl, Bool-cases, if◌then◌else◌,
}
use common_data_layer.TaskQueue.{
  LockQueue, set, next_task, end_task, Locks, acquire, add_task, or_insert, drop_guard, System,
  start, acquired, without, signalled, after_drop, Step, asks, cancels, releases, Steps, done, next,
}

-- An entry is blocked and one receiver was signalled; without an entry there is none.
abbrev pub Held : Option LockQueue → List ℕ → Type 0
Held none rs = rs ≡ []
Held (some q) rs = (q.is_blocked ≡ true) × (r : ℕ) × (rs ≡ r ∷ [])

abbrev pub IsExclusive : System → Type 0
IsExclusive s = (key : String) → Held (s.locks key) (s.granted key)

Held-add :
    (tx : ℕ) (o : Option LockQueue) (rs : List ℕ)
    → Held o rs
    → let a = add_task tx (or_insert o) in Held (some a.0) (if a.1 then tx ∷ rs else rs)
unfolding add_task
Held-add tx none rs h = (refl, tx, rw h refl)
Held-add tx (some q) rs h = rw h.0 (refl, h.1, h.2)

-- What ends the task leaves the key blocked exactly if it signals the next.
next_task-Held :
    (dropped : ℕ → Bool) (queue : List ℕ)
    → let e = next_task dropped true queue in
      Held (if e.0.is_blocked then some e.0 else none) (signalled e.1 [])
unfolding next_task
next_task-Held dropped [] = refl
next_task-Held dropped (tx ∷ rest) = elim (Bool-cases (dropped tx)) [
  | inl h ↦ rw h (next_task-Held dropped rest)
  | inr h ↦ rw h (refl, tx, refl)
]

-- A list of one receiver, with a receiver of it taken out.
without-only : (r t : ℕ) (rs : List ℕ) → rs ≡ t ∷ [] → Contains r rs → without r rs ≡ []
without-only r t rs e c = elim (rw e at c) [
  | inl same ↦ rw (e, same, ==_refl r) refl
  | inr none_left ↦ absurd none_left
]

IsExclusive-acquired : (s : System) (key : String) → IsExclusive s → IsExclusive (acquired key s)
unfolding acquire
IsExclusive-acquired s key inv k = elim (Bool-cases (str_eq key k)) [
  | inl h ↦ rw h (Held-add s.channels (s.locks key) (s.granted key) (inv key))
  | inr h ↦ rw h (inv k)
]

Held-end :
    (s : System) (key : String) (r : ℕ) (q : LockQueue)
    → Held (some q) (s.granted key)
    → Contains r (s.granted key)
    → let e = end_task s.dropped q in
      Held (if e.0.is_blocked then some e.0 else none) (signalled e.1 (without r (s.granted key)))
unfolding end_task
Held-end s key r q h c =
    rw (without-only r h.1 (s.granted key) h.2 c, h.0) (next_task-Held s.dropped q.queue)

-- A guard that is dropped finds the entry of its key.
pub drop_guard-Held :
    (s : System) (key : String) (r : ℕ) (o : Option LockQueue)
    → s.locks key ≡ o
    → Held o (s.granted key)
    → Contains r (s.granted key)
    → (q : LockQueue) × (o ≡ some q)
      × let e = end_task s.dropped q in
        drop_guard s.dropped key s.locks
        ≡ some (set key (if e.0.is_blocked then some e.0 else none) s.locks, e.1)
unfolding drop_guard
drop_guard-Held s key r none e h c = absurd (rw h at c)
drop_guard-Held s key r (some q) e h c = (q, refl, rw (e, drop_guard) refl)

IsExclusive-released :
    (s : System) (key : String) (r : ℕ) (d : Locks × Option ℕ)
    → Contains r (s.granted key)
    → drop_guard s.dropped key s.locks ≡ some d
    → IsExclusive s
    → IsExclusive (after_drop key r s d)
IsExclusive-released s key r d c e inv =
    let found = drop_guard-Held s key r (s.locks key) refl (inv key) c in
    subst (λ d. IsExclusive (after_drop key r s d)) (some-injective _ _ (sym found.2 ∙ e))
      (λ k. elim (Bool-cases (str_eq key k)) [
        | inl h ↦ rw h (Held-end s key r found.0 (rw found.1 at (inv key)) c)
        | inr h ↦ rw h (inv k)
      ])

pub IsExclusive-Step : {s v : System} → Step s v → IsExclusive s → IsExclusive v
IsExclusive-Step (asks s key) inv = IsExclusive-acquired s key inv
IsExclusive-Step (cancels s r) inv = inv
IsExclusive-Step (releases s key r d c alive e) inv = IsExclusive-released s key r d c e inv

pub IsExclusive-Steps : {s v : System} → Steps s v → IsExclusive s → IsExclusive v
IsExclusive-Steps done inv = inv
IsExclusive-Steps (next steps step) inv = IsExclusive-Step step (IsExclusive-Steps steps inv)

pub IsExclusive-start : IsExclusive start
IsExclusive-start key = refl

pub Held-unique :
    (o : Option LockQueue) (rs : List ℕ) (a b : ℕ)
    → Held o rs
    → Contains a rs
    → Contains b rs
    → a ≡ b
Held-unique none rs a b h c d = absurd (rw h at c)
Held-unique (some q) rs a b h c d =
    let one : (t : ℕ) → Contains t rs → h.1 ≡ t =
      λ t i. elim (rw h.2 at i) [ inl e ↦ e | inr none_left ↦ absurd none_left ] in
    sym (one a c) ∙ one b d

-- In every state reached from the start and for every key, either the key has no entry and no task
-- was signalled that has not given its permit back, or the entry is blocked and there is exactly one
-- such task.
pub acquire_exclusive :
    (s : System) (key : String) → Steps start s → Held (s.locks key) (s.granted key)
acquire_exclusive s key steps = IsExclusive-Steps steps IsExclusive-start key

next_task_frees :
    (dropped : ℕ → Bool) (queue : List ℕ)
    → let e = next_task dropped true queue in
      ((if e.0.is_blocked then some e.0 else none) ≡ none) ↔ (e.1 ≡ none)
unfolding next_task
next_task_frees dropped [] = (λ h. refl, λ h. refl)
next_task_frees dropped (tx ∷ rest) = elim (Bool-cases (dropped tx)) [
  | inl h ↦ rw h (next_task_frees dropped rest)
  | inr h ↦ rw h (λ e. cc, λ e. cc)
]

-- In every state reached from the start, the drop of a guard finds the entry of its key and does not
-- panic. It removes the entry if and only if it hands the permit to no waiting task.
pub drop_guard_total :
    (s : System) (key : String) (r : ℕ)
    → Steps start s
    → Contains r (s.granted key)
    → (d : Locks × Option ℕ) × (drop_guard s.dropped key s.locks ≡ some d)
      × ((d.0 key ≡ none) ↔ (d.1 ≡ none))
unfolding end_task
drop_guard_total s key r steps c =
    let inv = IsExclusive-Steps steps IsExclusive-start key in
    let found = drop_guard-Held s key r (s.locks key) refl inv c in
    let held : Held (some found.0) (s.granted key) = rw found.1 at inv in
    (_, found.2, rw ((str_eq_iff key key).1 refl, held.0) (next_task_frees s.dropped found.0.queue))
