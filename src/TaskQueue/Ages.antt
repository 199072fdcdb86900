-- ===== src/TaskQueue/Ages.antt =====
-- The order in a queue of permits, crates/utils/src/parallel_task_queue.rs: a channel is numbered when
-- its task asks, so a lower number has waited longer.
use mathlib.Core.Path.{subst}
use mathlib.Core.Option.{some-injective}
use common_data_layer.Prelude.{
  ℕ, suc, ◌<◌, ◌≡◌, refl, inl, inr, String, Bool, true, false, Option, none, some, List, [], ◌∷◌,
  ◌++◌, All, arith, str_eq, Bool-cases, if◌then◌else◌,
}
use common_data_layer.TaskQueue.{
  LockQueue, next_task, end_task, Locks, acquire, add_task, or_insert, drop_guard, System, start,
  acquired, Step, asks, cancels, releases, Steps, done, next,
}

-- Each task asked before those behind it.
unfoldable pub IsAscending : List ℕ → Type 0
IsAscending [] = Unit
IsAscending (t ∷ ts) = All (λ later. t < later) ts × IsAscending ts

All-suc : (n : ℕ) (ts : List ℕ) → All (λ t. t < n) ts → All (λ t. t < suc n) ts
All-suc n [] h = tt
All-suc n (t ∷ ts) h = (omega (arith, h.0), All-suc n ts h.1)

All-last : (P : ℕ → Type 0) (ts : List ℕ) (n : ℕ) → All P ts → P n → All P (ts ++ n ∷ [])
All-last P [] n h p = (p, tt)
All-last P (t ∷ ts) n h p = (h.0, All-last P ts n h.1 p)

IsAscending-last :
    (ts : List ℕ) (n : ℕ) → All (λ t. t < n) ts → IsAscending ts → IsAscending (ts ++ n ∷ [])
unfolding IsAscending
IsAscending-last [] n h a = (tt, tt)
IsAscending-last (t ∷ ts) n h a =
    (All-last (λ later. t < later) ts n a.0 h.0, IsAscending-last ts n h.1 a.1)

-- Of what stands behind a task, all asked after it.
pub IsAscending-behind :
    (skipped : List ℕ) (t : ℕ) (rest : List ℕ)
    → IsAscending (skipped ++ t ∷ rest)
    → All (λ later. t < later) rest
unfolding IsAscending
IsAscending-behind [] t rest a = a.0
IsAscending-behind (s ∷ skipped) t rest a = IsAscending-behind skipped t rest a.1

-- The waiting tasks of an entry asked in their order, and before the next channel is made.
pub record IsAged (n : ℕ) (ts : List ℕ) : Type 0 where
  pub below : All (λ t. t < n) ts
  pub ascending : IsAscending ts

abbrev pub queue_of : Option LockQueue → List ℕ
queue_of none = []
queue_of (some q) = q.queue

abbrev pub AllAged : System → Type 0
AllAged s = (key : String) → IsAged s.channels (queue_of (s.locks key))

IsAged-nil : (n : ℕ) → IsAged n []
unfolding IsAscending
IsAged-nil n = record { below = tt; ascending = tt }

IsAged-add :
    (n : ℕ) (o : Option LockQueue)
    → IsAged n (queue_of o)
    → IsAged (suc n) (add_task n (or_insert o)).0.queue
unfolding add_task IsAscending
IsAged-add n none h = IsAged-nil (suc n)
IsAged-add n (some q) h = elim (Bool-cases q.is_blocked) [
  | inl b ↦ rw b (record {
    below = All-last (λ t. t < suc n) q.queue n (All-suc n q.queue h.below) (omega arith);
    ascending = IsAscending-last q.queue n h.below h.ascending;
  })
  | inr b ↦ rw b (record { below = All-suc n q.queue h.below; ascending = h.ascending })
]

IsAged-next :
    (dropped : ℕ → Bool) (blocked : Bool) (n : ℕ) (ts : List ℕ)
    → IsAged n ts
    → IsAged n (next_task dropped blocked ts).0.queue
unfolding next_task IsAscending
IsAged-next dropped blocked n [] h = h
IsAged-next dropped blocked n (t ∷ ts) h =
    let rest : IsAged n ts = record { below = h.below.1; ascending = h.ascending.1 } in
    elim (Bool-cases (dropped t)) [
      | inl e ↦ rw e (IsAged-next dropped blocked n ts rest)
      | inr e ↦ rw e rest
    ]

AllAged-acquired : (s : System) (key : String) → AllAged s → AllAged (acquired key s)
unfolding acquire
AllAged-acquired s key h k = elim (Bool-cases (str_eq key k)) [
  | inl e ↦ rw e (IsAged-add s.channels (s.locks key) (h key))
  | inr e ↦ rw e (record { below = All-suc s.channels _ (h k).below; ascending = (h k).ascending })
]

IsAged-kept :
    (n : ℕ) (b : Bool) (q : LockQueue)
    → IsAged n q.queue
    → IsAged n (queue_of (if b then some q else none))
IsAged-kept n true q h = h
IsAged-kept n false q h = IsAged-nil n

drop_guard-AllAged :
    (s : System) (key : String) (d : Locks × Option ℕ) (o : Option LockQueue)
    → s.locks key ≡ o
    → drop_guard s.dropped key s.locks ≡ some d
    → AllAged s
    → (k : String) → IsAged s.channels (queue_of (d.0 k))
unfolding drop_guard end_task
drop_guard-AllAged s key d none e found h k = absurd (cc (rw (e, drop_guard) at found))
drop_guard-AllAged s key d (some q) e found h k =
    subst (λ d. IsAged s.channels (queue_of (d.0 k)))
      (some-injective _ _ (rw (e, drop_guard) at found))
      (elim (Bool-cases (str_eq key k)) [
        | inl same ↦ rw same (
            IsAged-kept s.channels _ _
              (IsAged-next s.dropped q.is_blocked s.channels q.queue (rw e at (h key))))
        | inr other ↦ rw other (h k)
      ])

AllAged-Step : {s v : System} → Step s v → AllAged s → AllAged v
AllAged-Step (asks s key) h = AllAged-acquired s key h
AllAged-Step (cancels s r) h = h
AllAged-Step (releases s key r d c alive e) h = drop_guard-AllAged s key d (s.locks key) refl e h

pub AllAged-Steps : {s : System} → Steps start s → AllAged s
AllAged-Steps done = λ key. IsAged-nil 0
AllAged-Steps (next steps step) = AllAged-Step step (AllAged-Steps steps)
