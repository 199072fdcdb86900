-- ===== src/TaskQueue/Order.antt =====
-- Who gets a permit of crates/utils/src/parallel_task_queue.rs next, and when nobody does.
use mathlib.Core.Bool.{false≢true}
use common_data_layer.Prelude.{
  ℕ, ◌<◌, String, ◌≡◌, refl, sym, ◌∙◌, ap, inl, inr, Bool, true, false, Option, none, some, List,
  [], ◌∷◌, ◌++◌, All, Contains, arith, str_eq, str_eq_iff, Bool-cases,
}
use common_data_layer.TaskQueue.{
  LockQueue, set, next_task, end_task, acquire, drop_guard, System, start, acquired, Step, asks,
  cancels, releases, Steps, done, next,
}
use common_data_layer.TaskQueue.Ages.{IsAged, IsAscending-behind, AllAged-Steps}
use common_data_layer.TaskQueue.Exclusion.{
  IsExclusive, IsExclusive-Step, IsExclusive-Steps, IsExclusive-start, Held, Held-unique,
}

next_task_skips :
    (dropped : ℕ → Bool) (skipped rest : List ℕ) (tx : ℕ)
    → All (λ t. dropped t ≡ true) skipped
    → dropped tx ≡ false
    → next_task dropped true (skipped ++ tx ∷ rest)
      ≡ (record { is_blocked = true; queue = rest }, some tx)
unfolding next_task
next_task_skips dropped [] rest tx gone here = rw here refl
next_task_skips dropped (t ∷ skipped) rest tx gone here =
    rw gone.0 (next_task_skips dropped skipped rest tx gone.1 here)

-- In every state reached from the start, the drop of a guard hands the permit to the first task in the
-- queue of its key that has not given up: the tasks before it are forgotten, those behind it keep
-- their order, and the other keys keep their entries. It has waited longest: every task behind it
-- asked after it did, as the numbers of the channels tell.
pub drop_guard_first :
    (s : System) (key : String) (r tx : ℕ) (q : LockQueue) (skipped rest : List ℕ)
    → Steps start s
    → Contains r (s.granted key)
    → s.locks key ≡ some q
    → q.queue ≡ skipped ++ tx ∷ rest
    → All (λ t. s.dropped t ≡ true) skipped
    → s.dropped tx ≡ false
    → (drop_guard s.dropped key s.locks
        ≡ some (set key (some (record { is_blocked = true; queue = rest })) s.locks, some tx))
      × All (λ later. tx < later) rest
unfolding drop_guard end_task
drop_guard_first s key r tx q skipped rest steps c e split gone here =
    let held : Held (some q) (s.granted key) =
      rw e at (IsExclusive-Steps steps IsExclusive-start key) in
    let aged : IsAged s.channels q.queue = rw e at (AllAged-Steps steps key) in
    (
      rw (e, drop_guard)
          (rw (held.0, split, next_task_skips s.dropped skipped rest tx gone here) refl),
      IsAscending-behind skipped tx rest (rw split at aged.ascending),
    )

-- A task of the key was signalled, but its receiver is gone.
record Lost (key : String) (r : ℕ) (s : System) : Type 0 where
  exclusive : IsExclusive s
  signalled : Contains r (s.granted key)
  gone : s.dropped r ≡ true

Contains-acquired :
    (s : System) (key k : String) (r : ℕ)
    → Contains r (s.granted key)
    → Contains r ((acquired k s).granted key)
Contains-acquired s key k r c = elim (Bool-cases (str_eq k key)) [
  | inl h ↦ elim (Bool-cases (acquire k s.channels s.locks).1) [
    | inl sent ↦ rw (h, sent) (inr (rw ((str_eq_iff k key).0 h) c))
    | inr waits ↦ rw (h, waits) (rw ((str_eq_iff k key).0 h) c)
  ]
  | inr h ↦ rw h c
]

Lost-Step : {s v : System} (key : String) (r : ℕ) → Step s v → Lost key r s → Lost key r v
Lost-Step key r (asks s k) h = record {
  exclusive = IsExclusive-Step (asks s k) h.exclusive;
  signalled = Contains-acquired s key k r h.signalled;
  gone = h.gone;
}
Lost-Step key r (cancels s j) h = record {
  exclusive = IsExclusive-Step (cancels s j) h.exclusive;
  signalled = h.signalled;
  gone = rw h.gone (ground arith);
}
Lost-Step key r (releases s k j d c alive e) h = record {
  exclusive = IsExclusive-Step (releases s k j d c alive e) h.exclusive;
  signalled = elim (Bool-cases (str_eq k key)) [
    | inl same ↦
        let c' : Contains j (s.granted key) = rw ((str_eq_iff k key).0 same) at c in
        let one = Held-unique (s.locks key) (s.granted key) j r (h.exclusive key) c' h.signalled in
        absurd (false≢true (sym alive ∙ ap s.dropped one ∙ h.gone))
    | inr other ↦ rw other h.signalled
  ];
  gone = h.gone;
}

Lost-Steps : {s v : System} (key : String) (r : ℕ) → Steps s v → Lost key r s → Lost key r v
Lost-Steps key r done h = h
Lost-Steps key r (next steps step) h = Lost-Step key r step (Lost-Steps key r steps h)

Lost-only : (o : Option LockQueue) (rs : List ℕ) (r : ℕ) → Held o rs → Contains r rs → rs ≡ r ∷ []
Lost-only none rs r h c = absurd (rw h at c)
Lost-only (some q) rs r h c =
    h.2 ∙ ap (λ t. t ∷ []) (Held-unique (some q) rs h.1 r h (rw h.2 (inl refl)) c)

-- If a task gave up after it was signalled and before it had its guard, then no other task of the key
-- is ever signalled again, whatever the tasks do.
pub acquire_lost :
    (s v : System) (key : String) (r : ℕ)
    → Steps start s
    → Contains r (s.granted key)
    → s.dropped r ≡ true
    → Steps s v
    → v.granted key ≡ r ∷ []
acquire_lost s v key r before c gone after =
    let h = Lost-Steps key r after (record {
      exclusive = IsExclusive-Steps before IsExclusive-start;
      signalled = c;
      gone = gone;
    }) in
    Lost-only (v.locks key) (v.granted key) r (h.exclusive key) h.signalled
