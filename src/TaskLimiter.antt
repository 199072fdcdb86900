-- ===== src/TaskLimiter.antt =====
-- The limit on tasks, crates/utils/src/task_limiter.rs. A task is what it works on. The semaphore is
-- the library's: its permits are a number, and `acquire_owned` waits while there is none.
pub mod Bounds
use common_data_layer.Prelude.{ℕ, suc, ◌≡◌, List, [], ◌∷◌, ◌++◌}

-- The permits left, the calls of `run` that wait for one in the order of the calls, the spawned tasks
-- that have not ended, and those that have.
pub record TaskLimiter (T : Type 0) : Type 0 where
  pub semaphore : ℕ
  pub waiting : List T
  pub running : List T
  pub ended : List T

module _ {T : Type 0} where
  abbrev pub new : ℕ → TaskLimiter T
  new limit = record { semaphore = limit; waiting = []; running = []; ended = [] }

  -- `run`, up to its `await`.
  abbrev pub run : T → TaskLimiter T → TaskLimiter T
  run task s = record s { waiting = s.waiting ++ task ∷ [] }

  -- The spawned task owns its permit, and drops it at its end.
  pub data Step : TaskLimiter T → TaskLimiter T → Type 0 where
    spawns :
        (s : TaskLimiter T) (permits : ℕ) (task : T) (rest : List T)
        → s.semaphore ≡ suc permits
        → s.waiting ≡ task ∷ rest
        → Step s
            (record s { semaphore = permits; waiting = rest; running = s.running ++ task ∷ [] })
    ends :
        (s : TaskLimiter T) (before after : List T) (task : T)
        → s.running ≡ before ++ task ∷ after
        → Step s (record s {
          semaphore = suc s.semaphore;
          running = before ++ after;
          ended = s.ended ++ task ∷ [];
        })
