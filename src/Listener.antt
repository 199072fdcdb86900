-- ===== src/Listener.antt =====
-- The loop that takes the messages of a queue and hands each to a task, as the data router and the
-- command service have it: crates/command-service/src/input/service/message_queue.rs (`listen`) and
-- crates/data-router/src/main.rs (`main`). The handling of one message is in the modules of the
-- services. A future that a task makes to take a permit of its order group, and never polls, does
-- nothing, so the queue of permits has no part in a step.
pub mod Accounts
pub mod Drained
pub mod Exited
pub mod Overtaken
mod Tests
use common_data_layer.Prelude.{ℕ, String, ◌≡◌, Bool, true, false, List, [], ◌∷◌, Contains}
use common_data_layer.Exec.{Result, ok, err}
use common_data_layer.Messaging.{CommunicationMessage}
use common_data_layer.TaskLimiter
use common_data_layer.TaskLimiter.{TaskLimiter}

-- What the stream still gives until it ends, the tasks, whether the loop was left at the end of the
-- stream, whether the process then ended, after its delay, and whether it has aborted.
pub record Listener : Type 0 where
  pub incoming : List (Result String CommunicationMessage)
  pub tasks : TaskLimiter CommunicationMessage
  pub closed : Bool
  pub exited : Bool
  pub aborted : Bool

-- The process has neither ended nor aborted.
pub record IsLive (s : Listener) : Type 0 where
  pub not_exited : s.exited ≡ false
  pub not_aborted : s.aborted ≡ false

abbrev pub start : ℕ → List (Result String CommunicationMessage) → Listener
start limit stream = record {
  incoming = stream;
  tasks = TaskLimiter.new limit;
  closed = false;
  exited = false;
  aborted = false;
}

module _ (error_aborts : Bool) where
  -- The loop awaits `run`, so it takes no message while one waits for its permit. An error of the
  -- stream aborts the process or is passed over. A task may abort the process. At the end of the
  -- stream the loop is left, and the process ends after a delay, whatever tasks are still running.
  pub data Step : Listener → Listener → Type 0 where
    receives :
        (s : Listener) (message : CommunicationMessage)
        (rest : List (Result String CommunicationMessage))
        → IsLive s
        → s.tasks.waiting ≡ []
        → s.incoming ≡ ok message ∷ rest
        → Step s (record s { incoming = rest; tasks = TaskLimiter.run message s.tasks })
    misses :
        (s : Listener) (error : String) (rest : List (Result String CommunicationMessage))
        → IsLive s
        → s.tasks.waiting ≡ []
        → s.incoming ≡ err error ∷ rest
        → Step s (record s { incoming = rest; aborted = error_aborts })
    works :
        (s : Listener) (t : TaskLimiter CommunicationMessage)
        → IsLive s
        → TaskLimiter.Step s.tasks t
        → Step s (record s { tasks = t })
    aborts :
        (s : Listener) (message : CommunicationMessage)
        → IsLive s
        → Contains message s.tasks.running
        → Step s (record s { aborted = true })
    closes :
        (s : Listener)
        → IsLive s
        → s.tasks.waiting ≡ []
        → s.incoming ≡ []
        → Step s (record s { closed = true })
    exits : (s : Listener) → IsLive s → s.closed ≡ true → Step s (record s { exited = true })

  -- The states that a number of steps lead to.
  pub data Steps (s : Listener) : Listener → Type 0 where
    done : Steps s s
    next : {u v : Listener} → Steps s u → Step u v → Steps s v

-- The loop of the command service.
abbrev pub Listen : Listener → Listener → Type 0
Listen = Steps true

-- The loop of the data router.
abbrev pub MainLoop : Listener → Listener → Type 0
MainLoop = Steps false
