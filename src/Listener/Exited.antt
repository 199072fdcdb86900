-- ===== src/Listener/Exited.antt =====
-- What was handled when the process ends at the end of the stream:
-- crates/command-service/src/input/service/message_queue.rs, crates/data-router/src/main.rs.
use mathlib.Core.List.{Perm, append-nil}
use common_data_layer.Prelude.{ℕ, String, ◌≡◌, refl, Bool, true, List, [], ◌++◌}
use common_data_layer.Exec.{Result}
use common_data_layer.Messaging.{CommunicationMessage}
use common_data_layer.TaskLimiter
use common_data_layer.TaskLimiter.{TaskLimiter, spawns, ends}
use common_data_layer.Listener.{
  Listener, start, Step, receives, misses, works, aborts, closes, exits, Steps, done, next,
}
use common_data_layer.Listener.Accounts.{messages, all_messages, Steps-messages}

module _ (error_aborts : Bool) where
  -- Where the loop was left, nothing is left to take.
  record IsOver (s : Listener) : Type 0 where
    exited : s.exited ≡ true → s.closed ≡ true
    none_waits : s.closed ≡ true → s.tasks.waiting ≡ []
    none_comes : s.closed ≡ true → s.incoming ≡ []

  none_spawned :
      {t u : TaskLimiter CommunicationMessage}
      → TaskLimiter.Step t u
      → t.waiting ≡ []
      → u.waiting ≡ []
  none_spawned (spawns t permits task rest e f) h = absurd (cc (rw f at h))
  none_spawned (ends t before after task e) h = h

  IsOver-Step : {s u : Listener} → Step error_aborts s u → IsOver s → IsOver u
  IsOver-Step (receives s message rest a w e) h = record {
    exited = h.exited;
    none_waits = λ c. absurd (cc (rw e at (h.none_comes c)));
    none_comes = λ c. absurd (cc (rw e at (h.none_comes c)));
  }
  IsOver-Step (misses s error rest a w e) h = record {
    exited = h.exited;
    none_waits = h.none_waits;
    none_comes = λ c. absurd (cc (rw e at (h.none_comes c)));
  }
  IsOver-Step (works s t a step) h = record {
    exited = h.exited;
    none_waits = λ c. none_spawned step (h.none_waits c);
    none_comes = h.none_comes;
  }
  IsOver-Step (aborts s message a c) h = record {
    exited = h.exited;
    none_waits = h.none_waits;
    none_comes = h.none_comes;
  }
  IsOver-Step (closes s a w e) h = record {
    exited = λ x. refl;
    none_waits = λ c. w;
    none_comes = λ c. e;
  }
  IsOver-Step (exits s a e) h = record {
    exited = λ x. e;
    none_waits = h.none_waits;
    none_comes = h.none_comes;
  }

  IsOver-Steps : {s u : Listener} → Steps error_aborts s u → IsOver s → IsOver u
  IsOver-Steps done h = h
  IsOver-Steps (next r step) h = IsOver-Step step (IsOver-Steps r h)

  -- When the process has ended by the end of the stream, each message that can be read was given to a
  -- task, and each once: it was handled, or its task was still running, and is dropped.
  pub Steps-exited :
      (limit : ℕ) (stream : List (Result String CommunicationMessage)) (s : Listener)
      → Steps error_aborts (start limit stream) s
      → s.exited ≡ true
      → Perm (s.tasks.ended ++ s.tasks.running) (messages stream)
  unfolding messages all_messages
  Steps-exited limit stream s r x =
      let over =
        IsOver-Steps r
          (record { exited = λ e. cc; none_waits = λ e. refl; none_comes = λ c. absurd (cc c) }) in
      let c = over.exited x in
      rw
        (
          over.none_waits c,
          over.none_comes c,
          messages,
          append-nil s.tasks.running,
          append-nil (s.tasks.ended ++ s.tasks.running),
        )
        at (Steps-messages error_aborts stream s limit r)
