-- ===== src/Listener/Drained.antt =====
-- Every message can still be handled until the process ends:
-- crates/command-service/src/input/service/message_queue.rs, crates/data-router/src/main.rs.
use mathlib.Core.List.{Perm, append-nil}
use mathlib.Core.List.Perm
use common_data_layer.Prelude.{
  ℕ, suc, String, ◌≡◌, refl, ap, Bool, false, List, [], ◌∷◌, ◌++◌, length, arith,
}
use common_data_layer.Exec.{Result, ok, err}
use common_data_layer.Messaging.{CommunicationMessage}
use common_data_layer.TaskLimiter
use common_data_layer.TaskLimiter.{TaskLimiter, spawns, ends}
use common_data_layer.TaskLimiter.Bounds.{HasLimit, HasLimit-Step}
use common_data_layer.Listener.{
  Listener, IsLive, start, Step, receives, misses, works, aborts, closes, exits, Steps, done, next,
}
use common_data_layer.Listener.Accounts.{
  messages, all_messages, all_messages-Steps, Steps-limit, Steps-messages,
}

module _ (error_aborts : Bool) where
  -- No error of the stream aborts the process.
  unfoldable pub IsPassable : List (Result String CommunicationMessage) → Type 0
  IsPassable [] = Unit
  IsPassable (ok message ∷ rest) = IsPassable rest
  IsPassable (err error ∷ rest) = (error_aborts ≡ false) × IsPassable rest

  IsPassable-Step :
      {s u : Listener} → Step error_aborts s u → IsPassable s.incoming → IsPassable u.incoming
  unfolding IsPassable
  IsPassable-Step (receives s message rest a w e) h = rw e at h
  IsPassable-Step (misses s error rest a w e) h = let both = rw e at h in both.1
  IsPassable-Step (works s t a step) h = h
  IsPassable-Step (aborts s message a c) h = h
  IsPassable-Step (closes s a w e) h = h
  IsPassable-Step (exits s a e) h = h

  IsPassable-Steps :
      {s u : Listener} → Steps error_aborts s u → IsPassable s.incoming → IsPassable u.incoming
  IsPassable-Steps done h = h
  IsPassable-Steps (next r step) h = IsPassable-Step step (IsPassable-Steps r h)

  -- A live state that was reached, where no task runs.
  record Idle (limit : ℕ) (origin : Listener) (waiting : List CommunicationMessage)
      (incoming : List (Result String CommunicationMessage)) : Type 0 where
    state : Listener
    reached : Steps error_aborts origin state
    live : IsLive state
    permits : HasLimit (suc limit) state.tasks
    none_runs : state.tasks.running ≡ []
    waits : state.tasks.waiting ≡ waiting
    comes : state.incoming ≡ incoming

  module _ (limit : ℕ) (origin : Listener) where
    -- The tasks that run come to their end, the oldest first.
    end_running :
        (running : List CommunicationMessage) (s : Listener)
        → Steps error_aborts origin s
        → IsLive s
        → HasLimit (suc limit) s.tasks
        → s.tasks.running ≡ running
        → Idle limit origin s.tasks.waiting s.incoming
    end_running [] s r a h e = record {
      state = s;
      reached = r;
      live = a;
      permits = h;
      none_runs = e;
      waits = refl;
      comes = refl;
    }
    end_running (task ∷ rest) s r a h e =
        let t : TaskLimiter CommunicationMessage = record (s.tasks) {
          semaphore = suc s.tasks.semaphore;
          running = rest;
          ended = s.tasks.ended ++ task ∷ [];
        } in
        let ended : TaskLimiter.Step s.tasks t = ends s.tasks [] rest task e in
        end_running rest (record s { tasks = t }) (next r (works s t a ended))
          (record { not_exited = a.not_exited; not_aborted = a.not_aborted })
          (HasLimit-Step ended h) refl

    -- Those that wait for a permit get it, one after the other.
    end_waiting :
        (waiting : List CommunicationMessage) (incoming : List (Result String CommunicationMessage))
        → Idle limit origin waiting incoming
        → Idle limit origin [] incoming
    end_waiting [] incoming i = i
    end_waiting (task ∷ rest) incoming i =
        let s = i.state in
        let t : TaskLimiter CommunicationMessage = record (s.tasks) {
          semaphore = limit;
          waiting = rest;
          running = s.tasks.running ++ task ∷ [];
        } in
        let spawned : TaskLimiter.Step s.tasks t =
          spawns s.tasks limit task rest (omega (arith, i.permits, ap length i.none_runs))
            i.waits in
        let done =
          end_running (s.tasks.running ++ task ∷ []) (record s { tasks = t })
            (next i.reached (works s t i.live spawned))
            (record { not_exited = i.live.not_exited; not_aborted = i.live.not_aborted })
            (HasLimit-Step spawned i.permits) refl in
        end_waiting rest incoming (rw i.comes at done)

    end_incoming :
        (incoming : List (Result String CommunicationMessage))
        → IsPassable incoming
        → Idle limit origin [] incoming
        → Idle limit origin [] []
    unfolding IsPassable
    end_incoming [] p i = i
    end_incoming (ok message ∷ rest) p i =
        let s = i.state in
        end_incoming rest p (
          end_waiting (message ∷ []) rest (record {
            state = record s { incoming = rest; tasks = TaskLimiter.run message s.tasks };
            reached = next i.reached (receives s message rest i.live i.waits i.comes);
            live = record { not_exited = i.live.not_exited; not_aborted = i.live.not_aborted };
            permits = i.permits;
            none_runs = i.none_runs;
            waits = rw i.waits refl;
            comes = refl;
          }))
    end_incoming (err error ∷ rest) p i =
        let s = i.state in
        end_incoming rest p.1 (record {
          state = record s { incoming = rest; aborted = error_aborts };
          reached = next i.reached (misses s error rest i.live i.waits i.comes);
          live = record { not_exited = i.live.not_exited; not_aborted = p.0 };
          permits = i.permits;
          none_runs = i.none_runs;
          waits = i.waits;
          comes = refl;
        })

  -- With a limit of at least one, and if no error of the stream aborts the process, the loop never
  -- gets stuck: from every state that it reaches, as long as the process has neither ended nor
  -- aborted, it can go on, without an end or an abort, until each message of the stream that can be
  -- read has been handled, and each once.
  pub Steps-handled :
      (limit : ℕ) (stream : List (Result String CommunicationMessage)) (s : Listener)
      → IsPassable stream
      → Steps error_aborts (start (suc limit) stream) s
      → IsLive s
      → (u : Listener) × Steps error_aborts s u × IsLive u × Perm u.tasks.ended (messages stream)
  unfolding messages all_messages
  Steps-handled limit stream s p r a =
      let h = (Steps-limit error_aborts stream s (suc limit) r).0 in
      let ran = end_running limit s s.tasks.running s done a h refl in
      let waited = end_waiting limit s s.tasks.waiting s.incoming ran in
      let i = end_incoming limit s s.incoming (IsPassable-Steps r p) waited in
      let same =
        Perm.trans (all_messages-Steps i.reached)
          (Steps-messages error_aborts stream s (suc limit) r) in
      let u = i.state in
      (
        u,
        i.reached,
        i.live,
        rw
            (
              i.none_runs,
              i.waits,
              i.comes,
              messages,
              append-nil u.tasks.ended,
              append-nil u.tasks.ended,
            )
            at same,
      )
