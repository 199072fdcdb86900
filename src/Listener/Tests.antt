-- ===== src/Listener/Tests.antt =====
-- One message and an error of the stream: the theorems on the loop there.
use mathlib.Core.List.{Perm}
use common_data_layer.Prelude.{
  ◌+◌, ◌≤◌, ◌≡◌, refl, true, false, ◌++◌, List, [], ◌∷◌, length, String,
}
use common_data_layer.Exec.{Result, ok, err}
use common_data_layer.Messaging.{CommunicationMessage}
use common_data_layer.TaskLimiter
use common_data_layer.TaskLimiter.{TaskLimiter, spawns, ends}
use common_data_layer.Listener.{
  Listener, IsLive, closes, exits, start, receives, misses, works, Steps, done, next,
}
use common_data_layer.Listener.Accounts.{
  messages, all_messages, Steps-limit, Steps-messages, Steps-single,
}
use common_data_layer.Listener.Drained.{IsPassable, Steps-handled}
use common_data_layer.Listener.Exited.{Steps-exited}
use common_data_layer.Listener.Overtaken.{Steps-overtakes}

abbrev message : String → CommunicationMessage
message key = record { payload = ok "{}"; key = ok key; ack = ok tt }

abbrev stream : List (Result String CommunicationMessage)
stream = ok (message "a") ∷ err "lost" ∷ []

abbrev in_hand : TaskLimiter CommunicationMessage
in_hand = record { semaphore = 0; waiting = []; running = message "a" ∷ []; ended = [] }

abbrev taken : Listener
taken = record {
  incoming = err "lost" ∷ [];
  tasks = TaskLimiter.run (message "a") (TaskLimiter.new 1);
  closed = false;
  exited = false;
  aborted = false;
}

abbrev busy : Listener
busy = record taken { tasks = in_hand }

abbrev waits : Listener
waits = record busy { incoming = []; closed = true }

abbrev over : Listener
over = record waits { exited = true }

live : (s : Listener) → s.exited ≡ false → s.aborted ≡ false → IsLive s
live s e a = record { not_exited = e; not_aborted = a }

busy-IsLive : IsLive busy
busy-IsLive = live busy refl refl

busy_reached : Steps false (start 1 stream) busy
busy_reached =
    next
      (next done (
        receives (start 1 stream) (message "a") (err "lost" ∷ []) (live (start 1 stream) refl refl)
          refl refl))
      (works taken in_hand (live taken refl refl) (spawns taken.tasks 0 (message "a") [] refl refl))

-- The process ends while the message is still being handled.
over_reached : Steps false (start 1 stream) over
over_reached =
    next
      (next (next busy_reached (misses busy "lost" [] busy-IsLive refl refl)) (
        closes (record busy { incoming = [] }) (live (record busy { incoming = [] }) refl refl) refl
          refl))
      (exits waits (live waits refl refl) refl)

Steps-limit_example :
    (busy.tasks.semaphore + length busy.tasks.running ≡ 1) × (length busy.tasks.waiting ≤ 1)
Steps-limit_example = Steps-limit false stream busy 1 busy_reached

Steps-messages_example : Perm (all_messages busy) (messages stream)
Steps-messages_example = Steps-messages false stream busy 1 busy_reached

Steps-single_example : all_messages busy ≡ messages stream
Steps-single_example = Steps-single false stream busy busy_reached

Steps-handled_example :
    (u : Listener) × Steps false busy u × IsLive u × Perm u.tasks.ended (messages stream)
unfolding IsPassable
Steps-handled_example = Steps-handled false 0 stream busy (refl, tt) busy_reached busy-IsLive

Steps-exited_example : Perm (over.tasks.ended ++ over.tasks.running) (messages stream)
Steps-exited_example = Steps-exited false 1 stream over over_reached refl

Steps-overtakes_example :
    (s : Listener) × Steps false (start 2 (ok (message "a") ∷ ok (message "a") ∷ [])) s
    × (s.tasks.running ≡ message "a" ∷ [])
    × (s.tasks.ended ≡ message "a" ∷ [])
Steps-overtakes_example = Steps-overtakes false 0 (message "a") (message "a")
