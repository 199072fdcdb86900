-- ===== src/Listener/Accounts.antt =====
-- Which messages of the loop are waiting, running and ended, and in which order:
-- crates/command-service/src/input/service/message_queue.rs, crates/data-router/src/main.rs.
use mathlib.Core.List.{Perm, append_assoc}
use mathlib.Core.List.Perm
use common_data_layer.Prelude.{
  ℕ, ◌+◌, ◌≤◌, String, ◌≡◌, refl, sym, ap, ◌∙◌, Bool, List, [], ◌∷◌, ◌++◌, length, arith,
}
use common_data_layer.Exec.{Result, ok, err}
use common_data_layer.Messaging.{CommunicationMessage}
use common_data_layer.TaskLimiter
use common_data_layer.TaskLimiter.{TaskLimiter, spawns, ends}
use common_data_layer.TaskLimiter.Bounds.{
  all_tasks, all_tasks-Perm, all_tasks-single, HasLimit, HasLimit-Step,
}
use common_data_layer.Listener.{
  Listener, start, Step, receives, misses, works, aborts, closes, exits, Steps, done, next,
}

-- The messages of a stream that could be read.
unfoldable pub messages : List (Result String CommunicationMessage) → List CommunicationMessage
messages [] = []
messages (ok message ∷ rest) = message ∷ messages rest
messages (err e ∷ rest) = messages rest

-- Every message that was taken from the stream or is still to come.
unfoldable pub all_messages : Listener → List CommunicationMessage
all_messages s = all_tasks s.tasks ++ messages s.incoming

-- The bound on the tasks that run, and on the messages taken without a permit.
record IsBounded (limit : ℕ) (s : Listener) : Type 0 where
  permits : HasLimit limit s.tasks
  one_waits : length s.tasks.waiting ≤ 1

waits-Step :
    {s u : TaskLimiter CommunicationMessage}
    → TaskLimiter.Step s u
    → length s.waiting ≤ 1
    → length u.waiting ≤ 1
waits-Step (spawns s permits task rest e f) h = omega (arith, ap length f)
waits-Step (ends s before after task e) h = h

-- The received message goes from the stream to the end of those that wait.
received :
    (s : Listener) (message : CommunicationMessage)
    (rest : List (Result String CommunicationMessage))
    → all_tasks (TaskLimiter.run message s.tasks) ++ messages rest
      ≡ all_tasks s.tasks ++ (message ∷ messages rest)
received s message rest =
    let t = s.tasks in
    ap (λ l. l ++ messages rest)
      (ap (λ l. t.ended ++ l) (sym (append_assoc t.running t.waiting (message ∷ [])))
        ∙ sym (append_assoc t.ended (t.running ++ t.waiting) (message ∷ [])))
    ∙ append_assoc (all_tasks t) (message ∷ []) (messages rest)

module _ {error_aborts : Bool} where
  IsBounded-Step :
      {limit : ℕ} {s u : Listener} → Step error_aborts s u → IsBounded limit s → IsBounded limit u
  IsBounded-Step (receives s message rest a w e) b = record {
    permits = b.permits;
    one_waits = rw w (omega arith);
  }
  IsBounded-Step (misses s error rest a w e) b = record {
    permits = b.permits;
    one_waits = b.one_waits;
  }
  IsBounded-Step (works s t a step) b = record {
    permits = HasLimit-Step step b.permits;
    one_waits = waits-Step step b.one_waits;
  }
  IsBounded-Step (aborts s message a c) b = record { permits = b.permits; one_waits = b.one_waits }
  IsBounded-Step (closes s a w e) b = record { permits = b.permits; one_waits = b.one_waits }
  IsBounded-Step (exits s a e) b = record { permits = b.permits; one_waits = b.one_waits }

  IsBounded-Steps :
      {limit : ℕ} {s u : Listener} → Steps error_aborts s u → IsBounded limit s → IsBounded limit u
  IsBounded-Steps done b = b
  IsBounded-Steps (next r step) b = IsBounded-Step step (IsBounded-Steps r b)

  all_messages-Step :
      {s u : Listener} → Step error_aborts s u → Perm (all_messages u) (all_messages s)
  unfolding all_messages messages
  all_messages-Step (receives s message rest a w e) =
      rw (e, messages, received s message rest)
        (Perm.refl (all_tasks s.tasks ++ (message ∷ messages rest)))
  all_messages-Step (misses s error rest a w e) =
      rw (e, messages) (Perm.refl (all_tasks s.tasks ++ messages rest))
  all_messages-Step (works s t a step) =
      Perm.append (all_tasks-Perm step) (Perm.refl (messages s.incoming))
  all_messages-Step (aborts s message a c) = Perm.refl (all_tasks s.tasks ++ messages s.incoming)
  all_messages-Step (closes s a w e) = Perm.refl (all_tasks s.tasks ++ messages s.incoming)
  all_messages-Step (exits s a e) = Perm.refl (all_tasks s.tasks ++ messages s.incoming)

  pub all_messages-Steps :
      {s u : Listener} → Steps error_aborts s u → Perm (all_messages u) (all_messages s)
  all_messages-Steps {s} done = Perm.refl (all_messages s)
  all_messages-Steps (next r step) = Perm.trans (all_messages-Step step) (all_messages-Steps r)

  single-Step :
      {s u : Listener} → Step error_aborts s u → IsBounded 1 s → all_messages u ≡ all_messages s
  unfolding all_messages messages
  single-Step (receives s message rest a w e) b = rw (e, messages) (received s message rest)
  single-Step (misses s error rest a w e) b = rw (e, messages) refl
  single-Step (works s t a step) b =
      ap (λ l. l ++ messages s.incoming) (all_tasks-single step b.permits)
  single-Step (aborts s message a c) b = refl
  single-Step (closes s a w e) b = refl
  single-Step (exits s a e) b = refl

  single-Steps :
      {s u : Listener} → Steps error_aborts s u → IsBounded 1 s → all_messages u ≡ all_messages s
  single-Steps done b = refl
  single-Steps (next r step) b = single-Step step (IsBounded-Steps r b) ∙ single-Steps r b

module _ (error_aborts : Bool) (stream : List (Result String CommunicationMessage))
    (s : Listener) where
  -- Of the messages that the loop has taken, never more than the limit are handled at once and at
  -- most one more waits for its turn; the permits left make up the difference to the limit.
  pub Steps-limit :
      (limit : ℕ)
      → Steps error_aborts (start limit stream) s
      → (s.tasks.semaphore + length s.tasks.running ≡ limit) × (length s.tasks.waiting ≤ 1)
  Steps-limit limit r =
      let b : IsBounded limit s =
        IsBounded-Steps r (record { permits = omega arith; one_waits = omega arith }) in
      (b.permits, b.one_waits)

  -- No message that can be read is lost or taken twice: those that were handled, those that are being
  -- handled, the one that waits and those still to come are the ones of the stream.
  pub Steps-messages :
      (limit : ℕ)
      → Steps error_aborts (start limit stream) s
      → Perm (all_messages s) (messages stream)
  unfolding all_messages
  Steps-messages limit r = all_messages-Steps r

  -- With a limit of one task the messages are handled in the order of the stream: those handled, the
  -- one in hand, the one that waits and those still to come, in this order, are the stream.
  pub Steps-single : Steps error_aborts (start 1 stream) s → all_messages s ≡ messages stream
  unfolding all_messages
  Steps-single r = single-Steps r (record { permits = omega arith; one_waits = omega arith })
