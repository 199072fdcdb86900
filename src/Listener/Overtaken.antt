-- ===== src/Listener/Overtaken.antt =====
-- A later message can be handled first: crates/command-service/src/input/service/message_queue.rs,
-- crates/data-router/src/main.rs.
use common_data_layer.Prelude.{ℕ, suc, ◌≡◌, refl, Bool, false, [], ◌∷◌}
use common_data_layer.Exec.{ok}
use common_data_layer.Messaging.{CommunicationMessage}
use common_data_layer.TaskLimiter
use common_data_layer.TaskLimiter.{TaskLimiter, spawns, ends}
use common_data_layer.Listener.{Listener, IsLive, start, receives, works, Steps, done, next}

live : {s : Listener} → s.exited ≡ false → s.aborted ≡ false → IsLive s
live e a = record { not_exited = e; not_aborted = a }

module _ (error_aborts : Bool) where
  -- With a limit of two or more, the second of two messages can be handled to its end before the first
  -- one is, whatever their order groups are: the groups do not keep their order.
  pub Steps-overtakes :
      (limit : ℕ) (first second : CommunicationMessage)
      → (s : Listener) × Steps error_aborts (start (suc (suc limit)) (ok first ∷ ok second ∷ [])) s
        × (s.tasks.running ≡ first ∷ [])
        × (s.tasks.ended ≡ second ∷ [])
  Steps-overtakes limit first second =
      let s₀ = start (suc (suc limit)) (ok first ∷ ok second ∷ []) in
      let s₁ : Listener = record s₀ {
        incoming = ok second ∷ [];
        tasks = TaskLimiter.run first s₀.tasks;
      } in
      let t₂ : TaskLimiter CommunicationMessage = record {
        semaphore = suc limit;
        waiting = [];
        running = first ∷ [];
        ended = [];
      } in
      let s₂ : Listener = record s₁ { tasks = t₂ } in
      let s₃ : Listener = record s₂ { incoming = []; tasks = TaskLimiter.run second t₂ } in
      let t₄ : TaskLimiter CommunicationMessage = record {
        semaphore = limit;
        waiting = [];
        running = first ∷ second ∷ [];
        ended = [];
      } in
      let s₄ : Listener = record s₃ { tasks = t₄ } in
      (
        _,
        next
            (next
              (next
                (next (next done (receives s₀ first (ok second ∷ []) (live refl refl) refl refl))
                  (works s₁ t₂ (live refl refl) (spawns s₁.tasks (suc limit) first [] refl refl)))
                (receives s₂ second [] (live refl refl) refl refl))
              (works s₃ t₄ (live refl refl) (spawns s₃.tasks limit second [] refl refl)))
            (works s₄ _ (live refl refl) (ends t₄ (first ∷ []) [] second refl)),
        refl,
        refl,
      )
