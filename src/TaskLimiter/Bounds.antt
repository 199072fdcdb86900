-- ===== src/TaskLimiter/Bounds.antt =====
-- The accounts of crates/utils/src/task_limiter.rs: permits, and the tasks themselves.
use mathlib.Core.List.{Perm, append_assoc, perm_middle}
use mathlib.Core.List.Perm
use common_data_layer.Prelude.{
  ℕ, ◌+◌, ◌≡◌, refl, ap, List, [], ◌∷◌, ◌++◌, length, length-append, arith,
}
use common_data_layer.TaskLimiter.{TaskLimiter, Step, spawns, ends}

module _ {T : Type 0} where
  -- Every task that was handed over and is not lost, the ones that ended first.
  abbrev pub all_tasks : TaskLimiter T → List T
  all_tasks s = s.ended ++ (s.running ++ s.waiting)

  -- Each permit of the limit is free or is owned by a task that runs.
  abbrev pub HasLimit : ℕ → TaskLimiter T → Type 0
  HasLimit limit s = s.semaphore + length s.running ≡ limit

  pub HasLimit-Step :
      {limit : ℕ} {s u : TaskLimiter T} → Step s u → HasLimit limit s → HasLimit limit u
  HasLimit-Step (spawns s permits task rest e f) h =
      omega (arith, length-append s.running (task ∷ []))
  HasLimit-Step (ends s before after task e) h =
      omega (arith, ap length e, length-append before (task ∷ after), length-append before after)

  spawned : (xs ys zs : List T) (x : T) → xs ++ ((ys ++ x ∷ []) ++ zs) ≡ xs ++ (ys ++ x ∷ zs)
  spawned xs ys zs x = ap (λ l. xs ++ l) (append_assoc ys (x ∷ []) zs)

  -- A task is neither lost nor run twice.
  pub all_tasks-Perm : {s u : TaskLimiter T} → Step s u → Perm (all_tasks u) (all_tasks s)
  all_tasks-Perm (spawns s permits task rest e f) =
      rw (f, spawned s.ended s.running rest task)
        (Perm.refl (s.ended ++ (s.running ++ task ∷ rest)))
  all_tasks-Perm (ends s before after task e) =
      rw (e, append_assoc s.ended (task ∷ []) ((before ++ after) ++ s.waiting))
        (Perm.append (Perm.refl s.ended)
          (Perm.append (Perm.symm (perm_middle before after)) (Perm.refl s.waiting)))

  -- With one permit, the order of the calls is kept.
  pub all_tasks-single : {s u : TaskLimiter T} → Step s u → HasLimit 1 s → all_tasks u ≡ all_tasks s
  all_tasks-single (spawns s permits task rest e f) h = rw f (spawned s.ended s.running rest task)
  all_tasks-single (ends s [] [] task e) h = rw (e, append_assoc s.ended (task ∷ []) s.waiting) refl
  all_tasks-single (ends s [] (a ∷ after) task e) h = absurd (omega (arith, ap length e))
  all_tasks-single (ends s (b ∷ before) after task e) h =
      absurd (omega (arith, ap length e, length-append before (task ∷ after)))
