-- ===== src/Registry/Roles.antt =====
-- The changes of a replica's role, `set_role` of crates/schema-registry/src/replication/mod.rs.
mod Tests
use mathlib.Core.Option.{some-injective}
use common_data_layer.Prelude.{
  ℕ, zero, suc, ◌≡◌, refl, sym, ◌∙◌, ap, ◌≢◌, inl, inr, Bool, true, false, Option, none, some, List,
  [], ◌∷◌, ◌++◌, length, get_elem?, Option-cases, Bool-cases, arith,
}
use common_data_layer.Registry.Replication.{
  ReplicationRole, master, slave, unreplicated, ReplicationState, Worker, new, fresh_worker,
  ReplicationEvent, at_worker, gone, thread_ended, handed, replicate_message, is_receiving,
  stop_worker, start_worker, set_role,
}

is_receiving_gone : (i : ℕ) (ws : List Worker) → is_receiving i (at_worker i gone ws) ≡ false
unfolding is_receiving at_worker
is_receiving_gone i [] = refl
is_receiving_gone zero (w ∷ ws) = refl
is_receiving_gone (suc i) (w ∷ ws) = is_receiving_gone i ws

is_receiving_fresh : (ws : List Worker) → is_receiving (length ws) (ws ++ fresh_worker ∷ []) ≡ true
unfolding is_receiving
is_receiving_fresh [] = refl
is_receiving_fresh (w ∷ ws) = is_receiving_fresh ws

-- A state whose worker was stopped, in its next role.
abbrev restarted : ReplicationRole → ReplicationState → ReplicationState
restarted role s =
    start_worker role
      (record s { stop_channel = none; master_replication_channel = none; replication_role = role })

set_role_stopped :
    (role : ReplicationRole) (s stopped : ReplicationState)
    → stop_worker s ≡ some stopped
    → set_role role s ≡ some (restarted role stopped)
unfolding set_role
set_role_stopped role s stopped e = rw (e, set_role) refl

stop_worker_started :
    (role : ReplicationRole) (s : ReplicationState)
    → s.stop_channel ≡ none
    → stop_worker (start_worker role s) ≢ none
unfolding stop_worker start_worker
stop_worker_started master s e h = cc (rw (is_receiving_fresh s.workers) at h)
stop_worker_started slave s e h = cc (rw (is_receiving_fresh s.workers) at h)
stop_worker_started unreplicated s e h = cc (rw (e, stop_worker) at h)

-- After a change of role, and as long as the worker that it started runs, the role can be changed
-- again without a panic, to any role.
pub set_role_again :
    (role later : ReplicationRole) (s t : ReplicationState)
    → set_role role s ≡ some t
    → (u : ReplicationState) × (set_role later t ≡ some u)
unfolding set_role
set_role_again role later s t h = elim (Option-cases (stop_worker s)) [
  | inl panic ↦ absurd (cc (rw (panic, set_role) at h))
  | inr (stopped, e) ↦
      let same : restarted role stopped ≡ t =
        some-injective _ _ (sym (set_role_stopped role s stopped e) ∙ h) in
      elim (Option-cases (stop_worker t)) [
        | inl panic ↦ absurd (stop_worker_started role _ refl (ap stop_worker same ∙ panic))
        | inr (next, f) ↦ (restarted later next, set_role_stopped later t next f)
      ]
]

length-at_worker :
    (i : ℕ) (f : Worker → Worker) (ws : List Worker) → length (at_worker i f ws) ≡ length ws
unfolding at_worker
length-at_worker i f [] = refl
length-at_worker zero f (w ∷ ws) = refl
length-at_worker (suc i) f (w ∷ ws) = ap suc (length-at_worker i f ws)

stop_worker-length :
    (s stopped : ReplicationState)
    → stop_worker s ≡ some stopped
    → length stopped.workers ≡ length s.workers
unfolding stop_worker
stop_worker-length s stopped e = elim (Option-cases s.stop_channel) [
  | inl none_runs ↦
      ap (λ r. length r.workers) (sym (some-injective _ _ (rw (none_runs, stop_worker) at e)))
  | inr (i, runs) ↦ elim (Bool-cases (is_receiving i s.workers)) [
    | inl here ↦
        sym (ap (λ r. length r.workers) (some-injective _ _ (rw (runs, here, stop_worker) at e)))
        ∙ length-at_worker i _ s.workers
    | inr lost ↦ absurd (cc (rw (runs, lost, stop_worker) at e))
  ]
]

-- The state of a master whose channel has no receiver keeps no event.
handed_lost :
    (events : List ReplicationEvent) (r : ReplicationState) (i : ℕ)
    → r.replication_role ≡ master
    → r.master_replication_channel ≡ some i
    → is_receiving i r.workers ≡ false
    → handed events r ≡ r
unfolding handed replicate_message
handed_lost [] r i role channel lost = refl
handed_lost (event ∷ events) r i role channel lost =
    let kept : replicate_message event r ≡ r = ground arith in
    ap (handed events) kept ∙ handed_lost events r i role channel lost

-- After a change to the role of a master, once the thread that it started has ended, whatever events
-- the master hands to the replication leave the state as it is, so that none is sent, and the next
-- change of the role panics, whatever the role.
pub set_role_panics :
    (later : ReplicationRole) (events : List ReplicationEvent) (s t : ReplicationState)
    → set_role master s ≡ some t
    → let ended = thread_ended (length s.workers) t in
      (handed events ended ≡ ended) × (set_role later (handed events ended) ≡ none)
unfolding set_role start_worker stop_worker
set_role_panics later events s t h = elim (Option-cases (stop_worker s)) [
  | inl panic ↦ absurd (cc (rw (panic, set_role) at h))
  | inr (stopped, e) ↦
      let same : restarted master stopped ≡ t =
        some-injective _ _ (sym (set_role_stopped master s stopped e) ∙ h) in
      let count = stop_worker-length s stopped e in
      let i = length s.workers in
      let ended = thread_ended i t in
      let channel : ended.master_replication_channel ≡ some i = rw (sym same) (rw count refl) in
      let stop : ended.stop_channel ≡ some i = rw (sym same) (rw count refl) in
      let role : ended.replication_role ≡ master = rw (sym same) refl in
      let kept = handed_lost events ended i role channel (is_receiving_gone i t.workers) in
      let dies : set_role later ended ≡ none =
        rw (stop, set_role, stop_worker) (rw (is_receiving_gone i t.workers) refl) in
      (kept, ap (set_role later) kept ∙ dies)
]
