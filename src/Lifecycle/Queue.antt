-- ===== src/Lifecycle/Queue.antt =====
-- The queue of requests (fact/lifecycle.go): which request runs next, and how one is submitted.
use chat_wire.Common.{
  ℕ, suc, Bool, true, false, not, ◌&&◌, ◌||◌, ltb, Option, none, some, List, [], ◌∷◌, ◌++◌,
  if◌then◌else◌,
}
use chat_wire.Lifecycle.State.{
  ActionKind, start, stop, restart_factorio, restart_chat_wire, change_map, map_reset,
  LifecycleRequest, World, is_stopped, is_set, sync_compatibility, State, current_state, reply,
  remove_file, Effect,
}

-- `actionPriority`.
unfoldable pub action_priority : ActionKind → ℕ
action_priority restart_chat_wire = 50
action_priority change_map = 40
action_priority map_reset = 40
action_priority restart_factorio = 30
action_priority stop = 20
action_priority start = 10
action_priority _ = 0

is_stop : ActionKind → Bool
is_stop stop = true
is_stop _ = false

is_restart_chat_wire : ActionKind → Bool
is_restart_chat_wire restart_chat_wire = true
is_restart_chat_wire _ = false

-- `requestRunnableLocked`.
pub request_runnable : World → LifecycleRequest → Bool
unfolding is_stop is_restart_chat_wire
request_runnable w r =
    if (w.update_in_progress || w.mod_operation)
      && not (is_stop r.kind)
      && not (is_restart_chat_wire r.kind && r.force_chat_wire_exit)
    then false
    else if r.when_empty && not (is_stopped w.phase) && ltb 0 w.num_players
    then false
    else true

-- The loop of `nextRequest`: the first runnable request of the highest priority, and its place. The
-- accumulator is `bestIdx`, with the request itself.
unfoldable pub is_better : LifecycleRequest → Option (ℕ × LifecycleRequest) → Bool
is_better r none = true
is_better r (some (j, b)) = ltb (action_priority b.kind) (action_priority r.kind)

unfoldable pub best_request :
    World
    → ℕ
    → List LifecycleRequest
    → Option (ℕ × LifecycleRequest)
    → Option (ℕ × LifecycleRequest)
unfolding is_better request_runnable
best_request w i [] best = best
best_request w i (r ∷ rs) best =
    best_request w (suc i) rs
      (if request_runnable w r && is_better r best then some (i, r) else best)

-- `append(queue[:i], queue[i+1:]...)`.
unfoldable pub remove_at : ℕ → List LifecycleRequest → List LifecycleRequest
remove_at i [] = []
remove_at ℕ.zero (r ∷ rs) = rs
remove_at (suc i) (r ∷ rs) = r ∷ remove_at i rs

-- `nextRequest`.
unfoldable pub take_request :
    World → Option (ℕ × LifecycleRequest) → Option LifecycleRequest × World
take_request w none = (none, w)
take_request w (some (i, r)) = (
  some r,
  sync_compatibility
      (record w { lm = record w.lm { queue = remove_at i w.queue; current_action = some r.kind } }),
)

unfoldable pub next_request : World → Option LifecycleRequest × World
unfolding take_request
next_request w = take_request w (best_request w 0 w.queue none)

-- `submitLifecycleRequest` once the manager exists and a map change has staged its snapshot: the
-- request is refused while shutting down, which removes the snapshot, and is queued otherwise.
unfoldable pub submit : LifecycleRequest → World → Option State × World
submit r w =
    if w.shutdown_requested
    then (
      none,
      if is_set r.save_snapshot
          then record w { effects = w.effects ++ remove_file r.save_snapshot ∷ [] }
          else w,
    )
    else let w' =
        sync_compatibility (record w { lm = record w.lm { queue = w.queue ++ r ∷ [] } }) in
      (some (current_state w'.lm), w')

-- `cancelPendingRequests`: every waiting caller is told, every snapshot removed.
cancelled : LifecycleRequest → List Effect
cancelled r =
    (if is_set r.save_snapshot then remove_file r.save_snapshot ∷ [] else [])
    ++ (if r.done
        then reply (some "lifecycle manager stopped before request completed") ∷ []
        else [])

unfoldable pub cancel_all : List LifecycleRequest → List Effect
unfolding cancelled
cancel_all [] = []
cancel_all (r ∷ rs) = cancelled r ++ cancel_all rs

unfoldable pub cancel_pending_requests : World → World
cancel_pending_requests w =
    let w' = sync_compatibility (record w { lm = record w.lm { queue = [] } }) in
    record w' { effects = w.effects ++ cancel_all w.queue }
