-- ===== src/Lifecycle/Invariant.antt =====
-- What holds of the manager between two steps of fact/lifecycle.go: the phase agrees with the other
-- fields, and the globals that older code reads agree with the manager.
pub mod Events
pub mod Requests
pub mod Rounds
use chat_wire.Common.{
  ℕ, ◌≡◌, refl, ◌∙◌, ap, Bool, true, false, not, ◌||◌, Option, none, some, List, [], ◌∷◌, arith,
}
use mathlib.Core.Bool.{◌&&◌}
use chat_wire.Lifecycle.State.{
  LifecyclePhase, stopped, starting, running, stopping, ActionKind, restart_factorio,
  restart_chat_wire, LifecycleRequest, Manager, Globals, World, is_stopped, scan_kind, scan_queue,
  reset_flags, sync_globals, sync_compatibility,
}

-- Some request of the queue restarts ChatWire; does so when empty; restarts Factorio when empty.
abbrev pub restarts_chat_wire : ActionKind → Bool
restarts_chat_wire restart_chat_wire = true
restarts_chat_wire _ = false

abbrev pub restarts_factorio : ActionKind → Bool
restarts_factorio restart_factorio = true
restarts_factorio _ = false

pub wants_reboot : List LifecycleRequest → Bool
wants_reboot [] = false
wants_reboot (r ∷ rs) = restarts_chat_wire r.kind || wants_reboot rs

pub wants_empty_reboot : List LifecycleRequest → Bool
wants_empty_reboot [] = false
wants_empty_reboot (r ∷ rs) = (restarts_chat_wire r.kind && r.when_empty) || wants_empty_reboot rs

pub wants_fact_reboot : List LifecycleRequest → Bool
wants_fact_reboot [] = false
wants_fact_reboot (r ∷ rs) = (restarts_factorio r.kind && r.when_empty) || wants_fact_reboot rs

-- The phase agrees with the manager's other fields.
pub record PhaseAgrees (m : Manager) : Type 0 where
  pub stopped_idle :
      m.phase ≡ stopped → (m.booted ≡ false) × (m.current_pid ≡ 0) × (m.started_at ≡ 0)
  pub starting_unbooted : m.phase ≡ starting → m.booted ≡ false
  pub running_booted : m.phase ≡ running → m.booted ≡ true

-- The globals of `syncCompatibilityLocked` agree with the manager.
pub record InSync (m : Manager) (g : Globals) : Type 0 where
  pub running_flag : g.fact_is_running ≡ not (is_stopped m.phase)
  pub booted_flag : g.factorio_booted ≡ m.booted
  pub reboot_flag : g.do_reboot_cw ≡ wants_reboot m.queue
  pub empty_reboot_flag : g.queue_reboot ≡ wants_empty_reboot m.queue
  pub fact_reboot_flag : g.queue_fact_reboot ≡ wants_fact_reboot m.queue

pub record WellFormed (w : World) : Type 0 where
  pub agrees : PhaseAgrees w.lm
  pub in_sync : InSync w.lm w.globals

-- What the loop over the queue changes, and what it leaves alone.
record Scanned (rs : List LifecycleRequest) (g h : Globals) : Type 0 where
  reboot : h.do_reboot_cw ≡ g.do_reboot_cw || wants_reboot rs
  empty_reboot : h.queue_reboot ≡ g.queue_reboot || wants_empty_reboot rs
  fact_reboot : h.queue_fact_reboot ≡ g.queue_fact_reboot || wants_fact_reboot rs
  running_kept : h.fact_is_running ≡ g.fact_is_running
  booted_kept : h.factorio_booted ≡ g.factorio_booted
  auto_kept : h.auto_start ≡ g.auto_start
  crash_kept : h.crash_loop_count ≡ g.crash_loop_count
  players_kept : h.num_players ≡ g.num_players
  update_kept : h.update_in_progress ≡ g.update_in_progress
  mod_kept : h.mod_operation ≡ g.mod_operation
  pending_kept : h.factorio_update_pending ≡ g.factorio_update_pending

scan_queue-Scanned : (rs : List LifecycleRequest) (g : Globals) → Scanned rs g (scan_queue rs g)
unfolding scan_queue wants_reboot wants_empty_reboot wants_fact_reboot
scan_queue-Scanned [] g = ground arith
scan_queue-Scanned (r ∷ rs) g =
    ground (arith, scan_queue-Scanned rs (scan_kind r.kind r.when_empty g))

-- After a synchronisation the globals agree with the manager.
pub sync_globals-InSync : (m : Manager) (g : Globals) → InSync m (sync_globals m g)
unfolding sync_globals
sync_globals-InSync m g = ground (arith, scan_queue-Scanned m.queue (reset_flags m g))

-- The globals that a synchronisation leaves alone; a stop forgets the players.
pub record Kept (m : Manager) (g h : Globals) : Type 0 where
  pub auto_start : h.auto_start ≡ g.auto_start
  pub crash_loop_count : h.crash_loop_count ≡ g.crash_loop_count
  pub update_in_progress : h.update_in_progress ≡ g.update_in_progress
  pub mod_operation : h.mod_operation ≡ g.mod_operation
  pub factorio_update_pending : h.factorio_update_pending ≡ g.factorio_update_pending
  pub num_players : m.phase ≡ stopped → h.num_players ≡ 0

pub sync_globals-Kept : (m : Manager) (g : Globals) → Kept m g (sync_globals m g)
unfolding sync_globals
sync_globals-Kept m g = ground (arith, scan_queue-Scanned m.queue (reset_flags m g))
