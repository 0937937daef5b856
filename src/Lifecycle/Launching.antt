-- ===== src/Lifecycle/Launching.antt =====
-- Launches (fact/lifecycle.go): a process is launched only when the one before it has ended.
use chat_wire.Common.{
  ℕ, ◌+◌, ◌≡◌, String, Bool, true, false, ◌==◌, Option, none, List, [], ◌∷◌, ◌++◌, arith, if-All,
}
use chat_wire.Lifecycle.State.{
  World, Effect, launch, autostart_notice, offline_notice, ActionKind, Manager, is_starting,
}
use chat_wire.Lifecycle.Events.{
  ProgressEvent, finalize_stopped, handle_exit_event, handle_ready_event, handle_progress_event,
  complete_ready, progress_effects, stopped_effects, count_crash, close_process, detach_process,
}
use chat_wire.Lifecycle.Stop.{
  Signal, exit, goodbye, ready, progressed, tick, receive, StopEnv, begin_stop, execute_stop,
}
use chat_wire.Lifecycle.Induction.{launches, wait_for_stop-All, execute_stop-All}

pub launches-append : (es fs : List Effect) → launches (es ++ fs) ≡ launches es + launches fs
launches-append [] fs = omega arith
launches-append (launch gen save ∷ es) fs = omega (arith, launches-append es fs)
launches-append (_ ∷ es) fs = launches-append es fs

-- The world has seen this many launches, and its process has this generation.
pub record Launched (n generation : ℕ) (w : World) : Type 0 where
  pub count : launches w.effects ≡ n
  pub latest : w.current_generation ≡ generation

stopped_effects-launches :
    (m : Manager) (continuing was_starting : Bool) (err : Option String)
    → launches (stopped_effects m continuing was_starting err) ≡ 0
unfolding stopped_effects
stopped_effects-launches m continuing was_starting err = ground arith

complete_ready-launches :
    (token : String) (k : Option ActionKind) (save : String)
    → launches (complete_ready token k save) ≡ 0
unfolding complete_ready
complete_ready-launches token k save = ground arith

progress_effects-launches :
    (token : String) (k : Option ActionKind) (kind : String)
    → launches (progress_effects token k kind) ≡ 0
unfolding progress_effects
progress_effects-launches token k kind = ground arith

module _ (n generation : ℕ) where
  pub emitted-Launched :
      (es : List Effect) (w : World)
      → launches es ≡ 0
      → Launched n generation w
      → Launched n generation (record w { effects = w.effects ++ es })
  emitted-Launched es w quiet l = record {
    count = omega (arith, launches-append w.effects es, l.count);
    latest = l.latest;
  }

  count_crash-Launched :
      (now started : ℕ) (w : World)
      → Launched n generation w
      → Launched n generation (count_crash now started w)
  unfolding count_crash
  count_crash-Launched now started w l =
      ground (arith, launches-append w.effects (autostart_notice false ∷ []))

  detach_process-Launched :
      (now : ℕ) (err : Option String) (report : Bool) (w : World)
      → Launched n generation w
      → Launched n generation (detach_process now err report w)
  unfolding detach_process
  detach_process-Launched now err report w l =
      ground (arith, launches-append w.effects (offline_notice ∷ []), launches-append w.effects [])

  close_process-Launched :
      (now : ℕ) (err : Option String) (report : Bool) (w : World)
      → Launched n generation w
      → Launched n generation (close_process now err report w)
  unfolding close_process
  close_process-Launched now err report w l =
      let detached = detach_process-Launched now err report w l in
      emitted-Launched _ _ (stopped_effects-launches w.lm _ _ err) (
        if-All (Launched n generation) (is_starting w.phase)
          (count_crash-Launched now w.started_at _ detached) detached)

  finalize_stopped-Launched :
      (now gen : ℕ) (err : Option String) (report : Bool) (w : World)
      → Launched n generation w
      → Launched n generation (finalize_stopped now gen err report w)
  unfolding finalize_stopped
  finalize_stopped-Launched now gen err report w l =
      ground (arith, close_process-Launched now err report w l)

  handle_ready_event-Launched :
      (now gen : ℕ) (w : World)
      → Launched n generation w
      → Launched n generation (handle_ready_event now gen w)
  unfolding handle_ready_event
  handle_ready_event-Launched now gen w l = ground (
    arith,
    launches-append w.effects
        (complete_ready w.operation_token w.operation_kind w.operation_save_name),
    complete_ready-launches w.operation_token w.operation_kind w.operation_save_name,
  )

  handle_progress_event-Launched :
      (evt : ProgressEvent) (w : World)
      → Launched n generation w
      → Launched n generation (handle_progress_event evt w)
  unfolding handle_progress_event
  handle_progress_event-Launched evt w l = ground (
    arith,
    launches-append w.effects (progress_effects w.operation_token w.operation_kind evt.kind),
    progress_effects-launches w.operation_token w.operation_kind evt.kind,
  )

  receive-Launched :
      (now gen : ℕ) (s : Signal) (seen : Bool) (w : World)
      → Launched n generation w
      → Launched n generation (receive now gen s seen w).0
  unfolding receive handle_exit_event
  receive-Launched now gen (exit g err) seen w l =
      ground (arith, finalize_stopped-Launched now g err true w l)
  receive-Launched now gen (goodbye g) seen w l = l
  receive-Launched now gen (ready g) seen w l =
      if-All (Launched n generation) (g == gen) (handle_ready_event-Launched now g w l) l
  receive-Launched now gen (progressed evt) seen w l = handle_progress_event-Launched evt w l
  receive-Launched now gen tick seen w l = l

  -- A stop launches nothing and leaves the generation.
  pub execute_stop-Launched :
      (env : StopEnv) (w : World)
      → Launched n generation w
      → Launched n generation (execute_stop env w).0
  execute_stop-Launched =
      execute_stop-All (Launched n generation)
        (λ ps gen.
          wait_for_stop-All (Launched n generation) gen
            (λ now w. finalize_stopped-Launched now gen none true w)
            (λ now s seen w. receive-Launched now gen s seen w) ps)
        (λ w l. record { count = l.count; latest = l.latest })
        (λ now w l. unfold begin_stop in record { count = l.count; latest = l.latest })
        emitted-Launched (λ err w l. record { count = l.count; latest = l.latest })
