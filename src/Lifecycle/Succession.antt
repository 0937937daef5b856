-- ===== src/Lifecycle/Succession.antt =====
-- One process after another (fact/lifecycle.go, `executeStart` and `execute`).
use chat_wire.Common.{
  ℕ, suc, ◌≡◌, ◌⊎◌, inl, refl, ◌∙◌, String, Bool, true, false, not, ◌&&◌, Option, none, some, [],
  ◌∷◌, arith, if◌then◌else◌, if-All,
}
use chat_wire.Lifecycle.State.{
  LifecyclePhase, stopped, World, launch, ActionKind, start, stop, restart_factorio,
  restart_chat_wire, change_map, map_reset, other, LifecycleRequest, set_autolaunch, exit_chat_wire,
  begin, reply, fail, is_set,
}
use chat_wire.Lifecycle.Events.{operation_title}
use chat_wire.Lifecycle.Stop.{Outcome, finished, blocked, execute_stop}
use chat_wire.Lifecycle.Execute.{
  StartEnv, next_generation, execute_start, ExecuteEnv, then_after, restore_auto, exit_hooked,
  install_save, reset_map, swap_map, perform, begin_operation, close_request, answers, kept_request,
  report_error, request_noop, run_request, execute, execute_staged, is_change_map,
}
use chat_wire.Lifecycle.Induction.{launches}
use chat_wire.Lifecycle.Launching.{Launched, launches-append, execute_stop-Launched}

-- The phase in which a request of this kind comes to its start: that of the manager for a start, and
-- that after the stop for the others.
abbrev pub phase_before_start : ExecuteEnv → ActionKind → World → LifecyclePhase
phase_before_start env start w = w.phase
phase_before_start env change_map w =
    (execute_stop env.stop_env (set_autolaunch false false w)).0.phase
phase_before_start env map_reset w =
    (execute_stop env.stop_env (set_autolaunch false false w)).0.phase
phase_before_start env _ w = (execute_stop env.stop_env w).0.phase

-- Nothing is launched and the generation stays, or the phase was stopped, one process is launched,
-- and it has the next generation.
abbrev pub AtMostOne : ℕ → ℕ → LifecyclePhase → World → Type 0
AtMostOne n gen p u = Launched n gen u ⊎ ((p ≡ stopped) × Launched (suc n) (next_generation gen) u)

module _ (n gen : ℕ) where
  set_autolaunch-Launched :
      (enable : Bool) (w : World)
      → Launched n gen w
      → Launched n gen (set_autolaunch enable false w)
  set_autolaunch-Launched enable w l = ground (arith, launches-append w.effects [])

  execute_start-AtMostOne :
      (env : StartEnv) (save : String) (w : World)
      → Launched n gen w
      → AtMostOne n gen w.phase (execute_start env save w).0
  unfolding execute_start
  execute_start-AtMostOne env save w l =
      ground
        (arith, launches-append w.effects (launch (next_generation w.current_generation) save ∷ []))

  start_after :
      (p : LifecyclePhase) (o : World × Outcome) (k : World → World × Outcome)
      → Launched n gen o.0
      → o.0.phase ≡ p
      → ((w : World) → Launched n gen w → AtMostOne n gen w.phase (k w).0)
      → AtMostOne n gen p (then_after o k).0
  start_after p (w, finished none) k l e go = ground (arith, go w l)
  start_after p (w, finished (some err)) k l e go = inl l
  start_after p (w, blocked) k l e go = inl l

  exit_hooked-AtMostOne :
      (hook : Bool) (r : LifecycleRequest) (w : World)
      → Launched n gen w
      → AtMostOne n gen w.phase (exit_hooked hook r w).0
  unfolding exit_hooked
  exit_hooked-AtMostOne false r w l = inl l
  exit_hooked-AtMostOne true r w l =
      ground (arith, launches-append w.effects (exit_chat_wire r.force_chat_wire_exit ∷ []))

  -- The work between a stop and a start: it launches nothing and leaves the phase.
  worked :
      (o : World × Outcome) (work : World → World × Outcome)
      → ((w : World) → Launched n gen w → Launched n gen (work w).0 × ((work w).0.phase ≡ w.phase))
      → Launched n gen o.0
      → Launched n gen (then_after o work).0 × ((then_after o work).0.phase ≡ o.0.phase)
  worked (w, finished none) work keeps l = keeps w l
  worked (w, finished (some err)) work keeps l = (l, refl)
  worked (w, blocked) work keeps l = (l, refl)

  restored :
      (was_auto : Bool) (o : World × Outcome)
      → Launched n gen o.0
      → Launched n gen (restore_auto was_auto o).0 × ((restore_auto was_auto o).0.phase ≡ o.0.phase)
  restored was_auto (w, finished none) l = (l, refl)
  restored was_auto (w, finished (some err)) l =
      (set_autolaunch-Launched was_auto w l, ground arith)
  restored was_auto (w, blocked) l = (l, refl)

  swap_map-AtMostOne :
      (env : ExecuteEnv) (work : World → World × Outcome) (save : String) (w : World)
      → ((u : World) → Launched n gen u → Launched n gen (work u).0 × ((work u).0.phase ≡ u.phase))
      → Launched n gen w
      → AtMostOne n gen
          (execute_stop env.stop_env (set_autolaunch false false w)).0.phase
          (swap_map env work save w).0
  swap_map-AtMostOne env work save w keeps l =
      let off = set_autolaunch false false w in
      let stopping' =
        execute_stop-Launched n gen env.stop_env off (set_autolaunch-Launched false w l) in
      let (l1, e1) = worked (execute_stop env.stop_env off) work keeps stopping' in
      let (l2, e2) = restored w.auto_start (then_after (execute_stop env.stop_env off) work) l1 in
      start_after _ (restore_auto w.auto_start (then_after (execute_stop env.stop_env off) work)) _
        l2 (e2 ∙ e1)
        (λ u lu. ground (
          arith,
          execute_start-AtMostOne env.start_env save (set_autolaunch true false u)
              (set_autolaunch-Launched true u lu),
        ))

  install_save-kept :
      (err : Option String) (name : String) (w : World)
      → Launched n gen w
      → Launched n gen (install_save err name w).0 × ((install_save err name w).0.phase ≡ w.phase)
  unfolding install_save
  install_save-kept none name w l = (record { count = l.count; latest = l.latest }, refl)
  install_save-kept (some err) name w l = (l, refl)

  reset_map-kept :
      (err : Option String) (save : String) (scenario : Bool) (w : World)
      → Launched n gen w
      → Launched n gen (reset_map err save scenario w).0
        × ((reset_map err save scenario w).0.phase ≡ w.phase)
  unfolding reset_map
  reset_map-kept none save scenario w l = (record { count = l.count; latest = l.latest }, refl)
  reset_map-kept (some err) save scenario w l = (l, refl)

  perform-AtMostOne :
      (env : ExecuteEnv) (k : ActionKind) (r : LifecycleRequest) (w : World)
      → Launched n gen w
      → AtMostOne n gen (phase_before_start env k w) (perform env k r w).0
  unfolding perform
  perform-AtMostOne env start r w l = execute_start-AtMostOne env.start_env "" w l
  perform-AtMostOne env stop r w l = inl (execute_stop-Launched n gen env.stop_env w l)
  perform-AtMostOne env restart_factorio r w l =
      start_after _ (execute_stop env.stop_env w) _ (execute_stop-Launched n gen env.stop_env w l)
        refl (execute_start-AtMostOne env.start_env "")
  perform-AtMostOne env restart_chat_wire r w l =
      start_after _ (execute_stop env.stop_env w) _ (execute_stop-Launched n gen env.stop_env w l)
        refl (exit_hooked-AtMostOne env.exit_hook r)
  perform-AtMostOne env change_map r w l =
      swap_map-AtMostOne env (install_save env.change_error env.map_name) _ w
        (install_save-kept env.change_error env.map_name) l
  perform-AtMostOne env map_reset r w l =
      swap_map-AtMostOne env (reset_map env.reset_error env.reset_save env.reset_scenario) _ w
        (reset_map-kept env.reset_error env.reset_save env.reset_scenario) l
  perform-AtMostOne env (other s) r w l = inl l

  begin_operation-Launched :
      (token : String) (r : LifecycleRequest) (w : World)
      → Launched n gen w
      → Launched n gen (begin_operation token r w)
  unfolding begin_operation
  begin_operation-Launched token r w l = ground (
    arith,
    launches-append w.effects (begin token (operation_title (some r.kind)) r.save_name ∷ []),
  )

  answers-launches :
      (r : LifecycleRequest) (snapshot : String) (err : Option String)
      → launches (answers r snapshot err) ≡ 0
  unfolding answers
  answers-launches r snapshot err = ground arith

  -- What adds no launch, and leaves the generation.
  quietly :
      (p : LifecyclePhase) (w u : World)
      → launches u.effects ≡ launches w.effects
      → u.current_generation ≡ w.current_generation
      → AtMostOne n gen p w
      → AtMostOne n gen p u
  quietly p w u e g a = ground arith

  report_error-launches :
      (started : Bool) (err : Option String) (w : World)
      → (launches (report_error started err w).effects ≡ launches w.effects)
        × ((report_error started err w).current_generation ≡ w.current_generation)
  unfolding report_error
  report_error-launches true (some e) w = (
    omega (
      arith,
      launches-append w.effects (fail w.operation_token (operation_title w.operation_kind) e ∷ []),
    ),
    refl,
  )
  report_error-launches true none w = (refl, refl)
  report_error-launches false err w = (refl, refl)

  close_request-AtMostOne :
      (p : LifecyclePhase) (started : Bool) (r : LifecycleRequest) (snapshot : String)
      (o : World × Outcome)
      → AtMostOne n gen p o.0
      → AtMostOne n gen p (close_request started r snapshot o).0
  unfolding close_request
  close_request-AtMostOne p started r snapshot (w, blocked) a = a
  close_request-AtMostOne p started r snapshot (w, finished err) a =
      let w1 = kept_request err w in
      let w2 = report_error started err w1 in
      let (same, latest) = report_error-launches started err w1 in
      quietly p w _
        (omega (
          arith,
          launches-append w2.effects (answers r snapshot err),
          same,
          answers-launches r snapshot err,
        ))
        latest a

-- The world in which a request's operation has begun.
abbrev pub operating : ExecuteEnv → LifecycleRequest → World → World
operating env r w = if request_noop w r.kind then w else begin_operation env.token r w

module _ (n gen : ℕ) where
  run_request-AtMostOne :
      (env : ExecuteEnv) (r : LifecycleRequest) (snapshot : String) (w : World)
      → Launched n gen w
      → AtMostOne n gen
          (phase_before_start env r.kind (operating env r w))
          (run_request env r snapshot w).0
  unfolding run_request
  run_request-AtMostOne env r snapshot w l = close_request-AtMostOne n gen _ _ r snapshot _ (
      perform-AtMostOne n gen env r.kind r (operating env r w) (
        if-All (Launched n gen) (request_noop w r.kind) l
          (begin_operation-Launched n gen env.token r w l)))

  execute_staged-AtMostOne :
      (staged : Option String) (env : ExecuteEnv) (r : LifecycleRequest) (w : World)
      → Launched n gen w
      → AtMostOne n gen
          (phase_before_start env r.kind (operating env r w))
          (execute_staged staged env r w).0
  unfolding execute_staged
  execute_staged-AtMostOne (some snapshot) env r w l = run_request-AtMostOne env r snapshot w l
  execute_staged-AtMostOne none env r w l = inl (
      ground (
        arith,
        launches-append w.effects (reply (some env.stage_error) ∷ []),
        launches-append w.effects [],
      ))

-- Whatever a request is and whatever happens while it is executed, at most one process is launched:
-- either nothing is launched and the generation stays, or the phase just before the start (for a
-- start that of the manager, for every other request that after its stop) was stopped, exactly one
-- process is launched, and the generation is the next one.
pub execute-AtMostOne :
    (env : ExecuteEnv) (r : LifecycleRequest) (w : World)
    → AtMostOne
        (launches w.effects)
        w.current_generation
        (phase_before_start env r.kind (operating env r w))
        (execute env r w).0
unfolding execute
execute-AtMostOne env r w =
    let n = launches w.effects in
    let gen = w.current_generation in
    let p = phase_before_start env r.kind (operating env r w) in
    let begun : Launched n gen w = record { count = refl; latest = refl } in
    if-All (λ (o : World × Outcome). AtMostOne n gen p o.0)
      (is_change_map r.kind && not (is_set r.save_snapshot))
      (execute_staged-AtMostOne n gen env.staged env r w begun)
      (run_request-AtMostOne n gen env r r.save_snapshot w begun)
