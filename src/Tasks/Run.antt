-- ===== src/Tasks/Run.antt =====
-- `svc_tasks_service_task` and `svc_tasks_complete` of src/svc/svc_tasks.c. The watchdog's report
-- id and the elapsed time that a debug build reports are left out.
use qoraal.Base.{
  ℕ, ◌+◌, ◌-◌, ◌*◌, ◌%◌, ◌/◌, Bool, true, false, none, some, List, [], ◌∷◌, if◌then◌else◌,
}
use qoraal.Tasks.{Pool, Env, word, update, active_bit, reason_run, is_waitable, set_task, now, tick}

-- `task->status &= ~SERVICE_STATUS_ACTIVE_BIT`
abbrev pub clear_active : ℕ → ℕ
clear_active status = status - 8 * (status / 8 % 2)

-- The event of a waitable task is signalled.
unfoldable pub signal_waited : Pool → ℕ → Pool
signal_waited s t =
    if is_waitable (s.tasks t) then record s { waited = update s.waited t true } else s

-- `svc_tasks_complete`
unfoldable pub complete_task : Pool → ℕ → Pool
unfolding signal_waited set_task
complete_task s t =
    signal_waited (set_task s t (record (s.tasks t) { status = clear_active (s.tasks t).status })) t

module _ (env : Env) where
  -- The head `x` of a ready queue is taken off it and made active.
  unfoldable pub take : Pool → ℕ → ℕ → List ℕ → Pool
  unfolding set_task
  take s q x xs =
      set_task
        (record s { ready = update s.ready q xs; ready_count = (s.ready_count + word - 1) % word })
        x (record (s.tasks x) { status = active_bit })

  -- What stands before and behind the callback.
  unfoldable pub enter : Pool → ℕ → ℕ → Pool
  enter s q x = record (tick env s) {
    active_task = update s.active_task q (some x);
    active_timer = update s.active_timer q (now env s);
  }

  unfoldable pub leave : Pool → ℕ → Pool
  leave s q = record s {
    active_task = update s.active_task q none;
    active_timer = update s.active_timer q 0;
    complete_event = update s.complete_event q true;
  }

  unfoldable pub service_at : Pool → ℕ → List ℕ → Pool × Bool
  unfolding take enter leave
  service_at s q [] = (s, false)
  service_at s q (x ∷ xs) =
      let t = s.tasks x in
      (leave (env.call t.callback x t.parm reason_run (enter (take s q x xs) q x)) q, true)

  -- `svc_tasks_service_task` on the queue of the thread `q`
  unfoldable pub service_task : Pool → ℕ → Pool × Bool
  unfolding service_at
  service_task s q = service_at s q (s.ready q)
