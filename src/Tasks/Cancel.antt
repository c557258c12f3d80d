-- ===== src/Tasks/Cancel.antt =====
-- `task_ready_cancel` and `svc_tasks_cancel` of src/svc/svc_tasks.c.
pub mod Unlink
use qoraal.Base.{
  ℕ, ◌+◌, ◌-◌, ◌%◌, Bool, true, false, not, Option, none, some, List, [], ◌∷◌, ◌==◌, if◌then◌else◌,
  has, erase,
}
use qoraal.Tasks.{
  Task, Pool, Env, Status, eok, e_busy, word, update, complete, status_of, is_active, queue_of,
  reason_canceled, set_task, task_event,
}
use qoraal.Tasks.Run.{signal_waited}

-- `start == task`
abbrev pub is_head : ℕ → List ℕ → Bool
is_head t [] = false
is_head t (x ∷ xs) = x == t

module _ (env : Env) where
  -- The task is complete, its callback hears of the cancellation, and its event is signalled. The
  -- code keeps the parameter in a uint32_t.
  unfoldable pub notify_canceled : Pool → ℕ → Pool
  unfolding set_task signal_waited
  notify_canceled s t =
      let d = s.tasks t in
      signal_waited
        (env.call d.callback t (d.parm % word) reason_canceled
          (set_task s t (record d { status = complete })))
        t

  -- `task_ready_cancel`
  unfoldable pub ready_cancel : Pool → ℕ → Pool × Status
  unfolding notify_canceled
  ready_cancel s t =
      let q = queue_of s (s.tasks t) in
      if not (status_of (s.tasks t) == complete)
      then if has t (s.ready q)
        then (
          notify_canceled
              (record s {
                ready = update s.ready q (erase t (s.ready q));
                ready_count = (s.ready_count + word - 1) % word;
              })
              t,
          eok,
        )
        else (s, e_busy)
      else (s, e_busy)

  -- The task is unlinked from `_svc_tasks_list`; if it was the head, the timer is set anew.
  unfoldable pub unschedule : Pool → ℕ → Pool
  unschedule s t =
      let s' = record s {
        scheduled = erase t s.scheduled;
        list_count = (s.list_count + word - 1) % word;
      } in
      if is_head t s.scheduled then task_event env s' else s'

  -- A task that left a ready queue may have kept others waiting.
  unfoldable pub settle : Pool × Status → Pool × Status
  settle (s, eok) = (task_event env s, eok)
  settle (s, e_busy) = (s, e_busy)

  -- `svc_tasks_cancel`
  unfoldable pub cancel : Pool → ℕ → Pool × Status
  cancel s t =
      if has t s.scheduled
      then (notify_canceled (unschedule s t) t, eok)
      else if status_of (s.tasks t) == complete
      then (s, if is_active (s.tasks t) then e_busy else eok)
      else settle (ready_cancel s t)
