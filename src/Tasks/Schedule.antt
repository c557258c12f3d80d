-- ===== src/Tasks/Schedule.antt =====
-- `svc_tasks_schedule` of src/svc/svc_tasks.c.
use qoraal.Base.{
  ℕ, ◌+◌, ◌-◌, ◌%◌, ◌^◌, Bool, true, false, not, Option, none, some, ◌∷◌, leb, ◌==◌, if◌then◌else◌,
  insert_after,
}
use qoraal.Tasks.{
  Task, Pool, Env, Status, eok, e_busy, word, update, queued, status_of, is_waitable, set_task, add,
  seek, now, tick, task_event,
}

-- A delay of half the range of the counter or more is cut down.
unfoldable pub clamp_ticks : ℕ → ℕ
clamp_ticks ticks = if leb (2 ^ 31 - 1) ticks then 2 ^ 31 - 2 else ticks

-- The event of a waitable task is cleared.
unfoldable pub clear_waited : Pool → ℕ → Pool
clear_waited s t =
    if is_waitable (s.tasks t) then record s { waited = update s.waited t false } else s

-- `os_timer_is_set`
abbrev pub is_set : Option ℕ → Bool
is_set none = false
is_set (some n) = true

module _ (env : Env) where
  -- The new task is linked in front of `_svc_tasks_list`, or behind the task `previous`.
  unfoldable pub link : Pool → ℕ → ℕ → Option ℕ → Pool
  link s t ticks none =
      let s' = record s { scheduled = t ∷ s.scheduled; list_count = (s.list_count + 1) % word } in
      if not (ticks == 0) then record s' { timer = some ticks } else task_event env s'
  link s t ticks (some previous) =
      let s' = record s {
        scheduled = insert_after previous t s.scheduled;
        list_count = (s.list_count + 1) % word;
      } in
      if not (is_set s'.timer) then task_event env s' else s'

  -- The task as it is queued.
  unfoldable pub armed : Pool → Task → (callback parm prio ticks : ℕ) → Task
  armed s d callback parm prio ticks = record d {
    callback = callback;
    parm = parm;
    status = queued;
    prio = prio % 256;
    ticks = (ticks + now env s) % word;
  }

  unfoldable pub schedule_in : Pool → ℕ → (callback parm prio ticks : ℕ) → Pool × Status
  unfolding link armed
  schedule_in s t callback parm prio ticks =
      if ticks == 0
      then add s t callback parm prio
      else if status_of (s.tasks t) == queued
      then (s, e_busy)
      else (let d = armed s (s.tasks t) callback parm prio ticks in
          let s' = tick env (set_task s t d) in
          (link s' t ticks (seek s'.tasks d.ticks none s'.scheduled), eok))

  -- `svc_tasks_schedule`
  unfoldable pub schedule : Pool → ℕ → (callback parm prio ticks : ℕ) → Pool × Status
  unfolding schedule_in clamp_ticks clear_waited
  schedule s t callback parm prio ticks =
      schedule_in (clear_waited s t) t callback parm prio (clamp_ticks ticks)
