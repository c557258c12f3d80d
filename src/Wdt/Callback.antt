-- ===== src/Wdt/Callback.antt =====
-- `svc_wdt_start`, `svc_wdt_stop`, `svc_wdt_kick` and `svc_wdt_task_cb` of src/svc/svc_wdt.c: the
-- task that checks the handlers and kicks the hardware watchdog. It is a task of the pool of `Tasks`.
pub mod OnTime
use qoraal.Base.{
  ◌>>=◌, ℕ, ◌+◌, ◌*◌, ◌/◌, ◌%◌, Bool, true, false, ◌&&◌, ◌||◌, not, Option, none, some, ◌==◌,
  if◌then◌else◌,
}
use qoraal.Tasks.{Pool, Env, Status, eok, word, reason_run}
use qoraal.Tasks.Schedule.{schedule}
use qoraal.Tasks.Run.{complete_task}
use qoraal.Tasks.Cancel.{cancel}
use qoraal.Wdt.{Registry, process, timeout_10_sec, timeout_30_sec, timeout_60_sec}

-- The module's variables, with those that `svc_wdt_task_cb` keeps, the pool, and the number of
-- times that the hardware was kicked.
pub record Wdt : Type 0 where
  pub registry : Registry
  pub interval : ℕ
  pub counter : ℕ
  pub kick10 : Bool
  pub kick30 : Bool
  pub kick60 : Bool
  pub pool : Pool
  pub kicks : ℕ

-- What the platform and the configuration give: `wdt_kick n` is the n-th answer of
-- `qoraal_wdt_kick`, `frequency` is OS_ST_FREQUENCY; `task` is the address of `_svc_wdt_task` and
-- `task_cb` that of `svc_wdt_task_cb`.
pub record Platform : Type 0 where
  pub wdt_kick : ℕ → ℕ
  pub frequency : ℕ
  pub task : ℕ
  pub task_cb : ℕ

-- One group in a run of the callback: it is checked if its last check failed, or at each
-- (window / interval)-th run. Nothing results where the code divides by zero.
unfoldable pub check :
    Registry → (last : Bool) → (counter interval window id : ℕ) → Option (Registry × Bool)
check r last counter interval window id =
    if not last
    then some (process r id)
    else if interval == 0 || window / interval == 0
    then none
    else if counter % (window / interval) == 0
    then some (process r id)
    else some (r, last)

module _ (env : Env) (platform : Platform) where
  -- `qoraal_wdt_kick`, and the interval that it answers
  unfoldable pub kick : Wdt → Wdt
  kick s = record s { interval = platform.wdt_kick s.kicks % word; kicks = s.kicks + 1 }

  -- `svc_wdt_kick`, which drops the answer
  unfoldable pub direct_kick : Wdt → Wdt
  direct_kick s = record s { kicks = s.kicks + 1 }

  -- The call of `svc_tasks_schedule`, by the pool it leaves and the status.
  unfoldable pub arm : Wdt → Wdt × Status
  arm s =
      let (pool, status) =
        schedule env s.pool platform.task platform.task_cb 0 0
          (s.interval / 2 * (platform.frequency % word) % word) in
      (record s { pool = pool }, status)

  -- `svc_wdt_start`
  unfoldable pub start : Wdt → Wdt × Status
  unfolding kick arm
  start s =
      let s' = kick s in
      if not (s'.interval == 0)
      then arm (record s' { pool = (cancel env s'.pool platform.task).0 })
      else (s', eok)

  -- `svc_wdt_stop`
  unfoldable pub stop : Wdt → Wdt
  stop s = record s { pool = (cancel env s.pool platform.task).0 }

  -- What follows the three checks of `svc_wdt_task_cb`.
  unfoldable pub finish : Wdt → Wdt
  unfolding kick arm
  finish s =
      let s' = if s.kick10 && s.kick30 && s.kick60 then kick s else s in
      let s'' = if not (s'.interval == 0) then (arm s').0 else s' in
      record s'' { pool = complete_task s''.pool platform.task }

  -- `svc_wdt_task_cb` when the task is run
  unfoldable pub run_checks : Wdt → Option Wdt
  run_checks s = do
    let counter = (s.counter + 1) % word
    let first = process s.registry timeout_10_sec
    (r30, kick30) ← check first.0 s.kick30 counter s.interval 30 timeout_30_sec
    (r60, kick60) ← check r30 s.kick60 counter s.interval 60 timeout_60_sec
    some (
        finish (record s {
          registry = r60;
          counter = counter;
          kick10 = first.1;
          kick30 = kick30;
          kick60 = kick60;
        }))

  -- `svc_wdt_task_cb`
  unfoldable pub task_cb : Wdt → (reason : ℕ) → Option Wdt
  unfolding run_checks
  task_cb s reason =
      if reason == reason_run
      then run_checks s
      else some (record s { pool = complete_task s.pool platform.task })
