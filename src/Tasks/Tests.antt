-- ===== src/Tasks/Tests.antt =====
-- The task pool at two scheduled tasks and a ready one, and the theorems about it there.
use qoraal.Base.{
  List, ℕ, ◌≡◌, ◌⊎◌, has, inl, inr, Bool-cases, refl, true, false, none, some, [], ◌∷◌, ◌==◌,
  if◌then◌else◌, arith,
}
use qoraal.Tasks.{Pool, Env, Task, eok, queue_of, task_event, seek, set_task}
use qoraal.Tasks.Schedule.{schedule, clamp_ticks}
use qoraal.Tasks.Run.{service_task}
use qoraal.Tasks.Threads.{drain, ran, drain-ran}
use qoraal.Tasks.Cancel.{cancel}
use qoraal.Tasks.Cancel.Unlink.{Dropped, told, cancel-Dropped}
use qoraal.Tasks.Invariant.{IsValid, total}
use qoraal.Tasks.Validity.Ops.{schedule-IsValid, service_task-IsValid, cancel-IsValid}
use qoraal.Tasks.Order.Release.{Expired, task_event-Expired}
use qoraal.Tasks.Order.Keep.{IsOrdered}
use qoraal.Tasks.Order.Place.{Places, schedule-Places}

abbrev idle : Task
idle = record { callback = 3; status = 0; prio = 0; flags = 0; user = 0; parm = 0; ticks = 0 }

-- Task 5 is due at 990 for queue 0, task 6 at 1010 for queue 1, and task 7 is ready in queue 1.
abbrev tasks : ℕ → Task
tasks t =
    if t == 5
    then record idle { status = 1; ticks = 990 }
    else if t == 6
    then record idle { status = 1; prio = 1; ticks = 1010 }
    else if t == 7
    then record idle { status = 1; prio = 1 }
    else idle

abbrev pool : Pool
pool = record {
  tasks = tasks;
  scheduled = 5 ∷ 6 ∷ [];
  list_count = 2;
  ready = λ q. if q == 1 then 7 ∷ [] else [];
  ready_count = 1;
  pool_count = 3;
  threads = λ q. true;
  active_task = λ q. none;
  active_timer = λ q. 0;
  timer = some 1;
  complete_event = λ q. true;
  notified = λ q. false;
  waited = λ t. false;
  reads = 0;
}

-- The counter stands at 1000, and callbacks do nothing.
abbrev env : Env
env = record { ticks = λ n. 1000; call = λ c t p r s. s }

pool-IsValid : IsValid pool
unfolding total
pool-IsValid = record {
  pool = omega arith;
  free_scheduled = λ u o. ground arith;
  free_ready = λ u q o. ground arith;
  linked = λ u o e. ground arith;
  scheduled_queued = λ u m. ground arith;
  ready_queued = λ u q m. ground arith;
  apart = λ u q m. ground arith;
  scheduled_distinct = ground arith;
  ready_distinct = λ q. elim (Bool-cases (q == 1)) [ inl e ↦ rw e (refl, tt) | inr e ↦ rw e tt ];
  list_counted = refl;
  ready_counted = refl;
}

-- Task 5 is released behind nothing, task 6 waits ten more ticks.
expiry :
    ((task_event env pool).ready 0 ≡ 5 ∷ [])
    × ((task_event env pool).scheduled ≡ 6 ∷ [])
    × ((task_event env pool).timer ≡ some 10)
unfolding task_event
expiry = (refl, refl, refl)

-- A new task with a deadline at 1005 goes between the two.
insertion : (schedule env pool 8 3 0 0 5).0.scheduled ≡ 5 ∷ 8 ∷ 6 ∷ []
unfolding schedule seek set_task
insertion = refl

keeps : (c t p r : ℕ) (s : Pool) → IsValid s → IsValid (env.call c t p r s)
keeps c t p r s v = v

schedule-IsValid_example : IsValid (schedule env pool 8 3 0 0 5).0
schedule-IsValid_example = schedule-IsValid env pool 8 3 0 0 5 pool-IsValid

service_task-IsValid_example : IsValid (service_task env pool 1).0
service_task-IsValid_example = service_task-IsValid env keeps pool 1 pool-IsValid

drain-ran_example :
    (drain env 2 pool 1 ≡ some (ran env pool 1 (7 ∷ [])))
    × ◌≡◌ {A = List ℕ} ((ran env pool 1 (7 ∷ [])).ready 1) []
drain-ran_example = drain-ran env 2 pool 1 (7 ∷ []) (λ c t p r s. refl) refl (omega arith)

cancel-IsValid_example : IsValid (cancel env pool 5).0
cancel-IsValid_example = cancel-IsValid env keeps pool 5 pool-IsValid

cancel-Dropped_example :
    (s : Pool) × Dropped 7 pool s
    × (((has 7 pool.scheduled ≡ true) × (cancel env pool 7 ≡ (told env pool 7 s, eok)))
        ⊎ ((has 7 pool.scheduled ≡ false)
            × (has 7 (pool.ready (queue_of pool (pool.tasks 7))) ≡ true)
            × (cancel env pool 7 ≡ (task_event env (told env pool 7 s), eok))))
cancel-Dropped_example = cancel-Dropped env pool 7 pool-IsValid refl

task_event-Expired_example : Expired env 1000 pool (5 ∷ 6 ∷ []) (task_event env pool)
task_event-Expired_example = task_event-Expired env 1000 (λ n. refl) pool

-- Task 8 has the deadline of task 6, and goes behind it.
schedule-Places_example :
    IsOrdered 900 (schedule env pool 8 3 0 0 10).0
    × Places env 900 pool 8 10 (schedule env pool 8 3 0 0 10)
unfolding clamp_ticks
schedule-Places_example =
    schedule-Places env 900 pool 8 3 0 0 10 pool-IsValid (omega arith) refl refl (omega arith)
      (omega arith)

-- Task 8 is due at 1005.
abbrev soon : ℕ → Task
soon t = if t == 8 then record idle { ticks = 1005 } else tasks t
