-- ===== src/Tasks/Wait.antt =====
-- What src/svc/svc_tasks.c tells of its tasks, and the waits for them. `look n` is the pool as the
-- waiting thread finds it at its n-th look, behind what other threads have done since.
use qoraal.Base.{
  ℕ, zero, suc, ◌+◌, ◌-◌, ◌*◌, ◌/◌, ◌%◌, ◌≡◌, ◌≤◌, ◌<◌, refl, Bool, ◌&&◌, ◌||◌, not, Option, none,
  some, List, [], ◌∷◌, ltb, ◌==◌, if◌then◌else◌, Bool-cases, inl, inr, ℤ, negsuc, arith,
}
use qoraal.Services.{eok}
use qoraal.Tasks.{
  Task, Pool, word, complete, queued, status_of, is_active, is_waitable, ticks_diff, is_neg,
}

-- `E_TIMEOUT`
abbrev pub e_timeout : ℤ
e_timeout = negsuc 2301

-- The ticks to a deadline, 0 where it has passed
unfoldable pub remaining : (ticks now : ℕ) → ℕ
remaining ticks now = let d = ticks_diff ticks now in if is_neg d then 0 else d

-- `svc_task_expire`
unfoldable pub task_expire : Pool → (task now : ℕ) → ℕ
task_expire s t now = if status_of (s.tasks t) == queued then remaining (s.tasks t).ticks now else 0

unfoldable pub head_expire : (ℕ → Task) → (now : ℕ) → List ℕ → ℕ
head_expire tasks now [] = 0
head_expire tasks now (x ∷ xs) = remaining (tasks x).ticks now

-- `svc_task_next_expire`
unfoldable pub next_expire : Pool → (now : ℕ) → ℕ
next_expire s now = head_expire s.tasks now s.scheduled

unfoldable pub ticks_since : Option ℕ → (timer now : ℕ) → ℕ
ticks_since none timer now = 0
ticks_since (some t) timer now = ticks_diff now timer

-- `svc_task_get_active_ticks`, without the callback and the parameter that it hands out
unfoldable pub get_active_ticks : Pool → (prio now : ℕ) → ℕ
get_active_ticks s prio now =
    if ltb prio s.pool_count then ticks_since (s.active_task prio) (s.active_timer prio) now else 0

-- `svc_tasks_ready_count`, `svc_tasks_scheduled_count` and `svc_tasks_queued_count`
unfoldable pub queued_count : Pool → ℕ
queued_count s = (s.ready_count + s.list_count) % word

-- `svc_tasks_get_flags` and `svc_tasks_set_flags`
unfoldable pub get_flags : Task → ℕ
get_flags t = t.user

unfoldable pub set_flags : Task → (flags : ℕ) → Task
set_flags t flags = record t { user = flags }

-- `svc_tasks_init_waitable_task`, where `created` says whether the event could be created
unfoldable pub init_waitable_task : Task → (created : Bool) → Task
init_waitable_task t created = record t {
  status = complete;
  user = 0;
  flags = if created then 1 else 0;
}

-- The task has not ended.
unfoldable pub is_pending : Pool → ℕ → Bool
is_pending s t = not (status_of (s.tasks t) == complete) || is_active (s.tasks t)

-- `SVC_TASK_MS2TICKS`
unfoldable pub ms2ticks : (frequency ms : ℕ) → ℕ
ms2ticks frequency ms = (ms * frequency % word + 999) % word / 1000

-- The loop of `svc_tasks_wait` from the n-th look on, with sleeps of `ten` ticks at most, and the look
-- behind it
unfoldable pub poll : (fuel : ℕ) → (look : ℕ → Pool) → (task ten n timeout : ℕ) → Option ℤ
poll zero look t ten n timeout = none
poll (suc f) look t ten n timeout =
    let rest = poll f look t ten (n + 1) (timeout - (if ltb ten timeout then ten else timeout)) in
    if is_pending (look n) t && not (timeout == 0)
    then rest
    else some (if is_pending (look (n + 1)) t then e_timeout else eok)

-- `svc_tasks_wait`; `signalled` is the result of the wait for the event of a waitable task.
unfoldable pub wait :
    (fuel : ℕ) → (look : ℕ → Pool) → (frequency task timeout : ℕ) → (signalled : Bool) → Option ℤ
wait fuel look frequency t timeout signalled =
    if is_waitable ((look 0).tasks t)
    then some (if signalled then eok else e_timeout)
    else poll fuel look t (ms2ticks frequency 10) 0 timeout

-- `svc_tasks_wait_queue`, by the result of the wait for the event of the queue
unfoldable pub wait_queue : Pool → (queue : ℕ) → (result : ℤ) → ℤ
wait_queue s queue result = if ltb queue s.pool_count then result else eok

-- The wait for a task ends, however the task goes on: it looks at most once more than it has ticks,
-- and its result is that of its last look. This holds of a sleep of one tick at least, with more
-- steps than ticks.
pub poll-returns :
    (fuel : ℕ) (look : ℕ → Pool) (t ten n timeout : ℕ)
    → 0 < ten
    → timeout < fuel
    → (k : ℕ) × (k ≤ n + timeout + 1)
      × (poll fuel look t ten n timeout ≡ some (if is_pending (look k) t then e_timeout else eok))
unfolding poll
poll-returns zero look t ten n timeout p f = absurd (omega arith)
poll-returns (suc f) look t ten n timeout p l = elim (Bool-cases (timeout == 0)) [
  | inl e ↦ elim (Bool-cases (is_pending (look n) t)) [
    | inl g ↦ (n + 1, omega arith, simp (g, e) refl)
    | inr g ↦ (n + 1, omega arith, simp g refl)
  ]
  | inr e ↦ elim (Bool-cases (is_pending (look n) t)) [
    | inr g ↦ (n + 1, omega arith, simp g refl)
    | inl g ↦
        let less = timeout - (if ltb ten timeout then ten else timeout) in
        let b : less < timeout = ground arith in
        let (k, h, r) = poll-returns f look t ten (n + 1) less p (omega arith) in
        (k, omega (arith, b), simp (g, e) r)
  ]
]
