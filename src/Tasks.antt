-- ===== src/Tasks.antt =====
-- src/svc/svc_tasks.c and include/qoraal/svc/svc_tasks.h: the task pool. A task is named by a number,
-- its address; `_svc_tasks_list` and the ready lists are the lists of their members, which the
-- pointer code of `Lists` implements as long as no task is linked twice (`Tasks.Invariant`). The OS
-- primitives are what they were last told: the bits of `_svc_tasks_complete_event`, the timer, the
-- notified threads. Each operation is what runs under `_svc_task_mutex`, with the calls behind it.
pub mod Schedule
pub mod Run
pub mod Wait
pub mod Threads
pub mod Cancel
pub mod Order
mod Tests
pub mod Invariant
pub mod Moves
pub mod Validity
use qoraal.Base.{
  ℕ, ◌+◌, ◌-◌, ◌*◌, ◌%◌, ◌/◌, ◌^◌, Bool, true, false, ◌&&◌, ◌||◌, not, Option, none, some, List, [],
  ◌∷◌, ◌++◌, ltb, leb, ◌==◌, if◌then◌else◌, has, erase, insert_after,
}

-- uint32_t, uint16_t and uint8_t
abbrev pub word : ℕ
word = 2 ^ 32

-- `SVC_TASKS_T`
pub record Task : Type 0 where
  pub callback : ℕ
  pub status : ℕ
  pub prio : ℕ
  pub flags : ℕ
  pub user : ℕ
  pub parm : ℕ
  pub ticks : ℕ

-- The module's variables. `waited` are the events of the waitable tasks, by task; `threads` says
-- which threads of the pool run; `reads` counts the readings of the tick counter.
pub record Pool : Type 0 where
  pub tasks : ℕ → Task
  pub scheduled : List ℕ
  pub list_count : ℕ
  pub ready : ℕ → List ℕ
  pub ready_count : ℕ
  pub pool_count : ℕ
  pub threads : ℕ → Bool
  pub active_task : ℕ → Option ℕ
  pub active_timer : ℕ → ℕ
  pub timer : Option ℕ
  pub complete_event : ℕ → Bool
  pub notified : ℕ → Bool
  pub waited : ℕ → Bool
  pub reads : ℕ

abbrev pub update {ℓ} : {A : Type ℓ} → (ℕ → A) → ℕ → A → ℕ → A
update f k v j = if j == k then v else f j

-- `SERVICE_STATUS_COMPLETE`, `SERVICE_STATUS_QUEUED` and `SERVICE_STATUS_ACTIVE_BIT`
abbrev pub complete : ℕ
complete = 0

abbrev pub queued : ℕ
queued = 1

abbrev pub active_bit : ℕ
active_bit = 8

-- `SERVICE_CALLBACK_REASON_RUN` and `SERVICE_CALLBACK_REASON_CANCELED`
abbrev pub reason_run : ℕ
reason_run = 0

abbrev pub reason_canceled : ℕ
reason_canceled = 1

-- `EOK` and `E_BUSY`
pub data Status : Type 0 where
  eok e_busy : Status

-- `svc_tasks_status`: the status under `SERVICE_STATUS_MASK`
abbrev pub status_of : Task → ℕ
status_of t = t.status % 8

-- `svc_tasks_is_active`
abbrev pub is_active : Task → Bool
is_active t = t.status / 8 % 2 == 1

-- `task->flags & SVC_TASKS_FLAGS_WAITABLE`
abbrev pub is_waitable : Task → Bool
is_waitable t = t.flags % 2 == 1

-- The uint32_t difference of two tick counts, and its sign as an int32_t.
abbrev pub ticks_diff : ℕ → ℕ → ℕ
ticks_diff a b = (a + word - b) % word

abbrev pub is_neg : ℕ → Bool
is_neg d = leb (2 ^ 31) d

-- `(int32_t)(a - b) <= 0`
abbrev pub is_due : ℕ → ℕ → Bool
is_due a b = ticks_diff a b == 0 || is_neg (ticks_diff a b)

-- `SVC_PRIO2QUEUE`
abbrev pub queue_of : Pool → Task → ℕ
queue_of s t = if ltb t.prio s.pool_count then t.prio else s.pool_count - 1

unfoldable pub init_task : Task → Task
init_task t = record t { status = complete; flags = 0; user = 0 }

unfoldable pub set_task : Pool → ℕ → Task → Pool
set_task s t d = record s { tasks = update s.tasks t d }

-- `task_to_ready`
unfoldable pub task_to_ready : Pool → ℕ → Pool
task_to_ready s t =
    let q = queue_of s (s.tasks t) in
    record s {
      ready = update s.ready q (s.ready q ++ (t ∷ []));
      ready_count = (s.ready_count + 1) % word;
      complete_event = update s.complete_event q false;
      notified = if s.threads q then update s.notified q true else s.notified;
    }

-- `svc_tasks_add`
unfoldable pub add : Pool → ℕ → (callback parm prio : ℕ) → Pool × Status
unfolding task_to_ready set_task
add s t callback parm prio = if status_of (s.tasks t) == queued then (s, e_busy) else (
  task_to_ready
      (set_task s t (record (s.tasks t) {
        callback = callback;
        parm = parm;
        status = queued;
        prio = prio % 256;
        ticks = 0;
      }))
      t,
  eok,
)

-- The loop of `svc_tasks_schedule` that looks for the first task with a later deadline: the task
-- before it, if there is one.
unfoldable pub seek : (ℕ → Task) → ℕ → Option ℕ → List ℕ → Option ℕ
seek tasks ticks previous [] = previous
seek tasks ticks previous (x ∷ xs) = elim (is_neg (ticks_diff ticks (tasks x).ticks)) [
  | true ↦ previous
  | false ↦ seek tasks ticks (some x) xs
]

-- What runs outside: `ticks n` is the n-th reading of `os_sys_ticks`, and `call` a callback.
pub record Env : Type 0 where
  pub ticks : ℕ → ℕ
  pub call : ℕ → ℕ → ℕ → ℕ → Pool → Pool

module _ (env : Env) where
  -- `os_sys_ticks`
  abbrev pub now : Pool → ℕ
  now s = env.ticks s.reads % word

  abbrev pub tick : Pool → Pool
  tick s = record s { reads = s.reads + 1 }

  -- `_svc_tasks_list_count--`, `linked_remove_head` and `task_to_ready` on the head `x`
  unfoldable pub release_one : Pool → ℕ → List ℕ → Pool
  unfolding task_to_ready
  release_one s x xs =
      task_to_ready (record s { list_count = (s.list_count + word - 1) % word; scheduled = xs }) x

  -- The do-while loop of `svc_tasks_task_event` from the head `x`, and the timer set behind it.
  unfoldable pub release : Pool → ℕ → List ℕ → Pool
  unfolding release_one
  release s x [] = tick (release_one s x [])
  release s x (y ∷ ys) =
      let s' = tick (release_one s x (y ∷ ys)) in
      let t = now (release_one s x (y ∷ ys)) in
      elim (is_due (s'.tasks y).ticks t) [
        | true ↦ release s' y ys
        | false ↦ record s' { timer = some (ticks_diff (s'.tasks y).ticks t) }
      ]

  -- The body of `svc_tasks_task_event` at the list `xs`.
  unfoldable pub task_event_at : Pool → List ℕ → Pool
  unfolding release
  task_event_at s [] = s
  task_event_at s (x ∷ xs) =
      let s' = tick s in
      if not (is_due (s.tasks x).ticks (now s))
      then record s' { timer = some (ticks_diff (s.tasks x).ticks (now s)) }
      else release s' x xs

  -- `svc_tasks_task_event`
  unfoldable pub task_event : Pool → Pool
  unfolding task_event_at
  task_event s = task_event_at s s.scheduled
