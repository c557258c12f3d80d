-- ===== src/Tasks/Threads.antt =====
-- The threads of the pool of src/svc/svc_tasks.c: their start and stop, and what one does each time it
-- is notified. What the OS port returns for a thread is an argument.
use qoraal.Base.{
  ℕ, zero, suc, ◌+◌, ◌≡◌, ◌<◌, ap, ◌∙◌, Bool, true, false, ◌&&◌, not, Option, none, some, List, [],
  ◌∷◌, length, ◌==◌, if◌then◌else◌, ℤ, ◌==ℤ◌, arith,
}
use qoraal.Services.{eok}
use qoraal.Tasks.{Pool, Env, update, reason_run, set_task}
use qoraal.Tasks.Wait.{e_timeout}
use qoraal.Tasks.Run.{take, enter, leave, service_at, service_task}

-- The inner loop of `svc_tasks_thread`: tasks are run until the ready queue is empty; none is a loop
-- that has not ended.
unfoldable pub drain : (env : Env) (fuel : ℕ) → Pool → (q : ℕ) → Option Pool
drain env zero s q = none
drain env (suc f) s q =
    let r = service_task env s q in let rest = drain env f r.0 q in if r.1 then rest else some r.0

-- `_svc_tasks_run`, the registration of the event's handler, and the threads of the pool: those that
-- were created and those that were notified
pub record Control : Type 0 where
  pub run : Bool
  pub registered : Bool
  pub created : ℕ → Bool
  pub notified : ℕ → Bool

-- The first loop of `svc_tasks_stop`, over `n` threads from the one at `i` on
unfoldable pub notify : (n i : ℕ) → Control → Control
notify zero i c = c
notify (suc n) i c =
    notify n (i + 1) (if c.created i then record c { notified = update c.notified i true } else c)

-- The second loop, with the results of the joins
unfoldable pub join : (joined : ℕ → ℤ) → (n i : ℕ) → Control → (status : ℤ) → ℤ
join joined zero i c status = status
join joined (suc n) i c status =
    join joined n (i + 1) c (if c.created i && not (joined i ==ℤ eok) then e_timeout else status)

-- `svc_tasks_stop`
unfoldable pub stop : (joined : ℕ → ℤ) → (pool_count : ℕ) → Control → (timeout : ℕ) → Control × ℤ
stop joined count c timeout =
    let c' = notify count 0 (record c { registered = false; run = false }) in
    (c', if timeout == 0 then e_timeout else join joined count 0 c' eok)

-- The loop of `svc_tasks_start`, up to the first thread that cannot be created or does not start
unfoldable pub start_from :
    (create : ℕ → ℤ) → (started : ℕ → Bool) → (n i : ℕ) → Control → Control × ℤ
start_from create started zero i c = (c, eok)
start_from create started (suc n) i c =
    let c' = record c { created = update c.created i true } in
    let rest = start_from create started n (i + 1) c' in
    if not (create i ==ℤ eok)
    then (c, create i)
    else if not (started i)
    then (c', e_timeout)
    else rest

-- `svc_tasks_start`
unfoldable pub start :
    (create joined : ℕ → ℤ) → (started : ℕ → Bool) → (pool_count : ℕ) → Control → Control × ℤ
start create joined started count c =
    let (c', status) =
      start_from create started count 0 (record c { run = true; registered = true }) in
    if not (status ==ℤ eok) then ((stop joined count c' 1000).0, status) else (c', status)

service_at-ready :
    (env : Env) (s : Pool) (q x : ℕ) (xs : List ℕ)
    → ((callback task parm reason : ℕ) (p : Pool)
        → (env.call callback task parm reason p).ready q ≡ p.ready q)
    → (service_at env s q (x ∷ xs)).0.ready q ≡ xs
unfolding service_at take enter leave set_task
service_at-ready env s q x xs h =
    h (s.tasks x).callback x (s.tasks x).parm reason_run (enter env (take env s q x xs) q x)
    ∙ ground arith

-- What the loop does behind a task
abbrev drained : (env : Env) (f q : ℕ) → Pool × Bool → Option Pool
drained env f q r = if r.1 then drain env f r.0 q else some r.0

-- The pool behind the tasks of a ready queue: each in turn is taken out, is the active one of its
-- thread while its callback runs with the reason RUN, and is left.
abbrev pub ran : Env → Pool → ℕ → List ℕ → Pool
ran env s q [] = s
ran env s q (x ∷ xs) =
    let d = s.tasks x in
    let p = enter env (take env s q x xs) q x in
    ran env (leave env (env.call d.callback x d.parm reason_run p) q) q xs

-- A thread that is notified runs the callbacks of all the tasks that are ready in its queue, in order
-- and each once, with the reason RUN and the whole parameter, and then waits again with that queue
-- empty: this holds where the callbacks leave that queue alone, with more steps than there are tasks.
pub drain-ran :
    (env : Env) (f : ℕ) (s : Pool) (q : ℕ) (xs : List ℕ)
    → ((callback task parm reason : ℕ) (p : Pool)
        → (env.call callback task parm reason p).ready q ≡ p.ready q)
    → s.ready q ≡ xs
    → length xs < f
    → (drain env f s q ≡ some (ran env s q xs)) × ((ran env s q xs).ready q ≡ [])
unfolding drain service_task service_at
drain-ran env zero s q xs h e l = absurd (omega arith)
drain-ran env (suc f) s q [] h e l =
    (ap (λ (r : Pool × Bool). drained env f q r) (ap (λ (ys : List ℕ). service_at env s q ys) e), e)
drain-ran env (suc f) s q (x ∷ xs) h e l =
    let r = service_at env s q (x ∷ xs) in
    let (d, g) = drain-ran env f r.0 q xs h (service_at-ready env s q x xs h) (omega arith) in
    (
      ap (λ (z : Pool × Bool). drained env f q z) (ap (λ (ys : List ℕ). service_at env s q ys) e)
          ∙ d,
      g,
    )
