-- ===== src/Tasks/Cancel/Unlink.antt =====
-- Every queued task can be cancelled, and its callback finds it in no list.
use qoraal.Base.{
  ap, ==_ne, ◌+◌, ◌-◌, ℕ, ◌%◌, ◌≡◌, ◌≢◌, ◌⊎◌, refl, ◌∙◌, true, false, List, [], ◌∷◌, inl, inr, ◌==◌,
  Bool-cases, has, erase, arith,
}
use qoraal.Tasks.{
  Pool, Env, Task, Status, eok, word, complete, status_of, queue_of, reason_canceled, set_task,
  release, release_one, task_event_at, task_event, is_due, now, tick,
}
use qoraal.Tasks.Run.{signal_waited}
use qoraal.Tasks.Cancel.{notify_canceled, ready_cancel, unschedule, settle, cancel, is_head}
use qoraal.Tasks.Invariant.{IsValidExcept, IsValid, nobody, also}
use qoraal.Tasks.Moves.{
  set_task-IsValidExcept, IsValidExcept-of_complete, requeue, requeue-IsValidExcept,
}
use qoraal.Tasks.Validity.Ops.{unschedule-IsValidExcept}

-- The pool `s'` that the callback of the cancelled task `t` finds: well-formed, with `t` complete
-- and in no list, and the other tasks as they were.
pub record Dropped (t : ℕ) (s s' : Pool) : Type 0 where
  pub valid : IsValid s'
  pub complete : status_of (s'.tasks t) ≡ 0
  pub unscheduled : has t s'.scheduled ≡ false
  pub unready : (q : ℕ) → has t (s'.ready q) ≡ false
  pub others : (u : ℕ) → u ≢ t → s'.tasks u ≡ s.tasks u

dropped :
    (t : ℕ) (s s' : Pool)
    → IsValidExcept (also t nobody) s'
    → s'.tasks ≡ s.tasks
    → Dropped t s (set_task s' t (record (s'.tasks t) { status = complete }))
unfolding set_task
dropped t s s' v e = record {
  valid =
      IsValidExcept-of_complete nobody _ t (set_task-IsValidExcept nobody s' t _ v) (ground arith);
  complete = ground arith;
  unscheduled = v.free_scheduled t (ground arith);
  unready = λ q. v.free_ready t q (ground arith);
  others = λ u ne. rw (==_ne u t ne) (ap (λ (f : ℕ → Task). f u) e);
}

module _ (env : Env) where
  pub release-tasks : (s : Pool) (x : ℕ) (xs : List ℕ) → (release env s x xs).tasks ≡ s.tasks
  unfolding release release_one
  release-tasks s x [] = refl
  release-tasks s x (y ∷ ys) = elim (Bool-cases (is_due (s.tasks y).ticks (now env s))) [
    | inl b ↦ rw (b, release) (release-tasks (tick env (release_one env s x (y ∷ ys))) y ys)
    | inr b ↦ rw (b, release)
  ]

  pub task_event_at-tasks : (s : Pool) (xs : List ℕ) → (task_event_at env s xs).tasks ≡ s.tasks
  unfolding task_event_at
  task_event_at-tasks s [] = refl
  task_event_at-tasks s (x ∷ xs) = elim (Bool-cases (is_due (s.tasks x).ticks (now env s))) [
    | inl b ↦ rw b (release-tasks (tick env s) x xs)
    | inr b ↦ rw b
  ]

  unschedule-tasks : (s : Pool) (t : ℕ) → (unschedule env s t).tasks ≡ s.tasks
  unfolding unschedule task_event
  unschedule-tasks s t = elim (Bool-cases (is_head t s.scheduled)) [
    | inl b ↦ rw b (task_event_at-tasks _ _)
    | inr b ↦ rw b
  ]

  -- The pool after the callback has run in `s'` and the event of a waitable task is signalled.
  abbrev pub told : Pool → ℕ → Pool → Pool
  told s t s' =
      signal_waited (env.call (s.tasks t).callback t ((s.tasks t).parm % word) reason_canceled s') t

  notify-told :
      (s u : Pool) (t : ℕ)
      → u.tasks ≡ s.tasks
      → notify_canceled env u t ≡ told s t (set_task u t (record (u.tasks t) { status = complete }))
  unfolding notify_canceled
  notify-told s u t same =
      ap
        (λ (f : ℕ → Task).
          signal_waited
            (env.call (f t).callback t ((f t).parm % word) reason_canceled
              (set_task u t (record (u.tasks t) { status = complete })))
            t)
        same

  ready_cancel-found :
      (s : Pool) (t : ℕ)
      → status_of (s.tasks t) ≡ 1
      → has t (s.ready (queue_of s (s.tasks t))) ≡ true
      → ready_cancel env s t ≡ (
        notify_canceled env
            (requeue s
              (queue_of s (s.tasks t))
              (erase t (s.ready (queue_of s (s.tasks t))))
              ((s.ready_count + word - 1) % word))
            t,
        eok,
      )
  unfolding ready_cancel
  ready_cancel-found s t e m =
      let busy : (status_of (s.tasks t) == complete) ≡ false = ground arith in rw (busy, m)

  cancel-settle :
      (s : Pool) (t : ℕ)
      → has t s.scheduled ≡ false
      → (status_of (s.tasks t) == complete) ≡ false
      → cancel env s t ≡ settle env (ready_cancel env s t)
  unfolding cancel
  cancel-settle s t m b = rw (m, b)

  -- In a well-formed pool `svc_tasks_cancel` of a queued task always succeeds: the callback is
  -- called once, with the reason CANCELED and the low 32 bits of the parameter, in a pool where the
  -- task is complete and in no list and the others are as they were. That is all for a task of the
  -- scheduled list; behind the callback of one that stood in a ready queue the timer event is
  -- handled.
  pub cancel-Dropped :
      (s : Pool) (t : ℕ)
      → IsValid s
      → status_of (s.tasks t) ≡ 1
      → (s' : Pool) × Dropped t s s'
        × (((has t s.scheduled ≡ true) × (cancel env s t ≡ (told s t s', eok)))
            ⊎ ((has t s.scheduled ≡ false)
                × (has t (s.ready (queue_of s (s.tasks t))) ≡ true)
                × (cancel env s t ≡ (task_event env (told s t s'), eok))))
  unfolding cancel settle
  cancel-Dropped s t v e = elim (Bool-cases (has t s.scheduled)) [
    | inl m ↦
        let u = unschedule env s t in
        let same = unschedule-tasks s t in
        (
          set_task u t (record (u.tasks t) { status = complete }),
          dropped t s u (unschedule-IsValidExcept env s t v m) same,
          inl (m, rw m (ap {B = Pool × Status} (λ p. (p, eok)) (notify-told s u t same))),
        )
    | inr m ↦
        let q = queue_of s (s.tasks t) in
        let u = requeue s q (erase t (s.ready q)) ((s.ready_count + word - 1) % word) in
        let r : has t (s.ready q) ≡ true = ground (arith, v.linked t refl e) in
        let run : ready_cancel env s t ≡ (notify_canceled env u t, eok) =
          ready_cancel-found s t e r in
        let busy : (status_of (s.tasks t) == complete) ≡ false = ground arith in
        (
          set_task u t (record (u.tasks t) { status = complete }),
          dropped t s u (requeue-IsValidExcept nobody s t q v r) refl,
          inr (
            m,
            r,
            cancel-settle s t m busy
                ∙ ap (settle env) run
                ∙ (ap {B = Pool × Status} (λ p. (task_event env p, eok)) (notify-told s u t refl)),
          ),
        )
  ]
