-- ===== src/Tasks/Validity/Ops.antt =====
-- `svc_tasks_schedule`, `svc_tasks_service_task` and `svc_tasks_cancel` keep the pool well-formed.
use mathlib.Core.Path.{subst}
use qoraal.Base.{
  ℕ, ◌+◌, ◌-◌, ◌%◌, ◌≡◌, ◌⊎◌, refl, true, Option, none, some, List, [], ◌∷◌, inl, inr, ◌==◌,
  ==_refl, Bool-cases, has, erase, insert_after, arith, Distinct-insert_after, has-insert_after,
  length-insert_after,
}
use qoraal.Tasks.{
  Pool, Env, word, Status, eok, e_busy, queued, complete, status_of, set_task, tick, seek, Task,
  queue_of, ticks_diff, is_neg,
}
use qoraal.Tasks.Schedule.{clear_waited, clamp_ticks, link, armed, schedule_in, schedule, is_set}
use qoraal.Tasks.Run.{service_at, service_task, signal_waited}
use qoraal.Tasks.Cancel.{notify_canceled, ready_cancel, unschedule, settle, cancel, is_head}
use qoraal.Tasks.Invariant.{IsValidExcept, IsValid, nobody, also}
use qoraal.Tasks.Moves.{
  IsValidExcept-of_not_queued, set_task-IsValidExcept, IsValidExcept-of_complete,
  relist-IsValidExcept, unlist-IsValidExcept, requeue, requeue-IsValidExcept,
}
use qoraal.Tasks.Validity.{frame, add-IsValid, task_event-IsValidExcept}

clear_waited-IsValid : (s : Pool) (t : ℕ) → IsValid s → IsValid (clear_waited s t)
unfolding clear_waited
clear_waited-IsValid s t v = elim (Bool-cases ((s.tasks t).flags % 2 == 1)) [
  | inl e ↦ rw e (frame s v)
  | inr e ↦ rw e v
]

signal_waited-IsValid : (s : Pool) (t : ℕ) → IsValid s → IsValid (signal_waited s t)
unfolding signal_waited
signal_waited-IsValid s t v = elim (Bool-cases ((s.tasks t).flags % 2 == 1)) [
  | inl e ↦ rw e (frame s v)
  | inr e ↦ rw e v
]

-- The task that the search finds is one of those that it passes.
pub seek-mem :
    (tasks : ℕ → Task) (ticks : ℕ) (previous : Option ℕ) (xs : List ℕ) (p : ℕ)
    → seek tasks ticks previous xs ≡ some p
    → (previous ≡ some p) ⊎ (has p xs ≡ true)
unfolding seek
seek-mem tasks ticks previous [] p e = inl e
seek-mem tasks ticks previous (x ∷ xs) p e =
    elim (Bool-cases (is_neg (ticks_diff ticks (tasks x).ticks))) [
      | inl b ↦ inl (rw (b, seek) at e)
      | inr b ↦ elim (seek-mem tasks ticks (some x) xs p (rw (b, seek) at e)) [
        | inl q ↦ inr (ground (arith, q))
        | inr m ↦ inr (ground (arith, m))
      ]
    ]

found :
    (tasks : ℕ → Task) (ticks : ℕ) (xs : List ℕ) (p : ℕ)
    → seek tasks ticks none xs ≡ some p
    → has p xs ≡ true
found tasks ticks xs p e = elim (seek-mem tasks ticks none xs p e) [ inl q ↦ cc | inr m ↦ m ]

module _ (env : Env) where
  link-IsValid :
      (s : Pool) (t ticks : ℕ) (previous : Option ℕ)
      → IsValidExcept (also t nobody) s
      → status_of (s.tasks t) ≡ 1
      → ((p : ℕ) → previous ≡ some p → has p s.scheduled ≡ true)
      → IsValid (link env s t ticks previous)
  unfolding link
  link-IsValid s t ticks none v e m =
      let w =
        relist-IsValidExcept nobody s t (t ∷ s.scheduled) v e refl (λ u. refl)
          (v.free_scheduled t (ground arith), v.scheduled_distinct) (omega arith) in
      elim (Bool-cases (ticks == 0)) [
        | inl b ↦ rw b (task_event-IsValidExcept env nobody _ w)
        | inr b ↦ rw b (frame _ w)
      ]
  link-IsValid s t ticks (some p) v e m =
      let w =
        relist-IsValidExcept nobody s t (insert_after p t s.scheduled) v e refl
          (λ u. has-insert_after u p t s.scheduled (m p refl))
          (Distinct-insert_after p t s.scheduled v.scheduled_distinct
            (v.free_scheduled t (ground arith)))
          (length-insert_after p t s.scheduled (m p refl)) in
      elim (Bool-cases (is_set s.timer)) [
        | inl b ↦ rw b w
        | inr b ↦ rw b (task_event-IsValidExcept env nobody _ w)
      ]

  schedule_in-IsValid :
      (s : Pool) (t callback parm prio ticks : ℕ)
      → IsValid s
      → IsValid (schedule_in env s t callback parm prio ticks).0
  unfolding schedule_in armed set_task
  schedule_in-IsValid s t callback parm prio ticks v =
      let d = armed env s (s.tasks t) callback parm prio ticks in
      elim (Bool-cases (ticks == 0)) [
        | inl z ↦ rw z (add-IsValid s t callback parm prio v)
        | inr z ↦ elim (Bool-cases (status_of (s.tasks t) == queued)) [
          | inl b ↦ rw (z, b) v
          | inr b ↦
              let w =
                set_task-IsValidExcept nobody s t d
                  (IsValidExcept-of_not_queued nobody s t v (ground arith)) in
              rw (z, b)
                (link-IsValid (tick env (set_task s t d)) t ticks
                  (seek (set_task s t d).tasks d.ticks none s.scheduled) (frame _ w) (ground arith)
                  (λ p e. found (set_task s t d).tasks d.ticks s.scheduled p e))
        ]
      ]

  -- `svc_tasks_schedule` keeps the pool well-formed, whatever the task's state, delay and priority.
  pub schedule-IsValid :
      (s : Pool) (t callback parm prio ticks : ℕ)
      → IsValid s
      → IsValid (schedule env s t callback parm prio ticks).0
  unfolding schedule
  schedule-IsValid s t callback parm prio ticks v =
      schedule_in-IsValid (clear_waited s t) t callback parm prio (clamp_ticks ticks)
        (clear_waited-IsValid s t v)

  pub unschedule-IsValidExcept :
      (s : Pool) (t : ℕ)
      → IsValid s
      → has t s.scheduled ≡ true
      → IsValidExcept (also t nobody) (unschedule env s t)
  unfolding unschedule
  unschedule-IsValidExcept s t v m =
      let w = unlist-IsValidExcept nobody s t v m in
      elim (Bool-cases (is_head t s.scheduled)) [
        | inl b ↦ rw b (task_event-IsValidExcept env (also t nobody) _ w)
        | inr b ↦ rw b w
      ]

  module _ (keeps : (c t p r : ℕ) (s : Pool) → IsValid s → IsValid (env.call c t p r s)) where
    service_at-IsValid :
        (s : Pool) (q : ℕ) (xs : List ℕ)
        → IsValid s
        → s.ready q ≡ xs
        → IsValid (service_at env s q xs).0
    unfolding service_at
    service_at-IsValid s q [] v e = v
    service_at-IsValid s q (x ∷ xs) v e =
        let m : has x (s.ready q) ≡ true = rw (e, ==_refl x) in
        let gone : erase x (s.ready q) ≡ xs = rw (e, ==_refl x) in
        let w : IsValidExcept (also x nobody) (requeue s q xs ((s.ready_count + word - 1) % word)) =
          subst
            (λ (ys : List ℕ).
              IsValidExcept (also x nobody) (requeue s q ys ((s.ready_count + word - 1) % word)))
            gone (requeue-IsValidExcept nobody s x q v m) in
        frame _ (
          keeps _ _ _ _ _ (
            frame _ (
              IsValidExcept-of_complete nobody _ x (set_task-IsValidExcept nobody _ x _ w)
                (ground arith))))

    -- `svc_tasks_service_task` keeps the pool well-formed if the callbacks do.
    pub service_task-IsValid : (s : Pool) (q : ℕ) → IsValid s → IsValid (service_task env s q).0
    unfolding service_task
    service_task-IsValid s q v = service_at-IsValid s q (s.ready q) v refl

    notify_canceled-IsValid :
        (s : Pool) (t : ℕ) → IsValidExcept (also t nobody) s → IsValid (notify_canceled env s t)
    unfolding notify_canceled
    notify_canceled-IsValid s t v = signal_waited-IsValid _ t (
        keeps _ _ _ _ _ (
          IsValidExcept-of_complete nobody _ t (set_task-IsValidExcept nobody s t _ v)
            (ground arith)))

    ready_cancel-IsValid : (s : Pool) (t : ℕ) → IsValid s → IsValid (ready_cancel env s t).0
    unfolding ready_cancel
    ready_cancel-IsValid s t v = elim (Bool-cases (status_of (s.tasks t) == complete)) [
      | inl b ↦ rw b v
      | inr b ↦ elim (Bool-cases (has t (s.ready (queue_of s (s.tasks t))))) [
        | inl m ↦ rw (b, m) (notify_canceled-IsValid _ t (requeue-IsValidExcept nobody s t _ v m))
        | inr m ↦ rw (b, m) v
      ]
    ]

    settle-IsValid : (r : Pool × Status) → IsValid r.0 → IsValid (settle env r).0
    unfolding settle
    settle-IsValid (s, eok) v = task_event-IsValidExcept env nobody s v
    settle-IsValid (s, e_busy) v = v

    -- `svc_tasks_cancel` keeps the pool well-formed if the callbacks do.
    pub cancel-IsValid : (s : Pool) (t : ℕ) → IsValid s → IsValid (cancel env s t).0
    unfolding cancel
    cancel-IsValid s t v = elim (Bool-cases (has t s.scheduled)) [
      | inl m ↦ rw m (notify_canceled-IsValid _ t (unschedule-IsValidExcept s t v m))
      | inr m ↦ elim (Bool-cases (status_of (s.tasks t) == complete)) [
        | inl b ↦ rw (m, b) v
        | inr b ↦ rw (m, b) (settle-IsValid (ready_cancel env s t) (ready_cancel-IsValid s t v))
      ]
    ]
