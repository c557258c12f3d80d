-- ===== src/Tasks/Order/Keep.antt =====
-- The scheduled list stays in order of the deadlines.
use mathlib.Core.Path.{subst}
use qoraal.Base.{
  ℕ, ◌+◌, ◌%◌, ◌^◌, ◌≡◌, ◌<◌, refl, ap, false, Option, none, some, List, [], ◌∷◌, inl, inr, ◌==◌,
  Bool-cases, arith, has, Distinct,
}
use qoraal.Tasks.{
  Pool, Env, Task, word, update, queued, status_of, is_due, release, release_one, task_event_at,
  task_event, add, now, tick, seek, set_task, ticks_diff,
}
use qoraal.Tasks.Schedule.{clear_waited, clamp_ticks, link, armed, schedule_in, schedule, is_set}
use qoraal.Tasks.Invariant.{IsValid}
use qoraal.Tasks.Validity.{frame}
use qoraal.Tasks.Order.{offset, OrderedFrom, insert_by-OrderedFrom, linked_at, linked_at-insert_by}

-- The scheduled list is in order, read from `base`.
abbrev pub IsOrdered : ℕ → Pool → Type 0
IsOrdered base s = OrderedFrom s.tasks base 0 s.scheduled

weaken :
    (tasks : ℕ → Task) (base lo : ℕ) (xs : List ℕ)
    → OrderedFrom tasks base lo xs
    → OrderedFrom tasks base 0 xs
weaken tasks base lo [] o = o
weaken tasks base lo (x ∷ xs) o = (o.0, omega arith, o.2, o.3)

-- What is not in the list may change.
pub elsewhere :
    (tasks : ℕ → Task) (base lo t : ℕ) (d : Task) (xs : List ℕ)
    → has t xs ≡ false
    → OrderedFrom tasks base lo xs
    → OrderedFrom (update tasks t d) base lo xs
elsewhere tasks base lo t d [] out o = o
elsewhere tasks base lo t d (x ∷ xs) out o =
    let e : update tasks t d x ≡ tasks x = ground arith in
    rw e (o.0, o.1, o.2, elsewhere tasks base (offset tasks base x) t d xs (ground arith) o.3)

placed :
    (tasks : ℕ → Task) (base t n : ℕ) (xs : List ℕ)
    → (tasks t).ticks ≡ n
    → n < word
    → base < word
    → ticks_diff n base < 2 ^ 31
    → OrderedFrom tasks base 0 xs
    → Distinct xs
    → OrderedFrom tasks base 0 (linked_at tasks base t (seek tasks n none xs) xs)
placed tasks base t n xs e w wb h o d =
    let wt : (tasks t).ticks < word = omega arith in
    let ht : offset tasks base t < 2 ^ 31 = rw e h in
    subst (λ (k : ℕ). OrderedFrom tasks base 0 (linked_at tasks base t (seek tasks k none xs) xs)) e
      (rw (linked_at-insert_by tasks base t xs wt wb ht o d)
        (insert_by-OrderedFrom tasks base 0 t xs o wt (omega arith) ht))

module _ (env : Env) (base : ℕ) where
  release-IsOrdered :
      (s : Pool) (x : ℕ) (xs : List ℕ)
      → OrderedFrom s.tasks base 0 xs
      → IsOrdered base (release env s x xs)
  unfolding release release_one
  release-IsOrdered s x [] o = o
  release-IsOrdered s x (y ∷ ys) o = elim (Bool-cases (is_due (s.tasks y).ticks (now env s))) [
    | inl b ↦
        rw (b, release)
          (release-IsOrdered (tick env (release_one env s x (y ∷ ys))) y ys
            (weaken s.tasks base _ ys o.3))
    | inr b ↦ rw (b, release) o
  ]

  task_event_at-IsOrdered :
      (s : Pool) (xs : List ℕ)
      → s.scheduled ≡ xs
      → IsOrdered base s
      → IsOrdered base (task_event_at env s xs)
  unfolding task_event_at
  task_event_at-IsOrdered s [] e o = o
  task_event_at-IsOrdered s (x ∷ xs) e o =
      elim (Bool-cases (is_due (s.tasks x).ticks (now env s))) [
        | inl b ↦
            let o' : OrderedFrom s.tasks base 0 (x ∷ xs) = subst (OrderedFrom s.tasks base 0) e o in
            rw b (release-IsOrdered (tick env s) x xs (weaken s.tasks base _ xs o'.3))
        | inr b ↦ rw b o
      ]

  -- `svc_tasks_task_event` leaves the tasks that still wait in order, whatever the clock does.
  task_event-IsOrdered : (s : Pool) → IsOrdered base s → IsOrdered base (task_event env s)
  unfolding task_event
  task_event-IsOrdered s o = task_event_at-IsOrdered s s.scheduled refl o

  link-IsOrdered :
      (s : Pool) (t ticks : ℕ) (previous : Option ℕ)
      → OrderedFrom s.tasks base 0 (linked_at s.tasks base t previous s.scheduled)
      → IsOrdered base (link env s t ticks previous)
  unfolding link
  link-IsOrdered s t ticks none o = elim (Bool-cases (ticks == 0)) [
    | inl b ↦ rw b (task_event-IsOrdered _ o)
    | inr b ↦ rw b o
  ]
  link-IsOrdered s t ticks (some p) o = elim (Bool-cases (is_set s.timer)) [
    | inl b ↦ rw b o
    | inr b ↦ rw b (task_event-IsOrdered _ o)
  ]

  add-IsOrdered :
      (s : Pool) (t callback parm prio : ℕ)
      → IsValid s
      → IsOrdered base s
      → IsOrdered base (add s t callback parm prio).0
  unfolding add
  add-IsOrdered s t callback parm prio v o = elim (Bool-cases (status_of (s.tasks t) == queued)) [
    | inl b ↦ rw b o
    | inr b ↦
        let out : has t s.scheduled ≡ false = ground (arith, v.scheduled_queued t) in
        rw b (elsewhere s.tasks base 0 t _ s.scheduled out o)
  ]

  schedule_in-IsOrdered :
      (s : Pool) (t callback parm prio ticks : ℕ)
      → IsValid s
      → IsOrdered base s
      → base < word
      → ticks_diff (ticks + now env s) base < 2 ^ 31
      → IsOrdered base (schedule_in env s t callback parm prio ticks).0
  unfolding schedule_in armed set_task
  schedule_in-IsOrdered s t callback parm prio ticks v o wb h =
      let d = armed env s (s.tasks t) callback parm prio ticks in
      let tasks = update s.tasks t d in
      elim (Bool-cases (ticks == 0)) [
        | inl z ↦ rw z (add-IsOrdered s t callback parm prio v o)
        | inr z ↦ elim (Bool-cases (status_of (s.tasks t) == queued)) [
          | inl b ↦ rw (z, b) o
          | inr b ↦
              let out : has t s.scheduled ≡ false = ground (arith, v.scheduled_queued t) in
              let o' = elsewhere s.tasks base 0 t d s.scheduled out o in
              let same : tasks t ≡ d = ground arith in
              rw (z, b)
                (link-IsOrdered (tick env (set_task s t d)) t ticks
                  (seek tasks d.ticks none s.scheduled)
                  (placed tasks base t d.ticks s.scheduled (ap Task.ticks same) (omega arith) wb
                    (omega arith) o' v.scheduled_distinct))
        ]
      ]

  -- `svc_tasks_schedule` keeps the scheduled list in order of the deadlines. The base must lie before the counter's reading and no deadline half
  -- the range or more behind it.
  pub schedule-IsOrdered :
      (s : Pool) (t callback parm prio ticks : ℕ)
      → IsValid s
      → IsOrdered base s
      → base < word
      → ticks_diff (clamp_ticks ticks + now env s) base < 2 ^ 31
      → IsOrdered base (schedule env s t callback parm prio ticks).0
  unfolding schedule clear_waited
  schedule-IsOrdered s t callback parm prio ticks v o wb h =
      elim (Bool-cases ((s.tasks t).flags % 2 == 1)) [
        | inl b ↦
            rw b
              (schedule_in-IsOrdered _ t callback parm prio (clamp_ticks ticks) (frame s v) o wb h)
        | inr b ↦ rw b (schedule_in-IsOrdered s t callback parm prio (clamp_ticks ticks) v o wb h)
      ]
