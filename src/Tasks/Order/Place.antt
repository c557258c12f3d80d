-- ===== src/Tasks/Order/Place.antt =====
-- Where `svc_tasks_schedule` puts a task in the scheduled list.
use mathlib.Core.Path.{subst}
use qoraal.Base.{
  ℕ, ◌+◌, ◌%◌, ◌^◌, ◌≡◌, ◌<◌, refl, sym, ap, ◌∙◌, false, ◌⊎◌, Option, none, some, List, [], ◌∷◌,
  ◌++◌, inl, inr, ◌==◌, Bool-cases, arith, has,
}
use qoraal.Tasks.{
  Pool, Env, Task, Status, eok, word, update, queued, status_of, is_due, release, release_one,
  task_event_at, task_event, now, tick, seek, set_task, ticks_diff,
}
use qoraal.Tasks.Cancel.Unlink.{task_event_at-tasks}
use qoraal.Tasks.Schedule.{clear_waited, clamp_ticks, link, armed, schedule_in, schedule, is_set}
use qoraal.Tasks.Invariant.{IsValid}
use qoraal.Tasks.Validity.{frame}
use qoraal.Tasks.Order.{insert_by, linked_at, linked_at-insert_by}
use qoraal.Tasks.Order.Keep.{IsOrdered, elsewhere, schedule-IsOrdered}

-- `ys` is what an expiry leaves of `xs`, which takes tasks off the front alone.
abbrev pub Leaves : List ℕ → List ℕ → Type 0
Leaves xs ys = (front : List ℕ) × (xs ≡ front ++ ys)

more : (x : ℕ) (xs ys : List ℕ) → Leaves xs ys → Leaves (x ∷ xs) ys
more x xs ys (front, e) = (x ∷ front, ap (λ (zs : List ℕ). x ∷ zs) e)

module _ (env : Env) (base : ℕ) where
  release-Leaves : (s : Pool) (x : ℕ) (xs : List ℕ) → Leaves xs (release env s x xs).scheduled
  unfolding release release_one
  release-Leaves s x [] = ([], refl)
  release-Leaves s x (y ∷ ys) = elim (Bool-cases (is_due (s.tasks y).ticks (now env s))) [
    | inl b ↦
        rw (b, release)
          (more y ys _ (release-Leaves (tick env (release_one env s x (y ∷ ys))) y ys))
    | inr b ↦ rw (b, release) ([], refl)
  ]

  task_event_at-Leaves :
      (s : Pool) (xs : List ℕ) → s.scheduled ≡ xs → Leaves xs (task_event_at env s xs).scheduled
  unfolding task_event_at
  task_event_at-Leaves s [] e = ([], sym e)
  task_event_at-Leaves s (x ∷ xs) e = elim (Bool-cases (is_due (s.tasks x).ticks (now env s))) [
    | inl b ↦ rw b (more x xs _ (release-Leaves (tick env s) x xs))
    | inr b ↦ rw b ([], sym e)
  ]

  task_event-Leaves : (s : Pool) → Leaves s.scheduled (task_event env s).scheduled
  unfolding task_event
  task_event-Leaves s = task_event_at-Leaves s s.scheduled refl

  task_event-tasks : (s : Pool) → (task_event env s).tasks ≡ s.tasks
  unfolding task_event
  task_event-tasks s = task_event_at-tasks env s s.scheduled

  -- The pool `s'` has the tasks `tasks`, and `xs` for its scheduled list; where no timer was set in
  -- `s`, an expiry may have taken tasks off its front.
  abbrev pub Links : Pool → (ℕ → Task) → List ℕ → Pool → Type 0
  Links s tasks xs s' =
      (s'.tasks ≡ tasks)
      × ((s'.scheduled ≡ xs) ⊎ ((is_set s.timer ≡ false) × Leaves xs s'.scheduled))

  link-Links :
      (s : Pool) (t ticks : ℕ) (previous : Option ℕ)
      → (ticks == 0) ≡ false
      → Links s s.tasks
          (linked_at s.tasks base t previous s.scheduled)
          (link env s t ticks previous)
  unfolding link
  link-Links s t ticks none z = rw z (refl, inl refl)
  link-Links s t ticks (some p) z = elim (Bool-cases (is_set s.timer)) [
    | inl b ↦ rw b (refl, inl refl)
    | inr b ↦ rw b (task_event-tasks _, inr (refl, task_event-Leaves _))
  ]

  schedule_in-Links :
      (s : Pool) (t callback parm prio ticks : ℕ)
      → (ticks == 0) ≡ false
      → (status_of (s.tasks t) == queued) ≡ false
      → let d = armed env s (s.tasks t) callback parm prio ticks in
        let tasks = update s.tasks t d in
        Links s tasks
          (linked_at tasks base t (seek tasks d.ticks none s.scheduled) s.scheduled)
          (schedule_in env s t callback parm prio ticks).0
        × ((schedule_in env s t callback parm prio ticks).1 ≡ eok)
  unfolding schedule_in set_task
  schedule_in-Links s t callback parm prio ticks z b =
      let d = armed env s (s.tasks t) callback parm prio ticks in
      let tasks = update s.tasks t d in
      rw (z, b)
        (
          link-Links (tick env (set_task s t d)) t ticks (seek tasks d.ticks none s.scheduled) z,
          refl,
        )

  -- What scheduling `t` for `ticks` from `s` on comes to, with the pool and the result in `r`.
  abbrev pub Places : Pool → (t ticks : ℕ) → Pool × Status → Type 0
  Places s t ticks (s', result) =
      (result ≡ eok)
      × ((s'.tasks t).ticks ≡ (ticks + now env s) % word)
      × ((s'.scheduled ≡ insert_by s'.tasks base t s.scheduled)
          ⊎ ((is_set s.timer ≡ false)
              × Leaves (insert_by s'.tasks base t s.scheduled) s'.scheduled))

  Links-Places :
      (s : Pool) (t ticks : ℕ) (tasks : ℕ → Task) (r : Pool × Status)
      → r.1 ≡ eok
      → (tasks t).ticks ≡ (ticks + now env s) % word
      → Links s tasks (insert_by tasks base t s.scheduled) r.0
      → Places s t ticks r
  Links-Places s t ticks tasks (s', result) f g (e, l) = (f, rw e g, rw e l)

  schedule_in-Places :
      (s : Pool) (t callback parm prio ticks : ℕ)
      → IsValid s
      → IsOrdered base s
      → (status_of (s.tasks t) == queued) ≡ false
      → (ticks == 0) ≡ false
      → base < word
      → ticks_diff (ticks + now env s) base < 2 ^ 31
      → Places s t ticks (schedule_in env s t callback parm prio ticks)
  unfolding armed
  schedule_in-Places s t callback parm prio ticks v o b z wb h =
      let d = armed env s (s.tasks t) callback parm prio ticks in
      let tasks = update s.tasks t d in
      let r = schedule_in env s t callback parm prio ticks in
      let (l, f) = schedule_in-Links s t callback parm prio ticks z b in
      let out : has t s.scheduled ≡ false = ground (arith, v.scheduled_queued t) in
      let same : tasks t ≡ d = ground arith in
      let g : (tasks t).ticks ≡ (ticks + now env s) % word = ap Task.ticks same in
      let i : linked_at tasks base t (seek tasks d.ticks none s.scheduled) s.scheduled
          ≡ insert_by tasks base t s.scheduled =
        ap (λ (k : ℕ). linked_at tasks base t (seek tasks k none s.scheduled) s.scheduled) (sym g)
        ∙ linked_at-insert_by tasks base t s.scheduled (omega (arith, g)) wb (omega (arith, g, h))
            (elsewhere s.tasks base 0 t d s.scheduled out o) v.scheduled_distinct in
      Links-Places s t ticks tasks r f g (subst (λ (ys : List ℕ). Links s tasks ys r.0) i l)

  -- `svc_tasks_schedule` of a task that is not queued, for a delay other than 0, returns EOK and
  -- keeps the scheduled list in order of the deadlines. The new task, whose deadline is the
  -- counter's reading and the delay, which is cut down to 2 ^ 31 - 2, stands in front of the first
  -- task with a later deadline, so behind those with the same one, and the others stay; only where no
  -- timer was set may the expiry that is handled then take tasks off the front. The base, from which deadlines are read, must lie
  -- before the counter's reading and no deadline half the range or more behind it.
  pub schedule-Places :
      (s : Pool) (t callback parm prio ticks : ℕ)
      → IsValid s
      → IsOrdered base s
      → (status_of (s.tasks t) == queued) ≡ false
      → (clamp_ticks ticks == 0) ≡ false
      → base < word
      → ticks_diff (clamp_ticks ticks + now env s) base < 2 ^ 31
      → let r = schedule env s t callback parm prio ticks in
        IsOrdered base r.0 × Places s t (clamp_ticks ticks) r
  unfolding schedule clear_waited
  schedule-Places s t callback parm prio ticks v o b z wb h =
      let n = clamp_ticks ticks in
      (
        schedule-IsOrdered env base s t callback parm prio ticks v o wb h,
        elim (Bool-cases ((s.tasks t).flags % 2 == 1)) [
          | inl w ↦ rw w (schedule_in-Places _ t callback parm prio n (frame s v) o b z wb h)
          | inr w ↦ rw w (schedule_in-Places s t callback parm prio n v o b z wb h)
        ],
      )
