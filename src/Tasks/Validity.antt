-- ===== src/Tasks/Validity.antt =====
-- Every operation of the task pool keeps it well-formed.
pub mod Ops
use mathlib.Core.Path.{subst}
use qoraal.Base.{
  ℕ, ◌+◌, ◌-◌, ◌%◌, ◌≡◌, ◌≢◌, refl, sym, ap, Bool, true, false, not, Option, none, some, List, [],
  ◌∷◌, inl, inr, ◌==◌, ==_refl, if◌then◌else◌, Bool-cases, has, erase, insert_after, arith, length,
}
use qoraal.Tasks.{
  Pool, Env, word, Status, eok, e_busy, queued, status_of, set_task, task_to_ready, add,
  release_one, release, task_event_at, task_event, tick, now, is_due, seek, Task, queue_of,
  ticks_diff,
}
use qoraal.Tasks.Invariant.{IsValidExcept, IsValid, nobody, also}
use qoraal.Tasks.Moves.{
  IsValidExcept-of_not_queued, set_task-IsValidExcept, task_to_ready-IsValidExcept, relist,
  unlist-IsValidExcept,
}

-- The invariant does not read the events, the timer and the running threads.
pub frame :
    (s : Pool) {threads : ℕ → Bool} {active : ℕ → Option ℕ} {started : ℕ → ℕ} {timer : Option ℕ}
    {event notified waited : ℕ → Bool} {reads : ℕ} {out : ℕ → Bool}
    → IsValidExcept out s
    → IsValidExcept out (record s {
      threads = threads;
      active_task = active;
      active_timer = started;
      timer = timer;
      complete_event = event;
      notified = notified;
      waited = waited;
      reads = reads;
    })
frame s v = record {
  pool = v.pool;
  free_scheduled = v.free_scheduled;
  free_ready = v.free_ready;
  linked = v.linked;
  scheduled_queued = v.scheduled_queued;
  ready_queued = v.ready_queued;
  apart = v.apart;
  scheduled_distinct = v.scheduled_distinct;
  ready_distinct = v.ready_distinct;
  list_counted = v.list_counted;
  ready_counted = v.ready_counted;
}

pub add-IsValid :
    (s : Pool) (t callback parm prio : ℕ) → IsValid s → IsValid (add s t callback parm prio).0
unfolding add
add-IsValid s t callback parm prio v = elim (Bool-cases (status_of (s.tasks t) == queued)) [
  | inl e ↦ rw e v
  | inr e ↦ rw e (
      task_to_ready-IsValidExcept nobody _ t
        (set_task-IsValidExcept nobody s t _
          (IsValidExcept-of_not_queued nobody s t v (ground arith)))
        (ground arith) refl)
]

module _ (env : Env) (out : ℕ → Bool) where
  release_one-IsValidExcept :
      (s : Pool) (x : ℕ) (xs : List ℕ)
      → IsValidExcept out s
      → s.scheduled ≡ x ∷ xs
      → IsValidExcept out (release_one env s x xs)
  unfolding release_one
  release_one-IsValidExcept s x xs v e =
      let gone : erase x s.scheduled ≡ xs = rw (e, ==_refl x) in
      let m : has x s.scheduled ≡ true = rw (e, ==_refl x) in
      let mine : out x ≡ false = ground (arith, v.free_scheduled x) in
      task_to_ready-IsValidExcept out _ x
        (subst
          (λ (ys : List ℕ).
            IsValidExcept (also x out) (relist s ys ((s.list_count + word - 1) % word)))
          gone (unlist-IsValidExcept out s x v m))
        (v.scheduled_queued x m) mine

  release-IsValidExcept :
      (s : Pool) (x : ℕ) (xs : List ℕ)
      → IsValidExcept out s
      → s.scheduled ≡ x ∷ xs
      → IsValidExcept out (release env s x xs)
  unfolding release
  release-IsValidExcept s x [] v e = frame _ (release_one-IsValidExcept s x [] v e)
  release-IsValidExcept s x (y ∷ ys) v e =
      let w = release_one-IsValidExcept s x (y ∷ ys) v e in
      elim (Bool-cases (is_due (s.tasks y).ticks (now env s))) [
        | inl b ↦
            rw (b, release)
              (release-IsValidExcept (tick env (release_one env s x (y ∷ ys))) y ys (frame _ w)
                refl)
        | inr b ↦ rw (b, release) (frame _ w)
      ]

  task_event_at-IsValidExcept :
      (s : Pool) (xs : List ℕ)
      → IsValidExcept out s
      → s.scheduled ≡ xs
      → IsValidExcept out (task_event_at env s xs)
  unfolding task_event_at
  task_event_at-IsValidExcept s [] v e = v
  task_event_at-IsValidExcept s (x ∷ xs) v e =
      elim (Bool-cases (is_due (s.tasks x).ticks (now env s))) [
        | inl b ↦ rw (b, release) (release-IsValidExcept (tick env s) x xs (frame s v) e)
        | inr b ↦ rw b (frame s v)
      ]

  -- An expiry keeps the pool well-formed, also while the tasks of `out` belong to their callers.
  pub task_event-IsValidExcept :
      (s : Pool) → IsValidExcept out s → IsValidExcept out (task_event env s)
  unfolding task_event
  task_event-IsValidExcept s v = task_event_at-IsValidExcept s s.scheduled v refl
