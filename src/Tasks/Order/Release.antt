-- ===== src/Tasks/Order/Release.antt =====
-- What `svc_tasks_task_event` releases while the tick counter stands still, and how the timer is set.
use qoraal.Base.{
  ℕ, ◌%◌, ◌≡◌, refl, sym, ◌∙◌, true, false, Option, some, List, [], ◌∷◌, ◌++◌, inl, inr, ◌==◌,
  if◌then◌else◌, Bool-cases, arith,
}
use native.Mathlib.Decide.{ℕ_discrete}
use mathlib.Core.Path.{subst}
use mathlib.Core.List.{append_assoc, append-nil}
use qoraal.Tasks.{
  Pool, Env, Task, word, queue_of, is_due, ticks_diff, release_one, release, task_event_at,
  task_event, now, tick,
}

module _ (tasks : ℕ → Task) (time : ℕ) where
  -- The tasks at the front whose deadline has come, and those from the first other one on.
  unfoldable pub due : List ℕ → List ℕ
  due [] = []
  due (x ∷ xs) = if is_due (tasks x).ticks time then x ∷ due xs else []

  unfoldable pub waiting : List ℕ → List ℕ
  waiting [] = []
  waiting (x ∷ xs) = if is_due (tasks x).ticks time then waiting xs else x ∷ xs

-- The ready queue of each task.
abbrev pub home : Pool → ℕ → ℕ
home s x = queue_of s (s.tasks x)

-- The tasks of `xs` whose ready queue is `q`, in order.
unfoldable pub of_queue : (ℕ → ℕ) → ℕ → List ℕ → List ℕ
of_queue h q [] = []
of_queue h q (x ∷ xs) = if h x == q then x ∷ of_queue h q xs else of_queue h q xs

-- When the timer is to fire next: after what is left for the first task that waits.
unfoldable pub alarm : Pool → ℕ → List ℕ → Option ℕ
alarm s time [] = s.timer
alarm s time (x ∷ xs) = some (ticks_diff (s.tasks x).ticks time)

-- What an expiry leaves of `xs`: the due tasks stand behind those of their ready queues, in order,
-- the others stay, and the timer is set for the first of them.
pub record Expired (env : Env) (time : ℕ) (s : Pool) (xs : List ℕ) (s' : Pool) : Type 0 where
  pub readied : (q : ℕ) → s'.ready q ≡ s.ready q ++ of_queue (home s) q (due s.tasks time xs)
  pub kept : s'.scheduled ≡ waiting s.tasks time xs
  pub armed : s'.timer ≡ alarm s time (waiting s.tasks time xs)

module _ (env : Env) where
  readied_one :
      (s : Pool) (x : ℕ) (xs zs : List ℕ) (q : ℕ)
      → (release_one env s x xs).ready q ++ of_queue (home s) q zs
        ≡ s.ready q ++ of_queue (home s) q (x ∷ zs)
  unfolding release_one of_queue
  readied_one s x xs zs q = elim (ℕ_discrete (home s x) q) [
    | yes e ↦ ground (arith, e, append_assoc (s.ready q) (x ∷ []) (of_queue (home s) q zs))
    | no ne ↦ ground (arith, ne)
  ]

  -- One round of the loop.
  abbrev round : Pool → ℕ → List ℕ → Pool
  round s x xs = tick env (release_one env s x xs)

  release-due :
      (s : Pool) (x y : ℕ) (ys : List ℕ)
      → is_due (s.tasks y).ticks (now env s) ≡ true
      → release env s x (y ∷ ys) ≡ release env (round s x (y ∷ ys)) y ys
  unfolding release
  release-due s x y ys b = rw (b, release)

  release-stop :
      (s : Pool) (x y : ℕ) (ys : List ℕ)
      → is_due (s.tasks y).ticks (now env s) ≡ false
      → release env s x (y ∷ ys)
        ≡ record (round s x (y ∷ ys)) { timer = some (ticks_diff (s.tasks y).ticks (now env s)) }
  unfolding release
  release-stop s x y ys b = rw (b, release)

  module _ (time : ℕ) where
    round-Expired :
        (s : Pool) (x : ℕ) (xs : List ℕ) (r : Pool)
        → is_due (s.tasks x).ticks time ≡ true
        → Expired env time (round s x xs) xs r
        → Expired env time s (x ∷ xs) r
    unfolding due waiting release_one alarm
    round-Expired s x xs r e w = record {
      readied = λ q. w.readied q ∙ rw e (readied_one s x xs (due s.tasks time xs) q);
      kept = rw e w.kept;
      armed = rw e w.armed;
    }

    last-Expired : (s : Pool) (x : ℕ) → Expired env time (round s x []) [] (round s x [])
    unfolding due waiting release_one of_queue alarm
    last-Expired s x = record { readied = λ q. sym (append-nil _); kept = refl; armed = refl }

    stop-Expired :
        (s : Pool) (x y : ℕ) (ys : List ℕ)
        → is_due (s.tasks y).ticks time ≡ false
        → Expired env time
            (round s x (y ∷ ys))
            (y ∷ ys)
            (record (round s x (y ∷ ys)) { timer = some (ticks_diff (s.tasks y).ticks time) })
    unfolding due waiting release_one of_queue alarm
    stop-Expired s x y ys b = record {
      readied = λ q. rw b (sym (append-nil _));
      kept = rw b refl;
      armed = rw b refl;
    }

  module _ (time : ℕ) (still : (n : ℕ) → env.ticks n % word ≡ time) where
    release-Expired :
        (s : Pool) (x : ℕ) (xs : List ℕ)
        → is_due (s.tasks x).ticks time ≡ true
        → Expired env time s (x ∷ xs) (release env s x xs)
    unfolding release release_one
    release-Expired s x [] e = round-Expired time s x [] _ e (last-Expired time s x)
    release-Expired s x (y ∷ ys) e = elim (Bool-cases (is_due (s.tasks y).ticks time)) [
      | inl b ↦
          subst (Expired env time s (x ∷ y ∷ ys))
            (sym (release-due s x y ys (rw (still s.reads) b)))
            (round-Expired time s x (y ∷ ys) _ e (release-Expired (round s x (y ∷ ys)) y ys b))
      | inr b ↦
          subst (Expired env time s (x ∷ y ∷ ys))
            (sym (release-stop s x y ys (rw (still s.reads) b)))
            (round-Expired time s x (y ∷ ys) _ e
              (rw (still s.reads) (stop-Expired time s x y ys b)))
    ]

    idle-Expired :
        (s : Pool) (x : ℕ) (xs : List ℕ)
        → s.scheduled ≡ x ∷ xs
        → is_due (s.tasks x).ticks time ≡ false
        → Expired env time s
            (x ∷ xs)
            (record (tick env s) { timer = some (ticks_diff (s.tasks x).ticks time) })
    unfolding due waiting of_queue alarm
    idle-Expired s x xs e b = record {
      readied = λ q. rw b (sym (append-nil _));
      kept = rw b e;
      armed = rw b refl;
    }

    none-Expired : (s : Pool) → s.scheduled ≡ [] → Expired env time s [] s
    unfolding due waiting of_queue alarm
    none-Expired s e = record { readied = λ q. sym (append-nil _); kept = e; armed = refl }

    early :
        (s : Pool) (xs : List ℕ) (r : Pool)
        → Expired env time (tick env s) xs r
        → Expired env time s xs r
    unfolding alarm
    early s xs r w = record { readied = w.readied; kept = w.kept; armed = w.armed }

    task_event_at-Expired :
        (s : Pool) (xs : List ℕ) → s.scheduled ≡ xs → Expired env time s xs (task_event_at env s xs)
    unfolding task_event_at
    task_event_at-Expired s [] e = none-Expired s e
    task_event_at-Expired s (x ∷ xs) e = elim (Bool-cases (is_due (s.tasks x).ticks time)) [
      | inl b ↦ rw (still s.reads, b) (early s (x ∷ xs) _ (release-Expired (tick env s) x xs b))
      | inr b ↦ rw (still s.reads, b) (idle-Expired s x xs e b)
    ]

    -- While the tick counter stands still at `time`, `svc_tasks_task_event` moves the due tasks at
    -- the front of the scheduled list behind those of their ready queues, in their order, leaves
    -- the rest, and sets the timer to what is left for the first of the rest.
    pub task_event-Expired : (s : Pool) → Expired env time s s.scheduled (task_event env s)
    unfolding task_event
    task_event-Expired s = task_event_at-Expired s s.scheduled refl
