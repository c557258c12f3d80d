-- ===== src/Tasks/Invariant.antt =====
-- The well-formedness of the task pool: a task is linked, once, exactly while its status is queued.
use native.Mathlib.Decide.{ℕ_discrete}
use qoraal.Base.{
  zero, suc, refl, ◌≤◌, ℕ, ◌+◌, ◌%◌, ◌≡◌, ◌<◌, Bool, true, false, ◌||◌, ◌==◌, List, length, has,
  Distinct, arith,
}
use qoraal.Tasks.{Pool, word, update, Task, status_of, queue_of}

-- `t` is linked in the scheduled list or in the ready queue of its priority.
abbrev pub listed : Pool → ℕ → Bool
listed s t = has t s.scheduled || has t (s.ready (queue_of s (s.tasks t)))

-- how many tasks the first `n` ready queues hold
unfoldable pub total : (ℕ → List ℕ) → ℕ → ℕ
total f zero = 0
total f (suc n) = total f n + length (f n)

total-update_above :
    (f : ℕ → List ℕ) (q : ℕ) (xs : List ℕ) (n : ℕ) → n ≤ q → total (update f q xs) n ≡ total f n
unfolding total
total-update_above f q xs zero h = refl
total-update_above f q xs (suc n) h = ground (arith, total-update_above f q xs n (omega arith))

pub total-update :
    (f : ℕ → List ℕ) (q : ℕ) (xs : List ℕ) (n : ℕ)
    → q < n
    → total (update f q xs) n + length (f q) ≡ total f n + length xs
unfolding total
total-update f q xs zero h = absurd (omega arith)
total-update f q xs (suc n) h = elim (ℕ_discrete n q) [
  | yes e ↦ ground (arith, e, total-update_above f q xs n (omega arith))
  | no ne ↦ ground (arith, ne, total-update f q xs n (omega arith))
]

-- A task is linked, once, exactly while its status is queued: in the scheduled list, or in the
-- ready queue of its priority. The counters agree with the lists. Only the tasks of `out` are in no
-- list whatever their status is: an operation has them in its hands.
pub record IsValidExcept (out : ℕ → Bool) (s : Pool) : Type 0 where
  pub pool : 0 < s.pool_count
  pub free_scheduled : (u : ℕ) → out u ≡ true → has u s.scheduled ≡ false
  pub free_ready : (u q : ℕ) → out u ≡ true → has u (s.ready q) ≡ false
  pub linked : (u : ℕ) → out u ≡ false → status_of (s.tasks u) ≡ 1 → listed s u ≡ true
  pub scheduled_queued : (u : ℕ) → has u s.scheduled ≡ true → status_of (s.tasks u) ≡ 1
  pub ready_queued :
      (u q : ℕ)
      → has u (s.ready q) ≡ true
      → (status_of (s.tasks u) ≡ 1) × (q ≡ queue_of s (s.tasks u))
  pub apart : (u q : ℕ) → has u s.scheduled ≡ true → has u (s.ready q) ≡ false
  pub scheduled_distinct : Distinct s.scheduled
  pub ready_distinct : (q : ℕ) → Distinct (s.ready q)
  pub list_counted : s.list_count ≡ length s.scheduled % word
  pub ready_counted : s.ready_count ≡ total s.ready s.pool_count % word

-- no task
abbrev pub nobody : ℕ → Bool
nobody u = false

-- `t`, and the tasks of `out`
abbrev pub also : ℕ → (ℕ → Bool) → ℕ → Bool
also t out u = (u == t) || out u

-- Between operations no task is in anybody's hands.
abbrev pub IsValid : Pool → Type 0
IsValid s = IsValidExcept nobody s

pub queue_of-lt : (s : Pool) (d : Task) → 0 < s.pool_count → queue_of s d < s.pool_count
queue_of-lt s d h = ground arith
