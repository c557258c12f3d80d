-- ===== src/Threads/Tests.antt =====
-- A registry with a running thread and two ended ones, and the theorems about it there.
use qoraal.Base.{◌+◌, ◌≡◌, some, [], ◌∷◌, ◌==◌, if◌then◌else◌, refl, pos, arith}
use qoraal.Threads.{Threads, Os, reap}
use qoraal.Threads.Registry.{IsRegistry}
use qoraal.Threads.Reap.{Reaped, reap-Reaped}

-- Each thread's handle is its address and 100.
abbrev threads : Threads
threads = record {
  threads = λ t. record { thread = t + 100; complete = if t == 2 then 50 else 0; arg = t; pf = 7 };
  list = 1 ∷ [];
  count = 1;
  complete = 2 ∷ 3 ∷ [];
  joined = [];
  completed = [];
}

abbrev os : Os
os = record { create = λ t n p s. (pos 0, t + 100); call = λ c t a s. s }

threads-IsRegistry : IsRegistry threads
threads-IsRegistry = record {
  running_distinct = ground arith;
  ended_distinct = ground arith;
  apart = λ u m. ground arith;
  counted = refl;
}

reap-Reaped_example : (s' : Threads) × (reap os 3 threads ≡ some s') × Reaped os threads s'
reap-Reaped_example = reap-Reaped os threads 3 (λ c t a s. refl) (omega arith)
