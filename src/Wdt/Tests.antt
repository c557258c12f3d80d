-- ===== src/Wdt/Tests.antt =====
-- The watchdog with two handlers, and the theorems about it there.
use qoraal.Base.{
  ℕ, ◌≡◌, ◌↔◌, true, false, none, some, List, [], ◌∷◌, ◌==◌, if◌then◌else◌, refl, arith,
}
use qoraal.Tasks.{Pool, Env, reason_run}
use qoraal.Wdt.{process, handler_kick, activate, register, before}
use qoraal.Wdt.Age.{starved}
use qoraal.Wdt.History.{
  Op, joins, starts, kicks, checks, blank, empty, run, notes, note, Tells, run-Tells, blank-Tells,
  process-OnTime,
}
use qoraal.Wdt.Callback.{Wdt, Platform, task_cb}
use qoraal.Wdt.Callback.OnTime.{noted, task_cb-OnTime}

abbrev bare : Pool
bare = record {
  tasks =
      λ t. record { callback = 0; status = 0; prio = 0; flags = 0; user = 0; parm = 0; ticks = 0 };
  scheduled = [];
  list_count = 0;
  ready = λ q. [];
  ready_count = 0;
  pool_count = 3;
  threads = λ q. true;
  active_task = λ q. none;
  active_timer = λ q. 0;
  timer = none;
  complete_event = λ q. true;
  notified = λ q. false;
  waited = λ t. false;
  reads = 0;
}

abbrev env : Env
env = record { ticks = λ n. 1000; call = λ c t p r s. s }

abbrev platform : Platform
platform = record { wdt_kick = λ n. 20; frequency = 100; task = 9; task_cb = 4 }

-- Handler 1 belongs to the ten second group, handler 2 to the next.
abbrev group : ℕ → ℕ
group u = if u == 1 then 0 else 1

-- Both are active; the first is kicked between two checks of its group.
abbrev history : List Op
history =
    joins 7 1
    ∷ joins 8 2
    ∷ starts 7 1
    ∷ starts 8 2
    ∷ checks 0
    ∷ checks 0
    ∷ kicks 1
    ∷ checks 0
    ∷ checks 1
    ∷ checks 1
    ∷ []

-- The second handler is never kicked.
abbrev silent : List Op
silent = joins 8 2 ∷ starts 8 2 ∷ checks 1 ∷ checks 1 ∷ []

abbrev wdt : Wdt
wdt = record {
  registry = run group blank silent;
  interval = 20;
  counter = 0;
  kick10 = true;
  kick30 = true;
  kick60 = true;
  pool = bare;
  kicks = 0;
}

-- The second handler has missed two passes, the first has not.
passes :
    ((process (run group blank history) 0).1 ≡ true)
    × ((process (run group blank history) 1).1 ≡ false)
unfolding process run handler_kick activate register
passes = (refl, refl)

-- Handler 3 is registered again: handler 2, which stands behind it, is lost.
rejoined : (run group blank (joins 8 2 ∷ joins 9 3 ∷ joins 9 3 ∷ [])).stacks 1 ≡ 3 ∷ []
unfolding run register before
rejoined = refl

process-OnTime_example : ((process (run group blank history) 1).1 ≡ true) ↔ (
    (u : ℕ)
    → (notes group empty history).member u ≡ true
    → group u ≡ 1
    → starved ((notes group empty history).age u) ≡ false)
process-OnTime_example =
    process-OnTime group history 1
      (refl, (refl, (tt, (tt, (tt, (tt, (tt, (tt, (tt, (tt, tt))))))))))

-- The hardware is not kicked, for the second handler's sake.
task_cb-OnTime_example :
    (s' : Wdt) × (task_cb env platform wdt reason_run ≡ some s')
    × Tells group
        (noted group
          (noted group (note group (notes group empty silent) (checks 0)) true 1)
          false
          2)
        s'.registry
    × (s'.kicks ≡ 0)
unfolding run process activate register
task_cb-OnTime_example =
    task_cb-OnTime group env platform (notes group empty silent) wdt
      (run-Tells group empty blank silent (refl, (tt, (tt, (tt, tt)))) (blank-Tells group))
      (omega arith) (omega arith)
