-- ===== src/Mlock/Tests.antt =====
-- A lock of priority 9 and two threads of priority 3.
use qoraal.Base.{ℕ, ◌≡◌, refl, List, [], ◌∷◌, arith}
use qoraal.Mlock.{Thread, System, init, again, raised, raise, wait, own, restored, unlock, signal}
use qoraal.Mlock.Exclusion.{inits, locks, raises, waits, owns, unlocks, signals, Reach-Excludes}

abbrev threads : ℕ → Thread
threads t = record { prio = 3; tls_prio = 0; tls_cnt = 0 }

-- Thread 1 locks twice and unlocks twice; then thread 2 is past the semaphore.
abbrev first : System
first = unlock (unlock (again (own (wait (raise (init threads 9) 1) 1) 1) 1).0 1) 1

abbrev second : System
second = wait (raise (signal first 1) 2) 2

-- The first lock of thread 1 raised its priority, and the unlock set it back; a second lock does not
-- raise it.
priorities :
    (((own (wait (raise (init threads 9) 1) 1) 1).thread 1).prio ≡ 9)
    × ((first.thread 1).prio ≡ 3)
    × (((raise first 1).thread 1).prio ≡ 3)
unfolding init again raised raise wait own restored unlock
priorities = (refl, refl, refl)

Reach-Excludes_example :
    (second.lock.owner ≡ 0)
    × (second.passing ≡ 2 ∷ [])
    × ◌≡◌ {A = List ℕ} second.leaving []
    × (second.lock.s ≡ 0)
unfolding init again raise wait own unlock signal
Reach-Excludes_example =
    Reach-Excludes second 2
      (waits _ 2 (omega arith) (omega arith) (
        raises _ 2 (
          signals _ 1 refl (
            unlocks _ 1 (omega arith) refl (
              unlocks _ 1 (omega arith) refl (
                locks _ 1 (omega arith) (omega arith) (
                  owns _ 1 (omega arith) refl
                    (waits _ 1 (omega arith) (omega arith) (raises _ 1 (inits threads 9))))))))))
      refl
