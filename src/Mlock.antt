-- ===== src/Mlock.antt =====
-- src/os_mlock.c: a recursive mutex that raises the priority of its owner. The calls are divided into
-- the sections that run under `os_sys_lock` and the calls of the semaphore, each of which is a step; a
-- thread, which is not 0, is `passing` between its wait for the semaphore and its entry as the owner,
-- and `leaving` between the end of its ownership and its signal. The lock's creation and deletion on
-- the heap are left out.
pub mod Exclusion
mod Tests
use qoraal.Base.{
  ℕ, ◌+◌, ◌-◌, ◌%◌, Bool, true, false, List, [], ◌∷◌, ltb, ◌==◌, if◌then◌else◌, erase,
}
use qoraal.Tasks.{word, update}

-- `MLock`
pub record Lock : Type 0 where
  pub s : ℕ
  pub owner : ℕ
  pub prio : ℕ
  pub cnt : ℕ

-- A thread: its priority, and its words `_mlock_tls_prio` and `_mlock_tls_cnt`
pub record Thread : Type 0 where
  pub prio : ℕ
  pub tls_prio : ℕ
  pub tls_cnt : ℕ

pub record System : Type 0 where
  pub lock : Lock
  pub thread : ℕ → Thread
  pub passing : List ℕ
  pub leaving : List ℕ

-- `os_mlock_init`, for a lock that nobody uses
unfoldable pub init : (thread : ℕ → Thread) → (prio : ℕ) → System
init thread prio = record {
  lock = record { s = 1; owner = 0; prio = prio; cnt = 0 };
  thread = thread;
  passing = [];
  leaving = [];
}

-- `if (mp->owner == THD_CURRENT()) { mp->cnt++; … }` of `os_mlock_lock` and `os_mlock_trylock`, and
-- whether the call is done
unfoldable pub again : System → (t : ℕ) → System × Bool
again s t =
    if s.lock.owner == t
    then (record s { lock = record s.lock { cnt = (s.lock.cnt + 1) % word } }, true)
    else (s, false)

-- A thread's first lock raises its priority to that of the lock.
unfoldable pub raised : (prio : ℕ) → Thread → Thread
raised prio d =
    if d.tls_prio == 0
    then record d { tls_prio = d.prio; prio = if ltb d.prio prio then prio else d.prio }
    else d

unfoldable pub raise : System → (t : ℕ) → System
raise s t = record s { thread = update s.thread t (raised s.lock.prio (s.thread t)) }

-- The wait for the semaphore that succeeds
unfoldable pub wait : System → (t : ℕ) → System
wait s t = record s { lock = record s.lock { s = s.lock.s - 1 }; passing = t ∷ s.passing }

-- The thread becomes the owner.
unfoldable pub own : System → (t : ℕ) → System
own s t = record s {
  lock = record s.lock { owner = t; cnt = 1 };
  thread = update s.thread t (record (s.thread t) { tls_cnt = ((s.thread t).tls_cnt + 1) % word });
  passing = erase t s.passing;
}

-- The thread's last lock gives it its priority back.
unfoldable pub restored : Thread → Thread
restored d =
    let cnt = (d.tls_cnt + word - 1) % word in
    if cnt == 0 then record d { tls_cnt = cnt; prio = d.tls_prio } else record d { tls_cnt = cnt }

-- `os_mlock_unlock`, up to the signal of the semaphore
unfoldable pub unlock : System → (t : ℕ) → System
unlock s t =
    let cnt = (s.lock.cnt + word - 1) % word in
    if cnt == 0
    then record s {
      lock = record s.lock { owner = 0; cnt = cnt };
      thread = update s.thread t (restored (s.thread t));
      leaving = t ∷ s.leaving;
    }
    else record s { lock = record s.lock { cnt = cnt } }

-- The signal of the semaphore
unfoldable pub signal : System → (t : ℕ) → System
signal s t = record s { lock = record s.lock { s = s.lock.s + 1 }; leaving = erase t s.leaving }
