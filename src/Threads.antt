-- ===== src/Threads.antt =====
-- src/svc/svc_threads.c and include/qoraal/svc/svc_threads.h: the registry of threads, and what runs
-- when one has ended. A thread is named by the address of its SVC_THREADS_T; the two lists are those
-- of their members, which `Lists.Linked` implements as long as no thread stands in them twice. The OS
-- port is the parameter `Os`. The messages and the semaphore that wakes the idle thread are left out.
pub mod Registry
pub mod Reap
mod Tests
use qoraal.Base.{
  ℕ, zero, suc, ◌+◌, ◌-◌, ◌%◌, Bool, true, false, not, Option, none, some, List, [], ◌∷◌, ◌++◌,
  ◌==◌, if◌then◌else◌, erase, ℤ, pos, negsuc, ◌==ℤ◌,
}
use qoraal.Tasks.{word, update}

-- `SVC_THREADS_T`; `pf`, `complete` and `arg` by their addresses, 0 for none
pub record Thread : Type 0 where
  pub thread : ℕ
  pub complete : ℕ
  pub arg : ℕ
  pub pf : ℕ

-- The module's variables. `joined` and `completed` are the calls of `os_thread_join` and of the
-- `complete` callbacks, latest first.
pub record Threads : Type 0 where
  pub threads : ℕ → Thread
  pub list : List ℕ
  pub count : ℕ
  pub complete : List ℕ
  pub joined : List ℕ
  pub completed : List (ℕ × ℕ × ℕ)

-- `EOK` and `E_SRCH`
abbrev pub eok : ℤ
eok = pos 0

abbrev pub e_srch : ℤ
e_srch = negsuc 2308

-- `os_thread_create` for a SVC_THREADS_T: its result and the handle that it stores, and what a
-- `complete` callback does, which includes what other threads do meanwhile.
pub record Os : Type 0 where
  pub create : (thread stack_size prio : ℕ) → Threads → ℤ × ℕ
  pub call : (complete thread arg : ℕ) → Threads → Threads

unfoldable pub set_thread : Threads → ℕ → Thread → Threads
set_thread s t d = record s { threads = update s.threads t d }

-- `svc_threads_init`
unfoldable pub init : Threads → Threads
init s = record s { list = []; complete = [] }

-- The search of `svc_threads_terminate` for the thread that runs.
unfoldable pub find_current : (ℕ → Thread) → (current : ℕ) → List ℕ → Option ℕ
find_current threads current [] = none
find_current threads current (t ∷ ts) =
    if current == (threads t).thread then some t else find_current threads current ts

unfoldable pub retire : Threads → Option ℕ → Threads
retire s none = s
retire s (some t) = record s {
  count = (s.count + word - 1) % word;
  list = erase t s.list;
  complete = t ∷ s.complete;
}

-- `svc_threads_terminate`, on the thread `current`
unfoldable pub terminate : Threads → (current : ℕ) → Threads
unfolding find_current retire
terminate s current = retire s (find_current s.threads current s.list)

-- `svc_threads_is_active`
unfoldable pub is_active : Threads → ℕ → Bool
is_active s t = not ((s.threads t).pf == 0)

module _ (os : Os) where
  -- `svc_threads_create`
  unfoldable pub create : Threads → (thread complete stack_size prio pf arg : ℕ) → Threads × ℤ
  unfolding set_thread
  create s t complete stack_size prio pf arg =
      let s1 = set_thread s t (record (s.threads t) { arg = arg; complete = complete; pf = pf }) in
      let (res, handle) = os.create t stack_size prio s1 in
      if res ==ℤ eok
      then (
        record (set_thread s1 t (record (s1.threads t) { thread = handle })) {
          count = (s.count + 1) % word;
          list = s.list ++ (t ∷ []);
        },
        res,
      )
      else (set_thread s1 t (record (s1.threads t) { pf = 0 }), res)

  -- A thread that has ended is taken off, joined and told of.
  unfoldable pub bury : Threads → ℕ → List ℕ → Threads
  unfolding set_thread
  bury s t ts =
      let d = s.threads t in
      let s1 = record (set_thread s t (record d { pf = 0 })) {
        complete = ts;
        joined = d.thread ∷ s.joined;
      } in
      if not (d.complete == 0)
      then os.call d.complete t d.arg
          (record s1 { completed = (d.complete, t, d.arg) ∷ s1.completed })
      else s1

  unfoldable pub complete_at : Threads → List ℕ → Threads × ℤ
  unfolding bury
  complete_at s [] = (s, e_srch)
  complete_at s (t ∷ ts) = (bury s t ts, eok)

  -- `svc_threads_complete_check`
  unfoldable pub complete_check : Threads → Threads × ℤ
  unfolding complete_at
  complete_check s = complete_at s s.complete

  -- The loop of `svc_threads_count`, on fuel.
  unfoldable pub reap : ℕ → Threads → Option Threads
  reap zero s = none
  reap (suc f) s =
      let (s', res) = complete_check s in elim (res ==ℤ eok) [ true ↦ reap f s' | false ↦ some s' ]
